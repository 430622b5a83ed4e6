-- ===== src/Elf/Register/Covers.antt =====
-- What is registered.
use mathlib.Core.Bool.{true≢false}
use mathlib.Core.Option.{none-ne-some}
use ub2lb.Prelude.{
  ℕ, zero, suc, ◌+◌, ◌%◌, ◌^◌, ◌≤◌, ◌<◌, ◌≡◌, ◌≢◌, ◌⊎◌, ◌∙◌, refl, sym, ap, arith, true, false,
  Bool-cases, Option-cases, inl, inr, Option, none, some, List, [], ◌∷◌, ◌++◌, append_assoc,
  append-nil, All, length, get_elem?, ◌==◌,
}
use ub2lb.Elf.{Sheader}
use ub2lb.Elf.Relocate.{Symbol}
use ub2lb.Elf.Register.{
  is_code, ranges, SymbolInfo, symbol_info, register_symbols, ModuleInfo, symbols_in, symbol_table,
  string_table, register_module,
}
use ub2lb.Elf.Register.Range.{
  is_code-IsCode, IsCode-is_code, ranges-Within, ranges-Lowest, ranges-Highest, IsCode, virtual,
  Within, Lowest, Highest,
}

get_elem?-none : (shs : List Sheader) (i : ℕ) → get_elem? shs i ≡ none → length shs ≤ i
get_elem?-none [] i e = omega arith
get_elem?-none (sh ∷ shs) zero e = absurd (none-ne-some sh (sym e))
get_elem?-none (sh ∷ shs) (suc i) e = let rest = get_elem?-none shs i e in omega (arith, rest)

-- The symbols name sections that there are.
abbrev pub Indexed : List Sheader → List (Symbol × ℕ) → Type 0
Indexed shs syms = All (λ s. (s.0).shindex < length shs) syms

-- What is noted of a symbol in the section `sh`.
abbrev pub Describes : Sheader → Symbol → ℕ → SymbolInfo → Type 0
Describes sh symbol size info =
    (info.s_name ≡ symbol.name)
    × (info.s_lowest ≡ virtual (sh.addr + symbol.value))
    × (info.s_highest ≡ (info.s_lowest + size) % 2 ^ 32)

-- The symbols that are noted of a table: those in code sections, the last one first.
pub data Registers (shs : List Sheader) : List (Symbol × ℕ) → List SymbolInfo → Type 0 where
  no_symbol : Registers shs [] []
  passes :
      {symbol : Symbol} {size : ℕ} {rest : List (Symbol × ℕ)} {infos : List SymbolInfo}
      (sh : Sheader)
      → get_elem? shs symbol.shindex ≡ some sh
      → ¬ IsCode sh
      → Registers shs rest infos
      → Registers shs ((symbol, size) ∷ rest) infos
  notes :
      {symbol : Symbol} {size : ℕ} {rest : List (Symbol × ℕ)} {infos : List SymbolInfo}
      (sh : Sheader) (info : SymbolInfo)
      → get_elem? shs symbol.shindex ≡ some sh
      → IsCode sh
      → Describes sh symbol size info
      → Registers shs rest infos
      → Registers shs ((symbol, size) ∷ rest) (infos ++ info ∷ [])

symbol_info-Describes :
    (sh : Sheader) (symbol : Symbol) (size : ℕ)
    → Describes sh symbol size (symbol_info sh symbol size)
symbol_info-Describes sh symbol size = (refl, omega arith, refl)

pub register_symbols-Registers :
    (shs : List Sheader) (syms : List (Symbol × ℕ)) (acc : List SymbolInfo)
    → Indexed shs syms
    → (infos : List SymbolInfo) × (register_symbols shs syms acc ≡ some (infos ++ acc))
      × Registers shs syms infos
unfolding register_symbols
register_symbols-Registers shs [] acc h = ([], refl, no_symbol)
register_symbols-Registers shs ((symbol, size) ∷ rest) acc h =
    elim (Option-cases (get_elem? shs symbol.shindex)) [
      | inl e ↦ absurd (let long = get_elem?-none shs symbol.shindex e in omega (arith, h.0, long))
      | inr (sh, e) ↦ elim (Bool-cases (is_code sh)) [
        | inl c ↦
            let info = symbol_info sh symbol size in
            let (infos, runs, r) = register_symbols-Registers shs rest (info ∷ acc) (h.1) in
            (
              infos ++ info ∷ [],
              rw (e, c, register_symbols)
                  (runs ∙ ap some (sym (append_assoc infos (info ∷ []) acc))),
              notes sh info e (is_code-IsCode sh c) (symbol_info-Describes sh symbol size) r,
            )
        | inr c ↦
            let (infos, runs, r) = register_symbols-Registers shs rest acc (h.1) in
            (
              infos,
              rw (e, c, register_symbols) runs,
              passes sh e (λ is. true≢false (sym (IsCode-is_code sh is) ∙ c)) r,
            )
      ]
    ]

-- The first table of symbols, type 2, that has an address.
pub data FirstTable : List Sheader → Option Sheader → Type 0 where
  no_table : FirstTable [] none
  table_here :
      {sh : Sheader} {shs : List Sheader}
      → sh.type_of ≡ 2
      → sh.addr ≢ 0
      → FirstTable (sh ∷ shs) (some sh)
  table_behind :
      {sh : Sheader} {shs : List Sheader} {table : Option Sheader}
      → (sh.type_of ≢ 2) ⊎ (sh.addr ≡ 0)
      → FirstTable shs table
      → FirstTable (sh ∷ shs) table

symbol_table-FirstTable :
    (shs : List Sheader) (table : Option Sheader) → FirstTable shs table → symbol_table shs ≡ table
unfolding symbol_table
symbol_table-FirstTable _ _ no_table = refl
symbol_table-FirstTable _ _ (table_here {sh} {shs} t a) =
    let given : (sh.addr == 0) ≡ false = ground arith in
    let fits : (sh.type_of == 2) ≡ true = ground arith in rw (given, fits, symbol_table) refl
symbol_table-FirstTable _ table (table_behind {sh} {shs} (inl t) f) =
    let other : (sh.type_of == 2) ≡ false = ground arith in
    elim (Bool-cases (sh.addr == 0)) [
      | inl e ↦ rw (e, symbol_table) (symbol_table-FirstTable shs table f)
      | inr e ↦ rw (e, other, symbol_table) (symbol_table-FirstTable shs table f)
    ]
symbol_table-FirstTable _ table (table_behind {sh} {shs} (inr a) f) =
    let none_given : (sh.addr == 0) ≡ true = ground arith in
    rw (none_given, symbol_table) (symbol_table-FirstTable shs table f)

-- Let the symbols of the first symbol table with an address name sections that there are. Then a
-- module is registered: its range has each code section that does not wrap round; each bound of it
-- is as at first, 0xffffffff and 0, or that of a code section; and its symbols are those of the
-- table that lie in a code section, the last one first, each with its virtual address and its end.
pub register_module-Covers :
    (table : Sheader → List (Symbol × ℕ)) (shs : List Sheader) (shstrndx : ℕ) (o : Option Sheader)
    → FirstTable shs o
    → Indexed shs (symbols_in table o)
    → (m : ModuleInfo) × (register_module table shs shstrndx ≡ some m)
      × All (Within (m.m_lowest, m.m_highest)) shs
      × ((m.m_lowest ≡ 0xffff_ffff) ⊎ Lowest m.m_lowest shs)
      × ((m.m_highest ≡ 0) ⊎ Highest m.m_highest shs)
      × Registers shs (symbols_in table o) m.m_symbols
unfolding register_module
register_module-Covers table shs shstrndx o first h =
    let syms = symbols_in table o in
    let (infos, runs, r) = register_symbols-Registers shs syms [] h in
    let e = runs ∙ ap some (append-nil infos) in
    let m : ModuleInfo = record {
      m_str = string_table shs shstrndx 0;
      m_lowest = (ranges shs (0xffff_ffff, 0)).0;
      m_highest = (ranges shs (0xffff_ffff, 0)).1;
      m_symbols = infos;
    } in
    (
      m,
      rw (symbol_table-FirstTable shs o first, e, register_module) refl,
      ranges-Within shs 0xffff_ffff 0,
      ranges-Lowest shs 0xffff_ffff 0,
      ranges-Highest shs 0xffff_ffff 0,
      r,
    )

-- That a module is registered, for the table that the code takes.
pub register_module-some :
    (table : Sheader → List (Symbol × ℕ)) (shs : List Sheader) (shstrndx : ℕ)
    → Indexed shs (symbols_in table (symbol_table shs))
    → (m : ModuleInfo) × (register_module table shs shstrndx ≡ some m)
unfolding register_module
register_module-some table shs shstrndx h =
    let (infos, runs, r) =
      register_symbols-Registers shs (symbols_in table (symbol_table shs)) [] h in
    let m : ModuleInfo = record {
      m_str = string_table shs shstrndx 0;
      m_lowest = (ranges shs (0xffff_ffff, 0)).0;
      m_highest = (ranges shs (0xffff_ffff, 0)).1;
      m_symbols = infos;
    } in
    (m, rw (runs, append-nil infos, register_module) refl)
