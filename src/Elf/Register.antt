-- ===== src/Elf/Register.antt =====
-- The end of `load_elf_file` in src/elf.c: the module and the symbols that it registers for debugging, where `malloc`
-- finds memory.
pub mod Covers
pub mod Range
use Prim.Native.Nat.{bit_and}
use ub2lb.Prelude.{
  ℕ, zero, suc, ◌+◌, ◌-◌, Bool, not, ◌&&◌, Option, none, some, List, [], ◌∷◌, ltb, ◌==◌,
  if◌then◌else◌, get_elem?,
}
use ub2lb.Support.{word}
use ub2lb.Elf.{Sheader, sht_strtab, sht_symtab, kernel_phys_base, kernel_virt_base}
use ub2lb.Elf.Relocate.{Symbol}

-- `(flags & (SHF_ALLOC | SHF_EXECINSTR)) == (SHF_ALLOC | SHF_EXECINSTR)`, with an address
abbrev pub is_code : Sheader → Bool
is_code sh = bit_and sh.flags 6 == 6 && not (sh.addr == 0)

abbrev pub virt_of : Sheader → ℕ
virt_of sh = word (sh.addr + kernel_virt_base - kernel_phys_base)

-- One round of the first loop: `m_lowest` and `m_highest`.
unfoldable pub add_range : ℕ × ℕ → Sheader → ℕ × ℕ
add_range (lowest, highest) sh =
    let end = word (virt_of sh + sh.size) in
    if is_code sh
    then (
      if ltb (virt_of sh) lowest then virt_of sh else lowest,
      if ltb highest end then end else highest,
    )
    else (lowest, highest)

unfoldable pub ranges : List Sheader → ℕ × ℕ → ℕ × ℕ
unfolding add_range
ranges [] range = range
ranges (sh ∷ shs) range = ranges shs (add_range range sh)

-- The string table that is copied to `m_str`: the first one that does not hold the names of the sections.
unfoldable pub string_table : List Sheader → ℕ → ℕ → Option Sheader
string_table [] shstrndx i = none
string_table (sh ∷ shs) shstrndx i =
    let further = string_table shs shstrndx (i + 1) in
    if sh.type_of == sht_strtab && not (i == shstrndx) then some sh else further

-- The table of symbols: the first one with an address.
unfoldable pub symbol_table : List Sheader → Option Sheader
symbol_table [] = none
symbol_table (sh ∷ shs) =
    let further = symbol_table shs in
    if not (sh.addr == 0) && sh.type_of == sht_symtab then some sh else further

-- `symbol_t`: `s_name` as an offset in `m_str`.
pub record SymbolInfo : Type 0 where
  pub s_name : ℕ
  pub s_lowest : ℕ
  pub s_highest : ℕ

abbrev pub symbol_info : Sheader → Symbol → ℕ → SymbolInfo
symbol_info sh symbol size =
    let lowest = word (sh.addr + symbol.value + kernel_virt_base - kernel_phys_base) in
    record { s_name = symbol.name; s_lowest = lowest; s_highest = word (lowest + size) }

-- The loop over the symbols, each with its size; `add_head` puts each in front of `m_symbols`. `none` where a
-- header behind the last one is read.
unfoldable pub register_symbols :
    List Sheader → List (Symbol × ℕ) → List SymbolInfo → Option (List SymbolInfo)
register_symbols shs [] m_symbols = some m_symbols
register_symbols shs ((symbol, size) ∷ rest) m_symbols = elim (get_elem? shs symbol.shindex) [
  | none ↦ none
  | some sh ↦
      let skipped = register_symbols shs rest m_symbols in
      let added = register_symbols shs rest (symbol_info sh symbol size ∷ m_symbols) in
      if is_code sh then added else skipped
]

-- `module_t`, less its name.
pub record ModuleInfo : Type 0 where
  pub m_str : Option Sheader
  pub m_lowest : ℕ
  pub m_highest : ℕ
  pub m_symbols : List SymbolInfo

abbrev pub symbols_in : (Sheader → List (Symbol × ℕ)) → Option Sheader → List (Symbol × ℕ)
symbols_in table none = []
symbols_in table (some sh) = table sh

-- `table` reads the symbols of a table from the file.
unfoldable pub register_module :
    (Sheader → List (Symbol × ℕ)) → List Sheader → ℕ → Option ModuleInfo
unfolding ranges string_table symbol_table register_symbols
register_module table shs shstrndx =
    elim (register_symbols shs (symbols_in table (symbol_table shs)) []) [
      | none ↦ none
      | some m_symbols ↦
          let (lowest, highest) = ranges shs (0xffff_ffff, 0) in
          some (record {
            m_str = string_table shs shstrndx 0;
            m_lowest = lowest;
            m_highest = highest;
            m_symbols = m_symbols;
          })
    ]
