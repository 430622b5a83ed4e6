-- ===== src/Elf/Relocate/Loop.antt =====
-- The loop of `relocate` on fields that do not overlap.
use ub2lb.Prelude.{
  ℕ, ◌+◌, ◌≤◌, ◌≡◌, ◌≢◌, ◌⊎◌, ◌∙◌, refl, ap, sym, arith, ◌==◌, Bool-cases, inl, inr, Option, none,
  some, List, [], ◌∷◌, All, Bytes, get_elem?, true, false,
}
use ub2lb.Support.{word}
use ub2lb.Elf.{Memory, Sheader, within}
use ub2lb.Elf.Relocate.{
  Symbol, Relo, Target, found, relocated, r_sym, r_type, resolve, resolve_abs, apply, relocate_loop,
  relocate, shn_undef, shn_common, shn_abs,
}
use ub2lb.Elf.Relocate.Apply.{Known, applies, width}

module _ (shs : List Sheader) (symtab : ℕ → Symbol) (names : ℕ → Bytes) (section virt : ℕ) where
  abbrev field : Relo → ℕ
  field rel = word (section + rel.offset)

  -- Symbol and type are ones that `relocate` handles, and a section that the symbol names is there.
  pub record Handled (rel : Relo) : Type 0 where
    pub known : Known (r_type rel.info)
    pub is_defined : (symtab (r_sym rel.info)).shindex ≢ shn_undef
    pub is_own : (symtab (r_sym rel.info)).shindex ≢ shn_common
    pub place :
        ((symtab (r_sym rel.info)).shindex ≡ shn_abs)
        ⊎ ((sh : Sheader) × (get_elem? shs ((symtab (r_sym rel.info)).shindex) ≡ some sh))

  -- The fields share no byte.
  abbrev pub Apart : Relo → Relo → Type 0
  Apart a b =
      (field a + width (r_type a.info) ≤ field b) ⊎ (field b + width (r_type b.info) ≤ field a)

  abbrev pub Separate : List Relo → Type 0
  Separate [] = Unit
  Separate (rel ∷ rels) = All (Apart rel) rels × Separate rels

  -- Each field of `mem'` holds what `apply` makes of `mem` there, for the symbol's target when the
  -- loop reaches it; `sysbase_sym` is what is known of "SysBase" in front of the list.
  pub data Applied (mem mem' : Memory) : List Relo → Option ℕ → Type 0 where
    end : {sysbase_sym : Option ℕ} → Applied mem mem' [] sysbase_sym
    next :
        {rel : Relo} {rels : List Relo} {sysbase_sym : Option ℕ} (t : Target)
        → resolve shs names (r_sym rel.info) (symtab (r_sym rel.info)) virt sysbase_sym ≡ found t
        → (made : Memory) → apply (r_type rel.info) (field rel) rel.addend t mem ≡ some made
        → ((x : ℕ) → within (field rel) (width (r_type rel.info)) x ≡ true → mem' x ≡ made x)
        → Applied mem mem' rels t.sysbase_sym
        → Applied mem mem' (rel ∷ rels) sysbase_sym

  resolves :
      (rel : Relo) (base : Option ℕ)
      → Handled rel
      → (t : Target) × (resolve shs names (r_sym rel.info) (symtab (r_sym rel.info)) virt base
          ≡ found t)
  unfolding resolve
  resolves rel base h =
      let i = (symtab (r_sym rel.info)).shindex in
      let u : (i == shn_undef) ≡ false = ground (arith, h.is_defined) in
      let c : (i == shn_common) ≡ false = ground (arith, h.is_own) in
      let symbol = symtab (r_sym rel.info) in
      elim (h.place) [
        | inl e ↦
            let a : (i == shn_abs) ≡ true = ground arith in
            (resolve_abs names (r_sym rel.info) symbol virt base, rw (u, c, a) refl)
        | inr (sh, e) ↦ elim (Bool-cases (i == shn_abs)) [
          | inl a ↦ (resolve_abs names (r_sym rel.info) symbol virt base, rw (u, c, a) refl)
          | inr a ↦ (
            record { s = word (sh.addr + symbol.value); virtoffset = virt; sysbase_sym = base },
            rw (u, c, a, e) refl,
          )
        ]
      ]

  abbrev Covers : Relo → ℕ → Type 0
  Covers rel x = within (field rel) (width (r_type rel.info)) x ≡ true

  abbrev pub Spares : ℕ → Relo → Type 0
  Spares x rel = within (field rel) (width (r_type rel.info)) x ≡ false

  abbrev byte_at : Option Memory → ℕ → ℕ
  byte_at none x = 0
  byte_at (some mem) x = mem x

  -- `Applied` hangs on the fields of the first memory only.
  transfer :
      (m1 m2 mem' : Memory) (rels : List Relo) (base : Option ℕ)
      → All (λ rel. (x : ℕ) → Covers rel x → m2 x ≡ m1 x) rels
      → All Handled rels
      → Applied m1 mem' rels base
      → Applied m2 mem' rels base
  transfer m1 m2 mem' [] base s h end = end
  transfer m1 m2 mem' (rel ∷ rels) base s h (next t r made runs bytes rest) =
      let a = applies (r_type rel.info) (field rel) rel.addend t m1 (h.0.known) in
      let (made', runs', same) = a.local m2 (s.0) in
      let one : some made ≡ some a.result = sym runs ∙ a.runs in
      next t r made' runs' (λ x o. bytes x o ∙ ap (λ m. byte_at m x) one ∙ sym (same x o))
        (transfer m1 m2 mem' rels t.sysbase_sym (s.1) (h.1) rest)

  Apart-Spares : (a b : Relo) → Apart a b → (x : ℕ) → Covers a x → Spares x b
  Apart-Spares a b h x o = ground arith

  Apart-Covers : (a b : Relo) → Apart a b → (x : ℕ) → Covers b x → Spares x a
  Apart-Covers a b h x o = ground arith

  All-Spares :
      (a : Relo) (rels : List Relo)
      → All (Apart a) rels
      → (x : ℕ) → Covers a x
      → All (Spares x) rels
  All-Spares a [] h x o = tt
  All-Spares a (b ∷ rels) h x o = (Apart-Spares a b (h.0) x o, All-Spares a rels (h.1) x o)

  All-Covers :
      (a : Relo) (m1 m2 : Memory) (rels : List Relo)
      → ((x : ℕ) → Spares x a → m1 x ≡ m2 x)
      → All (Apart a) rels
      → All (λ rel. (x : ℕ) → Covers rel x → m2 x ≡ m1 x) rels
  All-Covers a m1 m2 [] e h = tt
  All-Covers a m1 m2 (b ∷ rels) e h =
      (λ x o. sym (e x (Apart-Covers a b (h.0) x o)), All-Covers a m1 m2 rels e (h.1))

  relocate_loop-step :
      (rel : Relo) (rels : List Relo) (base : Option ℕ) (mem : Memory) (t : Target) (made : Memory)
      → resolve shs names (r_sym rel.info) (symtab (r_sym rel.info)) virt base ≡ found t
      → apply (r_type rel.info) (field rel) rel.addend t mem ≡ some made
      → relocate_loop shs symtab names section virt (rel ∷ rels) base mem
        ≡ relocate_loop shs symtab names section virt rels t.sysbase_sym made
  unfolding relocate_loop
  relocate_loop-step rel rels base mem t made r e =
      rw (r, relocate_loop) (rw (e, relocate_loop) refl)

  relocate_loop-Applied :
      (rels : List Relo) (base : Option ℕ) (mem : Memory)
      → All Handled rels
      → Separate rels
      → (mem' : Memory) × (relocate_loop shs symtab names section virt rels base mem
          ≡ relocated mem')
        × Applied mem mem' rels base
        × ((x : ℕ) → All (Spares x) rels → mem' x ≡ mem x)
  unfolding relocate_loop
  relocate_loop-Applied [] base mem h s = (mem, refl, end, λ _ _. refl)
  relocate_loop-Applied (rel ∷ rels) base mem h s =
      let (t, r) = resolves rel base (h.0) in
      let a = applies (r_type rel.info) (field rel) rel.addend t mem (h.0.known) in
      let (mem', runs, made, others) =
        relocate_loop-Applied rels t.sysbase_sym a.result (h.1) (s.1) in
      (
        mem',
        relocate_loop-step rel rels base mem t a.result r a.runs ∙ runs,
        next t r a.result a.runs (λ x o. others x (All-Spares rel rels (s.0) x o))
            (transfer a.result mem mem' rels t.sysbase_sym
              (All-Covers rel a.result mem rels (a.outside) (s.0)) (h.1) made),
        λ x o. others x (o.1) ∙ a.outside x (o.0),
      )

  -- If `relocate` handles each relocation and no two fields share a byte, it succeeds, each field then
  -- holds what its own relocation makes of the bytes that were there before the call, whatever the
  -- order, and all other bytes are as they were.
  pub relocate-Applied :
      (rels : List Relo) (mem : Memory)
      → All Handled rels
      → Separate rels
      → (mem' : Memory) × (relocate shs symtab names section virt rels mem ≡ relocated mem')
        × Applied mem mem' rels none
        × ((x : ℕ) → All (Spares x) rels → mem' x ≡ mem x)
  unfolding relocate
  relocate-Applied rels mem h s = relocate_loop-Applied rels none mem h s
