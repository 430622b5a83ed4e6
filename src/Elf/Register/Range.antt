-- ===== src/Elf/Register/Range.antt =====
-- The range of addresses that is registered, and which sections are code.
use Prim.Native.Nat.{bit_and}
use ub2lb.Prelude.{
  ℕ, ◌+◌, ◌-◌, ◌/◌, ◌%◌, ◌^◌, ◌≤◌, ◌<◌, ◌≡◌, ◌≢◌, ◌⊎◌, ◌∙◌, refl, arith, true, false, Bool-cases,
  inl, inr, List, [], ◌∷◌, All, ltb, ◌==◌,
}
use ub2lb.Prelude.Bits.{bit_and-six}
use ub2lb.Support.{word}
use ub2lb.Elf.{Sheader, kernel_phys_base, kernel_virt_base}
use ub2lb.Elf.Register.{is_code, virt_of, add_range, ranges}

-- Of the flags of a section: bit 1 says that it takes memory, bit 2 that it is code. The section has an address.
abbrev pub IsCode : Sheader → Type 0
IsCode sh = (sh.flags / 2 % 2 ≡ 1) × (sh.flags / 4 % 2 ≡ 1) × (sh.addr ≢ 0)

pub is_code-IsCode : (sh : Sheader) → is_code sh ≡ true → IsCode sh
is_code-IsCode sh e =
    let both : bit_and sh.flags 6 ≡ 6 = ground arith in
    let bits = bit_and-six sh.flags in
    (omega (arith, bits, both), omega (arith, bits, both), λ z. ground arith)

pub IsCode-is_code : (sh : Sheader) → IsCode sh → is_code sh ≡ true
IsCode-is_code sh (alloc, exec, placed) =
    let both : bit_and sh.flags 6 ≡ 6 = omega (arith, alloc, exec, bit_and-six sh.flags) in
    let given : (sh.addr == 0) ≡ false = ground arith in rw (both, given) refl

-- The virtual address of a physical one.
abbrev pub virtual : ℕ → ℕ
virtual a = (a + (kernel_virt_base - kernel_phys_base)) % 2 ^ 32

pub virt_of-virtual : (sh : Sheader) → virt_of sh ≡ virtual sh.addr
virt_of-virtual sh = omega arith

-- A code section that does not wrap round lies in the range.
abbrev pub Within : ℕ × ℕ → Sheader → Type 0
Within (lowest, highest) sh =
    IsCode sh
    → virtual sh.addr + sh.size < 2 ^ 32
    → (lowest ≤ virtual sh.addr) × (virtual sh.addr + sh.size ≤ highest)

-- A bound of the range is as at first, or that of a code section.
abbrev pub Lowest : ℕ → List Sheader → Type 0
Lowest lowest [] = ⊥
Lowest lowest (sh ∷ shs) = (IsCode sh × (lowest ≡ virtual sh.addr)) ⊎ Lowest lowest shs

abbrev pub Highest : ℕ → List Sheader → Type 0
Highest highest [] = ⊥
Highest highest (sh ∷ shs) =
    (IsCode sh × (highest ≡ (virtual sh.addr + sh.size) % 2 ^ 32)) ⊎ Highest highest shs

add_range-wider :
    (low high : ℕ) (sh : Sheader)
    → ((add_range (low, high) sh).0 ≤ low) × (high ≤ (add_range (low, high) sh).1)
unfolding add_range
add_range-wider low high sh = elim (Bool-cases (is_code sh)) [
  | inl e ↦ rw e (ground arith, ground arith)
  | inr e ↦ rw e (omega arith, omega arith)
]

add_range-Within : (low high : ℕ) (sh : Sheader) → Within (add_range (low, high) sh) sh
unfolding add_range
add_range-Within low high sh c h =
    let e = IsCode-is_code sh c in let v = virt_of-virtual sh in rw e (ground arith, ground arith)

ranges-wider :
    (shs : List Sheader) (low high : ℕ)
    → ((ranges shs (low, high)).0 ≤ low) × (high ≤ (ranges shs (low, high)).1)
unfolding ranges
ranges-wider [] low high = (omega arith, omega arith)
ranges-wider (sh ∷ shs) low high =
    let here = add_range-wider low high sh in
    let rest = ranges-wider shs ((add_range (low, high) sh).0) ((add_range (low, high) sh).1) in
    (omega (arith, here.0, rest.0), omega (arith, here.1, rest.1))

pub ranges-Within : (shs : List Sheader) (low high : ℕ) → All (Within (ranges shs (low, high))) shs
unfolding ranges
ranges-Within [] low high = tt
ranges-Within (sh ∷ shs) low high =
    let range = add_range (low, high) sh in
    let rest = ranges-wider shs (range.0) (range.1) in
    (
      λ e h.
          (let (l, u) = add_range-Within low high sh e h in
            (omega (arith, l, rest.0), omega (arith, u, rest.1))),
      ranges-Within shs (range.0) (range.1),
    )

-- One section moves a bound to its own, or not at all.
add_range-moves :
    (low high : ℕ) (sh : Sheader)
    → let (lowest, highest) = add_range (low, high) sh in
      ((lowest ≡ low) ⊎ (IsCode sh × (lowest ≡ virtual sh.addr)))
      × ((highest ≡ high) ⊎ (IsCode sh × (highest ≡ (virtual sh.addr + sh.size) % 2 ^ 32)))
unfolding add_range
add_range-moves low high sh = elim (Bool-cases (is_code sh)) [
  | inr c ↦ rw c (inl refl, inl refl)
  | inl c ↦ rw c (
    elim (Bool-cases (ltb (virt_of sh) low)) [
      | inr l ↦ rw l (inl refl)
      | inl l ↦ rw l (inr (is_code-IsCode sh c, virt_of-virtual sh))
    ],
    elim (Bool-cases (ltb high (word (virt_of sh + sh.size)))) [
      | inr l ↦ rw l (inl refl)
      | inl l ↦ rw l (inr (is_code-IsCode sh c, omega (arith, virt_of-virtual sh)))
    ],
  )
]

pub ranges-Lowest :
    (shs : List Sheader) (low high : ℕ)
    → ((ranges shs (low, high)).0 ≡ low) ⊎ Lowest ((ranges shs (low, high)).0) shs
unfolding ranges
ranges-Lowest [] low high = inl refl
ranges-Lowest (sh ∷ shs) low high =
    let next = add_range (low, high) sh in
    elim (ranges-Lowest shs next.0 next.1) [
      | inr further ↦ inr (inr further)
      | inl e ↦ elim ((add_range-moves low high sh).0) [
        | inl f ↦ inl (e ∙ f)
        | inr (c, f) ↦ inr (inl (c, e ∙ f))
      ]
    ]

pub ranges-Highest :
    (shs : List Sheader) (low high : ℕ)
    → ((ranges shs (low, high)).1 ≡ high) ⊎ Highest ((ranges shs (low, high)).1) shs
unfolding ranges
ranges-Highest [] low high = inl refl
ranges-Highest (sh ∷ shs) low high =
    let next = add_range (low, high) sh in
    elim (ranges-Highest shs next.0 next.1) [
      | inr further ↦ inr (inr further)
      | inl e ↦ elim ((add_range-moves low high sh).1) [
        | inl f ↦ inl (e ∙ f)
        | inr (c, f) ↦ inr (inl (c, e ∙ f))
      ]
    ]
