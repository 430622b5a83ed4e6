-- ===== src/Elf/Hunk.antt =====
-- Where `load_hunk` puts a section.
use Prim.Native.Nat.{bit_and}
use native.Mathlib.Nat.{
  one-le-pow, mod-lt, div-add-mod', div-lt_iff_lt-mul, pow-suc, lt-div-mul-add, mul-mod_left,
  div-mul-le_self, suc-mul, mul_right_comm, suc-add,
}
use ub2lb.Prelude.{
  ℕ, zero, suc, ◌+◌, ◌-◌, ◌*◌, ◌/◌, ◌%◌, ◌^◌, ◌≤◌, ◌<◌, ◌≡◌, ◌∙◌, refl, ap, sym, subst, arith,
}
use ub2lb.Prelude.Bits.{bit_and-fields, bit_and-ones, bit_and-zeros}
use ub2lb.Support.{word}
use ub2lb.Elf.{align_down}

pow_split : (j k : ℕ) → 2 ^ j * 2 ^ k ≡ 2 ^ (j + k)
pow_split zero k = grind arith
pow_split (suc j) k =
    ap (λ (p : ℕ). p * 2 ^ k) (pow-suc 2 j)
    ∙ mul_right_comm (2 ^ j) 2 (2 ^ k)
    ∙ omega (arith, pow_split j k, pow-suc 2 (j + k), ap (λ (i : ℕ). 2 ^ i) (suc-add j k))

mask_lem : (m n : ℕ) → 1 ≤ m → suc n * m ≡ 2 ^ 32 → 2 ^ 32 - 1 - word (m + 2 ^ 32 - 1) ≡ n * m + 0
mask_lem m n h e =
    let sum = suc-mul n m ∙ sym (refl {a = n * m + m}) in
    let whole : n * m + m ≡ 2 ^ 32 = sym (suc-mul n m) ∙ e in omega arith

-- For a power of two the mask clears the remainder.
align_down_lem : (j k x : ℕ) → j + k ≡ 32 → x < 2 ^ 32 → align_down x (2 ^ k) ≡ x / 2 ^ k * 2 ^ k
unfolding align_down
align_down_lem j k x h g =
    let split = pow_split j k ∙ ap (λ (i : ℕ). 2 ^ i) h in
    let low = mod-lt x (one-le-pow k 2 (omega arith)) in
    let high : x / 2 ^ k < 2 ^ j =
      (div-lt_iff_lt-mul (one-le-pow k 2 (omega arith))).1 (subst (λ y. x < y) (sym split) g) in
    let ones : suc (2 ^ j - 1) ≡ 2 ^ j = omega (arith, one-le-pow j 2) in
    ap (bit_and x) (
      mask_lem (2 ^ k) (2 ^ j - 1) (one-le-pow k 2 (omega arith))
        (ap (λ (y : ℕ). y * 2 ^ k) ones ∙ split))
    ∙ ap (λ (y : ℕ). bit_and y ((2 ^ j - 1) * 2 ^ k + 0)) (sym (div-add-mod' x (2 ^ k)))
    ∙ bit_and-fields k (x / 2 ^ k) (x % 2 ^ k) (2 ^ j - 1) 0 low (one-le-pow k 2 (omega arith))
    ∙ omega (
      arith,
      bit_and-zeros k (x % 2 ^ k) low,
      ap (λ (y : ℕ). y * 2 ^ k) (bit_and-ones j (x / 2 ^ k) high),
    )

pub align_down-bounds :
    (j k x : ℕ)
    → j + k ≡ 32
    → x < 2 ^ 32
    → (align_down x (2 ^ k) ≤ x)
      × (x < align_down x (2 ^ k) + 2 ^ k)
      × (align_down x (2 ^ k) % 2 ^ k ≡ 0)
align_down-bounds j k x h g = rw (align_down_lem j k x h g) (
  div-mul-le_self x (2 ^ k),
  lt-div-mul-add (one-le-pow k 2 (omega arith)),
  mul-mod_left (x / 2 ^ k) (2 ^ k),
)
