-- ===== src/Prelude/Bits.antt =====
-- `bit_and` and `bit_or` of numbers that are put together from bit fields.
use Prim.Native.Nat.{
  ℕ, zero, suc, ◌+◌, ◌-◌, ◌*◌, ◌/◌, ◌%◌, ◌^◌, ◌≤◌, ◌<◌, min, max, bit_and, bit_or, digits,
  bit_and-bitwise, bit_or-bitwise,
}
use mathlib.Core.Path.{◌≡◌, refl, ap}
use native.Mathlib.Omega.{arith}
use native.Mathlib.Nat.{pow-suc, one-le-pow}

-- The library's recursion on digits does not depend on its count, if that is large enough.
module _ (z : ℕ → ℕ) (op : ℕ → ℕ → ℕ) where
  digits-count : (i j x y : ℕ) → x ≤ i → x ≤ j → digits z op i x y ≡ digits z op j x y
  digits-count zero zero zero y h g = refl
  digits-count zero (suc j) zero y h g = refl
  digits-count (suc i) zero zero y h g = refl
  digits-count (suc i) (suc j) zero y h g = refl
  digits-count (suc i) (suc j) (suc x) y h g =
      ap (λ r. r * 2 + op (suc x % 2) (y % 2))
        (digits-count i j (suc x / 2) (y / 2) (omega arith) (omega arith))
  digits-count zero j (suc x) y h g = absurd (omega arith)
  digits-count (suc i) zero (suc x) y h g = absurd (omega arith)

  digits-halves :
      (x y : ℕ)
      → digits z op (suc x) (suc x) y
        ≡ digits z op (suc x / 2) (suc x / 2) (y / 2) * 2 + op (suc x % 2) (y % 2)
  digits-halves x y =
      ap (λ r. r * 2 + op (suc x % 2) (y % 2))
        (digits-count x (suc x / 2) (suc x / 2) (y / 2) (omega arith) (omega arith))

and_halves : (x y : ℕ) → bit_and x y ≡ bit_and (x / 2) (y / 2) * 2 + min (x % 2) (y % 2)
and_halves zero y = omega (arith, bit_and-bitwise 0 y, bit_and-bitwise 0 (y / 2))
and_halves (suc x) y = omega (
  arith,
  bit_and-bitwise (suc x) y,
  bit_and-bitwise (suc x / 2) (y / 2),
  digits-halves (λ _. 0) min x y,
)

or_halves : (x y : ℕ) → bit_or x y ≡ bit_or (x / 2) (y / 2) * 2 + max (x % 2) (y % 2)
or_halves zero y = omega (arith, bit_or-bitwise 0 y, bit_or-bitwise 0 (y / 2))
or_halves (suc x) y = omega (
  arith,
  bit_or-bitwise (suc x) y,
  bit_or-bitwise (suc x / 2) (y / 2),
  digits-halves (λ b. b) max x y,
)

and_none_below : (n x : ℕ) → x ≤ n → bit_and x 0 ≡ 0
and_none_below n zero h = refl
and_none_below zero (suc x) h = absurd (omega arith)
and_none_below (suc n) (suc x) h =
    omega (arith, and_halves (suc x) 0, and_none_below n (suc x / 2) (omega arith))

and_none : (x : ℕ) → bit_and x 0 ≡ 0
and_none x = and_none_below x x (omega arith)

-- The bits 1 and 2.
pub bit_and-six : (x : ℕ) → bit_and x 6 ≡ (x / 4 % 2) * 4 + (x / 2 % 2) * 2
bit_and-six x = omega (
  arith,
  and_halves x 6,
  and_halves (x / 2) 3,
  and_halves (x / 2 / 2) 1,
  and_none (x / 2 / 2 / 2),
)

times_suc : (a k : ℕ) → a * 2 ^ suc k ≡ 2 * (a * 2 ^ k)
times_suc a k = omega (arith, ap (λ (p : ℕ). a * p) (pow-suc 2 k))

none_and : bit_and 0 0 ≡ 0
none_and = refl

none_or : bit_or 0 0 ≡ 0
none_or = refl

-- `&` and `|` go field by field.
pub bit_and-fields :
    (k a b c d : ℕ)
    → b < 2 ^ k
    → d < 2 ^ k
    → bit_and (a * 2 ^ k + b) (c * 2 ^ k + d) ≡ bit_and a c * 2 ^ k + bit_and b d
bit_and-fields zero a b c d h g = ground (arith, none_and)
bit_and-fields (suc k) a b c d h g = ground (
  arith,
  and_halves (a * 2 ^ suc k + b) (c * 2 ^ suc k + d),
  and_halves b d,
  times_suc a k,
  times_suc c k,
  times_suc (bit_and a c) k,
  pow-suc 2 k,
  bit_and-fields k a (b / 2) c (d / 2),
)

pub bit_or-fields :
    (k a b c d : ℕ)
    → b < 2 ^ k
    → d < 2 ^ k
    → bit_or (a * 2 ^ k + b) (c * 2 ^ k + d) ≡ bit_or a c * 2 ^ k + bit_or b d
bit_or-fields zero a b c d h g = ground (arith, none_or)
bit_or-fields (suc k) a b c d h g = ground (
  arith,
  or_halves (a * 2 ^ suc k + b) (c * 2 ^ suc k + d),
  or_halves b d,
  times_suc a k,
  times_suc c k,
  times_suc (bit_or a c) k,
  pow-suc 2 k,
  bit_or-fields k a (b / 2) c (d / 2),
)

-- A mask of ones keeps a number that it covers, and zero clears every number.
pub bit_and-ones : (k x : ℕ) → x < 2 ^ k → bit_and x (2 ^ k - 1) ≡ x
bit_and-ones zero x h = ground (arith, none_and)
bit_and-ones (suc k) x h =
    ground
      (arith, and_halves x (2 ^ suc k - 1), pow-suc 2 k, one-le-pow k 2, bit_and-ones k (x / 2))

pub bit_and-zeros : (k x : ℕ) → x < 2 ^ k → bit_and x 0 ≡ 0
bit_and-zeros zero x h = ground (arith, none_and)
bit_and-zeros (suc k) x h = ground (arith, and_halves x 0, pow-suc 2 k, bit_and-zeros k (x / 2))

pub bit_or-zeros : (k x : ℕ) → x < 2 ^ k → bit_or x 0 ≡ x
bit_or-zeros zero x h = ground (arith, none_or)
bit_or-zeros (suc k) x h = ground (arith, or_halves x 0, pow-suc 2 k, bit_or-zeros k (x / 2))

pub zeros-bit_or : (x : ℕ) → bit_or 0 x ≡ x
zeros-bit_or x = bit_or-bitwise 0 x
