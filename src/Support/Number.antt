-- ===== src/Support/Number.antt =====
-- `strtol` on a string of digits.
use mathlib.Core.List.{reverse, reverse-append, reverse-reverse}
use native.Mathlib.Nat.{div-add-mod}
use ub2lb.Prelude.{
  ℕ, ◌+◌, ◌-◌, ◌*◌, ◌%◌, ◌^◌, ◌≤◌, ◌<◌, ◌≡◌, ◌∙◌, refl, ap, ◌++◌, [], ◌∷◌, arith, Bytes, All,
}
use ub2lb.Support.{word, strtol_loop, strtol}

-- Digits from the most significant one on.
abbrev pub IsDigits : Bytes → Type 0
IsDigits s = All (λ c. (b'0' ≤ c) × (c ≤ b'9')) s

-- The number that a decimal numeral writes, `n` standing for the digits before it.
abbrev pub decimal : ℕ → Bytes → ℕ
decimal n [] = n
decimal n (c ∷ s) = decimal (n * 10 + (c - 48)) s

-- The same with the digits in the other order.
abbrev value : Bytes → ℕ
value [] = 0
value (c ∷ s) = (c - 48) + 10 * value s

word-mul : (a b : ℕ) → word (word a * b) ≡ word (a * b)
word-mul a b = omega (arith, ap (λ (t : ℕ). t * b) (div-add-mod a (2 ^ 32)))

word_digit : (c : ℕ) → b'0' ≤ c → c ≤ b'9' → word (c + 2 ^ 32 - 48) ≡ c - 48
word_digit c h k = omega arith

-- One round adds the digit `d` at the place `m`.
round : (l m d v : ℕ) → word (word (l + d * m) + word (m * 10) * v) ≡ word (l + m * (d + 10 * v))
round l m d v = omega (arith, word-mul (m * 10) v)

strtol_loop-value :
    (s : Bytes) (l m : ℕ) → IsDigits s → l < 2 ^ 32 → strtol_loop s l m ≡ word (l + m * value s)
unfolding strtol_loop
strtol_loop-value [] l m h k = omega arith
strtol_loop-value (c ∷ s) l m h k = rw (word_digit c h.0.0 h.0.1) (
    strtol_loop-value s (word (l + (c - 48) * m)) (word (m * 10)) h.1 (omega arith)
    ∙ round l m (c - 48) (value s))

decimal-append : (n : ℕ) (s t : Bytes) → decimal n (s ++ t) ≡ decimal (decimal n s) t
decimal-append n [] t = refl
decimal-append n (c ∷ s) t = decimal-append (n * 10 + (c - 48)) s t

value-reverse : (s : Bytes) → decimal 0 (reverse s) ≡ value s
value-reverse [] = refl
value-reverse (c ∷ s) =
    rw (reverse-append (c ∷ []) s)
      (decimal-append 0 (reverse s) (c ∷ []) ∙ omega (arith, value-reverse s))

IsDigits-append : (s t : Bytes) → IsDigits s → IsDigits t → IsDigits (s ++ t)
IsDigits-append [] t h k = k
IsDigits-append (c ∷ s) t h k = (h.0, IsDigits-append s t h.1 k)

IsDigits-reverse : (s : Bytes) → IsDigits s → IsDigits (reverse s)
IsDigits-reverse [] h = tt
IsDigits-reverse (c ∷ s) h =
    rw (reverse-append (c ∷ []) s)
      (IsDigits-append (reverse s) (c ∷ []) (IsDigits-reverse s h.1) (h.0, tt))

-- On digits `strtol` returns the number that they write, modulo 2 ^ 32.
pub strtol-decimal : (s : Bytes) → IsDigits s → strtol s ≡ decimal 0 s % 2 ^ 32
unfolding strtol
strtol-decimal s h =
    strtol_loop-value (reverse s) 0 1 (IsDigits-reverse s h) (omega arith)
    ∙ omega (arith, value-reverse (reverse s), ap (decimal 0) (reverse-reverse s))
