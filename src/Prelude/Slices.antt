-- ===== src/Prelude/Slices.antt =====
-- Parts of a list: `slice a n xs` is the `n` items from index `a` on.
use Prim.Native.Nat.{ℕ, zero, suc, ◌+◌, ◌≤◌}
use mathlib.Core.Path.{◌≡◌, refl, sym, ap, ◌∙◌}
use mathlib.Core.List.{List, [], ◌∷◌, ◌++◌}
use native.Mathlib.Omega.{arith}
use ub2lb.Prelude.Lists.{length, take, drop, length-take, length-drop}

module _ {ℓ} {A : Type ℓ} where
  abbrev pub slice : ℕ → ℕ → List A → List A
  slice a n xs = take n (drop a xs)

  pub drop-drop : (a b c : ℕ) (xs : List A) → c ≡ a + b → drop b (drop a xs) ≡ drop c xs
  drop-drop zero b c xs e = ap (λ n. drop n xs) (omega arith)
  drop-drop (suc a) b zero xs e = absurd (omega arith)
  drop-drop (suc a) zero (suc c) [] e = refl
  drop-drop (suc a) (suc b) (suc c) [] e = refl
  drop-drop (suc a) b (suc c) (x ∷ xs) e = drop-drop a b c xs (omega arith)

  take-drop-take :
      (a n m : ℕ) (xs : List A) → a + m ≤ n → take m (drop a (take n xs)) ≡ take m (drop a xs)
  take-drop-take zero n zero xs h = refl
  take-drop-take zero zero (suc m) xs h = absurd (omega arith)
  take-drop-take zero (suc n) (suc m) [] h = refl
  take-drop-take zero (suc n) (suc m) (x ∷ xs) h =
      ap (◌∷◌ x) (take-drop-take zero n m xs (omega arith))
  take-drop-take (suc a) zero m xs h = absurd (omega arith)
  take-drop-take (suc a) (suc n) m [] h = refl
  take-drop-take (suc a) (suc n) m (x ∷ xs) h = take-drop-take a n m xs (omega arith)

  -- A part of a part.
  pub slice-slice :
      (a n b m c : ℕ) (xs : List A)
      → b + m ≤ n
      → c ≡ a + b
      → slice b m (slice a n xs) ≡ slice c m xs
  slice-slice a n b m c xs h e =
      take-drop-take b n m (drop a xs) h ∙ ap (take m) (drop-drop a b c xs e)

  take-add : (m n k : ℕ) (xs : List A) → k ≡ m + n → take k xs ≡ take m xs ++ take n (drop m xs)
  take-add zero n k xs e = ap (λ i. take i xs) (omega arith)
  take-add (suc m) n zero xs e = absurd (omega arith)
  take-add (suc m) zero (suc k) [] e = refl
  take-add (suc m) (suc n) (suc k) [] e = refl
  take-add (suc m) n (suc k) (x ∷ xs) e = ap (◌∷◌ x) (take-add m n k xs (omega arith))

  -- Two parts, one behind the other.
  pub slice-append :
      (a m n b k : ℕ) (xs : List A)
      → b ≡ a + m
      → k ≡ m + n
      → slice a m xs ++ slice b n xs ≡ slice a k xs
  slice-append a m n b k xs e g =
      ap (λ t. slice a m xs ++ take n t) (sym (drop-drop a m b xs e))
      ∙ sym (take-add m n k (drop a xs) g)

  pub length-slice : (a n : ℕ) (xs : List A) → a + n ≤ length xs → length (slice a n xs) ≡ n
  length-slice a n xs h = omega (arith, length-take n (drop a xs), length-drop a xs)
