-- ===== src/Boot/Cache/Flushed.antt =====
-- Which cache lines `flush_cache` reaches.
use ub2lb.Prelude.{
  ℕ, zero, suc, ◌+◌, ◌*◌, ◌%◌, ◌^◌, ◌≤◌, ◌<◌, ◌==◌, ==_iff, ◌≡◌, ◌≢◌, ◌↔◌, ◌⊎◌, inl, inr,
  Bool-cases, List, [], ◌∷◌, ltb, arith,
}
use ub2lb.Support.{word}
use ub2lb.Boot.Cache.{line_of, lines, flush_cache}

-- `x` is one of the addresses.
abbrev pub Touched : ℕ → List ℕ → Type 0
Touched x [] = ⊥
Touched x (y ∷ ys) = (x ≡ y) ⊎ Touched x ys

-- `x` starts a cache line from `ptr` up to `end`.
abbrev Between : ℕ → ℕ → ℕ → Type 0
Between ptr end x = (x % 32 ≡ 0) × (ptr ≤ x) × (x < end)

lines-Touched :
    (fuel ptr end x : ℕ)
    → end ≤ ptr + 32 * fuel
    → ptr % 32 ≡ 0
    → end % 32 ≡ 0
    → end < 2 ^ 32
    → Touched x (lines fuel ptr end) ↔ Between ptr end x
unfolding lines
lines-Touched zero ptr end x h a b c = (λ t. absurd t, λ t. absurd (omega (arith, t)))
lines-Touched (suc fuel) ptr end x h a b c = elim (Bool-cases (ltb ptr end)) [
  | inl more ↦
      let less : ptr < end = ground arith in
      let upto : ptr + 32 ≤ end = omega arith in
      let next : word (ptr + 32) ≡ ptr + 32 = omega arith in
      let go = lines-Touched fuel (ptr + 32) end x (omega arith) (omega arith) b c in
      rw (more, next)
        (
          λ s. elim s [
            | inl e ↦ (omega arith, omega arith, omega arith)
            | inr t ↦ let (r, l, u) = go.0 t in (r, omega arith, u)
          ],
          λ (r, l, u). elim (Bool-cases (x == ptr)) [
            | inl e ↦ inl ((==_iff x ptr).0 e)
            | inr n ↦
                let other : x ≢ ptr = λ e. ground arith in inr (go.1 (r, omega (arith, other), u))
          ],
        )
  | inr done ↦ rw done (λ t. absurd t, λ (r, l, u). absurd (ground arith))
]

-- The address of each cache line from that of `start` up to that of `end` is touched, and no other; so the line that
-- holds the last bytes in front of an `end` that starts no line is not.
pub flush_cache-Touched :
    (start end x : ℕ)
    → start < 2 ^ 32
    → end < 2 ^ 32
    → Touched x (flush_cache start end) ↔ ((x % 32 ≡ 0) × (line_of start ≤ x) × (x + 32 ≤ end))
unfolding flush_cache
flush_cache-Touched start end x h k =
    let go =
      lines-Touched (2 ^ 27) (line_of start) (line_of end) x (omega arith) (omega arith)
        (omega arith) (omega arith) in
    (λ t. (let (r, l, u) = go.0 t in (r, l, omega arith)), λ (r, l, u). go.1 (r, l, omega arith))
