-- ===== src/Install.antt =====
-- The installer, tools/parthenope-install.c: the checksum that it writes, and below it the rest. Its `checksum` is that of
-- src/rdb.c, word for word.
pub mod Free
pub mod Slb
pub mod Main
use ub2lb.Prelude.{
  ℕ, zero, suc, ◌+◌, ◌-◌, ◌%◌, ◌^◌, ◌≤◌, ◌<◌, ◌≡◌, ◌∙◌, ap, Option, none, some, [], ◌∷◌, arith,
  length, take, set, get_or, ltb, false,
}
use ub2lb.Support.{word}
use ub2lb.Rdb.{Words, amiga_summed_longs, checksum}
use ub2lb.Rdb.Checksum.{total, checksum-total}

-- `blk->amiga_ChkSum = blk->amiga_ChkSum - checksum(blk)`
unfoldable pub calculate_checksum : Words → Option Words
calculate_checksum blk = elim (checksum blk) [
  | none ↦ none
  | some sum ↦ some (set blk 2 (word (get_or blk 2 0 + 2 ^ 32 - sum)))
]

minus_three : (n : ℕ) → n ≡ suc (suc (suc n)) - 3
minus_three n = omega arith

total-take :
    (a b c : ℕ) (rest : Words) (n : ℕ)
    → 3 ≤ n
    → total (take n (a ∷ b ∷ c ∷ rest)) ≡ a + b + c + total (take (n - 3) rest)
total-take a b c rest zero h = absurd (omega arith)
total-take a b c rest (suc zero) h = absurd (omega arith)
total-take a b c rest (suc (suc zero)) h = absurd (omega arith)
total-take a b c rest (suc (suc (suc n))) h =
    ap (λ (k : ℕ). a + (b + (c + total (take k rest)))) (minus_three n) ∙ omega arith

-- The checksum of a block whose first three words are at hand.
checksum_three :
    (a b c : ℕ) (rest : Words)
    → length rest ≡ 125
    → 3 ≤ b
    → b ≤ 128
    → checksum (a ∷ b ∷ c ∷ rest) ≡ some ((a + b + c + total (take (b - 3) rest)) % 2 ^ 32)
checksum_three a b c rest e h k =
    let few : ltb 128 b ≡ false = ground arith in
    checksum-total (a ∷ b ∷ c ∷ rest) (omega arith)
    ∙ rw few (ap (λ (t : ℕ). some (t % 2 ^ 32)) (total-take a b c rest b h))

-- A block of 128 words whose checksum covers the field itself, a 32-bit word, and at most the block,
-- sums to zero once `calculate_checksum` has set that field to another 32-bit word, and only that
-- field is changed.
pub checksum-calculate_checksum :
    (blk : Words)
    → length blk ≡ 128
    → 3 ≤ amiga_summed_longs blk
    → amiga_summed_longs blk ≤ 128
    → get_or blk 2 0 < 2 ^ 32
    → (v : ℕ) × (calculate_checksum blk ≡ some (set blk 2 v))
      × (checksum (set blk 2 v) ≡ some 0)
      × (v < 2 ^ 32)
unfolding calculate_checksum
checksum-calculate_checksum [] e h k l = absurd (omega arith)
checksum-calculate_checksum (a ∷ []) e h k l = absurd (omega arith)
checksum-calculate_checksum (a ∷ b ∷ []) e h k l = absurd (omega arith)
checksum-calculate_checksum (a ∷ b ∷ c ∷ rest) e h k l =
    let t = total (take (b - 3) rest) in
    let v = word (c + 2 ^ 32 - (a + b + c + t) % 2 ^ 32) in
    (
      v,
      rw (checksum_three a b c rest (omega arith) h k, calculate_checksum),
      checksum_three a b v rest (omega arith) h k ∙ ap some (omega arith),
      omega arith,
    )
