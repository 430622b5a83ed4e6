-- ===== src/Rdb/Checksum.antt =====
-- The checksum of a block.
use ub2lb.Prelude.{
  ℕ, zero, suc, ◌+◌, ◌%◌, ◌^◌, ◌≤◌, ◌<◌, ◌≡◌, ◌∙◌, refl, ap, none, some, [], ◌∷◌, arith, length,
  take, ltb, if◌then◌else◌,
}
use ub2lb.Rdb.{Words, amiga_summed_longs, sum_words, checksum}

-- The sum of the words, as an integer.
abbrev pub total : Words → ℕ
total [] = 0
total (w ∷ block) = w + total block

sum_words-total :
    (n : ℕ) (block : Words) (sum : ℕ)
    → n ≤ length block
    → sum < 2 ^ 32
    → sum_words n block sum ≡ some ((sum + total (take n block)) % 2 ^ 32)
unfolding sum_words
sum_words-total zero block sum h k = ap some (omega arith)
sum_words-total (suc n) [] sum h k = absurd (omega arith)
sum_words-total (suc n) (w ∷ block) sum h k =
    sum_words-total n block ((sum + w) % 2 ^ 32) (omega arith) (omega arith) ∙ ap some (omega arith)

sum_words-none : (n : ℕ) (block : Words) (sum : ℕ) → length block < n → sum_words n block sum ≡ none
unfolding sum_words
sum_words-none zero block sum h = absurd (omega arith)
sum_words-none (suc n) [] sum h = refl
sum_words-none (suc n) (w ∷ block) sum h = sum_words-none n block _ (omega arith)

-- Of a block of 128 words the checksum is the sum of its first `amiga_SummedLongs` words, modulo
-- 2 ^ 32; with more than 128 of these, which the limit of 512 lets through, it reads behind the block.
pub checksum-total :
    (block : Words)
    → length block ≡ 128
    → checksum block ≡ (
        if ltb 128 (amiga_summed_longs block)
        then none
        else some (total (take (amiga_summed_longs block) block) % 2 ^ 32))
unfolding checksum
checksum-total block e =
    let n = amiga_summed_longs block in
    ground (arith, sum_words-total n block 0, sum_words-none n block 0, sum_words-none 512 block 0)
