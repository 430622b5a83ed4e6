-- ===== src/Examples/Rdb.antt =====
-- A disc with its RDB in block 1, and one partition.
use ub2lb.Prelude.{
  ◌*◌, ◌+◌, ◌^◌, ℕ, zero, suc, ◌<◌, ◌≡◌, ◌⊎◌, refl, arith, inl, true, false, none, some, [], ◌∷◌,
  set, ltb, if◌then◌else◌,
}
use ub2lb.Rdb.{
  Words, BlockRead, found, out_of_fuel, checksum, sum_words, is_rdb, get_rdb, partition_loop, init,
  get, Table, rdb_location_limit,
}
use ub2lb.Rdb.Checksum.{checksum-total}
use ub2lb.Rdb.Scan.{Chain, get_rdb-first, partition_loop-hangs}
use ub2lb.Rdb.Table.{get-init, row_of}
use ub2lb.Install.{calculate_checksum, checksum-calculate_checksum}

abbrev zeros : ℕ → Words
zeros zero = []
zeros (suc n) = 0 ∷ zeros n

abbrev rdb_block : Words
rdb_block = 0x5244534b ∷ 3 ∷ 0xadbbacb2 ∷ 7 ∷ 512 ∷ 0 ∷ 0 ∷ 2 ∷ zeros 120

abbrev partition_block : Words
partition_block = 0x50415254 ∷ 3 ∷ 0xafbeada9 ∷ 7 ∷ 0xffffffff ∷ zeros 123

-- The same with another checksum.
abbrev broken_block : Words
broken_block = 0x50415254 ∷ 3 ∷ 0xafbeadaa ∷ 7 ∷ 0xffffffff ∷ zeros 123

-- The second word is 4, and the checksum is not set.
abbrev unsigned_block : Words
unsigned_block = 0x50415254 ∷ 4 ∷ 0 ∷ 7 ∷ zeros 124

abbrev disc : BlockRead
disc zero = none
disc (suc zero) = some rdb_block
disc (suc (suc zero)) = some partition_block
disc (suc (suc (suc n))) = none

abbrev empty_disc : BlockRead
empty_disc n = none

abbrev broken_disc : BlockRead
broken_disc n = some broken_block

chain : Chain disc 2 (partition_block ∷ [])
unfolding checksum sum_words
chain = Chain.next (λ e. ground (arith, e)) refl refl refl (Chain.end refl)

rdb_block-is_rdb : is_rdb rdb_block ≡ some true
unfolding is_rdb checksum sum_words
rdb_block-is_rdb = refl

checksum-total_example : checksum partition_block ≡ some 0
checksum-total_example = checksum-total partition_block refl

get_rdb-disc : get_rdb disc ≡ found rdb_block
get_rdb-disc = get_rdb-first disc 1 rdb_block (omega arith) refl rdb_block-is_rdb skipped
  where
    skipped :
        (j : ℕ)
        → j < 1
        → (disc j ≡ none) ⊎ ((b : Words) × (disc j ≡ some b) × (is_rdb b ≡ some false))
    skipped zero h = inl refl
    skipped (suc j) h = absurd (omega arith)

partition_loop-hangs_example : partition_loop broken_disc 1000 2 0 ≡ out_of_fuel
unfolding checksum sum_words
partition_loop-hangs_example =
    partition_loop-hangs broken_disc 1000 2 0 0 broken_block (λ e. ground (arith, e)) refl refl refl

get-init_example :
    (table : Table) × (init (some disc) 2 ≡ some table)
    × ((i k : ℕ)
        → i < 256
        → get table (i + k * 256) ≡ (
            if ltb i rdb_location_limit then row_of rdb_block i (partition_block ∷ []) i else none))
get-init_example = get-init disc 2 rdb_block (partition_block ∷ []) chain (omega arith) get_rdb-disc

checksum-calculate_checksum_example :
    (v : ℕ) × (calculate_checksum unsigned_block ≡ some (set unsigned_block 2 v))
    × (checksum (set unsigned_block 2 v) ≡ some 0)
    × (v < 2 ^ 32)
checksum-calculate_checksum_example =
    checksum-calculate_checksum unsigned_block refl (omega arith) (omega arith) (omega arith)
