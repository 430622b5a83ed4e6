-- ===== src/Rdb/Table.antt =====
-- The table that `RdbPartitionTable_init` builds.
use ub2lb.Prelude.{
  ℕ, zero, suc, ◌+◌, ◌*◌, ◌%◌, ◌<◌, ◌≡◌, refl, ap, Option, none, some, List, [], ◌∷◌, arith, length,
  get_or, if◌then◌else◌, drop, ltb,
}
use ub2lb.Rdb.{
  Words, BlockRead, found, RdbPartition, Table, get_rdb, partition_info, rdb_partition_list, row,
  fill, init, get, rdb_location_limit,
}
use ub2lb.Rdb.Scan.{Chain, nth, partition_loop-nth}

-- Row `i` of the table for the partition blocks `ps`.
abbrev pub row_of : Words → ℕ → List Words → ℕ → Option RdbPartition
row_of rdb i [] k = none
row_of rdb i (p ∷ ps) zero =
    let info = partition_info rdb p in
    some (record { name = drop 1 info.name; partition = i; info = info })
row_of rdb i (p ∷ ps) (suc k) = row_of rdb i ps k

row-nth :
    (rdb : Words) (i k : ℕ) (ps : List Words)
    → row rdb i (nth (λ _. none) ps k) ≡ some (row_of rdb i ps k)
row-nth rdb i k [] = refl
row-nth rdb i zero (p ∷ ps) = refl
row-nth rdb i (suc k) (p ∷ ps) = row-nth rdb i k ps

abbrev rows : Words → List Words → ℕ → ℕ → Table
rows rdb ps zero i = []
rows rdb ps (suc n) i = row_of rdb i ps i ∷ rows rdb ps n (i + 1)

get_or-rows :
    (rdb : Words) (ps : List Words) (n i k j : ℕ)
    → k < n
    → j ≡ i + k
    → get_or (rows rdb ps n i) k none ≡ row_of rdb j ps j
get_or-rows rdb ps zero i k j h e = absurd (omega arith)
get_or-rows rdb ps (suc n) i zero j h e = ap (λ m. row_of rdb m ps m) (omega arith)
get_or-rows rdb ps (suc n) i (suc k) j h e =
    get_or-rows rdb ps n (i + 1) k j (omega arith) (omega arith)

module _ (block_read : BlockRead) (fuel : ℕ) (rdb : Words) (ps : List Words)
    (chain : Chain block_read (rdb_partition_list rdb) ps) (enough : length ps < fuel) where
  fill-rows : (n i : ℕ) → fill block_read fuel rdb n i ≡ some (rows rdb ps n i)
  unfolding fill
  fill-rows zero i = refl
  fill-rows (suc n) i = rw (
    partition_loop-nth block_read fuel i chain enough,
    row-nth rdb i i ps,
    fill-rows n (i + 1),
    fill,
  )

  -- On a disc whose RDB heads a chain of partition blocks, RdbPartitionTable_init ends, and
  -- RdbPartitionTable_get, with an argument that is i modulo 256, then returns the data of
  -- partition block i for each of the first sixteen, and NULL behind the last block and for an i
  -- from sixteen on.
  pub get-init :
      get_rdb block_read ≡ found rdb
      → (table : Table) × (init (some block_read) fuel ≡ some table)
        × ((i k : ℕ)
            → i < 256
            → get table (i + k * 256)
              ≡ (if ltb i rdb_location_limit then row_of rdb i ps i else none))
  unfolding init get
  get-init e = (
    rows rdb ps 16 0,
    rw (e, init) (fill-rows 16 0),
    λ i k h.
        (let narrowed : (i + k * 256) % 256 ≡ i = omega arith in
          rw narrowed (ground (arith, get_or-rows rdb ps 16 0 i i))),
  )
