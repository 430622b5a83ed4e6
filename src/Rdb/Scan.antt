-- ===== src/Rdb/Scan.antt =====
-- What the searches of src/rdb.c find.
use ub2lb.Prelude.{
  ℕ, zero, suc, ◌+◌, ◌≤◌, ◌<◌, ◌≡◌, ◌≢◌, ◌⊎◌, ◌∙◌, refl, inl, inr, true, false, none, some, List,
  [], ◌∷◌, arith, length, ◌==◌, ==_iff, Bool-cases, false,
}
use ub2lb.Rdb.{
  Words, BlockRead, Search, found, absent, out_of_fuel, amiga_id, idname_partition, checksum,
  pb_next, is_rdb, get_rdb_loop, get_rdb, partition_loop, rdb_location_limit,
}

module _ (block_read : BlockRead) where
  -- Block `i` cannot be read, or holds no RDB with a good checksum.
  abbrev pub Skipped : ℕ → Type 0
  Skipped i =
      (block_read i ≡ none) ⊎ ((b : Words) × (block_read i ≡ some b) × (is_rdb b ≡ some false))

  get_rdb_loop-skip :
      (n i : ℕ) → Skipped i → get_rdb_loop block_read (suc n) i ≡ get_rdb_loop block_read n (i + 1)
  unfolding get_rdb_loop
  get_rdb_loop-skip n i (inl e) = rw (e, get_rdb_loop)
  get_rdb_loop-skip n i (inr (b, e, h)) = rw (e, h, get_rdb_loop)

  get_rdb_loop-first :
      (n i k : ℕ) (rdb : Words)
      → i ≤ k
      → k < i + n
      → block_read k ≡ some rdb
      → is_rdb rdb ≡ some true
      → ((j : ℕ) → i ≤ j → j < k → Skipped j)
      → get_rdb_loop block_read n i ≡ found rdb
  unfolding get_rdb_loop
  get_rdb_loop-first zero i k rdb a b e h skipped = absurd (omega arith)
  get_rdb_loop-first (suc n) i k rdb a b e h skipped = elim (Bool-cases (i == k)) [
    | inl same ↦ let i_is_k : i ≡ k = (==_iff i k).0 same in rw (i_is_k, e, h, get_rdb_loop)
    | inr differ ↦
        let before : i < k = ground arith in
        get_rdb_loop-skip n i (skipped i (omega arith) before)
        ∙ get_rdb_loop-first n (i + 1) k rdb (omega arith) (omega arith) e h
            (λ j c d. skipped j (omega arith) d)
  ]

  -- `get_rdb` returns the first of the sixteen blocks that is an RDB with a good checksum.
  pub get_rdb-first :
      (k : ℕ) (rdb : Words)
      → k < rdb_location_limit
      → block_read k ≡ some rdb
      → is_rdb rdb ≡ some true
      → ((j : ℕ) → j < k → Skipped j)
      → get_rdb block_read ≡ found rdb
  unfolding get_rdb
  get_rdb-first k rdb h e g skipped =
      get_rdb_loop-first 16 0 k rdb (omega arith) (omega arith) e g (λ j _ d. skipped j d)

  get_rdb_loop-absent :
      (n i : ℕ) → ((j : ℕ) → i ≤ j → j < i + n → Skipped j) → get_rdb_loop block_read n i ≡ absent
  get_rdb_loop-absent zero i skipped = unfold get_rdb_loop in refl
  get_rdb_loop-absent (suc n) i skipped =
      get_rdb_loop-skip n i (skipped i (omega arith) (omega arith))
      ∙ get_rdb_loop-absent n (i + 1) (λ j a b. skipped j (omega arith) (omega arith))

  -- If none of the sixteen blocks is one, `get_rdb` returns NULL.
  pub get_rdb-absent : ((j : ℕ) → j < rdb_location_limit → Skipped j) → get_rdb block_read ≡ absent
  unfolding get_rdb
  get_rdb-absent skipped = get_rdb_loop-absent 16 0 (λ j _ d. skipped j (omega arith))

  not_end : (b : ℕ) → b ≢ 0xffff_ffff → (b == 0xffff_ffff) ≡ false
  not_end b h = ground arith

  is_partition : (n : ℕ) → n ≡ idname_partition → (n == idname_partition) ≡ true
  is_partition n h = ground arith

  -- The chain of partition blocks from block `b` on: each can be read, is a partition with a good
  -- checksum, and names the next one.
  pub data Chain : ℕ → List Words → Type 0 where
    end : {b : ℕ} → b ≡ 0xffff_ffff → Chain b []
    next :
        {b : ℕ} {p : Words} {ps : List Words}
        → b ≢ 0xffff_ffff
        → block_read b ≡ some p
        → amiga_id p ≡ idname_partition
        → checksum p ≡ some 0
        → Chain (pb_next p) ps
        → Chain b (p ∷ ps)

  abbrev pub nth : List Words → ℕ → Search
  nth [] i = absent
  nth (p ∷ ps) zero = found p
  nth (p ∷ ps) (suc i) = nth ps i

  -- On a chain of good partition blocks the search for partition number `part` finds the block of that number, and
  -- none exactly behind the last one; as many rounds as there are blocks, and one, are enough.
  pub partition_loop-nth :
      (fuel part : ℕ) {b : ℕ} {ps : List Words}
      → Chain b ps
      → length ps < fuel
      → partition_loop block_read fuel b part ≡ nth ps part
  unfolding partition_loop
  partition_loop-nth zero part c h = absurd (omega arith)
  partition_loop-nth (suc fuel) part (end e) h = rw (e, partition_loop)
  partition_loop-nth (suc fuel) zero (next {b} {p} a r i s c) h =
      rw (not_end b a, r, is_partition (amiga_id p) i, s, partition_loop)
  partition_loop-nth (suc fuel) (suc part) (next {b} {p} a r i s c) h =
      rw (not_end b a, r, is_partition (amiga_id p) i, s, partition_loop)
        (partition_loop-nth fuel part c (omega arith))

  -- At a partition block whose checksum is not zero the search never ends: `continue` reads the
  -- same block again.
  pub partition_loop-hangs :
      (fuel b part sum : ℕ) (p : Words)
      → b ≢ 0xffff_ffff
      → block_read b ≡ some p
      → amiga_id p ≡ idname_partition
      → checksum p ≡ some (suc sum)
      → partition_loop block_read fuel b part ≡ out_of_fuel
  unfolding partition_loop
  partition_loop-hangs zero b part sum p a r i s = refl
  partition_loop-hangs (suc fuel) b part sum p a r i s =
      rw (not_end b a, r, is_partition (amiga_id p) i, s, partition_loop)
        (partition_loop-hangs fuel b part sum p a r i s)
