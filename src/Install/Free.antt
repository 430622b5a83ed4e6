-- ===== src/Install/Free.antt =====
-- `IS_FREE` of src/rdb.h and `next_free_block` of tools/parthenope-install.c. The device is a function from block numbers
-- to blocks; whether a block has a good checksum makes no difference to the search, since `continue` goes
-- to the test at the end of the loop.
use ub2lb.Prelude.{
  ℕ, zero, suc, ◌+◌, ◌-◌, ◌≤◌, ◌<◌, ◌≡◌, ◌∙◌, refl, ap, Bool, Bool-cases, inl, inr, true, false,
  not, ◌&&◌, Option, none, some, ltb, ◌==◌, if◌then◌else◌, arith,
}
use ub2lb.Rdb.{Words, amiga_id, idname_rigiddisk, idname_partition}

abbrev pub idname_badblock : ℕ
idname_badblock = 0x42414442

abbrev pub idname_filesysheader : ℕ
idname_filesysheader = 0x46534844

abbrev pub idname_loadseg : ℕ
idname_loadseg = 0x4c534547

abbrev pub idname_boot : ℕ
idname_boot = 0x424f4f54

unfoldable pub is_free : Words → Bool
is_free blk =
    let id = amiga_id blk in
    not (id == idname_rigiddisk)
    && not (id == idname_badblock)
    && not (id == idname_partition)
    && not (id == idname_filesysheader)
    && not (id == idname_loadseg)
    && not (id == idname_boot)

abbrev pub Device : Type 0
Device = ℕ → Words

-- The loop behind `free_pointer`, on fuel; `some none` for the return of -1.
unfoldable pub next_free_loop : Device → ℕ → ℕ → ℕ → Option (Option ℕ)
unfolding is_free
next_free_loop dev nblocks zero free_pointer = none
next_free_loop dev nblocks (suc fuel) free_pointer =
    let block = free_pointer + 1 in
    let rest = next_free_loop dev nblocks fuel block in
    if is_free (dev block) then some (some block) else if ltb block nblocks then rest else some none

unfoldable pub next_free_block : Device → ℕ → ℕ → Option (Option ℕ)
unfolding next_free_loop
next_free_block dev nblocks free_pointer =
    next_free_loop dev nblocks (nblocks - free_pointer + 1) free_pointer

module _ (dev : Device) (nblocks : ℕ) where
  -- What the search behind `from` comes to: the next free block, or none up to `nblocks`.
  pub data NextFree (from : ℕ) : Option ℕ → Type 0 where
    next :
        {block : ℕ}
        → from < block
        → is_free (dev block) ≡ true
        → ((i : ℕ) → from < i → i < block → is_free (dev i) ≡ false)
        → NextFree from (some block)
    full : ((i : ℕ) → from < i → i ≤ nblocks → is_free (dev i) ≡ false) → NextFree from none

  NextFree-suc :
      {from : ℕ} {result : Option ℕ}
      → is_free (dev (from + 1)) ≡ false
      → NextFree (from + 1) result
      → NextFree from result
  NextFree-suc {from} h (next {block} less free others) = next (omega arith) free (λ i a b.
      elim (Bool-cases (i == from + 1)) [
        | inl e ↦ ground (arith, e, h)
        | inr e ↦ others i (ground (arith, e)) b
      ])
  NextFree-suc {from} h (full others) = full (λ i a b. elim (Bool-cases (i == from + 1)) [
    | inl e ↦ ground (arith, e, h)
    | inr e ↦ others i (ground (arith, e)) b
  ])

  last_one :
      {from : ℕ} (i : ℕ) → from < i → i ≤ nblocks → ltb (from + 1) nblocks ≡ false → i ≡ from + 1
  last_one i a b h = ground arith

  next_free_loop-NextFree :
      (fuel free_pointer : ℕ)
      → nblocks - free_pointer < fuel
      → (result : Option ℕ) × (next_free_loop dev nblocks fuel free_pointer ≡ some result)
        × NextFree free_pointer result
  unfolding next_free_loop
  next_free_loop-NextFree zero from h = absurd (omega arith)
  next_free_loop-NextFree (suc fuel) from h = elim (Bool-cases (is_free (dev (from + 1)))) [
    | inl free ↦ (
      some (from + 1),
      rw (free, next_free_loop) refl,
      next (omega arith) free (λ i a b. absurd (omega arith)),
    )
    | inr used ↦ elim (Bool-cases (ltb (from + 1) nblocks)) [
      | inl more ↦
          let (result, e, p) = next_free_loop-NextFree fuel (from + 1) (ground arith) in
          (result, rw (used, more, next_free_loop) e, NextFree-suc used p)
      | inr last ↦ (
        none,
        rw (used, last, next_free_loop) refl,
        full (λ i a b. ap (λ k. is_free (dev k)) (last_one i a b last) ∙ used),
      )
    ]
  ]

  -- `next_free_block` ends, and returns the first free block behind `free_pointer`, or -1 where
  -- none of the blocks up to `nblocks` is free.
  pub next_free_block-NextFree :
      (free_pointer : ℕ)
      → (result : Option ℕ) × (next_free_block dev nblocks free_pointer ≡ some result)
        × NextFree free_pointer result
  unfolding next_free_block
  next_free_block-NextFree free_pointer =
      next_free_loop-NextFree (nblocks - free_pointer + 1) free_pointer (omega arith)
