-- ===== src/Install/Slb/Erase.antt =====
-- `erase_slb` on a chain of boot blocks.
use ub2lb.Prelude.{
  ℕ, zero, suc, ◌^◌, ◌≤◌, ◌<◌, ◌≡◌, ◌≢◌, ◌∙◌, sym, subst, refl, ap, true, false, some, List, [],
  ◌∷◌, ◌==◌, All, set, get_or, length, length-set, get_or-set, get_or-set_other, arith,
}
use ub2lb.Rdb.{Words, amiga_id, amiga_summed_longs, checksum}
use ub2lb.Install.{calculate_checksum, checksum-calculate_checksum}
use ub2lb.Install.Free.{Device, is_free, idname_boot}
use ub2lb.Install.Slb.{
  idname_free, bcb_next, write_block, read_block, tested, good, erased, erase_loop, erase_slb,
  rdb_boot_block_list, write_block-same, write_block-other,
}

-- A boot block with a good checksum.
pub record IsBoot (blk : Words) : Type 0 where
  pub size : length blk ≡ 128
  pub id : amiga_id blk ≡ idname_boot
  pub enough : 5 ≤ amiga_summed_longs blk
  pub fits : amiga_summed_longs blk ≤ 128
  pub word_chk : get_or blk 2 0 < 2 ^ 32
  pub sound : checksum blk ≡ some 0

-- The numbers of the blocks of a chain, which are different and below 2^23.
pub data BootChain (dev : Device) : ℕ → List ℕ → Type 0 where
  end : {block : ℕ} → block ≡ idname_free → BootChain dev block []
  chained :
      {block : ℕ} {bs : List ℕ}
      → block < 2 ^ 23
      → IsBoot (dev block)
      → All (λ b. b ≢ block) bs
      → BootChain dev (bcb_next (dev block)) bs
      → BootChain dev block (block ∷ bs)

-- A block that the installer may take, with a good checksum.
abbrev pub IsErased : Words → Type 0
IsErased blk = (is_free blk ≡ true) × (checksum blk ≡ some 0)

record Freed (blk : Words) : Type 0 where
  free : Words
  runs : calculate_checksum (set blk 0 idname_free) ≡ some free
  is_erased : IsErased free
  next : bcb_next free ≡ bcb_next blk

freed : (blk : Words) → IsBoot blk → Freed blk
unfolding is_free
freed blk boot =
    let named = set blk 0 idname_free in
    let longs = get_or-set_other blk 0 1 idname_free 0 (λ e. ground (arith, e)) in
    let chk = get_or-set_other blk 0 2 idname_free 0 (λ e. ground (arith, e)) in
    let (v, runs, sound, short) =
      checksum-calculate_checksum named (length-set blk 0 idname_free ∙ boot.size)
        (omega (arith, longs, boot.enough)) (omega (arith, longs, boot.fits))
        (omega (arith, chk, boot.word_chk)) in
    let id : amiga_id (set named 2 v) ≡ idname_free =
      get_or-set_other named 2 0 v 0 (λ e. ground (arith, e))
      ∙ get_or-set blk 0 idname_free 0 (omega (arith, boot.size)) in
    record {
      free = set named 2 v;
      runs = runs;
      is_erased = (rw id refl, sound);
      next =
          get_or-set_other named 2 4 v 0 (λ e. ground (arith, e))
          ∙ get_or-set_other blk 0 4 idname_free 0 (λ e. ground (arith, e));
    }

BootChain-frame :
    (dev dev' : Device) (block : ℕ) (bs : List ℕ)
    → All (λ b. dev' b ≡ dev b) bs
    → BootChain dev block bs
    → BootChain dev' block bs
BootChain-frame dev dev' block [] same (end e) = end e
BootChain-frame dev dev' _ _ same (chained {block} {bs} low boot apart rest) =
    chained low (subst IsBoot (sym (same.0)) boot) apart (
      subst (λ b. BootChain dev' (bcb_next b) bs) (sym (same.0))
        (BootChain-frame dev dev' (bcb_next (dev block)) bs (same.1) rest))

read_block-boot :
    (dev : Device) (block : ℕ) → IsBoot (dev block) → read_block dev block ≡ good (dev block)
unfolding read_block
read_block-boot dev block boot = ap (tested (dev block)) boot.sound

-- The members of a chain that are not `block` are spared by a write to it.
spared :
    (dev : Device) (blk : Words) (block next : ℕ) (bs : List ℕ)
    → block < 2 ^ 23
    → All (λ b. b ≢ block) bs
    → BootChain dev next bs
    → All (λ b. write_block dev blk block b ≡ dev b) bs
spared dev blk block next [] low apart c = tt
spared dev blk block _ _ low apart (chained {block = b} {bs} b_low boot others rest) = (
  write_block-other dev blk block b low b_low (apart.0),
  spared dev blk block (bcb_next (dev b)) bs low (apart.1) rest,
)

erase_loop-step :
    (fuel : ℕ) (dev : Device) (block : ℕ) (f : Freed (dev block))
    → block < 2 ^ 23
    → IsBoot (dev block)
    → erase_loop (suc fuel) dev block
      ≡ erase_loop fuel (write_block dev f.free block) (bcb_next (dev block))
unfolding erase_loop
erase_loop-step fuel dev block f low boot =
    let n : (block == idname_free) ≡ false = ground arith in
    let id : (amiga_id (dev block) == idname_boot) ≡ true = ground (arith, boot.id) in
    rw (n, read_block-boot dev block boot, id, f.runs, erase_loop)
      (ap (erase_loop fuel (write_block dev f.free block)) f.next)

-- What the loop has done to the chain, and to the blocks that are not in it.
pub record Cleared (fuel : ℕ) (dev : Device) (block : ℕ) (bs : List ℕ) : Type 0 where
  pub dev' : Device
  pub runs : erase_loop fuel dev block ≡ erased dev'
  pub all_erased : All (λ b. IsErased (dev' b)) bs
  pub others : (x : ℕ) → x < 2 ^ 23 → All (λ b. b ≢ x) bs → dev' x ≡ dev x

erase_loop-end :
    (fuel : ℕ) (dev : Device) (block : ℕ)
    → block ≡ idname_free
    → erase_loop (suc fuel) dev block ≡ erased dev
unfolding erase_loop
erase_loop-end fuel dev block e = rw (e, erase_loop) refl

cleared :
    (fuel : ℕ) (dev : Device) (block : ℕ) (bs : List ℕ)
    → BootChain dev block bs
    → length bs < fuel
    → Cleared fuel dev block bs
cleared zero dev block bs c h = absurd (omega arith)
cleared (suc fuel) dev block [] (end e) h = record {
  dev' = dev;
  runs = erase_loop-end fuel dev block e;
  all_erased = tt;
  others = λ x _ _. refl;
}
cleared (suc fuel) dev _ _ (chained {block} {bs} low boot apart rest) h =
    let f = freed (dev block) boot in
    let dev1 = write_block dev f.free block in
    let later =
      cleared fuel dev1 (bcb_next (dev block)) bs
        (BootChain-frame dev dev1 (bcb_next (dev block)) bs
          (spared dev f.free block (bcb_next (dev block)) bs low apart rest) rest)
        (omega arith) in
    let here = later.others block low apart ∙ write_block-same dev f.free block in
    record {
      dev' = later.dev';
      runs = erase_loop-step fuel dev block f low boot ∙ later.runs;
      all_erased = (subst IsErased (sym here) f.is_erased, later.all_erased);
      others = λ x g a.
          later.others x g (a.1) ∙ write_block-other dev f.free block x low g (λ e. (a.0) (sym e));
    }

-- On a chain of different boot blocks below 2^23, each with a good checksum over its five words of head
-- at least and the block at most, `erase_slb` ends, in one round more than there are blocks; then each
-- block of the chain is free, with a good checksum, and the others below 2^23 are as they were.
pub erase_slb-Cleared :
    (fuel : ℕ) (dev : Device) (rdb : Words) (bs : List ℕ)
    → BootChain dev (rdb_boot_block_list rdb) bs
    → length bs < fuel
    → (dev' : Device) × (erase_slb fuel dev rdb ≡ erased dev')
      × All (λ b. IsErased (dev' b)) bs
      × ((x : ℕ) → x < 2 ^ 23 → All (λ b. b ≢ x) bs → dev' x ≡ dev x)
unfolding erase_slb
erase_slb-Cleared fuel dev rdb bs c h =
    let r = cleared fuel dev (rdb_boot_block_list rdb) bs c h in
    (r.dev', r.runs, r.all_erased, r.others)
