-- ===== src/Install/Main/Boots.antt =====
-- What a run of the installer leaves on the device.
use ub2lb.Prelude.{
  ℕ, ◌+◌, ◌*◌, ◌/◌, ◌^◌, ◌≤◌, ◌<◌, ◌≡◌, ◌≢◌, ◌∙◌, sym, refl, ap, subst, Bool-cases, inl, inr, true,
  false, some, List, [], ◌∷◌, ◌==◌, ==_iff, if◌then◌else◌, set, get_or, get_or-set,
  get_or-set_other, length, length-set, All, arith,
}
use ub2lb.Rdb.{Words, amiga_id, amiga_summed_longs, checksum, idname_rigiddisk}
use ub2lb.Install.{checksum-calculate_checksum}
use ub2lb.Install.Free.{Device, is_free}
use ub2lb.Install.Slb.{
  idname_free, write_block, write_block-same, write_block-other, Slb, words_from, located, find_rdb,
  erased, erase_slb, installed, install_slb, rdb_blocks, rdb_boot_block_list,
}
use ub2lb.Install.Slb.Chain.{load_chain, FreeList, FreeList-free, FreeList-apart, FreeList-bounded}
use ub2lb.Install.Slb.Erase.{BootChain, chained, IsErased, erase_slb-Cleared}
use ub2lb.Install.Slb.RoundTrip.{install_slb-Installed}
use ub2lb.Install.Slb.Find.{find_rdb-Found}
use ub2lb.Install.Main.{success, write_rdb, after_install, main}

-- The device with the blocks of the old chain free.
abbrev pub without : List ℕ → Device → Device
without [] dev x = dev x
without (b ∷ bs) dev x = if x == b then idname_free ∷ [] else without bs dev x

is_free-without :
    (dev dev1 : Device) (bs : List ℕ) (x : ℕ)
    → All (λ b. IsErased (dev1 b)) bs
    → (All (λ b. b ≢ x) bs → dev1 x ≡ dev x)
    → is_free (dev1 x) ≡ is_free (without bs dev x)
unfolding is_free
is_free-without dev dev1 [] x a h = ap is_free (h tt)
is_free-without dev dev1 (b ∷ bs) x a h = elim (Bool-cases (x == b)) [
  | inl e ↦
      let same : x ≡ b = (==_iff x b).0 e in
      let free : is_free (dev1 x) ≡ true =
        subst (λ y. is_free (dev1 y) ≡ true) (sym same) ((a.0).0) in
      free ∙ rw e refl
  | inr e ↦
      let other : b ≢ x = λ q. ground arith in
      is_free-without dev dev1 bs x (a.1) (λ apart. h (other, apart)) ∙ rw e refl
]

-- The RDB is no block of a chain of boot blocks.
BootChain-apart :
    (dev : Device) (block x : ℕ) (bs : List ℕ)
    → amiga_id (dev x) ≡ idname_rigiddisk
    → BootChain dev block bs
    → All (λ b. b ≢ x) bs
BootChain-apart dev block x [] id c = tt
BootChain-apart dev _ x _ id (chained {block} {bs} low boot apart rest) = (
  (λ e. let same = ap (λ b. amiga_id (dev b)) e in ground (arith, same, id, boot.id)),
  BootChain-apart dev _ x bs id rest,
)

-- The last step of `main`: the RDB, which names the chain, is written back.
write_rdb-success :
    (dev : Device) (rb first : ℕ) (rdb : Words)
    → length rdb ≡ 128
    → amiga_id rdb ≡ idname_rigiddisk
    → 3 ≤ amiga_summed_longs rdb
    → amiga_summed_longs rdb ≤ 128
    → get_or rdb 2 0 < 2 ^ 32
    → (rdb' : Words) × (write_rdb dev rb (set rdb 10 first) ≡ success (write_block dev rdb' rb))
      × (amiga_id rdb' ≡ idname_rigiddisk)
      × (rdb_boot_block_list rdb' ≡ first)
      × (checksum rdb' ≡ some 0)
write_rdb-success dev rb first rdb size id enough fits word_chk =
    let named = set rdb 10 first in
    let ids = get_or-set_other rdb 10 0 first 0 (λ e. ground (arith, e)) in
    let longs = get_or-set_other rdb 10 1 first 0 (λ e. ground (arith, e)) in
    let chk = get_or-set_other rdb 10 2 first 0 (λ e. ground (arith, e)) in
    let (v, runs, sound, short) =
      checksum-calculate_checksum named (length-set rdb 10 first ∙ size)
        (omega (arith, longs, enough)) (omega (arith, longs, fits))
        (omega (arith, chk, word_chk)) in
    (
      set named 2 v,
      rw (runs, write_rdb) refl,
      get_or-set_other named 2 0 v 0 (λ e. ground (arith, e)) ∙ ids ∙ id,
      get_or-set_other named 2 10 v 0 (λ e. ground (arith, e))
          ∙ get_or-set rdb 10 first 0 (omega (arith, size)),
      sound,
    )

-- A write to a block spares the blocks of a list that it is not in.
unwritten :
    (dev : Device) (blk : Words) (rb nblocks : ℕ) (bs : List ℕ)
    → rb < 2 ^ 23
    → nblocks < 2 ^ 23
    → All (λ b. b ≤ nblocks) bs
    → All (λ b. rb ≢ b) bs
    → All (λ b. write_block dev blk rb b ≡ dev b) bs
unwritten dev blk rb nblocks [] low small inside apart = tt
unwritten dev blk rb nblocks (b ∷ bs) low small inside apart = (
  write_block-other dev blk rb b low (omega (arith, inside.0)) (λ e. (apart.0) (sym e)),
  unwritten dev blk rb nblocks bs low small (inside.1) (apart.1),
)

main-run :
    (dev dev1 dev2 : Device) (rb st_size chk fuel : ℕ) (rdb rdb2 : Words) (slb : Slb)
    → find_rdb dev ≡ located rb rdb
    → erase_slb fuel dev rdb ≡ erased dev1
    → install_slb dev1 rdb slb (st_size / 4) chk ≡ (installed dev2, rdb2)
    → main 2 (some dev) (some st_size) (some slb) fuel chk ≡ write_rdb dev2 rb rdb2
unfolding main
main-run dev dev1 dev2 rb st_size chk fuel rdb rdb2 slb find erase install =
    rw (find, erase, main) (ap (after_install rb) install)

is_free-rdb : (blk : Words) → amiga_id blk ≡ idname_rigiddisk → is_free blk ≡ false
unfolding is_free
is_free-rdb blk e = rw e refl

-- Let the installer be called with one argument, and its device, the argument's size and its words be at hand; let
-- `find_rdb` find an RDB of 128 words, whose checksum covers the field itself and at most the block; let the RDB
-- name a chain of different boot blocks below 2^23 with good checksums, and as many free blocks below 2^23, with those of that
-- chain, as the loader needs and one more, in their order. Then the installer ends with 0, in one round of
-- `erase_slb` more than there are blocks in the old chain; the block of the RDB holds an RDB with a good checksum, whose list of boot
-- blocks loads just the whole words of the argument; and all other blocks below 2^23 but those of the two chains are
-- as they were.
pub main-Boots :
    (dev : Device) (rb st_size chk fuel : ℕ) (rdb : Words) (slb : Slb) (old : List ℕ) (first : ℕ)
    (bs : List ℕ)
    → find_rdb dev ≡ located rb rdb
    → length rdb ≡ 128
    → 3 ≤ amiga_summed_longs rdb
    → amiga_summed_longs rdb ≤ 128
    → get_or rdb 2 0 < 2 ^ 32
    → BootChain dev (rdb_boot_block_list rdb) old
    → length old < fuel
    → rdb_blocks rdb < 2 ^ 23
    → FreeList (without old dev) (rdb_blocks rdb) 0 (first ∷ bs)
    → 4 ≤ st_size
    → st_size / 4 ≤ 123 * length bs
    → chk < 2 ^ 32
    → (dev' : Device) × (rdb' : Words) × (main 2 (some dev) (some st_size) (some slb) fuel chk
        ≡ success dev')
      × (dev' rb ≡ rdb')
      × (amiga_id rdb' ≡ idname_rigiddisk)
      × (checksum rdb' ≡ some 0)
      × (load_chain dev' (length bs + 1) (rdb_boot_block_list rdb')
          ≡ some (words_from slb 0 (st_size / 4)))
      × ((x : ℕ)
          → x < 2 ^ 23
          → x ≢ rb
          → All (λ b. b ≢ x) old
          → All (λ b. x ≢ b) (first ∷ bs)
          → dev' x ≡ dev x)
main-Boots dev rb st_size chk fuel rdb slb old first bs find size enough fits word_chk chain rounds
      small free words room small_chk =
    let f = find_rdb-Found dev rb rdb find in
    let rb_low : rb < 2 ^ 23 = omega (arith, f.low) in
    let (dev1, erase, all_erased, kept) = erase_slb-Cleared fuel dev rdb old chain rounds in
    let rb_apart =
      BootChain-apart dev (rdb_boot_block_list rdb) rb old
        (subst (λ b. amiga_id b ≡ idname_rigiddisk) (sym f.is) f.id) chain in
    let still = kept rb rb_low rb_apart ∙ f.is in
    let free1 =
      FreeList-free (without old dev) dev1 (rdb_blocks rdb) 0 (first ∷ bs)
        (λ x p q. is_free-without dev dev1 old x all_erased (kept x (omega arith))) free in
    let i =
      install_slb-Installed dev1 rdb slb (st_size / 4) chk first bs small free1 (omega arith) room
        small_chk in
    let apart =
      FreeList-apart dev1 (rdb_blocks rdb) 0 rb (first ∷ bs)
        (is_free-rdb (dev1 rb) (subst (λ b. amiga_id b ≡ idname_rigiddisk) (sym still) f.id))
        free1 in
    let (rdb', last_write, id, list, sound) =
      write_rdb-success i.dev' rb first rdb size f.id enough fits word_chk in
    let dev' = write_block i.dev' rdb' rb in
    (
      dev',
      rdb',
      main-run dev dev1 i.dev' rb st_size chk fuel rdb (set rdb 10 first) slb find erase i.runs
          ∙ last_write,
      write_block-same i.dev' rdb' rb,
      id,
      sound,
      ap (load_chain dev' (length bs + 1)) list
          ∙ i.loads dev' (
              unwritten i.dev' rdb' rb (rdb_blocks rdb) (first ∷ bs) rb_low small
                (FreeList-bounded dev1 (rdb_blocks rdb) 0 (first ∷ bs) free1) apart),
      λ x low n not_old not_new.
          write_block-other i.dev' rdb' rb x rb_low low n
          ∙ i.others x low not_new
          ∙ kept x low not_old,
    )
