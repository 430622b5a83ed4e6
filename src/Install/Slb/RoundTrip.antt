-- ===== src/Install/Slb/RoundTrip.antt =====
-- What `install_slb` writes is what a boot ROM loads.
use ub2lb.Prelude.{
  ℕ, ◌+◌, ◌*◌, ◌^◌, ◌≤◌, ◌<◌, ◌≡◌, ◌≢◌, ◌∙◌, refl, ap, false, some, List, [], ◌∷◌, leb, set,
  get_or-set, length, All, arith,
}
use ub2lb.Rdb.{Words}
use ub2lb.Install.Free.{Device}
use ub2lb.Install.Slb.{Slb, words_from, installed, install_slb, rdb_blocks, rdb_boot_block_list}
use ub2lb.Install.Slb.Write.{wrote}
use ub2lb.Install.Slb.Chain.{load_chain, FreeList, next_free_block-found, more}

-- What `install_slb` leaves: the device, and the RDB with the first block of the chain.
pub record Installed (dev : Device) (rdb : Words) (slb : Slb) (slb_size chk first : ℕ) (bs : List ℕ)
    : Type 0 where
  pub dev' : Device
  pub runs : install_slb dev rdb slb slb_size chk ≡ (installed dev', set rdb 10 first)
  pub loads :
      (dev'' : Device)
      → All (λ b. dev'' b ≡ dev' b) (first ∷ bs)
      → load_chain dev'' (length bs + 1) first ≡ some (words_from slb 0 slb_size)
  pub others : (x : ℕ) → x < 2 ^ 23 → All (λ b. x ≢ b) (first ∷ bs) → dev' x ≡ dev x

pub install_slb-Installed :
    (dev : Device) (rdb : Words) (slb : Slb) (slb_size chk first : ℕ) (bs : List ℕ)
    → rdb_blocks rdb < 2 ^ 23
    → FreeList dev (rdb_blocks rdb) 0 (first ∷ bs)
    → 0 < slb_size
    → slb_size ≤ 123 * length bs
    → chk < 2 ^ 32
    → Installed dev rdb slb slb_size chk first bs
unfolding install_slb
install_slb-Installed dev rdb slb slb_size chk first bs small (more less inside free others rest)
      some_word enough small_chk =
    let found = next_free_block-found dev (rdb_blocks rdb) 0 first less inside free others in
    let w =
      wrote slb slb_size (rdb_blocks rdb) small bs (slb_size + 1) dev 0 first chk rest some_word
        (omega arith) (omega arith) inside small_chk in
    let low : leb (2 ^ 31) first ≡ false = ground arith in
    record {
      dev' = w.dev';
      runs = rw (found, low, install_slb) (ap (λ r. (r, set rdb 10 first)) w.runs);
      loads = λ dev'' same.
          w.loads dev'' (length bs + 1) (same.0) (same.1) (omega arith)
          ∙ ap (λ (k : ℕ). some (words_from slb 0 k)) (omega arith);
      others = λ x h apart. w.others x h (apart.0) (apart.1);
    }

All-refl : (dev : Device) (bs : List ℕ) → All (λ b. dev b ≡ dev b) bs
All-refl dev [] = tt
All-refl dev (b ∷ bs) = (refl, All-refl dev bs)

-- If a loader of at least one word needs no more blocks than the free ones behind the first, in the
-- first 2^23 blocks, `install_slb` succeeds, and its RDB then names a chain of boot blocks with good
-- checksums, from which just the words of the loader can be loaded.
pub load_chain-install_slb :
    (dev : Device) (rdb : Words) (slb : Slb) (slb_size chk first : ℕ) (bs : List ℕ)
    → rdb_blocks rdb < 2 ^ 23
    → FreeList dev (rdb_blocks rdb) 0 (first ∷ bs)
    → 0 < slb_size
    → slb_size ≤ 123 * length bs
    → chk < 2 ^ 32
    → 34 ≤ length rdb
    → (dev' : Device) × (rdb' : Words) × (install_slb dev rdb slb slb_size chk
        ≡ (installed dev', rdb'))
      × (load_chain dev' (length bs + 1) (rdb_boot_block_list rdb')
          ≡ some (words_from slb 0 slb_size))
load_chain-install_slb dev rdb slb slb_size chk first bs small free some_word enough small_chk
      long =
    let i =
      install_slb-Installed dev rdb slb slb_size chk first bs small free some_word enough
        small_chk in
    (
      i.dev',
      set rdb 10 first,
      i.runs,
      ap (load_chain i.dev' (length bs + 1)) (get_or-set rdb 10 first 0 (omega arith))
          ∙ i.loads i.dev' (All-refl i.dev' (first ∷ bs)),
    )
