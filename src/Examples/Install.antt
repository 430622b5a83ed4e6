-- ===== src/Examples/Install.antt =====
-- A device whose blocks 0 and 1 are taken.
use ub2lb.Prelude.{
  ℕ, zero, suc, ◌+◌, ◌^◌, ◌<◌, ◌≡◌, ◌≢◌, refl, false, some, [], ◌∷◌, ◌++◌, All, arith,
}
use ub2lb.Rdb.{Words, amiga_id, checksum, sum_words, idname_rigiddisk}
use ub2lb.Install.Slb.{
  read_block, located, find_rdb_loop, find_rdb, erase_slb, erased, idname_free, install_slb,
  installed, rdb_blocks, rdb_boot_block_list, Slb, words_from,
}
use ub2lb.Install.Slb.Chain.{load_chain, FreeList, last, more}
use ub2lb.Install.Slb.RoundTrip.{load_chain-install_slb}
use ub2lb.Install.Main.{success, main}
use ub2lb.Install.Main.Boots.{without, main-Boots}
use ub2lb.Install.Slb.Erase.{end, chained, IsBoot, IsErased, erase_slb-Cleared}
use ub2lb.Install.Free.{is_free, Device, idname_boot}

abbrev device : Device
device zero = 0x5244534b ∷ []
device (suc zero) = idname_boot ∷ []
device (suc (suc n)) = 0 ∷ []

abbrev zeros : ℕ → Words
zeros zero = []
zeros (suc n) = 0 ∷ zeros n

-- One boot block.
abbrev boot_chain : Words
boot_chain = idname_boot ∷ 5 ∷ 0xbdb0_b0a8 ∷ 0 ∷ idname_free ∷ zeros 123

-- An RDB whose list of boot blocks starts at block 1, with blocks 0 to 100.
abbrev rdb : Words
rdb = 0x5244_534b ∷ 64 ∷ 0 ∷ 0 ∷ 0 ∷ 0 ∷ 0 ∷ 0 ∷ 0 ∷ 0 ∷ 1 ∷ zeros 22 ++ 100 ∷ zeros 94

abbrev with_loader : Device
with_loader zero = rdb
with_loader (suc zero) = boot_chain
with_loader (suc (suc n)) = 0 ∷ []

boot_chain-IsBoot : IsBoot boot_chain
unfolding checksum sum_words
boot_chain-IsBoot = record {
  size = refl;
  id = refl;
  enough = omega arith;
  fits = omega arith;
  word_chk = omega arith;
  sound = refl;
}

erase_slb-Cleared_example :
    (dev' : Device) × (erase_slb 2 with_loader rdb ≡ erased dev')
    × All (λ b. IsErased (dev' b)) (1 ∷ [])
    × ((x : ℕ) → x < 2 ^ 23 → All (λ b. b ≢ x) (1 ∷ []) → dev' x ≡ with_loader x)
erase_slb-Cleared_example =
    erase_slb-Cleared 2 with_loader rdb (1 ∷ [])
      (chained (omega arith) boot_chain-IsBoot tt (end refl)) (omega arith)

abbrev loader : Slb
loader i = i + 1

only_one : (i : ℕ) → 0 < i → i < 2 → is_free (device i) ≡ false
unfolding is_free
only_one i g h = let e : i ≡ 1 = omega arith in rw e refl

free_blocks : FreeList device (rdb_blocks rdb) 0 (2 ∷ 3 ∷ 4 ∷ [])
unfolding is_free
free_blocks = more (omega arith) (omega arith) refl only_one (
    more (omega arith) (omega arith) refl (λ i g h. absurd (omega arith))
      (more (omega arith) (omega arith) refl (λ i g h. absurd (omega arith)) last))

load_chain-install_slb_example :
    (dev' : Device) × (rdb' : Words) × (install_slb device rdb loader 200 7
      ≡ (installed dev', rdb'))
    × (load_chain dev' 3 (rdb_boot_block_list rdb') ≡ some (words_from loader 0 200))
load_chain-install_slb_example =
    load_chain-install_slb device rdb loader 200 7 2 (3 ∷ 4 ∷ []) (omega arith) free_blocks
      (omega arith) (omega arith) (omega arith) (omega arith)

-- The same RDB with a good checksum.
abbrev sound_rdb : Words
sound_rdb =
    0x5244_534b ∷ 64 ∷ 0xadbb_ac10 ∷ 0 ∷ 0 ∷ 0 ∷ 0 ∷ 0 ∷ 0 ∷ 0 ∷ 1 ∷ zeros 22 ++ 100 ∷ zeros 94

abbrev booting : Device
booting zero = sound_rdb
booting (suc zero) = boot_chain
booting (suc (suc n)) = 0 ∷ []

booting-found : find_rdb booting ≡ located 0 sound_rdb
unfolding find_rdb find_rdb_loop read_block checksum sum_words
booting-found = refl

booting-free : FreeList (without (1 ∷ []) booting) (rdb_blocks sound_rdb) 0 (1 ∷ 2 ∷ 3 ∷ [])
unfolding is_free
booting-free =
    more (omega arith) (omega arith) refl (λ i g h. absurd (omega arith))
      (more (omega arith) (omega arith) refl (λ i g h. absurd (omega arith))
        (more (omega arith) (omega arith) refl (λ i g h. absurd (omega arith)) last))

main-Boots_example :
    (dev' : Device) × (rdb' : Words) × (main 2 (some booting) (some 803) (some loader) 2 7
      ≡ success dev')
    × (dev' 0 ≡ rdb')
    × (amiga_id rdb' ≡ idname_rigiddisk)
    × (checksum rdb' ≡ some 0)
    × (load_chain dev' 3 (rdb_boot_block_list rdb') ≡ some (words_from loader 0 200))
    × ((x : ℕ)
        → x < 2 ^ 23
        → x ≢ 0
        → All (λ b. b ≢ x) (1 ∷ [])
        → All (λ b. x ≢ b) (1 ∷ 2 ∷ 3 ∷ [])
        → dev' x ≡ booting x)
main-Boots_example =
    main-Boots booting 0 803 7 2 sound_rdb loader (1 ∷ []) 1 (2 ∷ 3 ∷ []) booting-found refl
      (omega arith) (omega arith) (omega arith)
      (chained (omega arith) boot_chain-IsBoot tt (end refl)) (omega arith) (omega arith)
      booting-free (omega arith) (omega arith) (omega arith)
