-- ===== src/Install/Slb/Write.antt =====
-- What the loop of `install_slb` in tools/parthenope-install.c writes.
use ub2lb.Prelude.{
  ℕ, zero, suc, ◌+◌, ◌-◌, ◌*◌, ◌^◌, ◌≤◌, ◌<◌, ◌≡◌, ◌≢◌, ◌∙◌, sym, refl, ap, Bool-cases, inl, inr,
  true, false, some, List, [], ◌∷◌, leb, ltb, append-nil, take, drop, length, All, arith,
}
use ub2lb.Rdb.{amiga_id, amiga_summed_longs, checksum}
use ub2lb.Install.{calculate_checksum, checksum-calculate_checksum}
use ub2lb.Install.Free.{Device, idname_boot, next_free_block}
use ub2lb.Install.Slb.{
  idname_free, bcb_next, write_block, write_block-same, write_block-other, Slb, words_from,
  boot_block, installed, install_loop,
}
use ub2lb.Install.Slb.Chain.{
  load_chain, FreeList, next_free_block-found, take-words_from, words_from-add, length-words_from,
  load_chain-cons, load_chain-end, FreeList-frame, more,
}

-- A boot block as it is written: with its checksum.
record Written (slb : Slb) (slb_size offset next chk : ℕ) : Type 0 where
  v : ℕ
  runs :
      calculate_checksum (boot_block slb slb_size offset next chk)
      ≡ some (boot_block slb slb_size offset next v)
  sound : checksum (boot_block slb slb_size offset next v) ≡ some 0
  short : v < 2 ^ 32

written :
    (slb : Slb) (slb_size offset next chk : ℕ)
    → offset < slb_size
    → chk < 2 ^ 32
    → Written slb slb_size offset next chk
unfolding boot_block
written slb slb_size offset next chk less h =
    let (v, runs, sound, short) =
      checksum-calculate_checksum (boot_block slb slb_size offset next chk)
        (omega (arith, length-words_from slb offset 123)) (ground arith) (ground arith) h in
    record { v = v; runs = runs; sound = sound; short = short }

boot_block-id :
    (slb : Slb) (slb_size offset next chk : ℕ)
    → amiga_id (boot_block slb slb_size offset next chk) ≡ idname_boot
unfolding boot_block
boot_block-id slb slb_size offset next chk = refl

-- The last block, and those in front of it.
boot_block-last :
    (slb : Slb) (slb_size offset next chk : ℕ)
    → slb_size - offset ≤ 123
    → let blk = boot_block slb slb_size offset next chk in
      (take (amiga_summed_longs blk - 5) (drop 5 blk) ≡ words_from slb offset (slb_size - offset))
      × (bcb_next blk ≡ idname_free)
unfolding boot_block
boot_block-last slb slb_size offset next chk h =
    let last : leb (slb_size - offset) 123 ≡ true = ground arith in
    let count : 5 + (slb_size - offset) - 5 ≡ slb_size - offset = omega arith in
    (rw (last, count) (take-words_from slb offset (slb_size - offset) 123 h), rw last refl)

boot_block-full :
    (slb : Slb) (slb_size offset next chk : ℕ)
    → 123 < slb_size - offset
    → let blk = boot_block slb slb_size offset next chk in
      (take (amiga_summed_longs blk - 5) (drop 5 blk) ≡ words_from slb offset 123)
      × (bcb_next blk ≡ next)
unfolding boot_block
boot_block-full slb slb_size offset next chk h =
    let more : leb (slb_size - offset) 123 ≡ false = ground arith in
    (rw more (take-words_from slb offset 123 123 (omega arith)), rw more refl)

module _ (slb : Slb) (slb_size nblocks : ℕ) (small : nblocks < 2 ^ 23) where
  -- What the loop leaves from block `block` on.
  pub record Wrote (fuel : ℕ) (dev : Device) (offset block chk : ℕ) (bs : List ℕ) : Type 0 where
    pub dev' : Device
    pub runs : install_loop fuel dev nblocks slb slb_size offset block chk ≡ installed dev'
    pub before : (x : ℕ) → x < block → dev' x ≡ dev x
    -- The chain can be loaded from any device that has its blocks.
    pub loads :
        (dev'' : Device) (fuel' : ℕ)
        → dev'' block ≡ dev' block
        → All (λ b. dev'' b ≡ dev' b) bs
        → length bs < fuel'
        → load_chain dev'' fuel' block ≡ some (words_from slb offset (slb_size - offset))
    pub others : (x : ℕ) → x < 2 ^ 23 → x ≢ block → All (λ b. x ≢ b) bs → dev' x ≡ dev x

  install_loop-step :
      (fuel : ℕ) (dev : Device) (offset block next chk : ℕ)
      (w : Written slb slb_size offset next chk)
      → offset < slb_size
      → next < 2 ^ 31
      → next_free_block dev nblocks block ≡ some (some next)
      → install_loop (suc fuel) dev nblocks slb slb_size offset block chk
        ≡ install_loop fuel
            (write_block dev (boot_block slb slb_size offset next w.v) block)
            nblocks
            slb
            slb_size
            (offset + 123)
            next
            w.v
  unfolding install_loop boot_block
  install_loop-step fuel dev offset block next chk w less low found =
      let less' : ltb offset slb_size ≡ true = ground arith in
      let low' : leb (2 ^ 31) next ≡ false = ground arith in
      rw (less', found, low', w.runs, install_loop) refl

  install_loop-end :
      (fuel : ℕ) (dev : Device) (offset block chk : ℕ)
      → slb_size ≤ offset
      → install_loop (suc fuel) dev nblocks slb slb_size offset block chk ≡ installed dev
  unfolding install_loop
  install_loop-end fuel dev offset block chk h =
      let over : ltb offset slb_size ≡ false = ground arith in rw (over, install_loop) refl

  last_write :
      (fuel : ℕ) (dev : Device) (offset block chk next : ℕ) (bs : List ℕ)
      → offset < slb_size
      → slb_size - offset ≤ 123
      → next < 2 ^ 31
      → block ≤ nblocks
      → chk < 2 ^ 32
      → next_free_block dev nblocks block ≡ some (some next)
      → Wrote (suc (suc fuel)) dev offset block chk (next ∷ bs)
  last_write fuel dev offset block chk next bs less short low inside small_chk found =
      let w = written slb slb_size offset next chk less small_chk in
      let blk = boot_block slb slb_size offset next w.v in
      let dev' = write_block dev blk block in
      let (payload, no_next) = boot_block-last slb slb_size offset next w.v short in
      record {
        dev' = dev';
        runs =
            install_loop-step (suc fuel) dev offset block next chk w less low found
            ∙ install_loop-end fuel dev' (offset + 123) next w.v (omega arith);
        before = λ x h.
            write_block-other dev blk block x (omega arith) (omega arith) (λ e. omega (arith, e));
        loads = λ dev'' fuel' here _ h.
            load_chain-cons dev'' fuel' block blk (words_from slb offset (slb_size - offset)) []
              (omega arith) (λ e. omega (arith, e)) (here ∙ write_block-same dev blk block)
              (boot_block-id slb slb_size offset next w.v) w.sound payload
              (rw no_next (load_chain-end dev'' (fuel' - 1) (omega arith)))
            ∙ ap some (append-nil (words_from slb offset (slb_size - offset)));
        others = λ x h n _. write_block-other dev blk block x (omega arith) h n;
      }

  -- A block that is not the last one, with what is written behind it.
  full_write :
      (fuel : ℕ) (dev : Device) (offset block chk next : ℕ) (bs : List ℕ)
      → (w : Written slb slb_size offset next chk) → offset < slb_size
      → 123 < slb_size - offset
      → next < 2 ^ 23
      → block < next
      → next_free_block dev nblocks block ≡ some (some next)
      → Wrote fuel
          (write_block dev (boot_block slb slb_size offset next w.v) block)
          (offset + 123)
          next
          w.v
          bs
      → Wrote (suc fuel) dev offset block chk (next ∷ bs)
  full_write fuel dev offset block chk next bs w less long low before found later =
      let blk = boot_block slb slb_size offset next w.v in
      let (payload, to_next) = boot_block-full slb slb_size offset next w.v long in
      let parts : 123 + (slb_size - (offset + 123)) ≡ slb_size - offset = omega arith in
      record {
        dev' = later.dev';
        runs =
            install_loop-step fuel dev offset block next chk w less (omega arith) found
            ∙ later.runs;
        before = λ x h.
            later.before x (omega arith)
            ∙ write_block-other dev blk block x (omega arith) (omega arith) (λ e. omega (arith, e));
        loads = λ dev'' fuel' here rest h.
            load_chain-cons dev'' fuel' block blk (words_from slb offset 123)
              (words_from slb (offset + 123) (slb_size - (offset + 123))) (omega arith)
              (λ e. omega (arith, e))
              (here ∙ later.before block before ∙ write_block-same dev blk block)
              (boot_block-id slb slb_size offset next w.v) w.sound payload
              (ap (load_chain dev'' (fuel' - 1)) to_next
                ∙ later.loads dev'' (fuel' - 1) (rest.0) (rest.1) (omega arith))
            ∙ ap some (
                sym (words_from-add slb offset 123 (slb_size - (offset + 123)))
                ∙ ap (words_from slb offset) parts);
        others = λ x h n apart.
            later.others x h (apart.0) (apart.1)
            ∙ write_block-other dev blk block x (omega arith) h n;
      }

  pub wrote :
      (bs : List ℕ) (fuel : ℕ) (dev : Device) (offset block chk : ℕ)
      → FreeList dev nblocks block bs
      → offset < slb_size
      → slb_size - offset ≤ 123 * length bs
      → slb_size - offset < fuel
      → block ≤ nblocks
      → chk < 2 ^ 32
      → Wrote fuel dev offset block chk bs
  wrote [] fuel dev offset block chk free less enough f inside small_chk = absurd (omega arith)
  wrote (next ∷ bs) zero dev offset block chk free less enough f inside small_chk =
      absurd (omega arith)
  wrote (next ∷ bs) (suc zero) dev offset block chk free less enough f inside small_chk =
      absurd (omega arith)
  wrote (next ∷ bs) (suc (suc fuel)) dev offset block chk (more b_less b_inside b_free others rest)
        less enough f inside small_chk =
      let found = next_free_block-found dev nblocks block next b_less b_inside b_free others in
      let w = written slb slb_size offset next chk less small_chk in
      let blk = boot_block slb slb_size offset next w.v in
      elim (Bool-cases (leb (slb_size - offset) 123)) [
        | inl final ↦
            last_write fuel dev offset block chk next bs less (ground arith) (omega arith) inside
              small_chk found
        | inr full ↦
            full_write (suc fuel) dev offset block chk next bs w less (ground arith) (omega arith)
              b_less found
              (wrote bs (suc fuel) (write_block dev blk block) (offset + 123) next w.v
                (FreeList-frame dev (write_block dev blk block) nblocks next bs
                  (λ x h g.
                    write_block-other dev blk block x (omega arith) (omega arith)
                      (λ e. omega (arith, e)))
                  rest)
                (ground arith) (ground arith) (ground arith) b_inside w.short)
      ]
