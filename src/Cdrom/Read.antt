-- ===== src/Cdrom/Read.antt =====
-- `cdrom_read` returns the bytes of the disc.
use ub2lb.Prelude.{
  ℕ, ==_iff, subst, zero, suc, ◌+◌, ◌-◌, ◌*◌, ◌/◌, ◌%◌, ◌^◌, ◌≤◌, ◌<◌, ◌≡◌, refl, sym, ap, ◌∙◌, min,
  arith, Bool-cases, inl, inr, some, [], ◌++◌, ◌==◌, Bytes, slice, slice-slice, slice-append,
  length,
}
use ub2lb.Support.{word}
use ub2lb.Cdrom.{
  Boot, BlockRead, Progress, Reading, ok, and_then, skip_blocks, fetch, read_head, read_sectors,
  read_tail, cdrom_read, copy,
}

-- The loop divides by 2048.
skip_blocks_lem :
    (fuel block offset : ℕ)
    → fuel ≡ offset / 2048
    → block + offset / 2048 < 2 ^ 32
    → skip_blocks fuel block offset ≡ (block + offset / 2048, offset % 2048)
unfolding skip_blocks
skip_blocks_lem zero block offset e h = ground arith
skip_blocks_lem (suc fuel) block offset e h =
    let go = skip_blocks_lem fuel (word (block + 1)) (offset - 2048) in ground (arith, go)

-- A disc, and what `block_read` documents: sectors within the disc are read as they are.
pub record Disc (block_read : BlockRead) : Type 0 where
  pub bytes : Bytes
  pub sectors : ℕ
  pub addressable : sectors < 2 ^ 32
  pub reads :
      (b n : ℕ) → b + n ≤ sectors → block_read b n ≡ some (slice (b * 2048) (n * 2048) bytes)

-- The result 0, with what holds then.
pub data Good (P : Progress → Type 0) : Reading → Type 0 where
  good : {p : Progress} → P p → Good P (ok p)

Good-and_then :
    {P Q : Progress → Type 0} {r : Reading} (next : Progress → Reading)
    → Good P r
    → ((p : Progress) → P p → Good Q (next p))
    → Good Q (and_then r next)
Good-and_then next (good h) step = step _ h

module _ (block_read : BlockRead) (disc : Disc block_read) where
  open disc use {bytes, sectors, addressable, reads}

  -- `tmpbuf` holds the sector that `sector_in_buf` names, unless that lies behind the disc.
  abbrev pub Coherent : Boot → Type 0
  Coherent boot =
      boot.sector_in_buf < sectors → boot.tmpbuf ≡ slice (boot.sector_in_buf * 2048) 2048 bytes

  fetch_lem :
      (boot : Boot) (block : ℕ)
      → block < sectors
      → Coherent boot
      → (boot' : Boot) × (fetch block_read boot block ≡ some boot')
        × (boot'.tmpbuf ≡ slice (block * 2048) 2048 bytes)
        × Coherent boot'
  unfolding fetch
  fetch_lem boot block h c = elim (Bool-cases (boot.sector_in_buf == block)) [
    | inl hit ↦
        let e : boot.sector_in_buf ≡ block = (==_iff boot.sector_in_buf block).0 hit in
        (
          boot,
          rw (hit, fetch),
          c (subst (λ s. s < sectors) (sym e) h) ∙ ap (λ s. slice (s * 2048) 2048 bytes) e,
          c,
        )
    | inr miss ↦ (
      record { tmpbuf = slice (block * 2048) 2048 bytes; sector_in_buf = block },
      rw (miss, fetch) (rw (reads block 1 (omega arith))),
      refl,
      λ _. refl,
    )
  ]

  -- `dest` holds the first bytes from `start` on, and the next sector follows them.
  record At (start total : ℕ) (p : Progress) : Type 0 where
    done : ℕ
    dest_is : p.dest ≡ slice start done bytes
    count : done + p.length ≡ total
    place : 0 < p.length → p.block * 2048 ≡ start + done
    coherent : Coherent p.boot

  module _ (start total : ℕ) (inside : start + total ≤ sectors * 2048) where
    copy-At :
        (p : Progress) (boot : Boot) (offset done : ℕ)
        → p.dest ≡ slice start done bytes
        → done + p.length ≡ total
        → p.block * 2048 + offset ≡ start + done
        → offset < 2048
        → p.block < sectors
        → boot.tmpbuf ≡ slice (p.block * 2048) 2048 bytes
        → Coherent boot
        → At start total (copy block_read p boot offset)
    copy-At p boot offset done d count place small here t c =
        let len = min p.length (2048 - offset) in
        record {
          done = done + len;
          dest_is =
              rw (d, t)
                (ap (λ x. slice start done bytes ++ x)
                    (slice-slice (p.block * 2048) 2048 offset len (start + done) bytes (omega arith)
                      (omega arith))
                  ∙ slice-append start done len (start + done) (done + len) bytes refl refl);
          count = omega arith;
          place = λ more. omega arith;
          coherent = c;
        }

    read_head-Good :
        (p : Progress) (offset : ℕ)
        → p.dest ≡ []
        → p.length ≡ total
        → p.block * 2048 + offset ≡ start
        → offset < 2048
        → Coherent p.boot
        → Good (At start total) (read_head block_read offset p)
    unfolding read_head
    read_head-Good p offset d l e small c = elim (Bool-cases (offset == 0)) [
      | inl aligned ↦
          rw (aligned, read_head)
            (good (record {
              done = 0;
              dest_is = d;
              count = omega arith;
              place = λ _. ground arith;
              coherent = c;
            }))
      | inr middle ↦
          let here : p.block < sectors = ground arith in
          let (boot, f, t, c') = fetch_lem p.boot p.block here c in
          rw (middle, f, read_head)
            (good (copy-At p boot offset 0 d (omega arith) (omega arith) small here t c'))
    ]

    read_sectors-Good :
        (p : Progress)
        → At start total p
        → Good (λ q. At start total q × (q.length < 2048)) (read_sectors block_read p)
    unfolding read_sectors
    read_sectors-Good p a = elim (Bool-cases (p.length / 2048 == 0)) [
      | inl few ↦ rw (few, read_sectors) (good (a, ground arith))
      | inr some_sectors ↦
          let n = p.length / 2048 in
          let many : 0 < n = ground arith in
          let place = a.place (omega arith) in
          rw (some_sectors, reads p.block n (omega (arith, a.count)), read_sectors)
            (good (
              record {
                done = a.done + n * 2048;
                dest_is =
                    rw (a.dest_is, place)
                      (slice-append start a.done (n * 2048) (start + a.done) (a.done + n * 2048)
                        bytes refl refl);
                count = omega (arith, a.count);
                place = λ more. omega (arith, a.count);
                coherent = a.coherent;
              },
              omega arith,
            ))
    ]

    -- All that was asked for.
    abbrev pub Whole : Progress → Type 0
    Whole p = (p.dest ≡ slice start total bytes) × Coherent p.boot

    At-Whole : (p : Progress) → At start total p → p.length ≡ 0 → Whole p
    At-Whole p a e =
        (a.dest_is ∙ ap (λ n. slice start n bytes) (omega (arith, a.count)), a.coherent)

    read_tail-Good :
        (p : Progress) → At start total p → p.length < 2048 → Good Whole (read_tail block_read p)
    unfolding read_tail
    read_tail-Good p a small = elim (Bool-cases (p.length == 0)) [
      | inl done ↦ rw (done, read_tail) (good (At-Whole p a (ground arith)))
      | inr more ↦
          let left : 0 < p.length = ground arith in
          let place = a.place left in
          let here : p.block < sectors = omega (arith, a.count) in
          let (boot, f, t, c) = fetch_lem p.boot p.block here a.coherent in
          let next =
            copy-At p boot 0 a.done a.dest_is a.count (omega arith) (omega arith) here t c in
          rw (more, f, read_tail) (good (At-Whole _ next (omega arith)))
    ]

-- `cdrom_read` returns 0 and writes the `length` bytes of the disc that stand `offset` bytes behind
-- the start of sector `block`, if the disc has them and `tmpbuf` is coherent, which it stays.
pub cdrom_read-Whole :
    (block_read : BlockRead) (disc : Disc block_read) (boot : Boot) (block offset length : ℕ)
    → block * 2048 + offset + length ≤ disc.sectors * 2048
    → Coherent block_read disc boot
    → Good
        (λ p.
          (p.dest ≡ slice (block * 2048 + offset) length disc.bytes)
          × Coherent block_read disc p.boot)
        (cdrom_read block_read boot block offset length)
unfolding cdrom_read
cdrom_read-Whole block_read disc boot block offset length inside c =
    let start = block * 2048 + offset in
    let skip =
      skip_blocks_lem (offset / 2048) block offset refl (omega (arith, disc.addressable)) in
    rw (skip, cdrom_read)
      (Good-and_then (read_tail block_read)
        (Good-and_then (read_sectors block_read)
          (read_head-Good block_read disc start length inside _ (offset % 2048) refl refl
            (omega arith) (omega arith) c)
          (read_sectors-Good block_read disc start length inside))
        λ p (a, small). read_tail-Good block_read disc start length inside p a small)
