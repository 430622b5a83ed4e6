-- ===== src/Cdrom.antt =====
-- The CD-ROM device of src/cdrom.c. `block_read` is U-Boot's: `none` is the result 0.
pub mod Read
pub mod Susp
pub mod Find
pub mod Create
use ub2lb.Prelude.{
  ℕ, zero, suc, ◌+◌, ◌-◌, ◌*◌, ◌/◌, ◌<◌, Bool, true, false, Option, none, some, List, [], ◌∷◌, ◌++◌,
  ltb, min, leb, ◌==◌, if◌then◌else◌, Bytes, take, drop, slice,
}
use ub2lb.Support.{word}

-- The part of `cdrom_boot_dev_t` that `cdrom_read` uses.
pub record Boot : Type 0 where
  pub tmpbuf : Bytes
  pub sector_in_buf : ℕ

-- `phys->block_read(phys->dev, start, count, buffer)`
abbrev pub BlockRead : Type 0
BlockRead = ℕ → ℕ → Option Bytes

-- The variables of `cdrom_read` between its parts: `dest` holds the bytes that have been written.
pub record Progress : Type 0 where
  pub boot : Boot
  pub block : ℕ
  pub length : ℕ
  pub dest : Bytes

-- The results 0 and -1, each with what has been done.
pub data Reading : Type 0 where
  ok : Progress → Reading
  failed : Progress → Reading

abbrev pub and_then : Reading → (Progress → Reading) → Reading
and_then (ok p) next = next p
and_then (failed p) next = failed p

-- `while (offset >= 2048) { block++; offset -= 2048; }`, on fuel.
unfoldable pub skip_blocks : ℕ → ℕ → ℕ → ℕ × ℕ
skip_blocks zero block offset = (block, offset)
skip_blocks (suc fuel) block offset =
    let rest = skip_blocks fuel (word (block + 1)) (offset - 2048) in
    if leb 2048 offset then rest else (block, offset)

module _ (block_read : BlockRead) where
  -- A sector comes from `tmpbuf`, if it is there. A read that fails leaves `tmpbuf` as it was.
  unfoldable pub fetch : Boot → ℕ → Option Boot
  fetch boot block = if boot.sector_in_buf == block then some boot else elim (block_read block 1) [
    | none ↦ none
    | some sector ↦ some (record { tmpbuf = sector; sector_in_buf = block })
  ]

  -- `memcpy` from `tmpbuf`, which ends at the end of the sector.
  abbrev copy : Progress → Boot → ℕ → Progress
  copy p boot offset =
      let len = min p.length (2048 - offset) in
      record {
        boot = boot;
        block = word (p.block + 1);
        length = p.length - len;
        dest = p.dest ++ slice offset len boot.tmpbuf;
      }

  -- `if (offset)`: from the middle of a sector to its end.
  unfoldable pub read_head : ℕ → Progress → Reading
  unfolding fetch
  read_head offset p =
      if offset == 0
      then ok p
      else elim (fetch p.boot p.block) [ none ↦ failed p | some boot ↦ ok (copy p boot offset) ]

  -- `if (length / 2048)`: whole sectors, straight to `dest`.
  unfoldable pub read_sectors : Progress → Reading
  read_sectors p =
      let blocks_read = p.length / 2048 in
      if blocks_read == 0 then ok p else elim (block_read p.block blocks_read) [
        | none ↦ failed p
        | some bytes ↦ ok (record p {
          block = word (p.block + blocks_read);
          length = p.length - 2048 * blocks_read;
          dest = p.dest ++ bytes;
        })
      ]

  -- `if (length)`: the start of the last sector.
  unfoldable pub read_tail : Progress → Reading
  unfolding fetch
  read_tail p =
      if p.length == 0
      then ok p
      else elim (fetch p.boot p.block) [ none ↦ failed p | some boot ↦ ok (copy p boot 0) ]

  unfoldable pub cdrom_read : Boot → ℕ → ℕ → ℕ → Reading
  unfolding skip_blocks
  cdrom_read boot block offset length =
      let (block, offset) = skip_blocks (offset / 2048) block offset in
      let start : Progress = record { boot = boot; block = block; length = length; dest = [] } in
      and_then (and_then (read_head offset start) read_sectors) read_tail
