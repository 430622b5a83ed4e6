-- ===== src/Install/Slb.antt =====
-- `find_rdb`, `erase_slb`, `install_slb` and `main` of tools/parthenope-install.c: the boot loader on the device, as
-- a chain of boot blocks. A block has 128 words.
pub mod Chain
pub mod RoundTrip
pub mod Erase
pub mod Find
pub mod Write
use ub2lb.Prelude.{
  ℕ, zero, suc, ◌+◌, ◌-◌, ◌*◌, ◌%◌, ◌^◌, ◌<◌, ◌≡◌, ◌≢◌, arith, Bool, true, false, Option, none,
  some, [], ◌∷◌, leb, ltb, ◌==◌, if◌then◌else◌, set, get_or,
}
use ub2lb.Support.{word}
use ub2lb.Rdb.{Words, amiga_id, checksum, rdb_location_limit, idname_rigiddisk}
use ub2lb.Install.{calculate_checksum}
use ub2lb.Install.Free.{Device, idname_boot, next_free_block}

abbrev pub idname_free : ℕ
idname_free = 0xffff_ffff

abbrev pub bcb_next : Words → ℕ
bcb_next blk = get_or blk 4 0

-- `fwrite` at `block * 512`, which wraps round.
unfoldable pub write_block : Device → Words → ℕ → Device
write_block dev blk block x = if x * 512 % 2 ^ 32 == block * 512 % 2 ^ 32 then blk else dev x

pub write_block-same : (dev : Device) (blk : Words) (b : ℕ) → write_block dev blk b b ≡ blk
unfolding write_block
write_block-same dev blk b = ground arith

-- Device blocks below 2^23 do not wrap round.
pub write_block-other :
    (dev : Device) (blk : Words) (b x : ℕ)
    → b < 2 ^ 23
    → x < 2 ^ 23
    → x ≢ b
    → write_block dev blk b x ≡ dev x
unfolding write_block
write_block-other dev blk b x h g n = ground arith

-- What reading a block comes to: one with a good checksum, NULL, or a checksum that reads behind it.
pub data BlockResult : Type 0 where
  good : Words → BlockResult
  bad : BlockResult
  overrun : BlockResult

abbrev pub tested : Words → Option ℕ → BlockResult
tested blk none = overrun
tested blk (some zero) = good blk
tested blk (some (suc n)) = bad

unfoldable pub read_block : Device → ℕ → BlockResult
read_block dev block = tested (dev block) (checksum (dev block))

-- What `find_rdb` comes to: the number of the block and the block, NULL, or a checksum that reads behind a block.
pub data Finding : Type 0 where
  located : ℕ → Words → Finding
  missing : Finding
  overread : Finding

-- A round of `find_rdb`, with what block `i` comes to and what the rounds behind it find. The second test
-- of the checksum is never true.
abbrev pub picked : ℕ → BlockResult → Finding → Finding
picked i (good blk) rest = if amiga_id blk == idname_rigiddisk then located i blk else rest
picked i bad rest = rest
picked i overrun rest = overread

unfoldable pub find_rdb_loop : Device → ℕ → ℕ → Finding
unfolding read_block
find_rdb_loop dev zero i = missing
find_rdb_loop dev (suc n) i = picked i (read_block dev i) (find_rdb_loop dev n (i + 1))

unfoldable pub find_rdb : Device → Finding
unfolding find_rdb_loop
find_rdb dev = find_rdb_loop dev rdb_location_limit 0

-- How a loop over blocks ends: with the device, with a block that is too short, or not at all.
pub data Erasing : Type 0 where
  erased : Device → Erasing
  broken : Erasing
  endless : Erasing

-- The loop of `erase_slb`, on fuel.
unfoldable pub erase_loop : ℕ → Device → ℕ → Erasing
unfolding read_block write_block
erase_loop zero dev block = endless
erase_loop (suc fuel) dev block =
    if block == idname_free then erased dev else elim (read_block dev block) [
      | bad ↦ erased dev
      | overrun ↦ broken
      | good blk ↦
          let free = set blk 0 idname_free in
          if amiga_id blk == idname_boot
          then elim (calculate_checksum free) [
            | none ↦ broken
            | some written ↦ erase_loop fuel (write_block dev written block) (bcb_next written)
          ]
          else erased dev
    ]

abbrev pub rdb_boot_block_list : Words → ℕ
rdb_boot_block_list rdb = get_or rdb 10 0

unfoldable pub erase_slb : ℕ → Device → Words → Erasing
unfolding erase_loop
erase_slb fuel dev rdb = erase_loop fuel dev (rdb_boot_block_list rdb)

-- The words of the boot loader and what lies behind them in memory.
abbrev pub Slb : Type 0
Slb = ℕ → ℕ

abbrev pub words_from : Slb → ℕ → ℕ → Words
words_from slb offset zero = []
words_from slb offset (suc n) = slb offset ∷ words_from slb (offset + 1) n

-- The boot block for the words from `offset` on; `chk` is what its checksum was before.
unfoldable pub boot_block : Slb → ℕ → ℕ → ℕ → ℕ → Words
boot_block slb slb_size offset next chk =
    let left = slb_size - offset in
    idname_boot
    ∷ (if leb left 123 then 5 + left else 128)
    ∷ chk
    ∷ 0
    ∷ (if leb left 123 then idname_free else next)
    ∷ words_from slb offset 123

-- How `install_slb` ends; the first two with the device.
pub data Installing : Type 0 where
  installed : Device → Installing
  not_enough : Device → Installing
  faulty : Installing
  unfinished : Installing

-- `next_free_block(…) < 0`, as an `int`, and the number of the block.
abbrev pub free_or_none : Option (Option ℕ) → Option ℕ
free_or_none none = none
free_or_none (some none) = none
free_or_none (some (some b)) = if leb (2 ^ 31) b then none else some b

-- The loop of `install_slb`, on fuel. `block`, which is to be written, is also the free block pointer.
unfoldable pub install_loop : ℕ → Device → ℕ → Slb → ℕ → ℕ → ℕ → ℕ → Installing
unfolding boot_block write_block
install_loop zero dev nblocks slb slb_size offset block chk = unfinished
install_loop (suc fuel) dev nblocks slb slb_size offset block chk =
    if ltb offset slb_size
    then elim (free_or_none (next_free_block dev nblocks block)) [
      | none ↦ not_enough dev
      | some next ↦ elim (calculate_checksum (boot_block slb slb_size offset next chk)) [
        | none ↦ faulty
        | some written ↦
            install_loop fuel (write_block dev written block) nblocks slb slb_size (offset + 123)
              next (get_or written 2 0)
      ]
    ]
    else installed dev

-- `rdb_RDBBlocksHi - rdb_RDBBlocksLo`
abbrev pub rdb_blocks : Words → ℕ
rdb_blocks rdb = word (get_or rdb 33 0 + 2 ^ 32 - get_or rdb 32 0)

-- `install_slb`: the end of its loop, and the RDB in memory. `chk` is what `malloc` leaves in the block.
unfoldable pub install_slb : Device → Words → Slb → ℕ → ℕ → Installing × Words
unfolding install_loop
install_slb dev rdb slb slb_size chk =
    elim (free_or_none (next_free_block dev (rdb_blocks rdb) 0)) [
      | none ↦ (not_enough dev, rdb)
      | some block ↦ (
        install_loop (slb_size + 1) dev (rdb_blocks rdb) slb slb_size 0 block chk,
        set rdb 10 block,
      )
    ]
