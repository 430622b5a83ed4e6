-- ===== src/Install/Main.antt =====
-- `main` of tools/parthenope-install.c. The device is opened, and the file with the boot loader read, by the C library.
pub mod Boots
use ub2lb.Prelude.{ℕ, ◌/◌, Bool, Option, none, some, ◌==◌, if◌then◌else◌}
use ub2lb.Rdb.{Words}
use ub2lb.Install.{calculate_checksum}
use ub2lb.Install.Free.{Device}
use ub2lb.Install.Slb.{
  write_block, Finding, located, missing, overread, find_rdb, Erasing, erased, broken, endless,
  erase_slb, Slb, Installing, installed, not_enough, faulty, unfinished, install_slb,
}

-- How the program ends: with -1, before anything is written; with 0 and the device; or not properly.
pub data Exit : Type 0 where
  failed : Exit
  success : Device → Exit
  undefined : Exit
  hangs : Exit

-- `calculate_checksum(rdb)` and `write_block(dev, rdb, rdb_block)`
abbrev pub write_rdb : Device → ℕ → Words → Exit
write_rdb dev rdb_block rdb = elim (calculate_checksum rdb) [
  | none ↦ undefined
  | some written ↦ success (write_block dev written rdb_block)
]

abbrev pub after_install : ℕ → Installing × Words → Exit
after_install rdb_block (installed dev, rdb) = write_rdb dev rdb_block rdb
after_install rdb_block (not_enough dev, rdb) = write_rdb dev rdb_block rdb
after_install rdb_block (faulty, rdb) = undefined
after_install rdb_block (unfinished, rdb) = hangs

abbrev pub after_erase : ℕ → Words → Slb → ℕ → ℕ → Erasing → Exit
after_erase rdb_block rdb slb slb_size chk (erased dev) =
    after_install rdb_block (install_slb dev rdb slb slb_size chk)
after_erase rdb_block rdb slb slb_size chk broken = undefined
after_erase rdb_block rdb slb slb_size chk endless = hangs

-- `dev` and `file` are what `fopen` returns, `st_size` what `lstat` finds; `fuel` is that of `erase_slb`, and
-- `chk` what `malloc` leaves in a block.
unfoldable pub main : ℕ → Option Device → Option ℕ → Option Slb → ℕ → ℕ → Exit
unfolding find_rdb erase_slb
main argc dev st_size file fuel chk =
    if argc == 2
    then elim dev [
      | none ↦ failed
      | some device ↦ elim (find_rdb device) [
        | missing ↦ failed
        | overread ↦ undefined
        | located rdb_block rdb ↦ elim st_size [
          | none ↦ failed
          | some size ↦ elim file [
            | none ↦ failed
            | some slb ↦ after_erase rdb_block rdb slb (size / 4) chk (erase_slb fuel device rdb)
          ]
        ]
      ]
    ]
    else failed
