-- ===== src/Ext2.antt =====
-- `load_file` and `ext2_create` of src/ext2.c, and `load_file` of src/tftp.c. The ext2 driver of U-Boot and its network
-- loop are parameters; the driver has a state of its own, which each call changes.
pub mod Closed
use ub2lb.Prelude.{ℕ, zero, suc, Bool, true, false, Option, none, some, ◌==◌, if◌then◌else◌, Bytes}
use ub2lb.Prelude.Int.{ℤ, pos, negsuc}
use ub2lb.Rdb.{RdbPartition}
use ub2lb.Menu.Loading.{BootDev}

-- The calls of the driver, each with its result and the state afterwards.
pub record Driver (S : Type 0) : Type 0 where
  pub ext2fs_set_blk_dev_full : RdbPartition → S → ℕ × S
  pub ext2fs_mount : ℕ → S → Bool × S
  pub ext2fs_open : Bytes → S → ℤ × S
  -- the number of bytes read, and the buffer afterwards
  pub ext2fs_read : Bytes → ℕ → S → ℤ × (Bytes × S)
  pub ext2fs_close : S → S

-- What `load_file` returns, the buffer and the state of the driver.
pub record Loaded (S : Type 0) : Type 0 where
  pub result : ℤ
  pub buffer : Bytes
  pub state : S

abbrev pub same_count : ℤ → ℕ → Bool
same_count (pos m) n = m == n
same_count (negsuc m) n = false

module _ {S : Type 0} (driver : Driver S) where
  open driver use {ext2fs_set_blk_dev_full, ext2fs_mount, ext2fs_open, ext2fs_read, ext2fs_close}

  abbrev finish : ℤ → Bytes → S → Loaded S
  finish result buffer s = record { result = result; buffer = buffer; state = ext2fs_close s }

  -- The file is open, and has `filelen` bytes.
  unfoldable pub read_file : ℕ → Bytes → S → Loaded S
  read_file filelen buffer s =
      let (count, (buffer', s')) = ext2fs_read buffer filelen s in
      if same_count count filelen
      then finish (pos filelen) buffer' s'
      else finish (negsuc 5) buffer' s'

  unfoldable pub open_file : Bytes → Bytes → S → Loaded S
  unfolding read_file
  open_file filename buffer s =
      let (filelen, s') = ext2fs_open filename s in
      elim filelen [ negsuc _ ↦ finish (negsuc 4) buffer s' | pos n ↦ read_file n buffer s' ]

  unfoldable pub load_file : ℕ → Bytes → Bytes → S → Loaded S
  unfolding open_file
  load_file part_length filename buffer s =
      let (mounted, s') = ext2fs_mount part_length s in
      if mounted then open_file filename buffer s' else finish (negsuc 3) buffer s'

  -- The length of the partition, where there is a file system that can be mounted.
  unfoldable pub ext2_create : RdbPartition → S → Option ℕ × S
  ext2_create partition s =
      let (part_length, s1) = ext2fs_set_blk_dev_full partition s in
      let (mounted, s2) = ext2fs_mount part_length s1 in
      if part_length == 0
      then (none, ext2fs_close s1)
      else if mounted
      then (some part_length, ext2fs_close s2)
      else (none, ext2fs_close s2)

-- `load_file` of src/tftp.c: `netloop` has the whole answer.
unfoldable pub tftp_create : (Bytes → Bytes → ℤ × Bytes) → BootDev
tftp_create netloop = record { load_file = netloop }
