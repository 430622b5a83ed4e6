-- ===== src/Menu/Loading.antt =====
-- `dev_load`, `magic_load` and `menu_load` of src/menu.c, and `boot_dev_t` of src/device.h. The file systems'
-- `ext2_create` and `sfs_create` are parameters.
pub mod Laws
pub mod Volumes
use ub2lb.Prelude.{
  ℕ, zero, suc, ◌+◌, ◌-◌, Bool, true, false, Option, none, some, List, [], ◌∷◌, map, ltb, leb,
  if◌then◌else◌, ◌==◌, Bytes,
}
use ub2lb.Prelude.Int.{ℤ, pos, negsuc}
use ub2lb.Rdb.{RdbPartition, Table, get, rdb_location_limit}
use ub2lb.Menu.Entry.{
  Entry, entry_alloc, Menu, DeviceType, default_type, ide_type, tftp_type, cd_type,
}
use ub2lb.Menu.Parser.{Outcome, running, returned, module_overflow, codes}
use ub2lb.Menu.Parser.Lst.{fsm}
use ub2lb.Menu.Parser.Kick.{kick_fsm}

-- `boot_dev_t`: what `load_file` returns for a name, and the buffer afterwards.
pub record BootDev : Type 0 where
  pub load_file : Bytes → Bytes → ℤ × Bytes

-- The length, where it is greater than 0.
abbrev pub positive : ℤ → ℕ
positive (pos n) = n
positive (negsuc n) = 0

-- `fresh` is what `malloc` leaves in the buffer.
unfoldable pub dev_load : Bytes → Menu → BootDev → Outcome
dev_load fresh menu dev =
    let (length1, buffer1) = dev.load_file (codes "menu.lst") fresh in
    let (length2, buffer2) = dev.load_file (codes "boot/menu.lst") buffer1 in
    let (length3, buffer3) = dev.load_file (codes "Kickstart/Kicklayout") buffer2 in
    if ltb 0 (positive length1)
    then fsm buffer1 (positive length1) menu
    else if ltb 0 (positive length2)
    then fsm buffer2 (positive length2) menu
    else if ltb 0 (positive length3)
    then kick_fsm buffer3 (positive length3) menu
    else returned 0 menu

unfoldable pub tag : ℕ → Entry → Entry
tag i entry = elim (entry.device_type) [
  | default_type ↦ record entry { device_type = ide_type; device_num = 0; partition = i }
  | _ ↦ entry
]

-- The loop over the list, whose head is tagged as the entries are.
abbrev pub tag_all : ℕ → Menu → Menu
tag_all i menu = record menu { head = tag i menu.head; entries = map (tag i) menu.entries }

-- `ext2_create`, and `sfs_create` where it fails.
abbrev pub create :
    (RdbPartition → Option BootDev)
    → (RdbPartition → Option BootDev)
    → RdbPartition
    → Option BootDev
create ext2_create sfs_create partition = elim (ext2_create partition) [
  | some dev ↦ some dev
  | none ↦ sfs_create partition
]

-- `n` entries so far; `count` partitions are left, the next is number `i`.
unfoldable pub magic_load_loop :
    Bytes → (RdbPartition → Option BootDev) → Table → ℕ → ℕ → ℕ → Menu → Outcome
magic_load_loop fresh create_dev table zero i n menu = returned n menu
magic_load_loop fresh create_dev table (suc count) i n menu = elim (get table i) [
  | none ↦ returned n menu
  | some partition ↦ elim (create_dev partition) [
    | none ↦ magic_load_loop fresh create_dev table count (i + 1) n menu
    | some dev ↦ elim (dev_load fresh menu dev) [
      | returned k menu' ↦
          magic_load_loop fresh create_dev table count (i + 1) (n + k) (tag_all i menu')
      | running f ↦ running f
      | module_overflow ↦ module_overflow
    ]
  ]
]

unfoldable pub magic_load : Bytes → (RdbPartition → Option BootDev) → Table → Menu → Outcome
magic_load fresh create_dev table menu =
    magic_load_loop fresh create_dev table rdb_location_limit 0 0 menu

abbrev pub new_menu : Menu
new_menu = record { head = entry_alloc; default_os = 0; delay = 5; entries = [] }

-- `menu_load`: `returned 0` stands for NULL.
unfoldable pub menu_load :
    Bytes → (RdbPartition → Option BootDev) → Table → Option BootDev → Outcome
unfolding dev_load magic_load
menu_load fresh create_dev table (some boot) = dev_load fresh new_menu boot
menu_load fresh create_dev table none = magic_load fresh create_dev table new_menu
