-- ===== src/Boot/Start.antt =====
-- `get_booting_device` and `bootstrap` of src/parthenope.c. What drivers find on the hardware is a parameter:
-- `tftp_create`, `cdrom_create`, `ext2_create` and `sfs_create`, with NULL as `none`.
pub mod Justified
pub mod Tries
pub mod Ending
use ub2lb.Prelude.{
  ℕ, zero, suc, ◌*◌, Bool, true, false, Option, none, some, List, [], ◌∷◌, Bytes, if◌then◌else◌,
}
use ub2lb.Elf.{Loader}
use ub2lb.Rdb.{RdbPartition, Table, get}
use ub2lb.Menu.Entry.{Entry, Menu, DeviceType, default_type, ide_type, tftp_type, cd_type}
use ub2lb.Menu.Parser.{Outcome, running, returned, module_overflow, codes, is}
use ub2lb.Menu.Loading.{BootDev, menu_load, create}
use ub2lb.Menu.Display.{Choice, chosen, waiting, null_pointer, menu_display, menu_display_serial}
use ub2lb.Boot.Trace.{
  Run, after, and_then, result, waits, undefined, setenv, bootu, destroy, wait_key,
}
use ub2lb.Boot.Image.{Uboot, testboot_linux, testboot_standalone}
use ub2lb.Boot.Aros.{is_negative, testboot_aros}
use ub2lb.Boot.Aos.{testboot_aos}

-- `hnd->ush_device.type`
pub data CurrentDevice : Type 0 where
  harddisk netboot cdrom unknown : CurrentDevice

pub record Drivers : Type 0 where
  pub tftp_create : Option BootDev
  pub cdrom_create : Option BootDev
  pub ext2_create : RdbPartition → Option BootDev
  pub sfs_create : RdbPartition → Option BootDev

unfoldable pub get_booting_device : Drivers → CurrentDevice → Option BootDev
get_booting_device drivers harddisk = none
get_booting_device drivers netboot = drivers.tftp_create
get_booting_device drivers cdrom = drivers.cdrom_create
get_booting_device drivers unknown = none

-- The `switch` of `bootstrap`; `boot` is the booting device.
unfoldable pub entry_device : Drivers → Table → Option BootDev → Entry → Option BootDev
entry_device drivers table boot entry = elim entry.device_type [
  | ide_type ↦ elim (get table entry.partition) [
    | none ↦ none
    | some partition ↦ create drivers.ext2_create drivers.sfs_create partition
  ]
  | tftp_type ↦ drivers.tftp_create
  | cd_type ↦ drivers.cdrom_create
  | default_type ↦ boot
]

-- What `tstc` says at each tick, the keys on the screen and the byte that `getc` reads.
pub record Console : Type 0 where
  pub tstc : ℕ → Bool
  pub keys : List ℕ
  pub getc : ℕ

-- The first branch of `menu_display`.
unfoldable pub choose : Uboot → Console → Menu → Choice
choose uboot console menu = elim (uboot.getenv (codes "stdout")) [
  | none ↦ null_pointer
  | some out ↦
      if is out (codes "vga")
      then menu_display menu console.tstc console.keys
      else menu_display_serial menu console.tstc console.getc
]

-- The code behind `exit`.
abbrev pub exit : Run ℕ
exit = (wait_key ∷ [], result 0)

module _ (uboot : Uboot) (st : Loader) where
  -- The four attempts, on a kernel that has been loaded.
  unfoldable pub testboot : Entry → Bytes → BootDev → Run {0} Unit
  unfolding testboot_standalone testboot_linux testboot_aros testboot_aos
  testboot entry kernel boot = and_then (testboot_standalone uboot kernel) (λ _.
      and_then (testboot_linux uboot entry kernel boot) (λ _.
        and_then (testboot_aros uboot entry kernel boot st) (λ _. testboot_aos uboot entry boot)))

  -- From `boot == NULL` on. With no kernel name, the driver gets NULL.
  unfoldable pub boot_entry : Option BootDev → Entry → Run ℕ
  unfolding testboot
  boot_entry none entry = exit
  boot_entry (some boot) entry = elim entry.kernel [
    | none ↦ ([], undefined)
    | some name ↦
        let (length, kernel) = boot.load_file name (uboot.malloc (5 * 1024 * 1024)) in
        if is_negative length
        then ([], result 1)
        else and_then (testboot entry kernel boot) (λ _. after (destroy ∷ []) exit)
  ]

  -- From `entry->other != NULL` on. `bootu` of src/context.c sets a variable first.
  unfoldable pub start_entry : Drivers → Table → Option BootDev → Entry → Run ℕ
  unfolding boot_entry entry_device
  start_entry drivers table boot entry = elim entry.other [
    | some other ↦
        (setenv (codes "boot1") other ∷ bootu other ∷ [], result (uboot.bootu_result other))
    | none ↦ boot_entry (entry_device drivers table boot entry) entry
  ]

  abbrev pub with_choice : Drivers → Table → Option BootDev → Choice → Run ℕ
  with_choice drivers table boot (chosen none) = exit
  with_choice drivers table boot (chosen (some entry)) = start_entry drivers table boot entry
  with_choice drivers table boot waiting = ([], waits)
  with_choice drivers table boot null_pointer = ([], undefined)

  abbrev pub with_menu : Drivers → Table → Option BootDev → Console → Outcome → Run ℕ
  with_menu drivers table boot console (returned zero menu) = exit
  with_menu drivers table boot console (returned (suc n) menu) =
      with_choice drivers table boot (choose uboot console menu)
  with_menu drivers table boot console (running f) = ([], undefined)
  with_menu drivers table boot console module_overflow = ([], undefined)

  -- The table is that of `RdbPartitionTable_init`; `fresh` is what `malloc` leaves in the buffer of `dev_load`.
  unfoldable pub bootstrap : Drivers → CurrentDevice → Table → Console → Bytes → Run ℕ
  unfolding get_booting_device choose start_entry
  bootstrap drivers current table console fresh =
      let boot = get_booting_device drivers current in
      with_menu drivers table boot console
        (menu_load fresh (create drivers.ext2_create drivers.sfs_create) table boot)
