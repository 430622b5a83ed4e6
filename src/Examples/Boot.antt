-- ===== src/Examples/Boot.antt =====
-- A CD with a menu, a kernel and a module.
use ub2lb.Prelude.{
  ◌+◌, ◌%◌, ◌≤◌, ◌≡◌, ◌↔◌, ◌⊎◌, refl, true, false, Option, none, some, [], ◌∷◌, ◌++◌, Bytes, arith,
  length, drop, take, map, if◌then◌else◌,
}
use ub2lb.Prelude.Int.{ℤ, pos, negsuc}
use ub2lb.Elf.{Loader}
use ub2lb.Menu.Entry.{Entry, entry_alloc, new_object}
use ub2lb.Menu.Parser.{codes, is}
use ub2lb.Menu.Loading.{BootDev, menu_load, create}
use ub2lb.Boot.Trace.{enter_aos, result, gone}
use ub2lb.Boot.Cache.{line_of, flush_cache}
use ub2lb.Boot.Cache.Flushed.{Touched, flush_cache-Touched}
use ub2lb.Boot.Image.{Uboot, linux_arguments}
use ub2lb.Boot.Image.Arguments.{usage, linux_arguments-usage}
use ub2lb.Boot.Aos.{testboot_aos}
use ub2lb.Boot.Aos.Served.{Serves, module_list, testboot_aos-module_list}
use ub2lb.Boot.Start.{Drivers, cdrom, Console, get_booting_device, bootstrap}
use ub2lb.Boot.Start.Justified.{Justified}
use ub2lb.Boot.Start.Ending.{Ends, Faults, bootstrap-Ends}

flush_cache-Touched_example :
    Touched 64 (flush_cache 70 130) ↔ ((64 % 32 ≡ 0) × (line_of 70 ≤ 64) × (64 + 32 ≤ 130))
flush_cache-Touched_example = flush_cache-Touched 70 130 64 (omega arith) (omega arith)

abbrev files : Bytes → Option Bytes
files name =
    if is name (codes "menu.lst")
    then some (codes "title AROS\nkernel k\nmodule m\n")
    else if is name (codes "k")
    then some (1 ∷ 2 ∷ 3 ∷ [])
    else if is name (codes "m")
    then some (4 ∷ 5 ∷ [])
    else none

abbrev serve : Option Bytes → Bytes → ℤ × Bytes
serve none buffer = (negsuc 0, buffer)
serve (some file) buffer = (pos (length file), file ++ drop (length file) buffer)

abbrev disc : BootDev
disc = record { load_file = λ name buffer. serve (files name) buffer }

disc-Serves : Serves disc files
disc-Serves = record {
  reads = λ name buffer file e. rw e refl;
  refuses = λ name buffer e. rw e refl;
}

abbrev uboot : Uboot
uboot = record {
  malloc = λ n. 9 ∷ 9 ∷ 9 ∷ 9 ∷ [];
  bootm_returns = λ argc argv. true;
  aos_returns = false;
  bootu_result = λ name. 0;
  getenv = λ name. if is name (codes "stdout") then some (codes "vga") else none;
  kernel_at = 0x100_0000;
  modules_at = 0x180_0000;
}

abbrev entry : Entry
entry = record entry_alloc {
  title = some (codes "AROS");
  kernel = some (codes "k");
  initrd = some (codes "m");
  dtb = some (codes "k");
  modules = new_object (codes "m") ∷ new_object (codes "k") ∷ [];
}

linux_arguments-usage_example :
    let call = linux_arguments uboot entry (1 ∷ []) disc in
    (take (call.0) (call.1)
      ≡ map some (usage uboot disc (1 ∷ []) (some (codes "m")) (some (codes "k"))))
    × (length (call.1) ≡ 4)
    × (call.0 ≤ 4)
linux_arguments-usage_example = linux_arguments-usage uboot entry (1 ∷ []) disc

testboot_aos-module_list_example :
    testboot_aos uboot entry disc ≡ elim (module_list files entry.modules) [
      | none ↦ ([], result tt)
      | some list ↦ (
        enter_aos list (uboot.getenv (codes "os4_commandline")) ∷ [],
        if uboot.aos_returns then result tt else gone,
      )
    ]
testboot_aos-module_list_example = testboot_aos-module_list disc files disc-Serves uboot entry

abbrev loader : Loader
loader = record { mem = λ x. 0; ptr_ro = 0x80_0000; ptr_rw = 0x80_0000; tracker = [] }

abbrev drivers : Drivers
drivers = record {
  tftp_create = none;
  cdrom_create = some disc;
  ext2_create = λ p. none;
  sfs_create = λ p. none;
}

abbrev console : Console
console = record { tstc = λ n. true; keys = 6 ∷ []; getc = 0 }

bootstrap-Ends_example :
    Ends uboot loader drivers []
      (some disc)
      console
      (menu_load [] (create (λ p. none) (λ p. none)) [] (some disc))
      (bootstrap uboot loader drivers cdrom [] console [])
    ⊎ Faults uboot console (menu_load [] (create (λ p. none) (λ p. none)) [] (some disc))
unfolding get_booting_device
bootstrap-Ends_example = bootstrap-Ends uboot loader drivers cdrom [] console []
