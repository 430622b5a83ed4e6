-- ===== src/Boot/Image.antt =====
-- `testboot_standalone` and `testboot_linux` of src/parthenope.c: kernels with the header of a U-Boot image.
pub mod Arguments
use ub2lb.Prelude.{
  ℕ, zero, suc, ◌+◌, ◌*◌, Bool, ◌&&◌, Option, none, some, List, [], ◌∷◌, ◌==◌, if◌then◌else◌, Bytes,
  get_or, set,
}
use ub2lb.Menu.Entry.{Entry}
use ub2lb.Menu.Loading.{BootDev}
use ub2lb.Menu.Parser.{codes}
use ub2lb.Boot.Trace.{Argument, text, address_of, Argv, setenv, bootm, result, gone, Run, after}

-- `malloc` leaves some bytes in an object of a given size; `bootm` may come back; the kernel of
-- AmigaOS may come back; `bootu` has a result. The last two are the addresses of the buffers for the kernel and for
-- the modules of AROS.
pub record Uboot : Type 0 where
  pub malloc : ℕ → Bytes
  pub bootm_returns : ℕ → Argv → Bool
  pub aos_returns : Bool
  pub bootu_result : Bytes → ℕ
  pub getenv : Bytes → Option Bytes
  pub kernel_at : ℕ
  pub modules_at : ℕ

-- The fields of `image_header_t` that count.
abbrev pub ih_magic : Bytes → ℕ
ih_magic kernel =
    ((get_or kernel 0 0 * 256 + get_or kernel 1 0) * 256 + get_or kernel 2 0) * 256
    + get_or kernel 3 0

abbrev pub ih_os : Bytes → ℕ
ih_os kernel = get_or kernel 28 0

abbrev pub ih_type : Bytes → ℕ
ih_type kernel = get_or kernel 30 0

abbrev pub is_linux : Bytes → Bool
is_linux kernel = ih_magic kernel == 0x2705_1956 && ih_type kernel == 2 && ih_os kernel == 5

abbrev pub is_standalone : Bytes → Bool
is_standalone kernel = ih_magic kernel == 0x2705_1956 && ih_type kernel == 1

-- `bootm`, which comes back or does not.
abbrev pub call_bootm : Uboot → ℕ × Argv → Run {0} Unit
call_bootm uboot (argc, argv) =
    (bootm argc argv ∷ [], if uboot.bootm_returns argc argv then result tt else gone)

-- `argv[0]`, `argv[1]` and `argv[2]`, in an array of four.
abbrev pub argv_start : Bytes → Argv
argv_start kernel = some (text (codes "bootm")) ∷ some (address_of kernel) ∷ none ∷ none ∷ []

-- The initial RAM disk, or "-" in front of a device tree.
unfoldable pub add_initrd : Uboot → Entry → BootDev → ℕ × Argv → ℕ × Argv
add_initrd uboot entry dev (argc, argv) = elim entry.initrd [
  | some name ↦
      let (length, initrd) = dev.load_file name (uboot.malloc (18 * 1024 * 1024)) in
      (argc + 1, set (set argv 2 (some (address_of initrd))) 3 none)
  | none ↦ elim entry.dtb [
    | some name ↦ (argc + 1, set (set argv 2 (some (text (codes "-")))) 3 none)
    | none ↦ (argc, argv)
  ]
]

unfoldable pub add_dtb : Uboot → Entry → BootDev → ℕ × Argv → ℕ × Argv
add_dtb uboot entry dev (argc, argv) = elim entry.dtb [
  | some name ↦
      let (length, dtb) = dev.load_file name (uboot.malloc (1024 * 1024)) in
      (argc + 1, set argv 3 (some (address_of dtb)))
  | none ↦ (argc, argv)
]

-- `argc` and `argv` when `testboot_linux` calls `bootm`.
unfoldable pub linux_arguments : Uboot → Entry → Bytes → BootDev → ℕ × Argv
unfolding add_initrd add_dtb
linux_arguments uboot entry kernel dev =
    add_dtb uboot entry dev (add_initrd uboot entry dev (2, argv_start kernel))

abbrev pub bootargs : Entry → Bytes
bootargs entry = elim entry.append [ none ↦ [] | some append ↦ append ]

unfoldable pub testboot_linux : Uboot → Entry → Bytes → BootDev → Run {0} Unit
unfolding linux_arguments
testboot_linux uboot entry kernel dev =
    if is_linux kernel
    then after (setenv (codes "bootargs") (bootargs entry) ∷ [])
        (call_bootm uboot (linux_arguments uboot entry kernel dev))
    else ([], result tt)

unfoldable pub testboot_standalone : Uboot → Bytes → Run {0} Unit
testboot_standalone uboot kernel =
    if is_standalone kernel
    then after (setenv (codes "autostart") (codes "yes") ∷ [])
        (call_bootm uboot (2, argv_start kernel))
    else ([], result tt)
