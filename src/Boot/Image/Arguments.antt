-- ===== src/Boot/Image/Arguments.antt =====
-- The command line of `bootm`.
use ub2lb.Prelude.{
  ℕ, ◌*◌, ◌≤◌, ◌≡◌, refl, Option, Option-cases, inl, inr, none, some, List, [], ◌∷◌, map, length,
  take, Bytes, arith,
}
use ub2lb.Menu.Entry.{Entry}
use ub2lb.Menu.Loading.{BootDev}
use ub2lb.Menu.Parser.{codes}
use ub2lb.Boot.Trace.{Argument, text, address_of}
use ub2lb.Boot.Image.{Uboot, linux_arguments, add_initrd, add_dtb}

-- The buffer behind a call of `load_file`.
abbrev loaded : Uboot → BootDev → ℕ → Bytes → Argument
loaded uboot dev size name = address_of ((dev.load_file name (uboot.malloc size)).1)

-- U-Boot's usage is `bootm kernel [initrd [dtb]]`, where "-" stands for no `initrd`.
abbrev pub usage : Uboot → BootDev → Bytes → Option Bytes → Option Bytes → List Argument
usage uboot dev kernel none none = text (codes "bootm") ∷ address_of kernel ∷ []
usage uboot dev kernel (some i) none =
    text (codes "bootm") ∷ address_of kernel ∷ loaded uboot dev (18 * 1024 * 1024) i ∷ []
usage uboot dev kernel none (some d) =
    text (codes "bootm")
    ∷ address_of kernel
    ∷ text (codes "-")
    ∷ loaded uboot dev (1024 * 1024) d
    ∷ []
usage uboot dev kernel (some i) (some d) =
    text (codes "bootm")
    ∷ address_of kernel
    ∷ loaded uboot dev (18 * 1024 * 1024) i
    ∷ loaded uboot dev (1024 * 1024) d
    ∷ []

-- `bootm` is called with the arguments of U-Boot's usage, and these fit into the array.
pub linux_arguments-usage :
    (uboot : Uboot) (entry : Entry) (kernel : Bytes) (dev : BootDev)
    → let call = linux_arguments uboot entry kernel dev in
      (take (call.0) (call.1) ≡ map some (usage uboot dev kernel entry.initrd entry.dtb))
      × (length (call.1) ≡ 4)
      × (call.0 ≤ 4)
unfolding linux_arguments add_initrd add_dtb
linux_arguments-usage uboot entry kernel dev = elim (Option-cases entry.initrd) [
  | inl i ↦ elim (Option-cases entry.dtb) [
    | inl d ↦ rw (i, d) (refl, refl, omega arith)
    | inr (name, d) ↦ rw (i, d) (refl, refl, omega arith)
  ]
  | inr (name, i) ↦ elim (Option-cases entry.dtb) [
    | inl d ↦ rw (i, d) (refl, refl, omega arith)
    | inr (name', d) ↦ rw (i, d) (refl, refl, omega arith)
  ]
]
