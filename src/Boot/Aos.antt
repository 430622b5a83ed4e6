-- ===== src/Boot/Aos.antt =====
-- `testboot_aos` of src/parthenope.c.
pub mod Served
use ub2lb.Prelude.{
  ℕ, ◌*◌, Bool, true, false, Option, none, some, List, [], ◌∷◌, ◌++◌, Bytes, take, if◌then◌else◌,
}
use ub2lb.Prelude.Int.{pos_part}
use ub2lb.Menu.Entry.{Entry, EntryObject}
use ub2lb.Menu.Loading.{BootDev}
use ub2lb.Menu.Parser.{codes}
use ub2lb.Boot.Trace.{Module, Run, enter_aos, result, gone}
use ub2lb.Boot.Aros.{is_negative}
use ub2lb.Boot.Image.{Uboot}

abbrev pub new_module : Bytes → Bytes → ℕ → Module
new_module name buffer length = record {
  name = name;
  id = 2;
  flags = 3;
  contents = take length buffer;
  size = length;
}

-- The loop over the modules: `list` is what has been appended; `none` where the function returns.
unfoldable pub collect_modules :
    BootDev → List EntryObject → Bytes → List Module → Option (List Module)
collect_modules boot [] buffer list = some list
collect_modules boot (m ∷ ms) buffer list =
    let (length, buffer') = boot.load_file m.name buffer in
    elim (is_negative length) [
      | true ↦ none
      | false ↦
          collect_modules boot ms buffer' (list ++ new_module m.name buffer' (pos_part length) ∷ [])
    ]

unfoldable pub testboot_aos : Uboot → Entry → BootDev → Run {0} Unit
unfolding collect_modules
testboot_aos uboot menu boot =
    elim (collect_modules boot menu.modules (uboot.malloc (5 * 1024 * 1024)) []) [
      | none ↦ ([], result tt)
      | some list ↦ (
        enter_aos list (uboot.getenv (codes "os4_commandline")) ∷ [],
        if uboot.aos_returns then result tt else gone,
      )
    ]
