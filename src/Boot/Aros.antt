-- ===== src/Boot/Aros.antt =====
-- `testboot_aros` of src/parthenope.c.
use ub2lb.Prelude.{ℕ, ◌+◌, ◌*◌, Bool, true, false, List, [], ◌∷◌, Bytes}
use ub2lb.Prelude.Int.{ℤ, pos, negsuc}
use ub2lb.Elf.{Loader, kernel_phys_base, kernel_virt_base}
use ub2lb.Elf.File.{Loading, accepted, invalid, wild, load_elf_file, buffered, load_elf_bytes}
use ub2lb.Menu.Entry.{Entry, EntryObject}
use ub2lb.Menu.Loading.{BootDev}
use ub2lb.Boot.Trace.{
  TagData, address, tracker, command_line, version, debug_info, unset, Tag, Run, flush, enter_aros,
  result, gone, undefined,
}
use ub2lb.Boot.Cache.{flush_cache}
use ub2lb.Boot.Image.{Uboot}

abbrev pub is_negative : ℤ → Bool
is_negative (pos n) = false
is_negative (negsuc n) = true

-- The macros `KRN_…` of src/support.h.
abbrev pub krn_dummy : ℕ
krn_dummy = 0x8000_0000 + 0x03d0_0000

abbrev pub tag : ℕ → TagData → Tag
tag n value = record { ti_tag = krn_dummy + n; ti_data = value }

-- `items`, up to the end.
unfoldable pub kernel_tags : Entry → Loader → List Tag
kernel_tags menu st =
    tag 8 (tracker st.tracker)
    ∷ tag 2 (address st.ptr_rw)
    ∷ tag 3 (address st.ptr_ro)
    ∷ tag 1 (address kernel_phys_base)
    ∷ tag 13 (address kernel_virt_base)
    ∷ tag 14 (address st.ptr_ro)
    ∷ tag 12 (command_line menu.append)
    ∷ tag 22 version
    ∷ tag 21 debug_info
    ∷ record { ti_tag = 0; ti_data = unset }
    ∷ []

-- How the loop over the modules ends: with the static variables of the ELF loader; where the function returns; or
-- in undefined behaviour of the ELF loader.
pub data ModulesLoaded : Type 0 where
  in_place : Loader → ModulesLoaded
  not_all : ModulesLoaded
  out_of_bounds : ModulesLoaded

-- The loop over the modules, which are all read to `file_buff`, at `p`.
unfoldable pub load_modules : ℕ → BootDev → List EntryObject → Bytes → Loader → ModulesLoaded
unfolding load_elf_file buffered
load_modules p boot [] file_buff st = in_place st
load_modules p boot (m ∷ ms) file_buff st =
    let (length, file) = boot.load_file m.name file_buff in
    elim (is_negative length) [
      | true ↦ not_all
      | false ↦ elim (load_elf_bytes p file st) [
        | invalid ↦ not_all
        | wild ↦ out_of_bounds
        | accepted st' module_info ↦ load_modules p boot ms file st'
      ]
    ]

abbrev pub after_modules : Entry → ModulesLoaded → Run {0} Unit
after_modules menu (in_place st) =
    (flush (flush_cache st.ptr_rw st.ptr_ro) ∷ enter_aros (kernel_tags menu st) ∷ [], gone)
after_modules menu not_all = ([], result tt)
after_modules menu out_of_bounds = ([], undefined)

abbrev pub after_kernel : Uboot → Entry → BootDev → Loading → Run {0} Unit
after_kernel uboot menu boot invalid = ([], result tt)
after_kernel uboot menu boot wild = ([], undefined)
after_kernel uboot menu boot (accepted st module_info) =
    after_modules menu
      (load_modules uboot.modules_at boot menu.modules (uboot.malloc (10 * 1024 * 1024)) st)

unfoldable pub testboot_aros : Uboot → Entry → Bytes → BootDev → Loader → Run {0} Unit
unfolding load_elf_file buffered load_modules flush_cache kernel_tags
testboot_aros uboot menu kernel boot st =
    after_kernel uboot menu boot (load_elf_bytes uboot.kernel_at kernel st)
