-- ===== src/Boot/Start/Justified.antt =====
-- What a kernel must be to get control.
use ub2lb.Prelude.{
  ℕ, Bool, ◌≤◌, ◌≡◌, true, false, ◌||◌, none, some, List, [], ◌∷◌, map, Bytes, All, get_or,
}
use ub2lb.Elf.{Loader}
use ub2lb.Elf.File.{Loading, accepted, load_elf_bytes}
use ub2lb.Elf.Register.{ModuleInfo}
use ub2lb.Menu.Entry.{Entry, EntryObject}
use ub2lb.Menu.Loading.{BootDev}
use ub2lb.Boot.Trace.{
  Event, setenv, bootm, bootu, flush, enter_aros, enter_aos, destroy, wait_key, Run, address_of,
  Module,
}
use ub2lb.Boot.Image.{Uboot, is_linux, is_standalone}
use ub2lb.Boot.Aros.{is_negative, ModulesLoaded, in_place, not_all, out_of_bounds, kernel_tags}

-- The ELF loader accepts the file of each module, one behind the other, at `p`.
pub data Loads (p : ℕ) (boot : BootDev) : List EntryObject → Loader → Loader → Type 0 where
  all : (st : Loader) → Loads p boot [] st st
  next :
      (m : EntryObject) (ms : List EntryObject) (st st1 st2 : Loader) (info : ModuleInfo)
      (buffer file : Bytes)
      → (boot.load_file m.name buffer).1 ≡ file
      → is_negative ((boot.load_file m.name buffer).0) ≡ false
      → load_elf_bytes p file st ≡ accepted st1 info
      → Loads p boot ms st1 st2
      → Loads p boot (m ∷ ms) st st2

abbrev loader_of : Loader → ModulesLoaded → Loader
loader_of st (in_place st') = st'
loader_of st not_all = st
loader_of st out_of_bounds = st

abbrev is_placed : ModulesLoaded → Bool
is_placed (in_place st) = true
is_placed not_all = false
is_placed out_of_bounds = false

module _ (uboot : Uboot) (st : Loader) (entry : Entry) (kernel : Bytes) (boot : BootDev) where
  -- What holds of the kernel when this happens.
  abbrev pub Justified : Event → Type 0
  Justified (setenv key value) = Unit
  Justified (flush addresses) = Unit
  Justified (bootm argc argv) =
      ((is_linux kernel || is_standalone kernel) ≡ true)
      × (argc ≤ 4)
      × (get_or argv 1 none ≡ some (address_of kernel))
  Justified (enter_aros tags) =
      (st1 : Loader) × (st2 : Loader) × (info : ModuleInfo) × (load_elf_bytes uboot.kernel_at kernel
          st
        ≡ accepted st1 info)
      × Loads uboot.modules_at boot entry.modules st1 st2
      × (tags ≡ kernel_tags entry st2)
  Justified (enter_aos list line) =
      map (λ (m : Module). m.name) list ≡ map (λ (m : EntryObject). m.name) entry.modules
  Justified (bootu other) = ⊥
  Justified destroy = ⊥
  Justified wait_key = ⊥

  abbrev Fine : Run {0} Unit → Type 0
  Fine r = All Justified (r.0)
