-- ===== src/Boot/Start/Tries.antt =====
-- The four attempts of `bootstrap` to start a kernel.
use mathlib.Core.Bool.{true≢false}
use ub2lb.Prelude.{
  ℕ, Bool, true, false, ◌*◌, ◌≡◌, refl, sym, ap, ◌∙◌, inl, inr, subst, Bool-cases, Option-cases,
  List, [], ◌∷◌, ◌++◌, append_assoc, Bytes,
}
use ub2lb.Elf.{Loader}
use ub2lb.Elf.File.{Loading, accepted, invalid, wild, Loading-cases, load_elf_bytes}
use ub2lb.Elf.Register.{ModuleInfo}
use ub2lb.Menu.Entry.{Entry, EntryObject}
use ub2lb.Menu.Parser.{codes}
use ub2lb.Menu.Loading.{BootDev}
use ub2lb.Boot.Trace.{
  Event, setenv, bootm, flush, enter_aros, enter_aos, Run, after, and_then, result, gone, undefined,
  Argv,
}
use ub2lb.Boot.Image.{
  Uboot, is_linux, is_standalone, call_bootm, testboot_linux, testboot_standalone, linux_arguments,
  argv_start, bootargs,
}
use ub2lb.Boot.Aros.{
  is_negative, ModulesLoaded, in_place, not_all, out_of_bounds, load_modules, after_modules,
  after_kernel, testboot_aros,
}
use ub2lb.Boot.Aos.{collect_modules, testboot_aos}
use ub2lb.Boot.Start.{testboot}

-- A kernel gets control.
abbrev pub IsStart : Event → Type 0
IsStart (bootm argc argv) = Unit
IsStart (enter_aros tags) = Unit
IsStart (enter_aos list line) = Unit
IsStart _ = ⊥

-- Of the modules, all read to `p`, one makes the ELF loader leave its arrays, behind others that it accepts.
pub data ModulesAstray (p : ℕ) (boot : BootDev) : List EntryObject → Bytes → Loader → Type 0 where
  this_one :
      {m : EntryObject} {ms : List EntryObject} {file_buff : Bytes} {st : Loader}
      → is_negative (boot.load_file m.name file_buff).0 ≡ false
      → load_elf_bytes p (boot.load_file m.name file_buff).1 st ≡ wild
      → ModulesAstray p boot (m ∷ ms) file_buff st
  further_one :
      {m : EntryObject} {ms : List EntryObject} {file_buff : Bytes} {st st' : Loader}
      {info : ModuleInfo}
      → is_negative (boot.load_file m.name file_buff).0 ≡ false
      → load_elf_bytes p (boot.load_file m.name file_buff).1 st ≡ accepted st' info
      → ModulesAstray p boot ms (boot.load_file m.name file_buff).1 st'
      → ModulesAstray p boot (m ∷ ms) file_buff st

-- The kernel or one of the modules of this entry makes the ELF loader leave its arrays.
pub data Astray (uboot : Uboot) (st : Loader) (menu : Entry) (kernel : Bytes) (boot : BootDev)
    : Type 0 where
  by_kernel : load_elf_bytes uboot.kernel_at kernel st ≡ wild → Astray uboot st menu kernel boot
  by_module :
      {st1 : Loader} {info : ModuleInfo}
      → load_elf_bytes uboot.kernel_at kernel st ≡ accepted st1 info
      → ModulesAstray uboot.modules_at boot menu.modules (uboot.malloc (10 * 1024 * 1024)) st1
      → Astray uboot st menu kernel boot

-- One of the attempts: it comes back, its last event starts a kernel, or it goes astray, for the reason `W`.
pub data Tries (W : Type 0) : Run {0} Unit → Type 0 where
  strayed : (es : List Event) → W → Tries W (es, undefined)
  back : (es : List Event) → Tries W (es, result tt)
  over : (es : List Event) (e : Event) → IsStart e → Tries W (es ++ e ∷ [], gone)

Tries-after : {W : Type 0} {r : Run {0} Unit} (es : List Event) → Tries W r → Tries W (after es r)
Tries-after es (back fs) = back (es ++ fs)
Tries-after es (strayed fs w) = strayed (es ++ fs) w
Tries-after {W} es (over fs e s) =
    subst (λ gs. Tries W (gs, gone)) (append_assoc es fs (e ∷ [])) (over (es ++ fs) e s)

Tries-and_then :
    {W : Type 0} {r : Run {0} Unit} (f : Unit → Run {0} Unit)
    → Tries W r
    → ((x : Unit) → Tries W (f x))
    → Tries W (and_then r f)
Tries-and_then f (back es) t = Tries-after es (t tt)
Tries-and_then f (over es e s) t = over es e s
Tries-and_then f (strayed es w) t = strayed es w

call_bootm-Tries : {W : Type 0} (uboot : Uboot) (call : ℕ × Argv) → Tries W (call_bootm uboot call)
call_bootm-Tries uboot (argc, argv) = elim (Bool-cases (uboot.bootm_returns argc argv)) [
  | inl e ↦ rw e (back _)
  | inr e ↦ rw e (over [] _ tt)
]

testboot_standalone-Tries :
    {W : Type 0} (uboot : Uboot) (kernel : Bytes) → Tries W (testboot_standalone uboot kernel)
unfolding testboot_standalone
testboot_standalone-Tries uboot kernel = elim (Bool-cases (is_standalone kernel)) [
  | inl e ↦ rw e (
      Tries-after (setenv (codes "autostart") (codes "yes") ∷ [])
        (call_bootm-Tries uboot (2, argv_start kernel)))
  | inr e ↦ rw e (back _)
]

testboot_linux-Tries :
    {W : Type 0} (uboot : Uboot) (entry : Entry) (kernel : Bytes) (dev : BootDev)
    → Tries W (testboot_linux uboot entry kernel dev)
unfolding testboot_linux
testboot_linux-Tries uboot entry kernel dev = elim (Bool-cases (is_linux kernel)) [
  | inl e ↦ rw e (
      Tries-after (setenv (codes "bootargs") (bootargs entry) ∷ [])
        (call_bootm-Tries uboot (linux_arguments uboot entry kernel dev)))
  | inr e ↦ rw e (back _)
]

testboot_aos-Tries :
    {W : Type 0} (uboot : Uboot) (menu : Entry) (boot : BootDev)
    → Tries W (testboot_aos uboot menu boot)
unfolding testboot_aos
testboot_aos-Tries uboot menu boot =
    elim (Option-cases (collect_modules boot menu.modules (uboot.malloc (5 * 1024 * 1024)) [])) [
      | inl e ↦ rw (e, testboot_aos) (back _)
      | inr (list, e) ↦ elim (Bool-cases uboot.aos_returns) [
        | inl f ↦ rw (e, f, testboot_aos) (back _)
        | inr f ↦ rw (e, f, testboot_aos) (over [] _ tt)
      ]
    ]

after_modules-Tries :
    {W : Type 0} (menu : Entry) (m : ModulesLoaded)
    → (m ≡ out_of_bounds → W)
    → Tries W (after_modules menu m)
after_modules-Tries menu (in_place st) w = over (flush _ ∷ []) _ tt
after_modules-Tries menu not_all w = back _
after_modules-Tries menu out_of_bounds w = strayed [] (w refl)

abbrev is_out : ModulesLoaded → Bool
is_out (in_place st) = false
is_out not_all = false
is_out out_of_bounds = true

load_modules-Astray :
    (p : ℕ) (boot : BootDev) (ms : List EntryObject) (file_buff : Bytes) (st : Loader)
    → load_modules p boot ms file_buff st ≡ out_of_bounds
    → ModulesAstray p boot ms file_buff st
unfolding load_modules
load_modules-Astray p boot [] file_buff st e = absurd (true≢false (sym (ap is_out e)))
load_modules-Astray p boot (m ∷ ms) file_buff st e =
    let go = load_modules p boot (m ∷ ms) file_buff st in
    elim (Bool-cases (is_negative (boot.load_file m.name file_buff).0)) [
      | inl n ↦
          let stops : go ≡ not_all = rw (n, load_modules) refl in
          absurd (true≢false (sym (ap is_out (sym stops ∙ e))))
      | inr n ↦ elim (Loading-cases (load_elf_bytes p (boot.load_file m.name file_buff).1 st)) [
        | inl (st', info, l) ↦
            let on : go ≡ load_modules p boot ms (boot.load_file m.name file_buff).1 st' =
              rw (n, l, load_modules) refl in
            further_one n l (load_modules-Astray p boot ms _ st' (sym on ∙ e))
        | inr (inl l) ↦
            let stops : go ≡ not_all = rw (n, l, load_modules) refl in
            absurd (true≢false (sym (ap is_out (sym stops ∙ e))))
        | inr (inr l) ↦ this_one n l
      ]
    ]

module _ (uboot : Uboot) (st : Loader) (menu : Entry) (kernel : Bytes) (boot : BootDev) where
  abbrev Tried : Run {0} Unit → Type 0
  Tried = Tries (Astray uboot st menu kernel boot)

  after_kernel-Tries :
      (l : Loading)
      → load_elf_bytes uboot.kernel_at kernel st ≡ l
      → Tried (after_kernel uboot menu boot l)
  after_kernel-Tries invalid e = back _
  after_kernel-Tries wild e = strayed [] (by_kernel e)
  after_kernel-Tries (accepted st1 m) e = after_modules-Tries menu _ (λ w. by_module e (
      load_modules-Astray uboot.modules_at boot menu.modules (uboot.malloc (10 * 1024 * 1024)) st1
        w))

  testboot_aros-Tries : Tried (testboot_aros uboot menu kernel boot st)
  unfolding testboot_aros
  testboot_aros-Tries = after_kernel-Tries _ refl

  pub testboot-Tries : Tries (Astray uboot st menu kernel boot) (testboot uboot st menu kernel boot)
  unfolding testboot
  testboot-Tries = Tries-and_then _ (testboot_standalone-Tries uboot kernel) (λ _.
      Tries-and_then _ (testboot_linux-Tries uboot menu kernel boot)
        (λ _. Tries-and_then _ testboot_aros-Tries (λ _. testboot_aos-Tries uboot menu boot)))
