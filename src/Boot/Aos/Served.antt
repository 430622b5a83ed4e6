-- ===== src/Boot/Aos/Served.antt =====
-- `testboot_aos` on a device that serves files.
use ub2lb.Prelude.{
  ℕ, ◌*◌, ◌≡◌, ◌∙◌, refl, sym, ap, true, false, Option-cases, inl, inr, Option, none, some, List,
  [], ◌∷◌, ◌++◌, append-nil, append_assoc, Bytes, length, take, drop, if◌then◌else◌,
}
use ub2lb.Prelude.Int.{ℤ, pos, pos_part}
use ub2lb.Menu.Entry.{Entry, EntryObject}
use ub2lb.Menu.Loading.{BootDev}
use ub2lb.Menu.Parser.{codes}
use ub2lb.Boot.Trace.{Module, enter_aos, result, gone}
use ub2lb.Boot.Aros.{is_negative}
use ub2lb.Boot.Image.{Uboot}
use ub2lb.Boot.Aos.{new_module, collect_modules, testboot_aos}

-- The device has these files: `load_file` writes one to the start of the buffer, or returns a negative number.
pub record Serves (dev : BootDev) (files : Bytes → Option Bytes) : Type 0 where
  pub reads :
      (name buffer file : Bytes)
      → files name ≡ some file
      → dev.load_file name buffer ≡ (pos (length file), file ++ drop (length file) buffer)
  pub refuses :
      (name buffer : Bytes) → files name ≡ none → is_negative ((dev.load_file name buffer).0) ≡ true

abbrev pub cons_module : Bytes → Option Bytes → Option (List Module) → Option (List Module)
cons_module name (some file) (some ms) =
    some (record { name = name; id = 2; flags = 3; contents = file; size = length file } ∷ ms)
cons_module name none rest = none
cons_module name (some file) none = none

-- The modules of an entry with the contents of their files; `none` where one is missing.
abbrev pub module_list : (Bytes → Option Bytes) → List EntryObject → Option (List Module)
module_list files [] = some []
module_list files (m ∷ ms) = cons_module m.name (files m.name) (module_list files ms)

abbrev append_to : List Module → Option (List Module) → Option (List Module)
append_to list none = none
append_to list (some ms) = some (list ++ ms)

take-append : (xs ys : Bytes) → take (length xs) (xs ++ ys) ≡ xs
take-append [] ys = refl
take-append (x ∷ xs) ys = ap (λ zs. x ∷ zs) (take-append xs ys)

abbrev with_contents : Bytes → ℕ → Bytes → Module
with_contents name n c = record { name = name; id = 2; flags = 3; contents = c; size = n }

append_to-cons :
    (list : List Module) (name file : Bytes) (rest : Option (List Module))
    → append_to (list ++ with_contents name (length file) file ∷ []) rest
      ≡ append_to list (cons_module name (some file) rest)
append_to-cons list name file none = refl
append_to-cons list name file (some ms) = ap some (append_assoc list (_ ∷ []) ms)

cons_module-none : (name : Bytes) (rest : Option (List Module)) → cons_module name none rest ≡ none
cons_module-none name none = refl
cons_module-none name (some ms) = refl

module _ (dev : BootDev) (files : Bytes → Option Bytes) (serves : Serves dev files) where
  collect_modules-next :
      (m : EntryObject) (ms : List EntryObject) (buffer : Bytes) (list : List Module) (n : ℕ)
      (file : Bytes)
      → dev.load_file m.name buffer ≡ (pos n, file)
      → collect_modules dev (m ∷ ms) buffer list
        ≡ collect_modules dev ms file (list ++ new_module m.name file n ∷ [])
  unfolding collect_modules
  collect_modules-next m ms buffer list n file e =
      let read : is_negative ((dev.load_file m.name buffer).0) ≡ false =
        ap (λ r. is_negative (r.0)) e in
      rw (read, collect_modules)
        (ap
          (λ (r : ℤ × Bytes).
            collect_modules dev ms (r.1) (list ++ new_module m.name (r.1) (pos_part (r.0)) ∷ []))
          e)

  collect_modules_lem :
      (ms : List EntryObject) (buffer : Bytes) (list : List Module)
      → collect_modules dev ms buffer list ≡ append_to list (module_list files ms)
  unfolding collect_modules
  collect_modules_lem [] buffer list = ap some (sym (append-nil list))
  collect_modules_lem (m ∷ ms) buffer list = elim (Option-cases (files m.name)) [
    | inl e ↦ rw (e, serves.refuses m.name buffer e, collect_modules) refl
    | inr (file, e) ↦
        let rest = drop (length file) buffer in
        rw e (
          collect_modules-next m ms buffer list (length file) (file ++ rest)
            (serves.reads m.name buffer file e)
          ∙ collect_modules_lem ms (file ++ rest) _
          ∙ ap
              (λ c.
                append_to (list ++ with_contents m.name (length file) c ∷ [])
                  (module_list files ms))
              (take-append file rest)
          ∙ append_to-cons list m.name file (module_list files ms))
  ]

  -- On a device that serves files, `testboot_aos` starts the kernel exactly if all modules of the entry are there,
  -- with their contents, in the order of the menu; otherwise it returns with nothing done.
  pub testboot_aos-module_list :
      (uboot : Uboot) (menu : Entry)
      → testboot_aos uboot menu dev ≡ elim (module_list files menu.modules) [
        | none ↦ ([], result tt)
        | some list ↦ (
          enter_aos list (uboot.getenv (codes "os4_commandline")) ∷ [],
          if uboot.aos_returns then result tt else gone,
        )
      ]
  unfolding testboot_aos
  testboot_aos-module_list uboot menu =
      let e = collect_modules_lem menu.modules (uboot.malloc (5 * 1024 * 1024)) [] in
      elim (Option-cases (module_list files menu.modules)) [
        | inl f ↦ rw (e, f, testboot_aos) refl
        | inr (ms, f) ↦ rw (e, f, testboot_aos) refl
      ]
