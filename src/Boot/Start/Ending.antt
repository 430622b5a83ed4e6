-- ===== src/Boot/Start/Ending.antt =====
-- How `bootstrap` ends.
use ub2lb.Prelude.{
  ℕ, zero, suc, ◌*◌, ◌≡◌, ◌⊎◌, inl, inr, refl, subst, false, true, Bool-cases, Option-cases, Option,
  none, some, List, [], ◌∷◌, ◌++◌, Bytes, All,
}
use ub2lb.Elf.{Loader}
use ub2lb.Rdb.{Table}
use ub2lb.Menu.Entry.{Entry, Menu}
use ub2lb.Menu.Parser.{Outcome, running, returned, module_overflow, codes, is}
use ub2lb.Menu.Parser.Invariant.{IsBootable, Has}
use ub2lb.Menu.Loading.{BootDev, menu_load, create}
use ub2lb.Menu.Loading.Laws.{Gives, menu_load-Gives}
use ub2lb.Menu.Display.{Choice, chosen, waiting, null_pointer}
use ub2lb.Menu.Display.Member.{Picks, menu_display-Picks, menu_display_serial-Picks}
use ub2lb.Boot.Trace.{
  Event, setenv, bootu, destroy, wait_key, Run, after, and_then, result, gone, waits, undefined,
}
use ub2lb.Boot.Image.{Uboot}
use ub2lb.Boot.Aros.{is_negative}
use ub2lb.Boot.Start.{
  CurrentDevice, Drivers, Console, choose, exit, boot_entry, start_entry, entry_device, with_choice,
  with_menu, get_booting_device, bootstrap,
}
use ub2lb.Prelude.Int.{ℤ}
use ub2lb.Boot.Start.Tries.{IsStart, Astray, Tries, back, over, testboot-Tries}

module _ (uboot : Uboot) where
  choose-Picks :
      (console : Console) (menu : Menu)
      → All IsBootable menu.entries
      → Picks IsBootable (choose uboot console menu)
  unfolding choose
  choose-Picks console menu h = elim (Option-cases (uboot.getenv (codes "stdout"))) [
    | inl e ↦ rw (e, choose, Picks) tt
    | inr (out, e) ↦ elim (Bool-cases (is out (codes "vga"))) [
      | inl f ↦ rw (e, f, choose) (menu_display-Picks IsBootable menu console.tstc console.keys h)
      | inr f ↦
          rw (e, f, choose) (menu_display_serial-Picks IsBootable menu console.tstc console.getc h)
    ]
  ]

  -- The ways to go wrong before an entry is chosen: a menu file has too many modules, or the menu follows NULL.
  abbrev pub Faults : Console → Outcome → Type 0
  Faults console (running f) = ⊥
  Faults console (returned n menu) = choose uboot console menu ≡ null_pointer
  Faults console module_overflow = Unit

no_target : {A : Type 0} → Has none ⊎ Has none → A
no_target (inl h) = absurd h
no_target (inr h) = absurd h

module _ (uboot : Uboot) (st : Loader) (drivers : Drivers) (table : Table) (boot : Option BootDev)
    (console : Console) (o : Outcome) where
  -- A menu was loaded, `o`, and this is what the user chose of it.
  abbrev pub Chose : Choice → Type 0
  Chose c = (n : ℕ) × (menu : Menu) × (o ≡ returned (suc n) menu) × (choose uboot console menu ≡ c)

  -- The kernel of the chosen entry was asked of the entry's device, with this answer.
  pub record Asked (entry : Entry) (dev : BootDev) (length : ℤ) (kernel : Bytes) : Type 0 where
    pub chose : Chose (chosen (some entry))
    pub own : entry.other ≡ none
    pub device : entry_device drivers table boot entry ≡ some dev
    pub name : Bytes
    pub named : entry.kernel ≡ some name
    pub answer : dev.load_file name (uboot.malloc (5 * 1024 * 1024)) ≡ (length, kernel)

  -- No kernel is asked for: there is no menu, none of its entries is chosen, or the entry has no device.
  abbrev pub Nothing : Type 0
  Nothing =
      ((menu : Menu) × (o ≡ returned 0 menu))
      ⊎ Chose (chosen none)
      ⊎ ((entry : Entry) × Chose (chosen (some entry))
          × (entry.other ≡ none)
          × (entry_device drivers table boot entry ≡ none))

  -- A run of `bootstrap` that has ended, or waits in the menu, with its cause.
  pub data Ends : Run {0} ℕ → Type 0 where
    handed_over :
        {entry : Entry} {dev : BootDev} {length : ℤ} {kernel : Bytes}
        → Asked entry dev length kernel
        → is_negative length ≡ false
        → (es : List Event) (e : Event) → IsStart e
        → Ends (es ++ e ∷ [], gone)
    to_uboot :
        {entry : Entry} {other : Bytes}
        → Chose (chosen (some entry))
        → entry.other ≡ some other
        → Ends (setenv (codes "boot1") other ∷ bootu other ∷ [], result (uboot.bootu_result other))
    came_back :
        {entry : Entry} {dev : BootDev} {length : ℤ} {kernel : Bytes}
        → Asked entry dev length kernel
        → is_negative length ≡ false
        → (es : List Event) → Ends (es ++ destroy ∷ wait_key ∷ [], result 0)
    no_entry : Nothing → Ends (wait_key ∷ [], result 0)
    no_kernel :
        {entry : Entry} {dev : BootDev} {length : ℤ} {kernel : Bytes}
        → Asked entry dev length kernel
        → is_negative length ≡ true
        → Ends ([], result 1)
    in_menu : Chose waiting → Ends ([], waits)
    strayed :
        {entry : Entry} {dev : BootDev} {length : ℤ} {kernel : Bytes}
        → Asked entry dev length kernel
        → is_negative length ≡ false
        → Astray uboot st entry kernel dev
        → (es : List Event) → Ends (es, undefined)

  -- Behind the attempts, `bootstrap` asks for a key.
  Ends-testboot :
      {entry : Entry} {dev : BootDev} {length : ℤ} {kernel : Bytes}
      → Asked entry dev length kernel
      → is_negative length ≡ false
      → (r : Run {0} Unit) → Tries (Astray uboot st entry kernel dev) r
      → Ends (and_then r (λ _. after (destroy ∷ []) exit))
  Ends-testboot a h r (back es) = came_back a h es
  Ends-testboot a h r (over es e s) = handed_over a h es e s
  Ends-testboot a h r (Tries.strayed es w) = strayed a h w es

  boot_entry-Ends :
      (entry : Entry) (name : Bytes) (d : Option BootDev)
      → Chose (chosen (some entry))
      → entry.other ≡ none
      → entry.kernel ≡ some name
      → entry_device drivers table boot entry ≡ d
      → Ends (boot_entry uboot st d entry)
  unfolding boot_entry
  boot_entry-Ends entry name none c own k e = no_entry (inr (inr (entry, c, own, e)))
  boot_entry-Ends entry name (some dev) c own k e =
      let loaded = dev.load_file name (uboot.malloc (5 * 1024 * 1024)) in
      let asked : Asked entry dev loaded.0 loaded.1 = record {
        chose = c;
        own = own;
        device = e;
        name = name;
        named = k;
        answer = refl;
      } in
      elim (Bool-cases (is_negative loaded.0)) [
        | inl h ↦ rw (k, h) (no_kernel asked h)
        | inr h ↦ rw (k, h) (Ends-testboot asked h _ (testboot-Tries uboot st entry loaded.1 dev))
      ]

  start_entry-Ends :
      (entry : Entry)
      → Chose (chosen (some entry))
      → IsBootable entry
      → Ends (start_entry uboot st drivers table boot entry)
  unfolding start_entry
  start_entry-Ends entry c h = elim (Option-cases entry.other) [
    | inr (other, e) ↦ rw e (to_uboot c e)
    | inl e ↦ elim (Option-cases entry.kernel) [
      | inr (name, k) ↦ simp (e, start_entry) (boot_entry-Ends entry name _ c e k refl)
      | inl k ↦
          no_target
            (subst (λ x. Has x ⊎ Has none) k (subst (λ x. Has entry.kernel ⊎ Has x) e (h.1)))
    ]
  ]

  with_choice-Ends :
      (c : Choice)
      → Chose c
      → Picks IsBootable c
      → Ends (with_choice uboot st drivers table boot c) ⊎ (c ≡ null_pointer)
  with_choice-Ends (chosen none) e h = inl (no_entry (inr (inl e)))
  with_choice-Ends (chosen (some entry)) e h = inl (start_entry-Ends entry e h)
  with_choice-Ends waiting e h = inl (in_menu e)
  with_choice-Ends null_pointer e h = inr refl

  with_menu-Ends :
      (given : Outcome)
      → o ≡ given
      → Gives IsBootable given
      → Ends (with_menu uboot st drivers table boot console given) ⊎ Faults uboot console given
  with_menu-Ends (running f) e g = absurd g
  with_menu-Ends (returned zero menu) e g = inl (no_entry (inl (menu, e)))
  with_menu-Ends (returned (suc n) menu) e g =
      with_choice-Ends _ (n, menu, e, refl) (choose-Picks uboot console menu g)
  with_menu-Ends module_overflow e g = inr tt

-- bootstrap ends in one of seven ways, unless a menu file has more modules than an entry holds, or
-- the menu follows NULL: a kernel that does not come back was the last to be started, of the chosen
-- entry, whose kernel file was loaded; the variable boot1 was set and bootu called for the device
-- of the chosen entry, and nothing else, with the result of bootu; the kernel file of the chosen
-- entry was loaded, all attempts came back, and 0 is returned behind a key; nothing but a key was
-- asked for and 0 is returned, since there is no menu, no choice or no device; 1 is returned since
-- the kernel file of the chosen entry cannot be read, and nothing was started; the menu waits for a
-- key; or the ELF loader leaves its arrays at the kernel of the chosen entry, or at one of its
-- modules behind others that it has accepted.
pub bootstrap-Ends :
    (uboot : Uboot) (st : Loader) (drivers : Drivers) (current : CurrentDevice) (table : Table)
    (console : Console) (fresh : Bytes)
    → let boot = get_booting_device drivers current in
      let menu = menu_load fresh (create drivers.ext2_create drivers.sfs_create) table boot in
      Ends uboot st drivers table boot console menu
        (bootstrap uboot st drivers current table console fresh)
      ⊎ Faults uboot console menu
unfolding bootstrap
bootstrap-Ends uboot st drivers current table console fresh =
    let boot = get_booting_device drivers current in
    with_menu-Ends uboot st drivers table boot console _ _ refl
      (menu_load-Gives fresh (create drivers.ext2_create drivers.sfs_create) table boot)
