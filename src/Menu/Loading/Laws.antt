-- ===== src/Menu/Loading/Laws.antt =====
-- What the entries of a loaded menu are like.
use ub2lb.Prelude.{
  ℕ, zero, suc, ◌+◌, ◌≡◌, ◌≢◌, ◌⊎◌, refl, Bool-cases, inl, inr, Option-cases, Option, none, some,
  List, [], ◌∷◌, map, ltb, arith, Bytes, All,
}
use ub2lb.Rdb.{RdbPartition, Table, get}
use ub2lb.Menu.Entry.{Entry, Menu, DeviceType, default_type, ide_type, tftp_type, cd_type}
use ub2lb.Menu.Parser.{Outcome, running, returned, module_overflow, codes}
use ub2lb.Menu.Parser.Invariant.{IsBootable}
use ub2lb.Menu.Parser.Measure.{Ends}
use ub2lb.Menu.Parser.Lst.{fsm}
use ub2lb.Menu.Parser.Kick.{kick_fsm}
use ub2lb.Menu.Parser.Lst.Total.{fsm-Ends}
use ub2lb.Menu.Parser.Lst.Bootable.{fsm-IsBootable}
use ub2lb.Menu.Parser.Kick.Total.{kick_fsm-Ends}
use ub2lb.Menu.Parser.Kick.Bootable.{kick_fsm-IsBootable}
use ub2lb.Menu.Loading.{
  BootDev, positive, dev_load, tag, tag_all, magic_load_loop, magic_load, menu_load, new_menu,
}

-- The loader returned, with entries that satisfy `P` for each, or wrote behind a module array.
abbrev pub Gives : (Entry → Type 0) → Outcome → Type 0
Gives P (running f) = ⊥
Gives P (returned n menu) = All P menu.entries
Gives P module_overflow = Unit

given :
    (o : Outcome)
    → Ends o
    → ((k : ℕ) (m : Menu) → o ≡ returned k m → All IsBootable m.entries)
    → Gives IsBootable o
given (running f) e h = absurd e
given (returned k m) e h = h k m refl
given module_overflow e h = tt

Gives-cases :
    {P : Entry → Type 0} (o : Outcome)
    → Gives P o
    → ((k : ℕ) × (m : Menu) × (o ≡ returned k m) × All P m.entries) ⊎ (o ≡ module_overflow)
Gives-cases (running f) g = absurd g
Gives-cases (returned k m) g = inl (k, m, refl, g)
Gives-cases module_overflow g = inr refl

fsm-Gives :
    (buffer : Bytes) (n : ℕ) (menu : Menu)
    → All IsBootable menu.entries
    → Gives IsBootable (fsm buffer n menu)
fsm-Gives buffer n menu h =
    given (fsm buffer n menu) (fsm-Ends buffer n menu) (λ k m e. fsm-IsBootable buffer n menu h e)

kick_fsm-Gives :
    (buffer : Bytes) (n : ℕ) (menu : Menu)
    → All IsBootable menu.entries
    → Gives IsBootable (kick_fsm buffer n menu)
kick_fsm-Gives buffer n menu h =
    given (kick_fsm buffer n menu) (kick_fsm-Ends buffer n menu)
      (λ k m e. kick_fsm-IsBootable buffer n menu h e)

-- Loading from a device ends, and each entry of the menu can be booted if that held before.
pub dev_load-Gives :
    (fresh : Bytes) (menu : Menu) (dev : BootDev)
    → All IsBootable menu.entries
    → Gives IsBootable (dev_load fresh menu dev)
unfolding dev_load
dev_load-Gives fresh menu dev h =
    let (l1, b1) = dev.load_file (codes "menu.lst") fresh in
    let (l2, b2) = dev.load_file (codes "boot/menu.lst") b1 in
    let (l3, b3) = dev.load_file (codes "Kickstart/Kicklayout") b2 in
    elim (Bool-cases (ltb 0 (positive l1))) [
      | inl a ↦ rw a (fsm-Gives b1 (positive l1) menu h)
      | inr a ↦ elim (Bool-cases (ltb 0 (positive l2))) [
        | inl b ↦ rw (a, b) (fsm-Gives b2 (positive l2) menu h)
        | inr b ↦ elim (Bool-cases (ltb 0 (positive l3))) [
          | inl c ↦ rw (a, b, c) (kick_fsm-Gives b3 (positive l3) menu h)
          | inr c ↦ rw (a, b, c) h
        ]
      ]
    ]

-- The entry can be booted, from a device that is known.
abbrev pub IsReady : Entry → Type 0
IsReady e = IsBootable e × (e.device_type ≢ default_type)

tag-case :
    (i : ℕ) (e : Entry) (d : DeviceType) → e.device_type ≡ d → IsBootable e → IsReady (tag i e)
unfolding tag
tag-case i e default_type k h = rw k (h, λ x. ground arith)
tag-case i e ide_type k h = rw k (h, λ x. ground arith)
tag-case i e tftp_type k h = rw k (h, λ x. ground arith)
tag-case i e cd_type k h = rw k (h, λ x. ground arith)

map-tag : (i : ℕ) (es : List Entry) → All IsBootable es → All IsReady (map (tag i) es)
map-tag i [] h = tt
map-tag i (e ∷ es) h = (tag-case i e e.device_type refl (h.0), map-tag i es (h.1))

forget : (es : List Entry) → All IsReady es → All IsBootable es
forget [] h = tt
forget (e ∷ es) h = (h.0.0, forget es (h.1))

module _ (fresh : Bytes) (create_dev : RdbPartition → Option BootDev) (table : Table) where
  magic_load_loop-Gives :
      (count i n : ℕ) (menu : Menu)
      → All IsReady menu.entries
      → Gives IsReady (magic_load_loop fresh create_dev table count i n menu)
  unfolding magic_load_loop
  magic_load_loop-Gives zero i n menu h = h
  magic_load_loop-Gives (suc count) i n menu h = elim (Option-cases (get table i)) [
    | inl e ↦ rw (e, magic_load_loop) h
    | inr (partition, e) ↦ elim (Option-cases (create_dev partition)) [
      | inl c ↦ rw (e, c, magic_load_loop) (magic_load_loop-Gives count (i + 1) n menu h)
      | inr (dev, c) ↦
          rw (e, c, magic_load_loop)
            (elim (Gives-cases (dev_load fresh menu dev)
              (dev_load-Gives fresh menu dev (forget menu.entries h))) [
                | inl (k, m, r, g) ↦
                    rw (r, magic_load_loop)
                      (magic_load_loop-Gives count (i + 1) (n + k) (tag_all i m)
                        (map-tag i m.entries g))
                | inr r ↦ rw r tt
              ])
    ]
  ]

  -- `magic_load` ends, and each entry of the menu can be booted, from a device that its menu file
  -- names or else from the partition that this file is on, if that held before.
  pub magic_load-Gives :
      (menu : Menu)
      → All IsReady menu.entries
      → Gives IsReady (magic_load fresh create_dev table menu)
  unfolding magic_load
  magic_load-Gives menu h = magic_load_loop-Gives 16 0 0 menu h

  -- `menu_load` ends, and each entry of the menu that it returns can be booted, unless a menu file
  -- has more modules than the array holds.
  pub menu_load-Gives :
      (boot : Option BootDev) → Gives IsBootable (menu_load fresh create_dev table boot)
  unfolding menu_load
  menu_load-Gives (some boot) = dev_load-Gives fresh new_menu boot tt
  menu_load-Gives none =
      elim (Gives-cases (magic_load fresh create_dev table new_menu)
        (magic_load-Gives new_menu tt)) [
          | inl (k, m, r, g) ↦ rw r (forget m.entries g)
          | inr r ↦ rw r tt
        ]
