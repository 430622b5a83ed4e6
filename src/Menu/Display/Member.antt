-- ===== src/Menu/Display/Member.antt =====
-- What the menu returns is an entry of the menu.
use ub2lb.Prelude.{
  ℕ, zero, suc, ◌+◌, ◌*◌, ◌%◌, Bool-cases, Option-cases, inl, inr, Bool, ◌||◌, ◌==◌, ltb, subst,
  Option, none, some, List, [], ◌∷◌, All, length, drop,
}
use ub2lb.Prelude.Int.{ℤ, pos, pos_part}
use ub2lb.Menu.Entry.{Entry, Menu}
use ub2lb.Menu.Display.{
  Window, Choice, chosen, waiting, null_pointer, show, show_from, display, scroll, key_loop, inc,
  same_int, move, menu_display, menu_display_serial, find_key, find_index, lt_int, to_int,
  default_index, wait, last_index, initial, wait_serial,
}
use ub2lb.Support.{word}

module _ (P : Entry → Type 0) where
  abbrev pub IfAny : Option Entry → Type 0
  IfAny none = Unit
  IfAny (some entry) = P entry

  -- An entry that is chosen has the property.
  abbrev pub Picks : Choice → Type 0
  Picks (chosen entry) = IfAny entry
  Picks waiting = Unit
  Picks null_pointer = Unit

  abbrev Displays : Option (Option Entry × Window) → Type 0
  Displays none = Unit
  Displays (some (entry, w)) = IfAny entry

  show-IfAny :
      (room : ℕ) (entries : List Entry) (at selected : ℤ) (sentry : Option Entry)
      → All P entries
      → IfAny sentry
      → IfAny ((show room entries at selected sentry).0)
  unfolding show
  show-IfAny zero entries at selected sentry h s = s
  show-IfAny (suc room) [] at selected sentry h s = s
  show-IfAny (suc room) (entry ∷ rest) at selected sentry h s =
      elim (Bool-cases (same_int at selected)) [
        | inl e ↦ rw (e, IfAny) (show-IfAny room rest (inc at) selected (some entry) (h.1) (h.0))
        | inr e ↦ rw (e, IfAny) (show-IfAny room rest (inc at) selected sentry (h.1) s)
      ]

  All-drop : (n : ℕ) (entries : List Entry) → All P entries → All P (drop n entries)
  All-drop zero entries h = h
  All-drop (suc n) [] h = h
  All-drop (suc n) (entry ∷ rest) h = All-drop n rest (h.1)

  display-Displays :
      (entries : List Entry) (selected : ℤ) (w : Window)
      → All P entries
      → Displays (display entries selected w)
  unfolding display show_from
  display-Displays entries selected w h =
      let first = scroll w selected in
      elim (Bool-cases (ltb (length entries) (pos_part first))) [
        | inl e ↦ rw e tt
        | inr e ↦ rw e (
            show-IfAny 11 (drop (pos_part first) entries) first selected none
              (All-drop (pos_part first) entries h) tt)
      ]

  key_loop-Picks :
      (entries : List Entry) (max : ℤ) (keys : List ℕ) (selected : ℤ) (w : Window)
      → All P entries
      → Picks (key_loop entries max keys selected w)
  unfolding key_loop
  key_loop-Picks entries max [] selected w h = elim (Option-cases (display entries selected w)) [
    | inl e ↦ rw (e, Picks) tt
    | inr (s, e) ↦ rw (e, Picks) tt
  ]
  key_loop-Picks entries max (key ∷ keys) selected w h =
      let d = display-Displays entries selected w h in
      elim (Option-cases (display entries selected w)) [
        | inl e ↦ rw (e, Picks) tt
        | inr ((entry, w'), e) ↦
            let ok : IfAny entry = subst Displays e d in
            let rest = key_loop-Picks entries max keys (move max selected key) w' h in
            elim (Bool-cases (key == 117)) [
              | inl q ↦ rw (e, q, Picks) tt
              | inr q ↦ elim (Bool-cases (key == 1 || key == 6)) [
                | inl r ↦ rw (e, q, r, Picks) ok
                | inr r ↦ rw (e, q, r, Picks) rest
              ]
            ]
      ]

  -- The entry that `menu_display` returns has any property that all entries of the menu have.
  pub menu_display-Picks :
      (menu : Menu) (tstc : ℕ → Bool) (keys : List ℕ)
      → All P menu.entries
      → Picks (menu_display menu tstc keys)
  unfolding menu_display
  menu_display-Picks menu tstc keys h =
      let max = last_index menu.entries in
      let selected = default_index menu in
      let delay = to_int (word (menu.delay * 100)) in
      let d = display-Displays menu.entries selected initial h in
      elim (Bool-cases (lt_int (pos 0) delay)) [
        | inl e ↦ elim (Option-cases (display menu.entries selected initial)) [
          | inl f ↦ rw (e, f) tt
          | inr ((entry, w), f) ↦
              let ok : IfAny entry = subst Displays f d in
              let go = key_loop-Picks menu.entries max keys selected w h in
              elim (Bool-cases (wait (pos_part delay) tstc == 0)) [
                | inl g ↦ rw (e, f, g) ok
                | inr g ↦ rw (e, f, g) go
              ]
        ]
        | inr e ↦ rw e (key_loop-Picks menu.entries max keys selected initial h)
      ]

  find_key-IfAny :
      (entries : List Entry) (k selected : ℕ) → All P entries → IfAny (find_key entries k selected)
  unfolding find_key
  find_key-IfAny [] k selected h = tt
  find_key-IfAny (entry ∷ rest) k selected h = elim (Bool-cases (k == selected)) [
    | inl e ↦ rw e (h.0)
    | inr e ↦ rw e (find_key-IfAny rest ((k + 1) % 256) selected (h.1))
  ]

  find_index-IfAny :
      (entries : List Entry) (i selected : ℤ)
      → All P entries
      → IfAny (find_index entries i selected)
  unfolding find_index
  find_index-IfAny [] i selected h = tt
  find_index-IfAny (entry ∷ rest) i selected h = elim (Bool-cases (same_int i selected)) [
    | inl e ↦ rw e (h.0)
    | inr e ↦ rw e (find_index-IfAny rest (inc i) selected (h.1))
  ]

  -- The same for `menu_display_serial`.
  pub menu_display_serial-Picks :
      (menu : Menu) (tstc : ℕ → Bool) (getc : ℕ)
      → All P menu.entries
      → Picks (menu_display_serial menu tstc getc)
  unfolding menu_display_serial
  menu_display_serial-Picks menu tstc getc h =
      elim (Bool-cases (wait_serial (to_int (word (menu.delay * 100))) tstc == 0)) [
        | inl e ↦ rw e (find_index-IfAny menu.entries (pos 0) (default_index menu) h)
        | inr e ↦ elim (Bool-cases (getc == b'z')) [
          | inl f ↦ rw (e, f) tt
          | inr f ↦ rw (e, f) (find_key-IfAny menu.entries b'a' getc h)
        ]
      ]
