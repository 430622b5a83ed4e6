-- ===== src/Examples/Display.antt =====
-- Menus with two entries and with fourteen, and a menu in memory.
use ub2lb.Prelude.{
  ℕ, zero, suc, ◌≡◌, refl, arith, Bool, true, false, none, some, List, [], ◌∷◌, Bytes,
  if◌then◌else◌, ◌==◌,
}
use ub2lb.Menu.Entry.{Entry, entry_alloc, Menu}
use ub2lb.Menu.Parser.{codes}
use ub2lb.Menu.Display.{menu_display, menu_display_serial, chosen, wait}
use ub2lb.Menu.Display.Refine.{menu_display-pick, pick}
use ub2lb.Menu.Display.Hidden.{menu_display-hidden}
use ub2lb.Menu.Display.Serial.{menu_display_serial-lettered}
use ub2lb.Menu.Free.{Allocated, menu_entry, string, undefined, menu_free}
use ub2lb.Menu.Free.Faulty.{menu_free-undefined}

abbrev entry : Bytes → Entry
entry title = record entry_alloc { title = some title; kernel = some (codes "k") }

abbrev copies : ℕ → List Entry
copies zero = []
copies (suc n) = entry (codes "more") ∷ copies n

abbrev two : Menu
two = record {
  head = entry_alloc;
  default_os = 1;
  delay = 5;
  entries = entry (codes "a") ∷ entry (codes "b") ∷ [];
}

abbrev fourteen : Menu
fourteen = record { head = entry_alloc; default_os = 12; delay = 1; entries = copies 14 }

abbrev pressed : ℕ → Bool
pressed i = true

abbrev quiet : ℕ → Bool
quiet i = false

-- Up, down, up, and return: the first entry.
menu_display-pick_example :
    menu_display two pressed (4 ∷ 3 ∷ 4 ∷ 6 ∷ []) ≡ chosen (some (entry (codes "a")))
unfolding wait pick
menu_display-pick_example =
    menu_display-pick two (omega arith) (omega arith) (omega arith) pressed (4 ∷ 3 ∷ 4 ∷ 6 ∷ [])

menu_display-hidden_example : menu_display fourteen quiet [] ≡ chosen none
menu_display-hidden_example =
    menu_display-hidden fourteen quiet [] (omega arith) (omega arith) (omega arith) (omega arith)
      (omega arith) (λ i. refl)

menu_display_serial-lettered_example :
    menu_display_serial two pressed b'b' ≡ chosen (some (entry (codes "b")))
unfolding wait
menu_display_serial-lettered_example =
    menu_display_serial-lettered two pressed b'b' (omega arith) (omega arith) (omega arith)
      (omega arith)

-- A menu of an entry with a title, at 100, and one behind it, at 200.
abbrev memory : Allocated
memory p =
    if p == 100
    then some (menu_entry 200 (300 ∷ []))
    else if p == 200
    then some (menu_entry 0 [])
    else if p == 300
    then some string
    else none

menu_free-undefined_example : menu_free 2 100 memory ≡ undefined
menu_free-undefined_example = menu_free-undefined 0 100 memory refl (λ e. omega (arith, e))
