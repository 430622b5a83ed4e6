-- ===== src/Menu/Display/Serial.antt =====
-- The choice on the serial line.
use ub2lb.Prelude.{
  ℕ, zero, suc, ◌+◌, ◌-◌, ◌%◌, ◌^◌, ◌≤◌, ◌<◌, ◌≡◌, refl, Bool, none, List, [], ◌∷◌, arith, ◌==◌,
  length, get_elem?, if◌then◌else◌, ◌*◌, ltb, ◌||◌,
}
use ub2lb.Prelude.Int.{pos}
use ub2lb.Support.{word}
use ub2lb.Menu.Entry.{Entry, Menu}
use ub2lb.Menu.Display.{find_key, find_index, menu_display_serial, Choice, chosen, wait, to_int}
use ub2lb.Menu.Display.Refine.{start_index, default_index_lem}

find_index-get_elem? :
    (entries : List Entry) (i skip selected : ℕ)
    → selected ≡ i + skip
    → find_index entries (pos i) (pos selected) ≡ get_elem? entries skip
unfolding find_index
find_index-get_elem? [] i skip selected e = refl
find_index-get_elem? (x ∷ entries) i zero selected e = ground arith
find_index-get_elem? (x ∷ entries) i (suc skip) selected e =
    ground (arith, find_index-get_elem? entries (suc i) skip selected)

find_key_miss :
    (entries : List Entry) (k key : ℕ)
    → k + length entries ≤ 255
    → key < k
    → find_key entries k key ≡ none
unfolding find_key
find_key_miss [] k key h g = refl
find_key_miss (x ∷ entries) k key h g =
    let next : (k + 1) % 256 ≡ k + 1 = omega arith in
    ground (arith, next, find_key_miss entries (k + 1) key)

find_key-get_elem? :
    (entries : List Entry) (k skip key : ℕ)
    → key ≡ k + skip
    → k + length entries ≤ 255
    → find_key entries k key ≡ get_elem? entries skip
unfolding find_key
find_key-get_elem? [] k skip key e h = refl
find_key-get_elem? (x ∷ entries) k zero key e h = ground arith
find_key-get_elem? (x ∷ entries) k (suc skip) key e h =
    let next : (k + 1) % 256 ≡ k + 1 = omega arith in
    ground (arith, next, find_key-get_elem? entries (k + 1) skip key)

-- The entry for a byte: the letters from `a` on number the entries.
abbrev pub lettered : List Entry → ℕ → Choice
lettered entries key =
    if key == b'z' || ltb key b'a' then chosen none else chosen (get_elem? entries (key - b'a'))

-- With one to 158 entries, a default index below 2^31 and a delay below 2^24, the serial menu returns the default entry when the delay runs out, and otherwise the entry that
-- the letter numbers; `z`, and a byte that numbers none, give NULL.
pub menu_display_serial-lettered :
    (menu : Menu) (tstc : ℕ → Bool) (key : ℕ)
    → 0 < length menu.entries
    → length menu.entries ≤ 158
    → menu.default_os < 2 ^ 31
    → menu.delay < 2 ^ 24
    → menu_display_serial menu tstc key ≡ (
        if wait (menu.delay * 100) tstc == 0
        then chosen (get_elem? menu.entries (start_index menu))
        else lettered menu.entries key)
unfolding menu_display_serial
menu_display_serial-lettered menu tstc key some_entry few positive short =
    let index = default_index_lem menu some_entry positive in
    let delay : to_int (word (menu.delay * 100)) ≡ pos (menu.delay * 100) = ground arith in
    let found =
      find_index-get_elem? menu.entries 0 (start_index menu) (start_index menu) (omega arith) in
    let letter = find_key-get_elem? menu.entries b'a' (key - b'a') key in
    rw (index, delay, menu_display_serial)
      (ground (arith, found, letter, find_key_miss menu.entries b'a' key))
