-- ===== src/Menu/Display.antt =====
-- `display` and `menu_display` of src/menu.c, on the VGA console and on the serial line. What is
-- drawn is left out; the keys, and the ticks at which a key has been pressed, are arguments.
pub mod Member
pub mod Refine
pub mod Hidden
pub mod Serial
use ub2lb.Prelude.{
  ℕ, zero, suc, ◌+◌, ◌-◌, ◌*◌, ◌%◌, ◌^◌, Bool, true, false, not, ◌&&◌, ◌||◌, Option, none, some,
  List, [], ◌∷◌, ltb, leb, ◌==◌, if◌then◌else◌, length, drop,
}
use ub2lb.Prelude.Int.{ℤ, pos, negsuc, pos_part, neg_part, sub_ℕ}
use ub2lb.Support.{word}
use ub2lb.Menu.Entry.{Entry, Menu}

-- `++` and `--` on an `int`.
abbrev pub inc : ℤ → ℤ
inc (pos n) = pos (suc n)
inc (negsuc zero) = pos 0
inc (negsuc (suc n)) = negsuc n

abbrev pub dec : ℤ → ℤ
dec (pos zero) = negsuc 0
dec (pos (suc n)) = pos n
dec (negsuc n) = negsuc (suc n)

abbrev pub lt_int : ℤ → ℤ → Bool
lt_int a b = ltb (pos_part a + neg_part b) (pos_part b + neg_part a)

abbrev pub same_int : ℤ → ℤ → Bool
same_int a b = pos_part a + neg_part b == pos_part b + neg_part a

-- A 32-bit pattern as an `int`.
abbrev pub to_int : ℕ → ℤ
to_int w = if ltb w (2 ^ 31) then pos w else negsuc (2 ^ 32 - w - 1)

-- The two static variables of `display`.
pub record Window : Type 0 where
  pub first : ℤ
  pub last : ℤ

abbrev pub initial : Window
initial = record { first = pos 0; last = pos 10 }

-- `if (selected < first) first--; if (selected > last) first++;`
unfoldable pub scroll : Window → ℤ → ℤ
scroll w selected =
    let up = if lt_int selected w.first then dec w.first else w.first in
    if lt_int w.last selected then inc up else up

-- The loop over the entries, of which `room` lines are left, with `i + first` and `sentry` so far.
-- At its end `i + first` is one more than `last`.
unfoldable pub show : ℕ → List Entry → ℤ → ℤ → Option Entry → Option Entry × ℤ
show zero entries at selected sentry = (sentry, at)
show (suc room) [] at selected sentry = (sentry, at)
show (suc room) (entry ∷ rest) at selected sentry =
    show room rest (inc at) selected (if same_int at selected then some entry else sentry)

-- The two loops of `display`. `none` where the first follows the NULL behind the last entry.
unfoldable pub show_from : List Entry → ℤ → ℤ → Option (Option Entry × Window)
show_from entries selected first =
    if ltb (length entries) (pos_part first)
    then none
    else (let (sentry, end) = show 11 (drop (pos_part first) entries) first selected none in
        some (sentry, record { first = first; last = dec end }))

unfoldable pub display : List Entry → ℤ → Window → Option (Option Entry × Window)
unfolding scroll show_from
display entries selected w = show_from entries selected (scroll w selected)

-- What the user gets: an entry, NULL, or nothing yet, when the keys run out.
pub data Choice : Type 0 where
  chosen : Option Entry → Choice
  waiting : Choice
  null_pointer : Choice

-- The index after a key: 4 is up and 3 is down.
abbrev pub move : ℤ → ℤ → ℕ → ℤ
move max selected key =
    let up = if key == 4 && lt_int (pos 0) selected then dec selected else selected in
    if key == 3 && lt_int up max then inc up else up

-- `while (1)` behind `skip_delay`.
unfoldable pub key_loop : List Entry → ℤ → List ℕ → ℤ → Window → Choice
key_loop entries max [] selected w = elim (display entries selected w) [
  | none ↦ null_pointer
  | some shown ↦ waiting
]
key_loop entries max (key ∷ keys) selected w = elim (display entries selected w) [
  | none ↦ null_pointer
  | some (entry, w') ↦
      let rest = key_loop entries max keys (move max selected key) w' in
      if key == 117 then chosen none else if key == 1 || key == 6 then chosen entry else rest
]

-- `while (delay)`: what is left of the delay where `tstc` sees a key.
unfoldable pub wait : ℕ → (ℕ → Bool) → ℕ
wait zero tstc = 0
wait (suc delay) tstc = if tstc (suc delay) then suc delay else wait delay tstc

-- `max`, which is -1 for a menu with no entry.
abbrev pub last_index : List Entry → ℤ
last_index entries = sub_ℕ (length entries + 1) 2

-- `selected = self->default_os <= max ? self->default_os : max`
abbrev pub default_index : Menu → ℤ
default_index menu =
    let max = last_index menu.entries in
    if lt_int max (to_int menu.default_os) then max else to_int menu.default_os

-- The VGA branch of `menu_display`; `tstc` is asked once for each tick that is left.
unfoldable pub menu_display : Menu → (ℕ → Bool) → List ℕ → Choice
menu_display menu tstc keys =
    let max = last_index menu.entries in
    let selected = default_index menu in
    let delay = to_int (word (menu.delay * 100)) in
    if lt_int (pos 0) delay
    then elim (display menu.entries selected initial) [
      | none ↦ null_pointer
      | some (entry, w) ↦
          if wait (pos_part delay) tstc == 0
          then chosen entry
          else key_loop menu.entries max keys selected w
    ]
    else key_loop menu.entries max keys selected initial

-- `menu_display_serial`: `k` runs through the bytes from `a` on, as a `char`.
unfoldable pub find_key : List Entry → ℕ → ℕ → Option Entry
find_key [] k selected = none
find_key (entry ∷ rest) k selected =
    if k == selected then some entry else find_key rest ((k + 1) % 256) selected

unfoldable pub find_index : List Entry → ℤ → ℤ → Option Entry
find_index [] i selected = none
find_index (entry ∷ rest) i selected =
    if same_int i selected then some entry else find_index rest (inc i) selected

-- `while (delay)` with the same ticks. A negative delay reaches zero only by wrapping round.
unfoldable pub wait_serial : ℤ → (ℕ → Bool) → ℕ
wait_serial (pos n) tstc = wait n tstc
wait_serial (negsuc n) tstc = wait (2 ^ 32 - suc n) tstc

-- At the byte `z` the code returns `entry`, which is NULL behind the loop that prints the menu.
unfoldable pub menu_display_serial : Menu → (ℕ → Bool) → ℕ → Choice
unfolding wait_serial
menu_display_serial menu tstc getc =
    if wait_serial (to_int (word (menu.delay * 100))) tstc == 0
    then chosen (find_index menu.entries (pos 0) (default_index menu))
    else if getc == b'z'
    then chosen none
    else chosen (find_key menu.entries b'a' getc)
