-- ===== src/Menu/Display/Refine.antt =====
-- The menu with a scrolled window shows what a menu with no window would.
use ub2lb.Prelude.{
  ℕ, min, ◌*◌, ◌^◌, ap, ◌∙◌, ◌⊎◌, inl, inr, zero, suc, ◌+◌, ◌-◌, ◌≤◌, ◌<◌, ◌≡◌, refl, Bool, false,
  ◌&&◌, ◌||◌, Option, none, some, List, [], ◌∷◌, arith, Bool-cases, ltb, ◌==◌, if◌then◌else◌,
  length, drop, length-drop, get_elem?,
}
use ub2lb.Prelude.Int.{ℤ, pos, pos_part}
use ub2lb.Support.{word}
use ub2lb.Menu.Entry.{Entry, Menu}
use ub2lb.Menu.Display.{
  Window, Choice, chosen, waiting, show, display, key_loop, scroll, show_from, move, menu_display,
  default_index, last_index, to_int, wait, dec, lt_int,
}

-- The reference: an index that the keys move, and no window.
abbrev pub moved : ℕ → ℕ → ℕ → ℕ
moved count selected key =
    let up = if key == 4 then selected - 1 else selected in
    if key == 3 && ltb (up + 1) count then up + 1 else up

unfoldable pub pick : List Entry → List ℕ → ℕ → Choice
pick entries [] selected = waiting
pick entries (key ∷ keys) selected =
    let rest = pick entries keys (moved (length entries) selected key) in
    if key == 117
    then chosen none
    else if key == 1 || key == 6
    then chosen (get_elem? entries selected)
    else rest

show_end :
    (room : ℕ) (entries : List Entry) (at : ℕ) (selected : ℤ) (sentry : Option Entry)
    → (show room entries (pos at) selected sentry).1 ≡ pos (at + min room (length entries))
unfolding show
show_end zero entries at selected sentry = ground arith
show_end (suc room) [] at selected sentry = ground arith
show_end (suc room) (e ∷ entries) at selected sentry =
    show_end room entries (suc at) selected _ ∙ ap pos (omega arith)

-- An index that the lines do not reach leaves `sentry` as it is.
pub show_miss :
    (room : ℕ) (entries : List Entry) (at selected : ℕ) (sentry : Option Entry)
    → (selected < at) ⊎ (at + room ≤ selected)
    → (show room entries (pos at) (pos selected) sentry).0 ≡ sentry
unfolding show
show_miss zero entries at selected sentry h = refl
show_miss (suc room) [] at selected sentry h = refl
show_miss (suc room) (e ∷ entries) at selected sentry h =
    show_miss room entries (suc at) selected _ (ground arith) ∙ ground arith

show_hit :
    (room : ℕ) (entries : List Entry) (at skip selected : ℕ) (sentry : Option Entry)
    → selected ≡ at + skip
    → skip < room
    → skip < length entries
    → (show room entries (pos at) (pos selected) sentry).0 ≡ get_elem? entries skip
unfolding show
show_hit zero entries at skip selected sentry e h k = absurd (omega arith)
show_hit (suc room) [] at skip selected sentry e h k = absurd (omega arith)
show_hit (suc room) (x ∷ entries) at zero selected sentry e h k =
    show_miss room entries (suc at) selected _ (inl (omega arith)) ∙ ground arith
show_hit (suc room) (x ∷ entries) at (suc skip) selected sentry e h k =
    show_hit room entries (suc at) skip selected _ (omega arith) (omega arith) (omega arith)

suc-add : (n i : ℕ) → suc (n + i) ≡ suc n + i
suc-add n i = omega arith

get_elem?-drop {ℓ} :
    {A : Type ℓ} (n i : ℕ) (xs : List A) → get_elem? (drop n xs) i ≡ get_elem? xs (n + i)
get_elem?-drop zero i xs = ap (get_elem? xs) (omega arith)
get_elem?-drop (suc n) i [] = refl
get_elem?-drop (suc n) i (x ∷ xs) = get_elem?-drop n i xs ∙ ap (get_elem? (x ∷ xs)) (suc-add n i)

abbrev window : ℕ → ℕ → Window
window first last = record { first = pos first; last = pos last }

-- The window from which `display` is called: the index has moved by one at most from one that it
-- showed, and the window is full or reaches the last entry.
record Sees (entries : List Entry) (selected first last : ℕ) : Type 0 where
  in_menu : selected < length entries
  top : first ≤ selected + 1
  bottom : selected ≤ last + 1
  size : (last ≡ first + 10) ⊎ (last + 1 ≡ length entries)
  fits : last ≤ first + 10

scroll_lem :
    (entries : List Entry) (selected first last : ℕ)
    → Sees entries selected first last
    → (f : ℕ) × (scroll (window first last) (pos selected) ≡ pos f)
      × (f ≤ selected)
      × (selected ≤ f + 10)
unfolding scroll
scroll_lem entries selected zero last s = elim (Bool-cases (ltb last selected)) [
  | inl down ↦ (1, ground arith, ground arith, ground arith)
  | inr stay ↦ (0, ground arith, ground arith, ground arith)
]
scroll_lem entries selected (suc first) last s = elim (Bool-cases (ltb selected (suc first))) [
  | inl up ↦ (first, ground arith, ground arith, ground arith)
  | inr same ↦ elim (Bool-cases (ltb last selected)) [
    | inl down ↦ (suc (suc first), ground arith, ground arith, ground arith)
    | inr stay ↦ (suc first, ground arith, ground arith, ground arith)
  ]
]

dec_pos : (n : ℕ) → 0 < n → dec (pos n) ≡ pos (n - 1)
dec_pos zero h = absurd (omega arith)
dec_pos (suc n) h = ap pos (omega arith)

-- The last index that is shown, from `first` on.
abbrev end : List Entry → ℕ → ℕ
end entries first = first + min 11 (length entries - first) - 1

show_from_lem :
    (entries : List Entry) (selected f : ℕ)
    → f ≤ selected
    → selected ≤ f + 10
    → selected < length entries
    → show_from entries (pos selected) (pos f)
      ≡ some (get_elem? entries selected, window f (end entries f))
unfolding show_from
show_from_lem entries selected f h k l =
    let room : length (drop f entries) ≡ length entries - f = length-drop f entries in
    let hit =
      show_hit 11 (drop f entries) f (selected - f) selected none (omega arith) (omega arith)
        (omega arith)
      ∙ get_elem?-drop f (selected - f) entries in
    let index : f + (selected - f) ≡ selected = omega arith in
    let last = show_end 11 (drop f entries) f (pos selected) none in
    let inside : ltb (length entries) f ≡ false = ground arith in
    rw (inside, hit, last, room, index)
      (ap (λ z. some (get_elem? entries selected, record { first = pos f; last = z }))
        (dec_pos _ (omega arith)))

move-moved :
    (count selected key : ℕ)
    → selected < count
    → move (pos (count - 1)) (pos selected) key ≡ pos (moved count selected key)
move-moved count zero key h = ground arith
move-moved count (suc selected) key h = ground arith

-- One call of `display` in the loop, and the window behind it.
display_lem :
    (entries : List Entry) (selected first last : ℕ)
    → Sees entries selected first last
    → (f : ℕ) × (display entries (pos selected) (window first last)
        ≡ some (get_elem? entries selected, window f (end entries f)))
      × (f ≤ selected)
      × (selected ≤ f + 10)
unfolding display
display_lem entries selected first last s =
    let (f, e, h, k) = scroll_lem entries selected first last s in
    (
      f,
      ap (show_from entries (pos selected)) e ∙ show_from_lem entries selected f h k s.in_menu,
      h,
      k,
    )

Sees-next :
    (entries : List Entry) (selected next f : ℕ)
    → f ≤ selected
    → selected ≤ f + 10
    → selected < length entries
    → next < length entries
    → next ≤ selected + 1
    → selected ≤ next + 1
    → Sees entries next f (end entries f)
Sees-next entries selected next f a b c d e g = record {
  in_menu = d;
  top = omega arith;
  bottom = omega arith;
  size = ground arith;
  fits = omega arith;
}

moved_bounds :
    (count selected key : ℕ)
    → selected < count
    → (moved count selected key < count)
      × (moved count selected key ≤ selected + 1)
      × (selected ≤ moved count selected key + 1)
moved_bounds count selected key h = ground arith

key_loop-pick :
    (entries : List Entry) (keys : List ℕ) (selected first last : ℕ)
    → Sees entries selected first last
    → key_loop entries (pos (length entries - 1)) keys (pos selected) (window first last)
      ≡ pick entries keys selected
unfolding key_loop pick
key_loop-pick entries [] selected first last s =
    let (f, e, h, k) = display_lem entries selected first last s in rw (e, key_loop)
key_loop-pick entries (key ∷ keys) selected first last s =
    let (f, e, h, k) = display_lem entries selected first last s in
    let (a, b, c) = moved_bounds (length entries) selected key s.in_menu in
    let next =
      Sees-next entries selected (moved (length entries) selected key) f h k s.in_menu a b c in
    rw (
      e,
      key_loop,
      move-moved (length entries) selected key s.in_menu,
      key_loop-pick entries keys _ f (end entries f) next,
    )

-- The entry that is selected first.
abbrev pub start_index : Menu → ℕ
start_index menu = min menu.default_os (length menu.entries - 1)

-- Does the delay run out with no key?
abbrev pub times_out : Menu → (ℕ → Bool) → Bool
times_out menu tstc =
    let delay = to_int (word (menu.delay * 100)) in
    lt_int (pos 0) delay && (wait (pos_part delay) tstc == 0)

module _ (menu : Menu) (some_entry : 0 < length menu.entries)
    (positive : menu.default_os < 2 ^ 31) where
  pub default_index_lem : default_index menu ≡ pos (start_index menu)
  default_index_lem = ground arith

  last_index_lem : last_index menu.entries ≡ pos (length menu.entries - 1)
  last_index_lem = ground arith

  Sees-initial : start_index menu ≤ 11 → Sees menu.entries (start_index menu) 0 10
  Sees-initial h = record {
    in_menu = omega arith;
    top = omega arith;
    bottom = omega arith;
    size = inl (omega arith);
    fits = omega arith;
  }

  -- On a menu with an entry, and a default index below 2^31 that is among the first twelve, `menu_display` returns the default
  -- entry when the delay runs out, and otherwise what an index with no window picks for the keys.
  pub menu_display-pick :
      start_index menu ≤ 11
      → (tstc : ℕ → Bool) (keys : List ℕ)
      → menu_display menu tstc keys ≡ (
          if times_out menu tstc
          then chosen (get_elem? menu.entries (start_index menu))
          else pick menu.entries keys (start_index menu))
  unfolding menu_display
  menu_display-pick h tstc keys =
      let s = Sees-initial h in
      let (f, e, top, bottom) = display_lem menu.entries (start_index menu) 0 10 s in
      let next =
        Sees-next menu.entries (start_index menu) (start_index menu) f top bottom s.in_menu
          s.in_menu (omega arith) (omega arith) in
      let go = key_loop-pick menu.entries keys (start_index menu) 0 10 s in
      let go_on = key_loop-pick menu.entries keys (start_index menu) f (end menu.entries f) next in
      rw (default_index_lem, last_index_lem, menu_display) (ground (arith, e, go, go_on))
