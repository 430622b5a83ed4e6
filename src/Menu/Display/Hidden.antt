-- ===== src/Menu/Display/Hidden.antt =====
-- A default entry behind the first twelve.
use ub2lb.Prelude.{
  ℕ, zero, suc, ◌*◌, ◌^◌, ◌≤◌, ◌<◌, ◌≡◌, refl, true, false, Bool, none, some, List, arith, ltb,
  length, drop,
}
use ub2lb.Prelude.Int.{pos}
use ub2lb.Support.{word}
use ub2lb.Menu.Entry.{Entry, Menu}
use ub2lb.Menu.Display.{
  Window, initial, dec, scroll, show, show_from, display, wait, default_index, to_int, chosen,
  menu_display,
}
use ub2lb.Menu.Display.Refine.{show_miss}

-- The first call of `display` scrolls by one line only, and an index beyond that is not found.
display-hidden :
    (entries : List Entry) (selected : ℕ)
    → 12 ≤ selected
    → selected < length entries
    → (w : Window) × (display entries (pos selected) initial ≡ some (none, w))
unfolding display show_from scroll
display-hidden entries selected h k =
    let far : ltb 10 selected ≡ true = ground arith in
    (
      record { first = pos 1; last = dec (show 11 (drop 1 entries) (pos 1) (pos selected) none).1 },
      ground (arith, show_miss 11 (drop 1 entries) 1 selected none),
    )

wait_quiet : (n : ℕ) (tstc : ℕ → Bool) → ((i : ℕ) → tstc i ≡ false) → wait n tstc ≡ 0
unfolding wait
wait_quiet zero tstc h = refl
wait_quiet (suc n) tstc h = rw (h (suc n), wait_quiet n tstc h)

-- Where the default entry is in the menu, but behind the first twelve, with an index below 2^31, and the
-- delay is positive and below 2^24, `menu_display` returns NULL when the delay
-- runs out with no key, and so does not boot it.
pub menu_display-hidden :
    (menu : Menu) (tstc : ℕ → Bool) (keys : List ℕ)
    → 12 ≤ menu.default_os
    → menu.default_os < length menu.entries
    → menu.default_os < 2 ^ 31
    → 0 < menu.delay
    → menu.delay < 2 ^ 24
    → ((i : ℕ) → tstc i ≡ false)
    → menu_display menu tstc keys ≡ chosen none
unfolding menu_display
menu_display-hidden menu tstc keys far inside positive delayed short quiet =
    let (w, e) = display-hidden menu.entries menu.default_os far inside in
    let index : default_index menu ≡ pos menu.default_os = ground arith in
    let delay : to_int (word (menu.delay * 100)) ≡ pos (menu.delay * 100) = ground arith in
    rw (index, delay, menu_display) (ground (arith, e, wait_quiet (menu.delay * 100) tstc quiet))
