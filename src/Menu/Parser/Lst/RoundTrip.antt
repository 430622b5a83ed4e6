-- ===== src/Menu/Parser/Lst/RoundTrip.antt =====
-- Menu files that `fsm` reads back.
use ub2lb.Prelude.{
  ℕ, zero, suc, ◌+◌, ◌*◌, ◌≡◌, ◌∙◌, refl, sym, ap, subst, Bool, true, false, List, [], ◌∷◌, ◌++◌,
  map, append-nil, append_assoc, All, Bytes, length, drop,
}
use ub2lb.Menu.Entry.{Entry, entry_alloc, Menu, link}
use ub2lb.Menu.Line.{getline}
use ub2lb.Menu.Parser.{start, Fsm, Outcome, returned, initial, run, resume}
use ub2lb.Menu.Parser.Measure.{Ends}
use ub2lb.Menu.Parser.Lst.{step, dispatch, step_start, fsm}
use ub2lb.Menu.Parser.Lst.Total.{fsm-Ends}
use ub2lb.Menu.Parser.Lst.Print.{Printed, print, entry_of, IsPrintable}
use ub2lb.Menu.Parser.Lst.Steps.{
  state, Reaches, ends, goes, inside-accept, accept-start, inside-end,
}
use ub2lb.Menu.Parser.Lst.Lines.{entry-Reaches}

module _ (buffer : Bytes) where
  -- The menu with further entries.
  abbrev extended : Menu → List Entry → Menu
  extended menu entries = record menu { entries = menu.entries ++ entries }

  entries-Reaches :
      (p : Printed) (ps : List Printed) (offset : ℕ) (lineptr : Bytes) (entry : Entry)
      (kernel : Bool) (menu : Menu) (n : ℕ)
      → IsPrintable p
      → All IsPrintable ps
      → drop offset buffer ≡ print (p ∷ ps)
      → Reaches buffer
          (state offset lineptr start entry kernel menu n)
          (returned 1 (extended menu (map entry_of (p ∷ ps))))
  unfolding print step dispatch
  entries-Reaches p [] offset lineptr entry kernel menu n h hs e =
      entry-Reaches buffer p [] offset lineptr entry kernel menu n _ h e (λ offset' lineptr' e'.
        goes (inside-end buffer offset' lineptr' (entry_of p) menu n e') (ends refl))
  entries-Reaches p (q ∷ qs) offset lineptr entry kernel menu n h hs e =
      entry-Reaches buffer p (print (q ∷ qs)) offset lineptr entry kernel menu n _ h e
        (λ offset' lineptr' e'.
          goes (inside-accept buffer offset' lineptr' (entry_of p) menu n q.title _ (hs.0.title) e')
            (goes (accept-start buffer offset' (b' ' ∷ q.title) (entry_of p) true menu n) (
              subst
                (λ es.
                  Reaches buffer
                    (state offset' (b' ' ∷ q.title) start (entry_of p) true (link menu (entry_of p))
                      (n + 1))
                    (returned 1 (record menu { entries = es })))
                (append_assoc menu.entries (entry_of p ∷ []) (map entry_of (q ∷ qs)))
                (entries-Reaches q qs offset' (b' ' ∷ q.title) (entry_of p) true
                  (link menu (entry_of p)) (n + 1) (hs.0) (hs.1) e'))))

  run-Reaches :
      (fuel : ℕ) (f : Fsm) (o : Outcome)
      → Reaches buffer f o
      → Ends (run (step buffer (length buffer)) fuel f)
      → run (step buffer (length buffer)) fuel f ≡ o
  unfolding run
  run-Reaches zero f o r e = absurd e
  run-Reaches (suc fuel) f _ (ends {n = n} {menu} s) e =
      ap (resume (λ g. run (step buffer (length buffer)) fuel g)) s
  run-Reaches (suc fuel) f o (goes {g = g} s r) e =
      let on = ap (resume (λ g. run (step buffer (length buffer)) fuel g)) s in
      on ∙ run-Reaches fuel g o r (subst Ends on e)

-- `fsm` reads a file that is printed from entries (the lines title, kernel, root, initrd, dtb and
-- module), and adds just these entries to the menu, where titles and command lines have no blanks
-- at their ends, the names of kernels, initial RAM disks, device trees and modules have no blanks,
-- none of these is empty or has a NUL, a newline or a `#`, a root line names tftp, cdrom or a disc
-- with its device and a partition of one digit or more, and no entry has more than a hundred
-- modules.
pub fsm-print :
    (ps : List Printed) (menu : Menu)
    → All IsPrintable ps
    → fsm (print ps) (length (print ps)) menu
      ≡ returned 1 (record menu { entries = menu.entries ++ map entry_of ps })
unfolding fsm print run step dispatch step_start getline
fsm-print [] menu h =
    ap (λ es. returned 1 (record menu { entries = es })) (sym (append-nil menu.entries))
fsm-print (p ∷ ps) menu h =
    let buffer = print (p ∷ ps) in
    run-Reaches buffer (8 * length buffer + 1) (initial menu) _
      (entries-Reaches buffer p ps 0 [] entry_alloc false menu 0 (h.0) (h.1) refl)
      (fsm-Ends buffer (length buffer) menu)
