-- ===== src/Menu/Parser/Lst/Total.antt =====
-- `fsm` ends on every buffer.
use ub2lb.Prelude.{ℕ, ◌+◌, ◌*◌, ◌≤◌, ◌<◌, ◌≡◌, true, arith, Bytes, inl, inr, some, Option-cases}
use ub2lb.Support.{strlen}
use ub2lb.Menu.Entry.{Menu}
use ub2lb.Menu.Line.{getline, getnextword, strtrim, eatcomments}
use ub2lb.Menu.Line.Laws.{getline_step, strlen-strtrim, strlen-eatcomments, strlen-getnextword}
use ub2lb.Menu.Parser.{
  Status, start, title_line, inside, default_line, delay_line, accept, codes, Fsm, is, initial,
  kernel_line, root_line, module_line, step_accept,
}
use ub2lb.Menu.Parser.Measure.{
  measure, Falls, Ends, run-Ends, is-strlen, step_title-Falls, step_kernel-Falls, step_module-Falls,
}
use ub2lb.Menu.Parser.Lst.{dispatch, step, fsm, step_start, step_inside, step_root}

-- What a round that reads a line knows of it.
read_bounds :
    (src : Bytes) (src_len offset : ℕ) {read : Bytes} {next : ℕ}
    → getline src src_len offset ≡ some (read, next)
    → (offset < src_len)
      × (offset < next)
      × (offset + strlen (strtrim (eatcomments read)) ≤ next)
      × (strlen (getnextword (strtrim (eatcomments read))) ≤ strlen (strtrim (eatcomments read)))
read_bounds src src_len offset {read} h =
    let b = getline_step src src_len offset h in
    (
      b.0,
      b.1,
      omega (arith, strlen-strtrim (eatcomments read), strlen-eatcomments read),
      strlen-getnextword (strtrim (eatcomments read)),
    )

step_root-Falls : (n : ℕ) (f : Fsm) → Falls n (measure n f.offset root_line) (step_root f)
unfolding step_root
step_root-Falls n f = ground arith

-- The keyword that matters to the measure.
title_word : (w : Bytes) → is w (codes "title") ≡ true → 5 ≤ strlen w
unfolding strlen
title_word w e = is-strlen w (codes "title") (omega arith) e

step_start-Falls :
    (src : Bytes) (n : ℕ) (f : Fsm) → Falls n (measure n f.offset start) (step_start src n f)
unfolding step_start
step_start-Falls src n f = elim (Option-cases (getline src n f.offset)) [
  | inl e ↦ rw (e, step_start) tt
  | inr ((read, next), e) ↦
      let w = getnextword (strtrim (eatcomments read)) in
      rw (e, step_start) (ground (arith, read_bounds src n f.offset e, title_word w))
]

step_inside-Falls :
    (src : Bytes) (n : ℕ) (f : Fsm) → Falls n (measure n f.offset inside) (step_inside src n f)
unfolding step_inside
step_inside-Falls src n f = elim (Option-cases (getline src n f.offset)) [
  | inl e ↦ rw (e, step_inside) (ground arith)
  | inr ((read, next), e) ↦ rw (e, step_inside) (ground (arith, read_bounds src n f.offset e))
]

dispatch-Falls :
    (status : Status) (src : Bytes) (n : ℕ) (f : Fsm)
    → Falls n (measure n f.offset status) (dispatch status src n f)
unfolding dispatch
dispatch-Falls start src n f = step_start-Falls src n f
dispatch-Falls default_line src n f = ground arith
dispatch-Falls delay_line src n f = ground arith
dispatch-Falls title_line src n f = step_title-Falls n f
dispatch-Falls inside src n f = step_inside-Falls src n f
dispatch-Falls kernel_line src n f = step_kernel-Falls n f
dispatch-Falls root_line src n f = step_root-Falls n f
dispatch-Falls module_line src n f = step_module-Falls n f
dispatch-Falls accept src n f = unfold step_accept in omega arith
dispatch-Falls _ src n f = ground arith

-- `fsm` returns, or leaves the modules' array, on every buffer: its loop needs no more than eight
-- rounds for each byte of the file, though a title line is read twice.
pub fsm-Ends : (buffer : Bytes) (buffer_len : ℕ) (menu : Menu) → Ends (fsm buffer buffer_len menu)
unfolding fsm step
fsm-Ends buffer buffer_len menu =
    run-Ends buffer_len (step buffer buffer_len) (λ f. dispatch-Falls f.status buffer buffer_len f)
      (8 * buffer_len + 1) (initial menu) (omega arith)
