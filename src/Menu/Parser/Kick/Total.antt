-- ===== src/Menu/Parser/Kick/Total.antt =====
-- `kick_fsm` ends on every buffer.
use ub2lb.Prelude.{ℕ, ◌+◌, ◌*◌, ◌≤◌, ◌<◌, ◌≡◌, true, arith, Bytes, inl, inr, some, Option-cases}
use ub2lb.Support.{strlen}
use ub2lb.Menu.Entry.{Menu}
use ub2lb.Menu.Line.{getline, getnextword, strtrim, kick_eatcomments}
use ub2lb.Menu.Line.Laws.{getline_step, strlen-strtrim, strlen-kick_eatcomments, strlen-getnextword}
use ub2lb.Menu.Parser.{
  Status, start, title_line, inside, accept, kernel_line, module_line, codes, Fsm, is, initial,
  step_accept,
}
use ub2lb.Menu.Parser.Measure.{
  measure, Falls, Ends, run-Ends, is-strlen, step_title-Falls, step_kernel-Falls, step_module-Falls,
}
use ub2lb.Menu.Parser.Kick.{dispatch, step, kick_fsm, step_start, step_inside}

-- What a round that reads a line knows of it.
read_bounds :
    (src : Bytes) (src_len offset : ℕ) {read : Bytes} {next : ℕ}
    → getline src src_len offset ≡ some (read, next)
    → let line = strtrim (kick_eatcomments read) in
      (offset < src_len)
      × (offset < next)
      × (offset + strlen line ≤ next)
      × (strlen (getnextword line) ≤ strlen line)
read_bounds src src_len offset {read} h =
    let b = getline_step src src_len offset h in
    (
      b.0,
      b.1,
      omega (arith, strlen-strtrim (kick_eatcomments read), strlen-kick_eatcomments read),
      strlen-getnextword (strtrim (kick_eatcomments read)),
    )

label_word : (w : Bytes) → is w (codes "LABEL") ≡ true → 5 ≤ strlen w
unfolding strlen
label_word w e = is-strlen w (codes "LABEL") (omega arith) e

step_start-Falls :
    (src : Bytes) (n : ℕ) (f : Fsm) → Falls n (measure n f.offset start) (step_start src n f)
unfolding step_start
step_start-Falls src n f = elim (Option-cases (getline src n f.offset)) [
  | inl e ↦ rw (e, step_start) tt
  | inr ((read, next), e) ↦
      let w = getnextword (strtrim (kick_eatcomments read)) in
      rw (e, step_start) (ground (arith, read_bounds src n f.offset e, label_word w))
]

step_inside-Falls :
    (src : Bytes) (n : ℕ) (f : Fsm) → Falls n (measure n f.offset inside) (step_inside src n f)
unfolding step_inside
step_inside-Falls src n f = elim (Option-cases (getline src n f.offset)) [
  | inl e ↦ rw (e, step_inside) (ground arith)
  | inr ((read, next), e) ↦ rw (e, step_inside) (ground (arith, read_bounds src n f.offset e))
]

dispatch-Falls :
    (status : Status) (src : Bytes) (n : ℕ) (f : Fsm)
    → Falls n (measure n f.offset status) (dispatch status src n f)
unfolding dispatch
dispatch-Falls start src n f = step_start-Falls src n f
dispatch-Falls title_line src n f = step_title-Falls n f
dispatch-Falls inside src n f = step_inside-Falls src n f
dispatch-Falls kernel_line src n f = step_kernel-Falls n f
dispatch-Falls module_line src n f = step_module-Falls n f
dispatch-Falls accept src n f = unfold step_accept in omega arith
dispatch-Falls _ src n f = ground arith

-- `kick_fsm` returns, or leaves the modules' array, on every buffer: its loop needs no more than
-- eight rounds for each byte of the file.
pub kick_fsm-Ends :
    (buffer : Bytes) (buffer_len : ℕ) (menu : Menu) → Ends (kick_fsm buffer buffer_len menu)
unfolding kick_fsm step
kick_fsm-Ends buffer buffer_len menu =
    run-Ends buffer_len (step buffer buffer_len) (λ f. dispatch-Falls f.status buffer buffer_len f)
      (8 * buffer_len + 1) (initial menu) (omega arith)
