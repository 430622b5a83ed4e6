-- ===== src/Menu/Parser/Kick.antt =====
-- `kick_fsm` of src/menu.c, which reads `Kickstart/Kicklayout`.
pub mod Total
pub mod Bootable
use ub2lb.Prelude.{ℕ, ◌+◌, ◌*◌, none, some, ◌==◌, if◌then◌else◌, Bytes}
use ub2lb.Support.{strlen}
use ub2lb.Menu.Entry.{Menu, link}
use ub2lb.Menu.Line.{getline, kick_eatcomments, getnextword, strtrim}
use ub2lb.Menu.Parser.{
  Status, start, title_line, inside, kernel_line, module_line, accept, reject, accept_quit,
  reject_quit, Fsm, Outcome, running, returned, initial, run, codes, is, goto, step_title,
  step_kernel, step_module, step_accept, step_next_title, read_line,
}

-- case S
step_start : Bytes → ℕ → Fsm → Outcome
step_start buffer buffer_len f = elim (getline buffer buffer_len f.offset) [
  | none ↦ returned f.n f.menu
  | some (read, offset) ↦
      let line = strtrim (kick_eatcomments read) in
      let w = getnextword line in
      if strlen line == 0
      then running (record f { offset = offset; status = start })
      else if is w (codes "LABEL")
      then read_line f offset w line title_line
      else running (record f { offset = offset; status = start })
]

-- case IN
step_inside : Bytes → ℕ → Fsm → Outcome
step_inside buffer buffer_len f = elim (getline buffer buffer_len f.offset) [
  | none ↦ goto f (if f.kernel then accept_quit else reject_quit)
  | some (read, offset) ↦
      let line = strtrim (kick_eatcomments read) in
      let w = getnextword line in
      if strlen line == 0
      then running (record f { offset = offset; status = inside })
      else if is w (codes "EXEC")
      then read_line f offset w line kernel_line
      else if is w (codes "MODULE")
      then read_line f offset w line module_line
      else if is w (codes "LABEL")
      then step_next_title f offset w line
      else read_line f offset w line reject
]

-- One round of the loop; `default` of the `switch` is that of RQ.
unfoldable pub dispatch : Status → Bytes → ℕ → Fsm → Outcome
unfolding step_start step_inside
dispatch start buffer buffer_len f = step_start buffer buffer_len f
dispatch title_line buffer buffer_len f = step_title f
dispatch inside buffer buffer_len f = step_inside buffer buffer_len f
dispatch kernel_line buffer buffer_len f = step_kernel f
dispatch module_line buffer buffer_len f = step_module f
dispatch accept buffer buffer_len f = step_accept f
dispatch reject buffer buffer_len f = goto f start
dispatch accept_quit buffer buffer_len f = returned 1 (link f.menu f.entry)
dispatch _ buffer buffer_len f = returned 0 f.menu

unfoldable pub step : Bytes → ℕ → Fsm → Outcome
step buffer buffer_len f = dispatch f.status buffer buffer_len f

-- On fuel: eight rounds for each byte of the buffer.
unfoldable pub kick_fsm : Bytes → ℕ → Menu → Outcome
kick_fsm buffer buffer_len menu = run (step buffer buffer_len) (8 * buffer_len + 1) (initial menu)
