-- ===== src/Menu/Parser/Kick/Bootable.antt =====
-- The entries that `kick_fsm` links.
use ub2lb.Prelude.{ℕ, ◌+◌, ◌*◌, ◌≡◌, arith, Bytes, All}
use ub2lb.Menu.Entry.{Menu}
use ub2lb.Menu.Parser.{
  Status, start, title_line, inside, kernel_line, module_line, accept, accept_quit, Fsm, returned,
  initial,
}
use ub2lb.Menu.Parser.Invariant.{
  IsBootable, Knows, Keeps, run-Keeps, All-concat, step_title-Keeps, step_kernel-Keeps,
  step_module-Keeps, step_accept-Keeps,
}
use ub2lb.Menu.Parser.Kick.{dispatch, step, kick_fsm}

dispatch-Keeps :
    (status : Status) (src : Bytes) (n : ℕ) (f : Fsm)
    → All IsBootable f.menu.entries
    → Knows status f.kernel f.entry
    → Keeps (dispatch status src n f)
unfolding dispatch
dispatch-Keeps start src n f all h = ground arith
dispatch-Keeps title_line src n f all h = step_title-Keeps f all
dispatch-Keeps inside src n f all h = ground arith
dispatch-Keeps kernel_line src n f all h = step_kernel-Keeps f all h.0 h.1
dispatch-Keeps module_line src n f all h = step_module-Keeps f all h.0 h.1
dispatch-Keeps accept src n f all h = step_accept-Keeps f all h
dispatch-Keeps accept_quit src n f all h = All-concat IsBootable f.menu.entries f.entry all h
dispatch-Keeps _ src n f all h = ground arith

-- If the entries of the menu can be booted, so can those of the menu that `kick_fsm` returns: each
-- new one has a title, and a kernel that an EXEC line gave.
pub kick_fsm-IsBootable :
    (buffer : Bytes) (buffer_len : ℕ) (menu : Menu) {n : ℕ} {result : Menu}
    → All IsBootable menu.entries
    → kick_fsm buffer buffer_len menu ≡ returned n result
    → All IsBootable result.entries
unfolding kick_fsm step
kick_fsm-IsBootable buffer buffer_len menu all e = rw e at (
    run-Keeps (step buffer buffer_len)
      (λ f (all', knows). dispatch-Keeps f.status buffer buffer_len f all' knows)
      (8 * buffer_len + 1) (initial menu) (all, tt))
