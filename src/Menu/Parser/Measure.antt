-- ===== src/Menu/Parser/Measure.antt =====
-- The measure by which both machines end: the bytes that are left, and a bonus for what the state
-- may still do before it reads on. The bonus of a state inside an entry covers the step back by one
-- byte at most that the title of the next entry takes.
use ub2lb.Prelude.{ℕ, zero, suc, ◌+◌, ◌-◌, ◌*◌, ◌≤◌, ◌<◌, ◌≡◌, min, true, [], ◌∷◌, arith, Bytes}
use ub2lb.Prelude.Int.{pos}
use ub2lb.Support.{strlen, strcmp}
use ub2lb.Support.Compare.{IsText}
use ub2lb.Menu.Parser.{
  Status, start, title_line, inside, default_line, delay_line, accept, reject, accept_quit,
  reject_quit, Fsm, Outcome, running, returned, module_overflow, run, resume, is, step_title,
  step_kernel, step_module, kernel_line, module_line,
}

abbrev bonus : Status → ℕ → ℕ
bonus start r = 0
bonus default_line r = 1
bonus delay_line r = 1
bonus accept r = 1
bonus reject r = 1
bonus accept_quit r = 1
bonus reject_quit r = 1
bonus inside r = min (10 * r) 10 + 2
bonus _ r = min (10 * r) 10 + 3

abbrev pub measure : ℕ → ℕ → Status → ℕ
measure src_len offset status = 8 * (src_len - offset) + bonus status (src_len - offset)

-- The outcome of a round from a state of measure `m`.
abbrev pub Falls : ℕ → ℕ → Outcome → Type 0
Falls src_len m (running f) = measure src_len f.offset f.status < m
Falls src_len m (returned n menu) = Unit
Falls src_len m module_overflow = Unit

abbrev pub Ends : Outcome → Type 0
Ends (running f) = ⊥
Ends (returned n menu) = Unit
Ends module_overflow = Unit

strcmp-strlen : (w t : Bytes) → IsText t → strcmp w t ≡ pos 0 → strlen t ≤ strlen w
unfolding strcmp strlen
strcmp-strlen [] [] h e = omega arith
strcmp-strlen [] (b ∷ t) h e = ground arith
strcmp-strlen (a ∷ w) [] h e = omega arith
strcmp-strlen (a ∷ w) (b ∷ t) h e = ground (arith, strcmp-strlen w t h.1)

-- A word that is a keyword is as long as that.
pub is-strlen : (w t : Bytes) → IsText t → is w t ≡ true → strlen t ≤ strlen w
unfolding is
is-strlen w t h e = ground (arith, strcmp-strlen w t h)

module _ (src_len : ℕ) where
  resume-Ends :
      (rest : Fsm → Outcome) (m : ℕ) (o : Outcome)
      → ((f : Fsm) → measure src_len f.offset f.status < m → Ends (rest f))
      → Falls src_len m o
      → Ends (resume rest o)
  resume-Ends rest m (running f) h k = h f k
  resume-Ends rest m (returned n menu) h k = tt
  resume-Ends rest m module_overflow h k = tt

  -- A machine each of whose rounds lowers the measure ends, given more rounds than the measure.
  pub run-Ends :
      (step : Fsm → Outcome)
      → ((f : Fsm) → Falls src_len (measure src_len f.offset f.status) (step f))
      → (fuel : ℕ) (f : Fsm) → measure src_len f.offset f.status < fuel
      → Ends (run step fuel f)
  unfolding run
  run-Ends step falls zero f h = elim h [ ]
  run-Ends step falls (suc fuel) f h =
      resume-Ends (λ g. run step fuel g) _ (step f)
        (λ g k. run-Ends step falls fuel g (omega arith)) (falls f)

pub step_title-Falls : (n : ℕ) (f : Fsm) → Falls n (measure n f.offset title_line) (step_title f)
unfolding step_title
step_title-Falls n f = ground arith

pub step_kernel-Falls : (n : ℕ) (f : Fsm) → Falls n (measure n f.offset kernel_line) (step_kernel f)
unfolding step_kernel
step_kernel-Falls n f = ground arith

pub step_module-Falls : (n : ℕ) (f : Fsm) → Falls n (measure n f.offset module_line) (step_module f)
unfolding step_module
step_module-Falls n f = ground arith
