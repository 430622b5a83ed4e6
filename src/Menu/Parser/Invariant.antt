-- ===== src/Menu/Parser/Invariant.antt =====
-- What both machines keep: every entry that they have linked can be booted.
use ub2lb.Prelude.{
  ℕ, zero, suc, ◌≡◌, ◌≢◌, ◌⊎◌, Bool, true, Option, none, some, [], ◌∷◌, ◌++◌, List, arith, Bytes,
  All,
}
use ub2lb.Support.{strlen}
use ub2lb.Menu.Entry.{Entry, add_module}
use ub2lb.Menu.Parser.{
  Status, start, title_line, default_line, delay_line, accept, reject, accept_quit, reject_quit,
  Fsm, Outcome, running, returned, module_overflow, run, resume, step_title, step_kernel,
  step_module, step_accept,
}

-- There is such a string, and it is not empty.
abbrev pub Has : Option Bytes → Type 0
Has none = ⊥
Has (some s) = strlen s ≢ 0

-- There is a kernel to load, or a device that U-Boot is to boot.
abbrev pub HasTarget : Entry → Type 0
HasTarget e = Has e.kernel ⊎ Has e.other

abbrev pub IsBootable : Entry → Type 0
IsBootable e = Has e.title × HasTarget e

-- What a state knows of the entry that is being read, and of the flag `kernel`.
abbrev pub Knows : Status → Bool → Entry → Type 0
Knows start b e = Unit
Knows default_line b e = Unit
Knows delay_line b e = Unit
Knows title_line b e = Unit
Knows reject b e = Unit
Knows reject_quit b e = Unit
Knows accept b e = IsBootable e
Knows accept_quit b e = IsBootable e
Knows _ b e = Has e.title × (b ≡ true → HasTarget e)

abbrev pub Inv : Fsm → Type 0
Inv f = All IsBootable f.menu.entries × Knows f.status f.kernel f.entry

abbrev pub Keeps : Outcome → Type 0
Keeps (running f) = Inv f
Keeps (returned n menu) = All IsBootable menu.entries
Keeps module_overflow = Unit

resume-Keeps :
    (rest : Fsm → Outcome) (o : Outcome)
    → ((f : Fsm) → Inv f → Keeps (rest f))
    → Keeps o
    → Keeps (resume rest o)
resume-Keeps rest (running f) h k = h f k
resume-Keeps rest (returned n menu) h k = k
resume-Keeps rest module_overflow h k = tt

pub run-Keeps :
    (step : Fsm → Outcome)
    → ((f : Fsm) → Inv f → Keeps (step f))
    → (fuel : ℕ) (f : Fsm) → Inv f
    → Keeps (run step fuel f)
unfolding run
run-Keeps step keep zero f h = h
run-Keeps step keep (suc fuel) f h =
    resume-Keeps (λ g. run step fuel g) (step f) (run-Keeps step keep fuel) (keep f h)

pub All-concat {ℓ κ} :
    {A : Type ℓ} (P : A → Type κ) (xs : List A) (x : A) → All P xs → P x → All P (xs ++ x ∷ [])
All-concat P [] x h k = (k, tt)
All-concat P (y ∷ xs) x h k = (h.0, All-concat P xs x h.1 k)

module _ (f : Fsm) (all : All IsBootable f.menu.entries) where
  pub step_title-Keeps : Keeps (step_title f)
  unfolding step_title
  step_title-Keeps = ground arith

  pub step_accept-Keeps : IsBootable f.entry → Keeps (step_accept f)
  unfolding step_accept
  step_accept-Keeps h = (All-concat IsBootable f.menu.entries f.entry all h, tt)

  module _ (title : Has f.entry.title) (target : f.kernel ≡ true → HasTarget f.entry) where
    pub step_kernel-Keeps : Keeps (step_kernel f)
    unfolding step_kernel
    step_kernel-Keeps = ground arith

    pub step_module-Keeps : Keeps (step_module f)
    unfolding step_module add_module
    step_module-Keeps = ground arith
