-- ===== src/Menu/Parser.antt =====
-- The state machines `fsm` and `kick_fsm` of src/menu.c: their state, and the cases that the two
-- functions have in common. `break` ends a case with the next state, `return` ends the machine.
pub mod Lst
pub mod Kick
pub mod Measure
pub mod Invariant
use Prim.Native.Char.{code}
use Prim.Native.String.{String}
use ub2lb.Prelude.{
  ℕ, zero, suc, ◌+◌, ◌-◌, Bool, true, false, Option, none, some, [], ◌∷◌, ◌==◌, if◌then◌else◌,
  Bytes, drop,
}
use ub2lb.Prelude.Int.{ℤ, pos, negsuc}
use ub2lb.Support.{strlen, strcmp}
use ub2lb.Menu.Entry.{Entry, entry_alloc, Menu, link, add_module}
use ub2lb.Menu.Line.{getnextword, strtrim}

-- `enum states`: S, DEF, DLY, TIT, IN, RT, K, O, RD, DTB, M, A, R, AQ and RQ.
pub data Status : Type 0 where
  start default_line delay_line title_line inside root_line kernel_line other_line : Status
  initrd_line dtb_line module_line accept reject accept_quit reject_quit : Status

-- The variables of the loop. `entry` is used only behind a title, which allocates it.
pub record Fsm : Type 0 where
  pub offset : ℕ
  pub lineptr : Bytes
  pub status : Status
  pub entry : Entry
  pub kernel : Bool
  pub menu : Menu
  pub n : ℕ

pub data Outcome : Type 0 where
  running : Fsm → Outcome
  returned : ℕ → Menu → Outcome
  -- a write behind `entry->modules`
  module_overflow : Outcome

abbrev pub initial : Menu → Fsm
initial menu = record {
  offset = 0;
  lineptr = [];
  status = start;
  entry = entry_alloc;
  kernel = false;
  menu = menu;
  n = 0;
}

-- What follows a round of the loop.
abbrev pub resume : (Fsm → Outcome) → Outcome → Outcome
resume rest (running f) = rest f
resume rest (returned n menu) = returned n menu
resume rest module_overflow = module_overflow

-- `while (parse)`, on fuel: `running` is the result only where it runs out.
unfoldable pub run : (Fsm → Outcome) → ℕ → Fsm → Outcome
run step zero f = running f
run step (suc fuel) f = resume (λ g. run step fuel g) (step f)

abbrev pub codes : String → Bytes
codes String.[] = []
codes (String.◌∷◌ c s) = code c ∷ codes s

is_zero : ℤ → Bool
is_zero (pos n) = n == 0
is_zero (negsuc n) = false

-- `strcmp(word, text) == 0`
unfoldable pub is : Bytes → Bytes → Bool
unfolding is_zero
is word text = is_zero (strcmp word text)

-- `lineptr + strlen(word)`
abbrev pub behind : Bytes → Bytes → Bytes
behind word line = drop (strlen word) line

abbrev pub goto : Fsm → Status → Outcome
goto f status = running (record f { status = status })

-- case TIT
unfoldable pub step_title : Fsm → Outcome
step_title f =
    let lineptr = strtrim f.lineptr in
    if strlen lineptr == 0
    then running (record f { lineptr = lineptr; status = start })
    else running (record f {
      lineptr = lineptr;
      status = inside;
      kernel = false;
      entry = record entry_alloc { title = some lineptr };
    })

abbrev nonempty : Bytes → Option Bytes → Option Bytes
nonempty s old = if strlen s == 0 then old else some s

-- case K
unfoldable pub step_kernel : Fsm → Outcome
step_kernel f =
    let lineptr = strtrim f.lineptr in
    let word = getnextword lineptr in
    if strlen word == 0
    then running (record f { lineptr = lineptr; status = reject })
    else (let args = strtrim (behind word lineptr) in
        running (record f {
          lineptr = args;
          status = inside;
          kernel = true;
          entry = record (f.entry) { kernel = some word; append = nonempty args (f.entry).append };
        }))

-- case M
unfoldable pub step_module : Fsm → Outcome
step_module f =
    let lineptr = strtrim f.lineptr in
    let word = getnextword lineptr in
    if strlen word == 0
    then running (record f { lineptr = lineptr; status = reject })
    else elim (add_module f.entry word) [
      | none ↦ module_overflow
      | some entry ↦ running (record f { lineptr = lineptr; status = inside; entry = entry })
    ]

-- case A
unfoldable pub step_accept : Fsm → Outcome
step_accept f = running (record f { menu = link f.menu f.entry; n = f.n + 1; status = start })

-- A line with keyword `w` has been read, and its case comes next.
abbrev pub read_line : Fsm → ℕ → Bytes → Bytes → Status → Outcome
read_line f offset w line status =
    running (record f { offset = offset; status = status; lineptr = behind w line })

-- The title of the next entry: `offset -= strlen(line) + 1`, so that it is read once more.
abbrev pub step_next_title : Fsm → ℕ → Bytes → Bytes → Outcome
step_next_title f offset w line =
    read_line f (offset - (strlen line + 1)) w line (if f.kernel then accept else reject)
