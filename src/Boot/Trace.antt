-- ===== src/Boot/Trace.antt =====
-- What the boot loader of src/parthenope.c does, as far as it leaves the program: calls of U-Boot, and jumps
-- into a kernel. `Run` is a piece of the program: the events, and how it ends.
use ub2lb.Prelude.{ℕ, Option, List, ◌++◌, Bytes}

-- A string of `argv`: a word, or what `sprintf` makes with "%p" of the address of an object with these bytes.
pub data Argument : Type 0 where
  text : Bytes → Argument
  address_of : Bytes → Argument

-- `argv`; `none` is NULL.
abbrev pub Argv : Type 0
Argv = List (Option Argument)

-- `ti_data` of a `tagitem_t`.
pub data TagData : Type 0 where
  address : ℕ → TagData
  tracker : List (ℕ × ℕ) → TagData
  command_line : Option Bytes → TagData
  version debug_info unset : TagData

pub record Tag : Type 0 where
  pub ti_tag : ℕ
  pub ti_data : TagData

-- `struct module`, less the fields that are set to NULL; `address` points to `contents`.
pub record Module : Type 0 where
  pub name : Bytes
  pub id : ℕ
  pub flags : ℕ
  pub contents : Bytes
  pub size : ℕ

pub data Event : Type 0 where
  setenv : Bytes → Bytes → Event
  -- `bootm(NULL, 0, argc, argv)`
  bootm : ℕ → Argv → Event
  bootu : Bytes → Event
  -- `dcbst` and `icbi` of these addresses
  flush : List ℕ → Event
  enter_aros : List Tag → Event
  -- The call of `kernel`, with the modules and the command line; U-Boot's board information is left out.
  enter_aos : List Module → Option Bytes → Event
  destroy : Event
  -- `video_get_key()` at the end
  wait_key : Event

-- With a result; with a kernel that does not come back; in the menu, which waits for a key; or in undefined
-- behaviour.
pub data Ending {ℓ} (A : Type ℓ) : Type ℓ where
  result : A → Ending A
  gone : Ending A
  waits : Ending A
  undefined : Ending A

abbrev pub Run {ℓ} : Type ℓ → Type ℓ
Run A = List Event × Ending A

abbrev pub after {ℓ} : {A : Type ℓ} → List Event → Run A → Run A
after es (fs, ending) = (es ++ fs, ending)

abbrev pub and_then {ℓ κ} : {A : Type ℓ} → {B : Type κ} → Run A → (A → Run B) → Run B
and_then (es, result x) f = after es (f x)
and_then (es, gone) f = (es, gone)
and_then (es, waits) f = (es, waits)
and_then (es, undefined) f = (es, undefined)
