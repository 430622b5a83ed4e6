-- ===== src/Menu/Free.antt =====
-- `menu_free` and `entry_free` of src/menu.c, on a memory of objects. Other than in `Menu`, entries are linked by pointers here.
pub mod Faulty
use ub2lb.Prelude.{ℕ, zero, suc, Option, none, some, List, [], ◌∷◌, ◌==◌, if◌then◌else◌}

-- A string, or the fields of a `menu_t` that matter: `next`, and the pointers from `title` to `dtb`.
pub data Object : Type 0 where
  string : Object
  menu_entry : ℕ → List ℕ → Object

-- What is allocated at each address; `none` also for NULL and for what has been freed.
abbrev pub Allocated : Type 0
Allocated = ℕ → Option Object

-- What `free` does to the memory; `none` is undefined behaviour.
unfoldable pub release : ℕ → Allocated → Option Allocated
release p mem = elim (mem p) [
  | none ↦ none
  | some object ↦ some (λ x. if x == p then none else mem x)
]

-- The tests for NULL, each with its call of `free`.
unfoldable pub free_strings : List ℕ → Allocated → Option Allocated
unfolding release
free_strings [] mem = some mem
free_strings (p ∷ ps) mem =
    if p == 0
    then free_strings ps mem
    else elim (release p mem) [ none ↦ none | some mem' ↦ free_strings ps mem' ]

abbrev pub free_entry : ℕ → Option Object → Allocated → Option Allocated
free_entry entry none mem = none
free_entry entry (some string) mem = none
free_entry entry (some (menu_entry next strings)) mem = elim (free_strings strings mem) [
  | none ↦ none
  | some mem' ↦ release entry mem'
]

unfoldable pub entry_free : ℕ → Allocated → Option Allocated
unfolding release free_strings
entry_free entry mem = free_entry entry (mem entry) mem

-- How `menu_free` ends: with the memory, in undefined behaviour, or not within the fuel.
pub data Freeing : Type 0 where
  all_freed : Allocated → Freeing
  undefined : Freeing
  endless : Freeing

-- `self = self->next`
abbrev pub next_pointer : Option Object → Option ℕ
next_pointer none = none
next_pointer (some string) = none
next_pointer (some (menu_entry next strings)) = some next

-- The loop, on fuel.
unfoldable pub menu_free : ℕ → ℕ → Allocated → Freeing
unfolding entry_free
menu_free zero self mem = endless
menu_free (suc fuel) self mem =
    if self == 0 then all_freed mem else elim (next_pointer (mem self)) [
      | none ↦ undefined
      | some next ↦ elim (entry_free next mem) [
        | none ↦ undefined
        | some mem' ↦ menu_free fuel next mem'
      ]
    ]
