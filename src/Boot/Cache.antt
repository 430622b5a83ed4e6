-- ===== src/Boot/Cache.antt =====
-- `flush_cache` of src/parthenope.c.
pub mod Flushed
use ub2lb.Prelude.{
  ℕ, zero, suc, ◌+◌, ◌-◌, ◌*◌, ◌/◌, ◌%◌, ◌^◌, ◌≤◌, ◌<◌, ◌≡◌, ◌↔◌, List, [], ◌∷◌, ltb, if◌then◌else◌,
  arith,
}
use mathlib.Core.List.{Mem}
use ub2lb.Support.{word}

-- `& 0xffffffe0`
abbrev pub line_of : ℕ → ℕ
line_of x = x - x % 32

-- The addresses that each of the two loops touches, on fuel.
unfoldable pub lines : ℕ → ℕ → ℕ → List ℕ
lines zero ptr end = []
lines (suc fuel) ptr end =
    let rest = lines fuel (word (ptr + 32)) end in if ltb ptr end then ptr ∷ rest else []

unfoldable pub flush_cache : ℕ → ℕ → List ℕ
unfolding lines
flush_cache start end = lines (2 ^ 27) (line_of start) (line_of end)
