-- ===== src/Menu/Line.antt =====
-- The functions of src/menu.c on lines. `malloc` and `free` are left out: each copy is a value of
-- its own, and what stands behind the NUL of a string that is cut in place is not kept.
pub mod Laws
pub mod Printed
use ub2lb.Prelude.{
  ℕ, zero, suc, ◌+◌, ◌-◌, Bool, true, false, Option, none, some, [], ◌∷◌, leb, if◌then◌else◌, Bytes,
  take, drop, get_or,
}
use ub2lb.Support.{strlen, isspace, strchr}
use ub2lb.Support.Memory.{c_string}

-- The index behind the newline, or the rest of the buffer. The search stops at a NUL.
line_length : Bytes → ℕ → ℕ
line_length rest room = elim (strchr (c_string rest) b'\n') [ none ↦ room | some i ↦ i + 1 ]

-- `src` is the whole buffer, of which the file fills `src_len` bytes. The result is the line and
-- the new `*src_offset`, or `none` for NULL.
unfoldable pub getline : Bytes → ℕ → ℕ → Option (Bytes × ℕ)
unfolding line_length
getline src src_len src_offset =
    if leb src_len src_offset
    then none
    else (let rest = drop src_offset src in
        let len = line_length rest (src_len - src_offset) in
        some (c_string (take len rest), src_offset + len))

-- `line[cptr - line] = 0` at the first byte `c`.
abbrev cut_at : ℕ → Bytes → Bytes
cut_at c line = elim (strchr line c) [ none ↦ line | some i ↦ take i line ]

unfoldable pub eatcomments : Bytes → Bytes
eatcomments line = cut_at b'#' line

unfoldable pub kick_eatcomments : Bytes → Bytes
kick_eatcomments line = cut_at b';' line

-- A tab ends a word only where no space follows anywhere on the line.
unfoldable pub getnextword : Bytes → Bytes
getnextword line = elim (strchr line b' ') [ none ↦ cut_at b'\t' line | some i ↦ take i line ]

-- `for (; isspace(*ptr_s); ptr_s++)`
skip_spaces : Bytes → Bytes
skip_spaces [] = []
skip_spaces (c ∷ s) = if isspace c then skip_spaces s else c ∷ s

-- `for (n = …; n > 0 && isspace(*(ptr_s + n - 1)); n--)`
trimmed_length : Bytes → ℕ → ℕ
trimmed_length s zero = 0
trimmed_length s (suc n) = if isspace (get_or s n 0) then trimmed_length s n else suc n

unfoldable pub strtrim : Bytes → Bytes
unfolding skip_spaces trimmed_length
strtrim s = let ptr_s = skip_spaces s in take (trimmed_length ptr_s (strlen ptr_s)) ptr_s
