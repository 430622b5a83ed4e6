-- ===== src/Menu/Line/Laws.antt =====
-- The lengths of what the line functions return.
use ub2lb.Prelude.{
  ℕ, zero, suc, ◌+◌, ◌-◌, ◌≤◌, ◌<◌, ◌≡◌, inl, inr, some, [], ◌∷◌, arith, Bytes, length, take, drop,
  length-take, Option-cases,
}
use ub2lb.Support.{strlen, strchr}
use ub2lb.Support.Memory.{c_string, strlen-length}
use ub2lb.Menu.Line.{
  line_length, getline, eatcomments, kick_eatcomments, getnextword, skip_spaces, trimmed_length,
  strtrim, cut_at,
}

length-c_string : (s : Bytes) → length (c_string s) ≤ length s
unfolding c_string
length-c_string [] = omega arith
length-c_string (zero ∷ s) = omega arith
length-c_string (suc c ∷ s) = omega (arith, length-c_string s)

strlen-take : (n : ℕ) (s : Bytes) → strlen (take n s) ≤ n
strlen-take n s = omega (arith, strlen-length (take n s), length-take n s)

strlen-take_le : (n : ℕ) (s : Bytes) → strlen (take n s) ≤ strlen s
strlen-take_le n s = omega (arith, strlen-length (take n s), strlen-length s, length-take n s)

strlen-cut_at : (c : ℕ) (s : Bytes) → strlen (cut_at c s) ≤ strlen s
strlen-cut_at c s = elim (Option-cases (strchr s c)) [
  | inl e ↦ rw (e, cut_at) (omega arith)
  | inr (i, e) ↦ rw (e, cut_at) (strlen-take_le i s)
]

strlen-skip_spaces : (s : Bytes) → strlen (skip_spaces s) ≤ strlen s
unfolding skip_spaces strlen
strlen-skip_spaces [] = omega arith
strlen-skip_spaces (c ∷ s) = ground (arith, strlen-skip_spaces s)

pub strlen-strtrim : (s : Bytes) → strlen (strtrim s) ≤ strlen s
unfolding strtrim
strlen-strtrim s = omega (
  arith,
  strlen-skip_spaces s,
  strlen-take_le (trimmed_length (skip_spaces s) (strlen (skip_spaces s))) (skip_spaces s),
)

pub strlen-eatcomments : (s : Bytes) → strlen (eatcomments s) ≤ strlen s
unfolding eatcomments
strlen-eatcomments s = strlen-cut_at b'#' s

pub strlen-kick_eatcomments : (s : Bytes) → strlen (kick_eatcomments s) ≤ strlen s
unfolding kick_eatcomments
strlen-kick_eatcomments s = strlen-cut_at b';' s

pub strlen-getnextword : (s : Bytes) → strlen (getnextword s) ≤ strlen s
unfolding getnextword
strlen-getnextword s = elim (Option-cases (strchr s b' ')) [
  | inl e ↦ rw (e, getnextword) (strlen-cut_at b'\t' s)
  | inr (i, e) ↦ rw (e, getnextword) (strlen-take_le i s)
]

line_length_pos : (rest : Bytes) (room : ℕ) → 0 < room → 0 < line_length rest room
unfolding line_length
line_length_pos rest room h = elim (Option-cases (strchr (c_string rest) b'\n')) [
  | inl e ↦ rw (e, line_length) h
  | inr (i, e) ↦ rw (e, line_length) (omega arith)
]

strlen-line : (n : ℕ) (s : Bytes) → strlen (c_string (take n s)) ≤ n
strlen-line n s =
    omega (arith, strlen-length (c_string (take n s)), length-c_string (take n s), length-take n s)

-- A line that `getline` returns is not longer than the step of the offset, which is not zero.
pub getline_step :
    (src : Bytes) (src_len offset : ℕ) {line : Bytes} {next : ℕ}
    → getline src src_len offset ≡ some (line, next)
    → (offset < src_len) × (offset < next) × (offset + strlen line ≤ next)
unfolding getline
getline_step src src_len offset h =
    let rest = drop offset src in
    let len = line_length rest (src_len - offset) in
    ground (arith, line_length_pos rest (src_len - offset), strlen-line len rest)
