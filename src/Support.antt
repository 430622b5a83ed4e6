-- ===== src/Support.antt =====
-- The C library of the boot loader: src/support.c. A C string is the list of the bytes before its
-- terminating NUL, so the pattern `[]` is the read of the NUL; `char` is unsigned, as on PowerPC.
pub mod Compare
pub mod Memory
pub mod Lists
pub mod Number
use mathlib.Core.List.{reverse}
use ub2lb.Prelude.{
  ℕ, zero, suc, ◌+◌, ◌-◌, ◌*◌, ◌%◌, ◌^◌, Bool, true, false, ◌&&◌, ◌||◌, Option, none, some, [], ◌∷◌,
  leb, ◌==◌, if◌then◌else◌, Bytes,
}
use ub2lb.Prelude.Int.{ℤ, pos, sub_ℕ}

unfoldable pub strlen : Bytes → ℕ
strlen [] = 0
strlen (_ ∷ str) = strlen str + 1

pub isblank : ℕ → Bool
isblank c = c == b' ' || c == b'\t'

-- The space, `\t`, `\f`, `\n`, `\r` and `\v`.
unfoldable pub isspace : ℕ → Bool
isspace c = c == 32 || c == 9 || c == 12 || c == 10 || c == 13 || c == 11

pub isdigit : ℕ → Bool
isdigit c = leb b'0' c && leb c b'9'

unfoldable pub tolower : ℕ → ℕ
tolower c = if leb b'A' c && leb c b'Z' then c + (b'a' - b'A') else c

-- The byte that a pointer to the string reads.
abbrev pub first : Bytes → ℕ
first [] = 0
first (c ∷ _) = c

unfoldable pub strcmp : Bytes → Bytes → ℤ
strcmp [] s2 = sub_ℕ (first s2) 0
strcmp (a ∷ s1) [] = sub_ℕ 0 a
strcmp (a ∷ s1) (b ∷ s2) = let rest = strcmp s1 s2 in if a == b then rest else sub_ℕ b a

unfoldable pub strcasecmp : Bytes → Bytes → ℤ
unfolding tolower
strcasecmp [] s2 = sub_ℕ (tolower (first s2)) (tolower 0)
strcasecmp (a ∷ s1) [] = sub_ℕ (tolower 0) (tolower a)
strcasecmp (a ∷ s1) (b ∷ s2) =
    let rest = strcasecmp s1 s2 in
    if tolower a == tolower b then rest else sub_ℕ (tolower b) (tolower a)

unfoldable pub strncmp : Bytes → Bytes → ℕ → ℤ
strncmp s1 s2 zero = pos 0
strncmp [] s2 (suc max) = sub_ℕ (first s2) 0
strncmp (a ∷ s1) [] (suc max) = sub_ℕ 0 a
strncmp (a ∷ s1) (b ∷ s2) (suc max) =
    let rest = strncmp s1 s2 max in if a == b then rest else sub_ℕ b a

unfoldable pub strncasecmp : Bytes → Bytes → ℕ → ℤ
unfolding tolower
strncasecmp s1 s2 zero = pos 0
strncasecmp [] s2 (suc max) = sub_ℕ (tolower (first s2)) (tolower 0)
strncasecmp (a ∷ s1) [] (suc max) = sub_ℕ (tolower 0) (tolower a)
strncasecmp (a ∷ s1) (b ∷ s2) (suc max) =
    let rest = strncasecmp s1 s2 max in
    if tolower a == tolower b then rest else sub_ℕ (tolower b) (tolower a)

-- The index of the byte that the result points at; `none` is NULL, also for the byte NUL.
unfoldable pub strchr : Bytes → ℕ → Option ℕ
strchr [] c = none
strchr (x ∷ s) c = elim (x == c) [
  | true ↦ some 0
  | false ↦ elim (strchr s c) [ none ↦ none | some i ↦ some (i + 1) ]
]

-- `int` arithmetic, as 32-bit patterns; `s[i] - 48` is negative for a byte below `0`.
abbrev pub word : ℕ → ℕ
word n = n % 2 ^ 32

-- The loop of `strtol` on the bytes from the last one on, with `l` and `m` so far.
strtol_loop : Bytes → ℕ → ℕ → ℕ
strtol_loop [] l m = l
strtol_loop (c ∷ rest) l m =
    strtol_loop rest (word (l + word (c + 2 ^ 32 - 48) * m)) (word (m * 10))

-- The loop runs from the last byte to the first.
unfoldable pub strtol : Bytes → ℕ
unfolding strtol_loop
strtol s = strtol_loop (reverse s) 0 1
