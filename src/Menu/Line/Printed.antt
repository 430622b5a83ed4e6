-- ===== src/Menu/Line/Printed.antt =====
-- What the line functions make of lines that stand as they are.
use ub2lb.Prelude.{
  ℕ, zero, suc, ◌+◌, ◌-◌, ◌<◌, ◌≡◌, ◌≢◌, ◌∙◌, refl, sym, ap, false, true, none, some, [], ◌∷◌, ◌++◌,
  All, arith, Bytes, leb, ◌==◌, length, take, drop, get_or, length-append, append-nil,
}
use ub2lb.Support.{strlen, isspace, strchr}
use ub2lb.Support.Memory.{c_string, strlen-length}
use ub2lb.Menu.Line.{
  line_length, getline, eatcomments, getnextword, skip_spaces, trimmed_length, strtrim, cut_at,
}

All-append : (P : ℕ → Type 0) (xs ys : Bytes) → All P xs → All P ys → All P (xs ++ ys)
All-append P [] ys h k = k
All-append P (x ∷ xs) ys h k = (h.0, All-append P xs ys (h.1) k)

get_or-append : (xs ys : Bytes) (i : ℕ) → get_or (xs ++ ys) (length xs + i) 0 ≡ get_or ys i 0
get_or-append [] ys i = ap (λ k. get_or ys k 0) (omega arith)
get_or-append (x ∷ xs) ys i =
    let e : suc (length xs) + i ≡ suc (length xs + i) = omega arith in
    ap (λ k. get_or (x ∷ xs ++ ys) k 0) e ∙ get_or-append xs ys i

get_or-front : (xs ys : Bytes) (i : ℕ) → i < length xs → get_or (xs ++ ys) i 0 ≡ get_or xs i 0
get_or-front [] ys i h = absurd (omega arith)
get_or-front (x ∷ xs) ys zero h = refl
get_or-front (x ∷ xs) ys (suc i) h = get_or-front xs ys i (omega arith)

pub take-append : (xs ys : Bytes) → take (length xs) (xs ++ ys) ≡ xs
take-append [] ys = refl
take-append (x ∷ xs) ys = ap (λ r. x ∷ r) (take-append xs ys)

pub drop-append : (xs ys : Bytes) → drop (length xs) (xs ++ ys) ≡ ys
drop-append [] ys = refl
drop-append (x ∷ xs) ys = drop-append xs ys

pub strchr-found :
    (c : ℕ) (xs ys : Bytes) → All (λ x. x ≢ c) xs → strchr (xs ++ c ∷ ys) c ≡ some (length xs)
unfolding strchr
strchr-found c [] ys h = let e : (c == c) ≡ true = ground arith in rw (e, strchr) refl
strchr-found c (x ∷ xs) ys h =
    let e : (x == c) ≡ false = ground (arith, h.0) in
    let more : length xs + 1 ≡ suc (length xs) = omega arith in
    rw (e, strchr-found c xs ys (h.1), strchr) (ap (λ (k : ℕ). some k) more)

pub strchr-none : (c : ℕ) (xs : Bytes) → All (λ x. x ≢ c) xs → strchr xs c ≡ none
unfolding strchr
strchr-none c [] h = refl
strchr-none c (x ∷ xs) h =
    let e : (x == c) ≡ false = ground (arith, h.0) in rw (e, strchr-none c xs (h.1), strchr) refl

c_string-append : (xs ys : Bytes) → All (λ x. x ≢ 0) xs → c_string (xs ++ ys) ≡ xs ++ c_string ys
unfolding c_string
c_string-append [] ys h = refl
c_string-append (zero ∷ xs) ys h = absurd (h.0 refl)
c_string-append (suc x ∷ xs) ys h = ap (λ r. suc x ∷ r) (c_string-append xs ys (h.1))

-- A line of a file: no NUL, newline or comment, and no space at its ends.
pub record IsLine (l : Bytes) : Type 0 where
  pub no_nul : All (λ x. x ≢ 0) l
  pub no_newline : All (λ x. x ≢ b'\n') l
  pub no_comment : All (λ x. x ≢ b'#') l
  pub filled : 0 < length l
  pub starts : isspace (get_or l 0 0) ≡ false
  pub ends : isspace (get_or l (length l - 1) 0) ≡ false

line_length-IsLine :
    (l rest : Bytes) (room : ℕ) → IsLine l → line_length (l ++ b'\n' ∷ rest) room ≡ length l + 1
unfolding line_length c_string
line_length-IsLine l rest room line =
    let text = c_string-append l (b'\n' ∷ rest) line.no_nul in
    let newline = strchr-found b'\n' l (c_string rest) line.no_newline in
    let found = ap (λ t. strchr t b'\n') text ∙ newline in rw (found, line_length) refl

take-line : (l rest : Bytes) → take (length l + 1) (l ++ b'\n' ∷ rest) ≡ l ++ b'\n' ∷ []
take-line [] rest = refl
take-line (x ∷ l) rest =
    let e : suc (length l) + 1 ≡ suc (length l + 1) = omega arith in
    ap (λ k. take k (x ∷ l ++ b'\n' ∷ rest)) e ∙ ap (λ r. x ∷ r) (take-line l rest)

-- A line in the file is read with its newline.
pub getline-IsLine :
    (src l rest : Bytes) (src_len offset : ℕ)
    → IsLine l
    → drop offset src ≡ l ++ b'\n' ∷ rest
    → offset < src_len
    → getline src src_len offset ≡ some (l ++ b'\n' ∷ [], offset + (length l + 1))
unfolding getline c_string
getline-IsLine src l rest src_len offset line e h =
    let inside : leb src_len offset ≡ false = ground arith in
    rw (inside, e, line_length-IsLine l rest (src_len - offset) line, take-line l rest, getline)
      (ap (λ t. some (t, offset + (length l + 1))) (c_string-append l (b'\n' ∷ []) line.no_nul))

strtrim_lem :
    (l tail : Bytes)
    → 0 < length l
    → isspace (get_or l 0 0) ≡ false
    → trimmed_length (l ++ tail) (strlen (l ++ tail)) ≡ length l
    → strtrim (l ++ tail) ≡ l
unfolding strtrim skip_spaces
strtrim_lem [] tail h s e = absurd (omega arith)
strtrim_lem (x ∷ l) tail h s e = rw (s, strtrim) (rw (e, strtrim) (take-append (x ∷ l) tail))

trimmed_length-ends :
    (s : Bytes) (n : ℕ) → 0 < n → isspace (get_or s (n - 1) 0) ≡ false → trimmed_length s n ≡ n
unfolding trimmed_length
trimmed_length-ends s zero h e = refl
trimmed_length-ends s (suc n) h e =
    let same : suc n - 1 ≡ n = omega arith in
    let e' = ap (λ k. isspace (get_or s k 0)) (sym same) ∙ e in rw (e', trimmed_length) refl

trimmed_length-space :
    (s : Bytes) (n : ℕ)
    → isspace (get_or s n 0) ≡ true
    → trimmed_length s (suc n) ≡ trimmed_length s n
unfolding trimmed_length
trimmed_length-space s n e = rw (e, trimmed_length) refl

pub strtrim-IsLine : (l : Bytes) → IsLine l → strtrim l ≡ l
strtrim-IsLine l line =
    let whole =
      ap (λ t. trimmed_length t (strlen t)) (append-nil l)
      ∙ ap (trimmed_length l) (strlen-length l)
      ∙ trimmed_length-ends l (length l) line.filled line.ends in
    sym (ap strtrim (append-nil l)) ∙ strtrim_lem l [] line.filled line.starts whole

is_newline : (l : Bytes) → isspace (get_or (l ++ b'\n' ∷ []) (length l) 0) ≡ true
unfolding isspace
is_newline l =
    let here : length l ≡ length l + 0 = omega arith in
    ap isspace (ap (λ k. get_or (l ++ b'\n' ∷ []) k 0) here ∙ get_or-append l (b'\n' ∷ []) 0)

strtrim-newline : (l : Bytes) → IsLine l → strtrim (l ++ b'\n' ∷ []) ≡ l
strtrim-newline l line =
    let full = l ++ b'\n' ∷ [] in
    let size : strlen full ≡ suc (length l) =
      strlen-length full ∙ omega (arith, length-append l (b'\n' ∷ [])) in
    let last =
      ap isspace (get_or-front l (b'\n' ∷ []) (length l - 1) (omega (arith, line.filled)))
      ∙ line.ends in
    strtrim_lem l (b'\n' ∷ []) line.filled line.starts (
      ap (trimmed_length full) size
      ∙ trimmed_length-space full (length l) (is_newline l)
      ∙ trimmed_length-ends full (length l) line.filled last)

-- A line that has been read is what stood in the file.
pub strtrim-eatcomments : (l : Bytes) → IsLine l → strtrim (eatcomments (l ++ b'\n' ∷ [])) ≡ l
unfolding eatcomments
strtrim-eatcomments l line =
    let no_comment =
      All-append (λ x. x ≢ b'#') l (b'\n' ∷ []) line.no_comment ((λ e. omega (arith, e)), tt) in
    rw (strchr-none b'#' (l ++ b'\n' ∷ []) no_comment, eatcomments, cut_at) (strtrim-newline l line)

-- What stands behind a keyword and a space.
pub strtrim-space : (v : Bytes) → IsLine v → strtrim (b' ' ∷ v) ≡ v
unfolding strtrim skip_spaces isspace
strtrim-space v line = strtrim-IsLine v line

-- A line without blanks.
pub record IsWord (w : Bytes) : Type 0 where
  pub line : IsLine w
  pub no_blank : All (λ x. x ≢ b' ') w
  pub no_tab : All (λ x. x ≢ b'\t') w

pub getnextword-keyword : (w v : Bytes) → IsWord w → getnextword (w ++ b' ' ∷ v) ≡ w
unfolding getnextword
getnextword-keyword w v word =
    rw (strchr-found b' ' w v word.no_blank, getnextword) (take-append w (b' ' ∷ v))

pub getnextword-IsWord : (w : Bytes) → IsWord w → getnextword w ≡ w
unfolding getnextword
getnextword-IsWord w word =
    rw (strchr-none b' ' w word.no_blank, strchr-none b'\t' w word.no_tab, getnextword, cut_at) refl

-- A keyword with a value is a line.
pub keyword-IsLine : (w v : Bytes) → IsWord w → IsLine v → IsLine (w ++ b' ' ∷ v)
keyword-IsLine w v word line =
    let blank : (c : ℕ) → c ≢ b' ' → b' ' ≢ c = λ c n e. n (sym e) in
    let size = length-append w (b' ' ∷ v) in
    record {
      no_nul =
          All-append (λ x. x ≢ 0) w (b' ' ∷ v) word.line.no_nul
            ((λ e. omega (arith, e)), line.no_nul);
      no_newline =
          All-append (λ x. x ≢ b'\n') w (b' ' ∷ v) word.line.no_newline
            ((λ e. omega (arith, e)), line.no_newline);
      no_comment =
          All-append (λ x. x ≢ b'#') w (b' ' ∷ v) word.line.no_comment
            ((λ e. omega (arith, e)), line.no_comment);
      filled = omega (arith, size);
      starts = ap isspace (get_or-front w (b' ' ∷ v) 0 word.line.filled) ∙ word.line.starts;
      ends =
          let where_last : length (w ++ b' ' ∷ v) - 1 ≡ length w + suc (length v - 1) =
            omega (arith, size, line.filled) in
          ap isspace (
            ap (λ k. get_or (w ++ b' ' ∷ v) k 0) where_last
            ∙ get_or-append w (b' ' ∷ v) (suc (length v - 1)))
          ∙ line.ends;
    }

-- What is left of the line behind the keyword.
pub drop-keyword : (w v : Bytes) → drop (strlen w) (w ++ v) ≡ v
drop-keyword w v = ap (λ k. drop k (w ++ v)) (strlen-length w) ∙ drop-append w v

pub drop-line : (l rest : Bytes) → drop (length l + 1) (l ++ b'\n' ∷ rest) ≡ rest
drop-line [] rest = refl
drop-line (x ∷ l) rest =
    let e : suc (length l) + 1 ≡ suc (length l + 1) = omega arith in
    ap (λ k. drop k (x ∷ l ++ b'\n' ∷ rest)) e ∙ drop-line l rest

-- Nothing is left behind a word that is all of a line.
pub strtrim-behind : (w : Bytes) → strtrim (drop (strlen w) w) ≡ []
unfolding strtrim skip_spaces trimmed_length strlen
strtrim-behind w =
    let gone = sym (ap (drop (strlen w)) (append-nil w)) ∙ drop-keyword w [] in ap strtrim gone
