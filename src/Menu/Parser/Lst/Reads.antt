-- ===== src/Menu/Parser/Lst/Reads.antt =====
-- What `getline` gives of the printed lines, and which texts are lines and words.
use ub2lb.Prelude.{
  ℕ, ◌+◌, ◌-◌, ◌<◌, ◌≡◌, ◌≢◌, ◌∙◌, refl, sym, ap, false, some, [], ◌∷◌, ◌++◌, All, arith, Bytes,
  ◌==◌, length, get_or, drop, length-append, length-drop, drop-drop,
}
use ub2lb.Support.{strlen, isspace}
use ub2lb.Support.Memory.{strlen-length}
use ub2lb.Menu.Line.{getline, eatcomments, getnextword, strtrim}
use ub2lb.Menu.Line.Printed.{
  IsLine, IsWord, getline-IsLine, strtrim-eatcomments, getnextword-keyword, keyword-IsLine,
  drop-keyword, drop-line,
}
use ub2lb.Menu.Parser.{behind}
use ub2lb.Menu.Parser.Lst.Print.{line_then}

-- What the loop does with a line at `offset`, up to its keyword.
pub record Reads (buffer w v rest : Bytes) (offset : ℕ) : Type 0 where
  pub got :
      getline buffer (length buffer) offset
      ≡ some ((w ++ b' ' ∷ v) ++ b'\n' ∷ [], offset + (length (w ++ b' ' ∷ v) + 1))
  pub trimmed : strtrim (eatcomments ((w ++ b' ' ∷ v) ++ b'\n' ∷ [])) ≡ w ++ b' ' ∷ v
  pub filled : (strlen (w ++ b' ' ∷ v) == 0) ≡ false
  pub word : getnextword (w ++ b' ' ∷ v) ≡ w
  pub tail : behind w (w ++ b' ' ∷ v) ≡ b' ' ∷ v
  pub next : drop (offset + (length (w ++ b' ' ∷ v) + 1)) buffer ≡ rest

-- There is a line at `offset`, so this is in the file.
inside_file :
    (buffer l rest : Bytes) (offset : ℕ)
    → drop offset buffer ≡ l ++ b'\n' ∷ rest
    → offset < length buffer
inside_file buffer l rest offset e =
    omega (arith, length-drop offset buffer, ap length e, length-append l (b'\n' ∷ rest))

pub reads :
    (buffer w v rest : Bytes) (offset : ℕ)
    → IsWord w
    → IsLine v
    → drop offset buffer ≡ line_then w v rest
    → Reads buffer w v rest offset
reads buffer w v rest offset word line e =
    let l = w ++ b' ' ∷ v in
    let l-IsLine = keyword-IsLine w v word line in
    record {
      got =
          getline-IsLine buffer l rest (length buffer) offset l-IsLine e
            (inside_file buffer l rest offset e);
      trimmed = strtrim-eatcomments l l-IsLine;
      filled = ground (arith, strlen-length l, l-IsLine.filled);
      word = getnextword-keyword w v word;
      tail = drop-keyword w (b' ' ∷ v);
      next =
          sym (drop-drop offset (length l + 1) (offset + (length l + 1)) buffer refl)
          ∙ ap (drop (length l + 1)) e
          ∙ drop-line l rest;
    }

pub All-map : (P Q : ℕ → Type 0) → ((x : ℕ) → P x → Q x) → (xs : Bytes) → All P xs → All Q xs
All-map P Q f [] h = tt
All-map P Q f (x ∷ xs) h = (f x (h.0), All-map P Q f xs (h.1))

-- A byte of a line, and one of a word.
abbrev pub Text : ℕ → Type 0
Text x = (x ≢ 0) × (x ≢ b'\n') × (x ≢ b'#')

abbrev pub Plain : ℕ → Type 0
Plain x = Text x × (x ≢ b' ') × (x ≢ b'\t')

pub Text-IsLine :
    (l : Bytes)
    → All Text l
    → 0 < length l
    → isspace (get_or l 0 0) ≡ false
    → isspace (get_or l (length l - 1) 0) ≡ false
    → IsLine l
Text-IsLine l a h s e = record {
  no_nul = All-map Text (λ x. x ≢ 0) (λ x p. p.0) l a;
  no_newline = All-map Text (λ x. x ≢ b'\n') (λ x p. p.1) l a;
  no_comment = All-map Text (λ x. x ≢ b'#') (λ x p. p.2) l a;
  filled = h;
  starts = s;
  ends = e;
}

pub Plain-IsWord :
    (w : Bytes)
    → All Plain w
    → 0 < length w
    → isspace (get_or w 0 0) ≡ false
    → isspace (get_or w (length w - 1) 0) ≡ false
    → IsWord w
Plain-IsWord w a h s e = record {
  line = Text-IsLine w (All-map Plain Text (λ x p. p.0) w a) h s e;
  no_blank = All-map Plain (λ x. x ≢ b' ') (λ x p. p.1) w a;
  no_tab = All-map Plain (λ x. x ≢ b'\t') (λ x p. p.2) w a;
}
