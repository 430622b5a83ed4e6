-- ===== src/Menu/Parser/Lst/Steps.antt =====
-- The steps that the machine of `fsm` takes at the printed lines.
use ub2lb.Prelude.{
  ℕ, ◌+◌, ◌-◌, ◌<◌, ◌≡◌, ◌∙◌, refl, ap, Bool, false, true, some, [], ◌∷◌, ◌++◌, arith, Bytes, leb,
  ◌==◌, length, drop, length-drop,
}
use ub2lb.Support.{strlen, strcmp, isspace}
use ub2lb.Support.Memory.{strlen-length}
use ub2lb.Menu.Entry.{Entry, entry_alloc, Menu, link, new_object, add_module}
use ub2lb.Menu.Line.{getline, strtrim}
use ub2lb.Menu.Line.Printed.{
  IsLine, IsWord, strtrim-space, getnextword-keyword, getnextword-IsWord, keyword-IsLine,
  drop-keyword, strtrim-behind,
}
use ub2lb.Menu.Parser.{
  Status, start, title_line, inside, kernel_line, module_line, root_line, initrd_line, dtb_line,
  read_line, accept, accept_quit, Fsm, Outcome, running, returned, codes, is, step_title,
  step_kernel, step_module, step_accept,
}
use ub2lb.Menu.Parser.Lst.Print.{line_then}
use ub2lb.Menu.Parser.Lst.{step, dispatch, step_start, inside_case, step_inside}
use ub2lb.Menu.Parser.Lst.Reads.{reads, Plain-IsWord}

abbrev pub state : ℕ → Bytes → Status → Entry → Bool → Menu → ℕ → Fsm
state offset lineptr status entry kernel menu n = record {
  offset = offset;
  lineptr = lineptr;
  status = status;
  entry = entry;
  kernel = kernel;
  menu = menu;
  n = n;
}

pub title-IsWord : IsWord (codes "title")
unfolding isspace
title-IsWord = Plain-IsWord (codes "title") (ground arith) (omega arith) refl refl

-- A keyword, and the case that reads its value.
pub data Keyword : Bytes → Status → Type 0 where
  is_kernel : Keyword (codes "kernel") kernel_line
  is_module : Keyword (codes "module") module_line
  is_root : Keyword (codes "root") root_line
  is_initrd : Keyword (codes "initrd") initrd_line
  is_dtb : Keyword (codes "dtb") dtb_line

pub Keyword-IsWord : (w : Bytes) (status : Status) → Keyword w status → IsWord w
unfolding isspace
Keyword-IsWord _ _ is_kernel = Plain-IsWord (codes "kernel") (ground arith) (omega arith) refl refl
Keyword-IsWord _ _ is_module = Plain-IsWord (codes "module") (ground arith) (omega arith) refl refl
Keyword-IsWord _ _ is_root = Plain-IsWord (codes "root") (ground arith) (omega arith) refl refl
Keyword-IsWord _ _ is_initrd = Plain-IsWord (codes "initrd") (ground arith) (omega arith) refl refl
Keyword-IsWord _ _ is_dtb = Plain-IsWord (codes "dtb") (ground arith) (omega arith) refl refl

inside_case-Keyword :
    (f : Fsm) (offset : ℕ) (w line : Bytes) (status : Status)
    → Keyword w status
    → inside_case f offset w line ≡ read_line f offset w line status
unfolding is strcmp
inside_case-Keyword f offset _ line _ is_kernel = refl
inside_case-Keyword f offset _ line _ is_module = refl
inside_case-Keyword f offset _ line _ is_root = refl
inside_case-Keyword f offset _ line _ is_initrd = refl
inside_case-Keyword f offset _ line _ is_dtb = refl

module _ (buffer : Bytes) where
  -- What the loop comes to, whatever the number of its rounds.
  pub data Reaches : Fsm → Outcome → Type 0 where
    ends :
        {f : Fsm} {n : ℕ} {menu : Menu}
        → step buffer (length buffer) f ≡ returned n menu
        → Reaches f (returned n menu)
    goes :
        {f g : Fsm} {o : Outcome}
        → step buffer (length buffer) f ≡ running g
        → Reaches g o
        → Reaches f o

  pub start-title :
      (offset : ℕ) (lineptr : Bytes) (entry : Entry) (kernel : Bool) (menu : Menu) (n : ℕ)
      (v rest : Bytes)
      → IsLine v
      → drop offset buffer ≡ line_then (codes "title") v rest
      → step buffer (length buffer) (state offset lineptr start entry kernel menu n)
        ≡ running (
            state
              (offset + (length (codes "title" ++ b' ' ∷ v) + 1))
              (b' ' ∷ v)
              title_line
              entry
              kernel
              menu
              n)
  unfolding step dispatch step_start is strcmp strlen
  start-title offset lineptr entry kernel menu n v rest line e =
      let r = reads buffer (codes "title") v rest offset title-IsWord line e in
      rw (r.got, step_start) (rw (r.trimmed, step_start) (rw (r.filled, r.word, step_start) refl))

  -- The value behind `title`, as it is.
  pub title-inside :
      (offset : ℕ) (entry : Entry) (kernel : Bool) (menu : Menu) (n : ℕ) (v : Bytes)
      → IsLine v
      → step buffer (length buffer) (state offset (b' ' ∷ v) title_line entry kernel menu n)
        ≡ running (state offset v inside (record entry_alloc { title = some v }) false menu n)
  unfolding step dispatch step_title
  title-inside offset entry kernel menu n v line =
      let filled : (strlen v == 0) ≡ false = ground (arith, strlen-length v, line.filled) in
      rw (strtrim-space v line, filled, step_title) refl

  inside-line :
      (offset : ℕ) (lineptr : Bytes) (entry : Entry) (kernel : Bool) (menu : Menu) (n : ℕ)
      (w v rest : Bytes)
      → IsWord w
      → IsLine v
      → drop offset buffer ≡ line_then w v rest
      → step buffer (length buffer) (state offset lineptr inside entry kernel menu n)
        ≡ inside_case
            (state offset lineptr inside entry kernel menu n)
            (offset + (length (w ++ b' ' ∷ v) + 1))
            w
            (w ++ b' ' ∷ v)
  unfolding step dispatch step_inside
  inside-line offset lineptr entry kernel menu n w v rest word line e =
      let r = reads buffer w v rest offset word line e in
      rw (r.got, step_inside)
        (rw (r.trimmed, step_inside) (rw (r.filled, r.word, step_inside) refl))

  pub inside-Keyword :
      (offset : ℕ) (lineptr : Bytes) (entry : Entry) (kernel : Bool) (menu : Menu) (n : ℕ)
      (w v rest : Bytes) (status : Status)
      → Keyword w status
      → IsLine v
      → drop offset buffer ≡ line_then w v rest
      → step buffer (length buffer) (state offset lineptr inside entry kernel menu n)
        ≡ running
            (state (offset + (length (w ++ b' ' ∷ v) + 1)) (b' ' ∷ v) status entry kernel menu n)
  inside-Keyword offset lineptr entry kernel menu n w v rest status k line e =
      inside-line offset lineptr entry kernel menu n w v rest (Keyword-IsWord w status k) line e
      ∙ inside_case-Keyword (state offset lineptr inside entry kernel menu n)
          (offset + (length (w ++ b' ' ∷ v) + 1)) w (w ++ b' ' ∷ v) status k
      ∙ ap
          (λ l.
            running (state (offset + (length (w ++ b' ' ∷ v) + 1)) l status entry kernel menu n))
          (drop-keyword w (b' ' ∷ v))

  pub kernel-inside :
      (offset : ℕ) (entry : Entry) (kernel : Bool) (menu : Menu) (n : ℕ) (w : Bytes)
      → IsWord w
      → step buffer (length buffer) (state offset (b' ' ∷ w) kernel_line entry kernel menu n)
        ≡ running (state offset [] inside (record entry { kernel = some w }) true menu n)
  unfolding step dispatch step_kernel strlen
  kernel-inside offset entry kernel menu n w word =
      let filled : (strlen w == 0) ≡ false = ground (arith, strlen-length w, word.line.filled) in
      rw (strtrim-space w word.line, step_kernel)
        (rw (getnextword-IsWord w word, filled, step_kernel)
          (rw (strtrim-behind w, step_kernel) refl))

  -- With a command line behind the name.
  pub kernel-append :
      (offset : ℕ) (entry : Entry) (kernel : Bool) (menu : Menu) (n : ℕ) (w v : Bytes)
      → IsWord w
      → IsLine v
      → step buffer
          (length buffer)
          (state offset (b' ' ∷ w ++ b' ' ∷ v) kernel_line entry kernel menu n)
        ≡ running
            (state offset v inside (record entry { kernel = some w; append = some v }) true menu n)
  unfolding step dispatch step_kernel
  kernel-append offset entry kernel menu n w v word line =
      let filled : (strlen w == 0) ≡ false = ground (arith, strlen-length w, word.line.filled) in
      let some_args : (strlen v == 0) ≡ false = ground (arith, strlen-length v, line.filled) in
      let args : strtrim (drop (strlen w) (w ++ b' ' ∷ v)) ≡ v =
        ap strtrim (drop-keyword w (b' ' ∷ v)) ∙ strtrim-space v line in
      rw (strtrim-space (w ++ b' ' ∷ v) (keyword-IsLine w v word line), step_kernel)
        (rw (getnextword-keyword w v word, filled, step_kernel)
          (rw (args, some_args, step_kernel) refl))

  pub module-inside :
      (offset : ℕ) (entry : Entry) (kernel : Bool) (menu : Menu) (n : ℕ) (w : Bytes)
      → IsWord w
      → length entry.modules < 100
      → step buffer (length buffer) (state offset (b' ' ∷ w) module_line entry kernel menu n)
        ≡ running (
            state offset w inside
              (record entry { modules = entry.modules ++ new_object w ∷ [] })
              kernel
              menu
              n)
  unfolding step dispatch step_module add_module
  module-inside offset entry kernel menu n w word room =
      let filled : (strlen w == 0) ≡ false = ground (arith, strlen-length w, word.line.filled) in
      let fits : leb 100 (length entry.modules) ≡ false = ground arith in
      rw (strtrim-space w word.line, step_module)
        (rw (getnextword-IsWord w word, filled, fits, step_module)
          (ap
            (λ l. running (
              state offset l inside (record entry { modules = entry.modules ++ new_object w ∷ [] })
                kernel menu n))
            (strtrim-space w word.line)))

  -- The title of the next entry is read once more behind `accept`.
  pub inside-accept :
      (offset : ℕ) (lineptr : Bytes) (entry : Entry) (menu : Menu) (n : ℕ) (v rest : Bytes)
      → IsLine v
      → drop offset buffer ≡ line_then (codes "title") v rest
      → step buffer (length buffer) (state offset lineptr inside entry true menu n)
        ≡ running (state offset (b' ' ∷ v) accept entry true menu n)
  unfolding is strcmp strlen
  inside-accept offset lineptr entry menu n v rest line e =
      let back : offset
            + (length (codes "title" ++ b' ' ∷ v) + 1)
            - (strlen (codes "title" ++ b' ' ∷ v) + 1)
          ≡ offset =
        omega (arith, strlen-length v) in
      inside-line offset lineptr entry true menu n (codes "title") v rest title-IsWord line e
      ∙ ap (λ o. running (state o (b' ' ∷ v) accept entry true menu n)) back

  pub accept-start :
      (offset : ℕ) (lineptr : Bytes) (entry : Entry) (kernel : Bool) (menu : Menu) (n : ℕ)
      → step buffer (length buffer) (state offset lineptr accept entry kernel menu n)
        ≡ running (state offset lineptr start entry kernel (link menu entry) (n + 1))
  unfolding step dispatch step_accept
  accept-start offset lineptr entry kernel menu n = refl

  pub inside-end :
      (offset : ℕ) (lineptr : Bytes) (entry : Entry) (menu : Menu) (n : ℕ)
      → drop offset buffer ≡ []
      → step buffer (length buffer) (state offset lineptr inside entry true menu n)
        ≡ running (state offset lineptr accept_quit entry true menu n)
  unfolding step dispatch step_inside getline
  inside-end offset lineptr entry menu n e =
      let past : leb (length buffer) offset ≡ true =
        ground (arith, length-drop offset buffer, ap length e) in
      rw (past, getline, step_inside) refl
