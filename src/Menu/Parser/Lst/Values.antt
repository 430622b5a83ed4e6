-- ===== src/Menu/Parser/Lst/Values.antt =====
-- The rounds of `fsm` that read the values of `initrd`, `dtb` and `root`.
use ub2lb.Prelude.{
  ℕ, suc, ◌≤◌, ◌+◌, ◌<◌, ◌≡◌, ◌≢◌, ◌∙◌, refl, ap, Bool, false, some, [], ◌∷◌, ◌++◌, arith, Bytes,
  length, drop, ◌==◌, ◌%◌, ◌^◌,
}
use ub2lb.Support.{strlen, strcmp, isspace, word, first}
use ub2lb.Support.Memory.{strlen-length}
use ub2lb.Support.Number.{IsDigits, decimal, strtol-decimal}
use ub2lb.Menu.Entry.{Entry, Menu, ide_type, tftp_type, cd_type}
use ub2lb.Menu.Line.Printed.{
  IsLine, IsWord, strtrim-space, strtrim-behind, getnextword-IsWord, getnextword-keyword,
  keyword-IsLine, strchr-found, take-append,
}
use ub2lb.Menu.Parser.{Status, inside, root_line, initrd_line, dtb_line, running, codes, is}
use ub2lb.Menu.Parser.Lst.{step, dispatch, step_word, step_root, root_ide}
use ub2lb.Menu.Parser.Lst.Reads.{All-map, Plain-IsWord}
use ub2lb.Menu.Parser.Lst.Steps.{state}

pub tftp-IsWord : IsWord (codes "tftp")
unfolding isspace
tftp-IsWord = Plain-IsWord (codes "tftp") (ground arith) (omega arith) refl refl

pub cdrom-IsWord : IsWord (codes "cdrom")
unfolding isspace
cdrom-IsWord = Plain-IsWord (codes "cdrom") (ground arith) (omega arith) refl refl

pub ide-IsWord : IsWord (codes "ide")
unfolding isspace
ide-IsWord = Plain-IsWord (codes "ide") (ground arith) (omega arith) refl refl

drop-colon : (d p : Bytes) → drop (length d + 1) (d ++ b':' ∷ p) ≡ p
drop-colon [] p = refl
drop-colon (x ∷ d) p =
    let e : suc (length d) + 1 ≡ suc (length d + 1) = omega arith in
    ap (λ k. drop k (x ∷ d ++ b':' ∷ p)) e ∙ drop-colon d p

first-digit : (p : Bytes) → IsDigits p → 0 < length p → (first p == 0) ≡ false
first-digit [] h g = absurd (omega arith)
first-digit (c ∷ p) h g = ground (arith, h.0)

module _ (buffer : Bytes) (offset : ℕ) (entry : Entry) (kernel : Bool) (menu : Menu) (n : ℕ) where
  word-inside :
      (put : Bytes → Entry → Entry) (status : Status) (w : Bytes)
      → IsWord w
      → step_word put (state offset (b' ' ∷ w) status entry kernel menu n)
        ≡ running (state offset w inside (put w entry) kernel menu n)
  unfolding step_word
  word-inside put status w is_word =
      let filled : (strlen w == 0) ≡ false = ground (arith, strlen-length w, is_word.line.filled) in
      rw (strtrim-space w is_word.line, step_word)
        (rw (getnextword-IsWord w is_word, filled, step_word) refl)

  pub initrd-inside :
      (w : Bytes)
      → IsWord w
      → step buffer (length buffer) (state offset (b' ' ∷ w) initrd_line entry kernel menu n)
        ≡ running (state offset w inside (record entry { initrd = some w }) kernel menu n)
  unfolding step dispatch
  initrd-inside w is_word = word-inside (λ v e. record e { initrd = some v }) initrd_line w is_word

  pub dtb-inside :
      (w : Bytes)
      → IsWord w
      → step buffer (length buffer) (state offset (b' ' ∷ w) dtb_line entry kernel menu n)
        ≡ running (state offset w inside (record entry { dtb = some w }) kernel menu n)
  unfolding step dispatch
  dtb-inside w is_word = word-inside (λ v e. record e { dtb = some v }) dtb_line w is_word

  pub tftp-inside :
      step buffer (length buffer) (state offset (b' ' ∷ codes "tftp") root_line entry kernel menu n)
      ≡ running (state offset [] inside (record entry { device_type = tftp_type }) kernel menu n)
  unfolding step dispatch step_root is strcmp strlen
  tftp-inside =
      rw (strtrim-space (codes "tftp") tftp-IsWord.line, step_root)
        (rw (getnextword-IsWord (codes "tftp") tftp-IsWord, step_root)
          (rw (strtrim-behind (codes "tftp"), step_root) refl))

  pub cdrom-inside :
      step buffer
        (length buffer)
        (state offset (b' ' ∷ codes "cdrom") root_line entry kernel menu n)
      ≡ running (state offset [] inside (record entry { device_type = cd_type }) kernel menu n)
  unfolding step dispatch step_root is strcmp strlen
  cdrom-inside =
      rw (strtrim-space (codes "cdrom") cdrom-IsWord.line, step_root)
        (rw (getnextword-IsWord (codes "cdrom") cdrom-IsWord, step_root)
          (rw (strtrim-behind (codes "cdrom"), step_root) refl))

  -- Device and partition, in digits; the partition is counted from one.
  abbrev pub on_disc : Bytes → Bytes → Entry
  on_disc d p = record entry {
    device_type = ide_type;
    device_num = decimal 0 d % 2 ^ 32;
    partition = word (decimal 0 p % 2 ^ 32 + 0xffff_ffff);
  }

  root_ide-digits :
      (lineptr d p : Bytes)
      → IsDigits d
      → IsDigits p
      → 0 < length p
      → root_ide (state offset lineptr root_line entry kernel menu n) (d ++ b':' ∷ p)
        ≡ running (state offset (d ++ b':' ∷ p) inside (on_disc d p) kernel menu n)
  unfolding root_ide
  root_ide-digits lineptr d p d_digits p_digits filled =
      let no_colon =
        All-map (λ c. (b'0' ≤ c) × (c ≤ b'9')) (λ x. x ≢ b':') (λ x h e. omega (arith, h.1, e)) d
          d_digits in
      let sep : drop (length d + 1) (d ++ b':' ∷ p) ≡ p = drop-colon d p in
      let some_digit : (first p == 0) ≡ false = first-digit p p_digits filled in
      rw
        (
          strchr-found b':' d p no_colon,
          sep,
          some_digit,
          take-append d (b':' ∷ p),
          strtol-decimal d d_digits,
          strtol-decimal p p_digits,
          root_ide,
        )
        refl

  pub ide-inside :
      (d p : Bytes)
      → IsLine (d ++ b':' ∷ p)
      → IsDigits d
      → IsDigits p
      → 0 < length p
      → step buffer
          (length buffer)
          (state offset (b' ' ∷ codes "ide" ++ b' ' ∷ d ++ b':' ∷ p) root_line entry kernel menu n)
        ≡ running (state offset (d ++ b':' ∷ p) inside (on_disc d p) kernel menu n)
  unfolding step dispatch step_root is strcmp strlen
  ide-inside d p line d_digits p_digits filled =
      let value = d ++ b':' ∷ p in
      rw
        (
          strtrim-space (codes "ide" ++ b' ' ∷ value)
              (keyword-IsLine (codes "ide") value ide-IsWord line),
          step_root,
        )
        (rw (getnextword-keyword (codes "ide") value ide-IsWord, step_root)
          (rw (strtrim-space value line, step_root)
            (root_ide-digits (b' ' ∷ codes "ide" ++ b' ' ∷ value) d p d_digits p_digits filled)))
