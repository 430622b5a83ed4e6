-- ===== src/Menu/Parser/Lst/Lines.antt =====
-- What the machine of `fsm` does at the printed lines of one entry.
use ub2lb.Prelude.{
  ℕ, ◌+◌, ◌≤◌, ◌≡◌, refl, sym, ap, subst, Bool, true, false, Option, none, some, List, [], ◌∷◌,
  ◌++◌, map, append-nil, append_assoc, All, arith, Bytes, length, length-append, drop,
}
use ub2lb.Menu.Entry.{Entry, entry_alloc, Menu, new_object}
use ub2lb.Menu.Line.Printed.{IsLine, IsWord, keyword-IsLine}
use ub2lb.Menu.Parser.{
  Status, start, inside, kernel_line, module_line, root_line, initrd_line, dtb_line, Outcome,
  running, codes,
}
use ub2lb.Menu.Parser.Lst.{step}
use ub2lb.Menu.Parser.Lst.Print.{
  line_then, Root, booting, network, optical, disc, Printed, kernel_value, print_root, print_option,
  print_modules, print_inside, with_root, kernel_of, entry_of, IfSome, IsRoot, IsPrintable,
}
use ub2lb.Menu.Parser.Lst.Reads.{reads}
use ub2lb.Menu.Parser.Lst.Steps.{
  state, Reaches, goes, title-IsWord, Keyword, is_kernel, is_module, is_root, is_initrd, is_dtb,
  Keyword-IsWord, start-title, title-inside, inside-Keyword, kernel-inside, kernel-append,
  module-inside,
}
use ub2lb.Menu.Parser.Lst.Values.{
  tftp-IsWord, cdrom-IsWord, ide-IsWord, tftp-inside, cdrom-inside, ide-inside, initrd-inside,
  dtb-inside,
}

kernel_value-IsLine :
    (w : Bytes) (a : Option Bytes) → IsWord w → IfSome IsLine a → IsLine (kernel_value w a)
kernel_value-IsLine w none word line = word.line
kernel_value-IsLine w (some a) word line = keyword-IsLine w a word line

module _ (buffer : Bytes) where
  modules-Reaches :
      (ms : List Bytes) (offset : ℕ) (lineptr : Bytes) (entry : Entry) (menu : Menu) (n : ℕ)
      (rest : Bytes) (o : Outcome)
      → All IsWord ms
      → length entry.modules + length ms ≤ 100
      → drop offset buffer ≡ print_modules ms rest
      → ((offset' : ℕ) (lineptr' : Bytes)
          → drop offset' buffer ≡ rest
          → Reaches buffer
              (state offset' lineptr' inside
                (record entry { modules = entry.modules ++ map new_object ms })
                true
                menu
                n)
              o)
      → Reaches buffer (state offset lineptr inside entry true menu n) o
  modules-Reaches [] offset lineptr entry menu n rest o h room e further =
      subst
        (λ ms.
          Reaches buffer (state offset lineptr inside (record entry { modules = ms }) true menu n)
            o)
        (append-nil entry.modules) (further offset lineptr e)
  modules-Reaches (m ∷ ms) offset lineptr entry menu n rest o h room e further =
      let r =
        reads buffer (codes "module") m (print_modules ms rest) offset
          (Keyword-IsWord (codes "module") module_line is_module) (h.0.line) e in
      let longer = entry.modules ++ new_object m ∷ [] in
      goes
        (inside-Keyword buffer offset lineptr entry true menu n (codes "module") m
          (print_modules ms rest) module_line is_module (h.0.line) e)
        (goes (module-inside buffer _ entry true menu n m (h.0) (omega arith)) (
          modules-Reaches ms _ m (record entry { modules = longer }) menu n rest o (h.1)
            (omega (arith, length-append entry.modules (new_object m ∷ []))) r.next
            (λ offset' lineptr' e'.
              subst
                (λ xs.
                  Reaches buffer
                    (state offset' lineptr' inside (record entry { modules = xs }) true menu n) o)
                (sym (append_assoc entry.modules (new_object m ∷ []) (map new_object ms)))
                (further offset' lineptr' e'))))

  abbrev titled : Bytes → Entry
  titled title = record entry_alloc { title = some title }

  -- The kernel line, with and without a command line.
  kernel-Reaches :
      (offset : ℕ) (title : Bytes) (kernel : Bool) (menu : Menu) (n : ℕ) (w : Bytes)
      (a : Option Bytes) (o : Outcome)
      → IsWord w
      → IfSome IsLine a
      → ((lineptr : Bytes)
          → Reaches buffer
              (state offset lineptr inside
                (record (titled title) { kernel = some w; append = a })
                true
                menu
                n)
              o)
      → Reaches buffer
          (state offset (b' ' ∷ kernel_value w a) kernel_line (titled title) kernel menu n)
          o
  kernel-Reaches offset title kernel menu n w none o word line further =
      goes (kernel-inside buffer offset (titled title) kernel menu n w word) (further [])
  kernel-Reaches offset title kernel menu n w (some a) o word line further =
      goes (kernel-append buffer offset (titled title) kernel menu n w a word line) (further a)

  -- What has the machine at `rest`, with this entry, come to `o`.
  abbrev pub Further : Bytes → Entry → Menu → ℕ → Outcome → Type 0
  Further rest entry menu n o =
      (offset : ℕ) (lineptr : Bytes)
      → drop offset buffer ≡ rest
      → Reaches buffer (state offset lineptr inside entry true menu n) o

  Keyword-Reaches :
      (w v rest : Bytes) (status : Status) (offset : ℕ) (lineptr lineptr' : Bytes)
      (entry entry' : Entry) (menu : Menu) (n : ℕ) (o : Outcome)
      → Keyword w status
      → IsLine v
      → drop offset buffer ≡ line_then w v rest
      → ((next : ℕ)
          → step buffer (length buffer) (state next (b' ' ∷ v) status entry true menu n)
            ≡ running (state next lineptr' inside entry' true menu n))
      → Further rest entry' menu n o
      → Reaches buffer (state offset lineptr inside entry true menu n) o
  Keyword-Reaches w v rest status offset lineptr lineptr' entry entry' menu n o k line e value
        further =
      let r = reads buffer w v rest offset (Keyword-IsWord w status k) line e in
      goes (inside-Keyword buffer offset lineptr entry true menu n w v rest status k line e)
        (goes (value _) (further _ lineptr' r.next))

  root-Reaches :
      (root : Root) (rest : Bytes) (offset : ℕ) (lineptr : Bytes) (entry : Entry) (menu : Menu)
      (n : ℕ) (o : Outcome)
      → IsRoot root
      → drop offset buffer ≡ print_root root rest
      → Further rest (with_root root entry) menu n o
      → Reaches buffer (state offset lineptr inside entry true menu n) o
  root-Reaches booting rest offset lineptr entry menu n o h e further = further offset lineptr e
  root-Reaches network rest offset lineptr entry menu n o h e further =
      Keyword-Reaches (codes "root") (codes "tftp") rest root_line offset lineptr _ entry _ menu n o
        is_root tftp-IsWord.line e (λ next. tftp-inside buffer next entry true menu n) further
  root-Reaches optical rest offset lineptr entry menu n o h e further =
      Keyword-Reaches (codes "root") (codes "cdrom") rest root_line offset lineptr _ entry _ menu n
        o is_root cdrom-IsWord.line e (λ next. cdrom-inside buffer next entry true menu n) further
  root-Reaches (disc d p) rest offset lineptr entry menu n o h e further =
      Keyword-Reaches (codes "root") (codes "ide" ++ b' ' ∷ d ++ b':' ∷ p) rest root_line offset
        lineptr _ entry _ menu n o is_root
        (keyword-IsLine (codes "ide") (d ++ b':' ∷ p) ide-IsWord (h.0)) e
        (λ next. ide-inside buffer next entry true menu n d p (h.0) (h.1) (h.2) (h.3)) further

  initrd-Reaches :
      (v : Option Bytes) (rest : Bytes) (offset : ℕ) (lineptr : Bytes) (entry : Entry) (menu : Menu)
      (n : ℕ) (o : Outcome)
      → IfSome IsWord v
      → entry.initrd ≡ none
      → drop offset buffer ≡ print_option (codes "initrd") v rest
      → Further rest (record entry { initrd = v }) menu n o
      → Reaches buffer (state offset lineptr inside entry true menu n) o
  initrd-Reaches none rest offset lineptr entry menu n o h fresh e further =
      subst
        (λ v.
          Reaches buffer (state offset lineptr inside (record entry { initrd = v }) true menu n) o)
        (sym fresh) (further offset lineptr e)
  initrd-Reaches (some v) rest offset lineptr entry menu n o h fresh e further =
      Keyword-Reaches (codes "initrd") v rest initrd_line offset lineptr v entry _ menu n o
        is_initrd h.line e (λ next. initrd-inside buffer next entry true menu n v h) further

  dtb-Reaches :
      (v : Option Bytes) (rest : Bytes) (offset : ℕ) (lineptr : Bytes) (entry : Entry) (menu : Menu)
      (n : ℕ) (o : Outcome)
      → IfSome IsWord v
      → entry.dtb ≡ none
      → drop offset buffer ≡ print_option (codes "dtb") v rest
      → Further rest (record entry { dtb = v }) menu n o
      → Reaches buffer (state offset lineptr inside entry true menu n) o
  dtb-Reaches none rest offset lineptr entry menu n o h fresh e further =
      subst
        (λ v. Reaches buffer (state offset lineptr inside (record entry { dtb = v }) true menu n) o)
        (sym fresh) (further offset lineptr e)
  dtb-Reaches (some v) rest offset lineptr entry menu n o h fresh e further =
      Keyword-Reaches (codes "dtb") v rest dtb_line offset lineptr v entry _ menu n o is_dtb h.line
        e (λ next. dtb-inside buffer next entry true menu n v h) further

  -- What the lines behind that of the kernel leave alone.
  with_root-initrd : (root : Root) (entry : Entry) → (with_root root entry).initrd ≡ entry.initrd
  with_root-initrd booting entry = refl
  with_root-initrd network entry = refl
  with_root-initrd optical entry = refl
  with_root-initrd (disc d p) entry = refl

  with_root-dtb : (root : Root) (entry : Entry) → (with_root root entry).dtb ≡ entry.dtb
  with_root-dtb booting entry = refl
  with_root-dtb network entry = refl
  with_root-dtb optical entry = refl
  with_root-dtb (disc d p) entry = refl

  with_root-modules : (root : Root) (entry : Entry) → (with_root root entry).modules ≡ entry.modules
  with_root-modules booting entry = refl
  with_root-modules network entry = refl
  with_root-modules optical entry = refl
  with_root-modules (disc d p) entry = refl

  inside-Reaches :
      (p : Printed) (rest : Bytes) (offset : ℕ) (lineptr : Bytes) (menu : Menu) (n : ℕ)
      (o : Outcome)
      → IsPrintable p
      → drop offset buffer ≡ print_inside p rest
      → Further rest (entry_of p) menu n o
      → Reaches buffer (state offset lineptr inside (kernel_of p) true menu n) o
  inside-Reaches p rest offset lineptr menu n o h e further =
      let rooted = with_root p.root (kernel_of p) in
      let none_yet = with_root-modules p.root (kernel_of p) in
      root-Reaches p.root _ offset lineptr (kernel_of p) menu n o h.root e (λ offset1 lineptr1 e1.
        initrd-Reaches p.initrd _ offset1 lineptr1 rooted menu n o h.initrd
          (with_root-initrd p.root (kernel_of p)) e1
          (λ offset2 lineptr2 e2.
            dtb-Reaches p.dtb _ offset2 lineptr2 (record rooted { initrd = p.initrd }) menu n o
              h.dtb (with_root-dtb p.root (kernel_of p)) e2
              (λ offset3 lineptr3 e3.
                modules-Reaches p.modules offset3 lineptr3
                  (record rooted { initrd = p.initrd; dtb = p.dtb }) menu n rest o h.modules
                  (omega (arith, h.few, ap length none_yet)) e3
                  (λ offset4 lineptr4 e4.
                    subst
                      (λ ms.
                        Reaches buffer
                          (state offset4 lineptr4 inside
                            (record rooted {
                              initrd = p.initrd;
                              dtb = p.dtb;
                              modules = ms ++ map new_object p.modules;
                            })
                            true menu n)
                          o)
                      (sym none_yet) (further offset4 lineptr4 e4)))))

  -- From a title on, the machine comes to the end of the entry.
  pub entry-Reaches :
      (p : Printed) (rest : Bytes) (offset : ℕ) (lineptr : Bytes) (entry : Entry) (kernel : Bool)
      (menu : Menu) (n : ℕ) (o : Outcome)
      → IsPrintable p
      → drop offset buffer
        ≡ line_then
            (codes "title")
            p.title
            (line_then (codes "kernel") (kernel_value p.kernel p.append) (print_inside p rest))
      → Further rest (entry_of p) menu n o
      → Reaches buffer (state offset lineptr start entry kernel menu n) o
  entry-Reaches p rest offset lineptr entry kernel menu n o h e further =
      let behind_kernel = print_inside p rest in
      let value = kernel_value p.kernel p.append in
      let behind_title = line_then (codes "kernel") value behind_kernel in
      let line = kernel_value-IsLine p.kernel p.append h.kernel h.append in
      let t = reads buffer (codes "title") p.title behind_title offset title-IsWord h.title e in
      let k =
        reads buffer (codes "kernel") value behind_kernel _
          (Keyword-IsWord (codes "kernel") kernel_line is_kernel) line t.next in
      goes (start-title buffer offset lineptr entry kernel menu n p.title behind_title h.title e) (
        goes (title-inside buffer _ entry kernel menu n p.title h.title) (
          goes
            (inside-Keyword buffer _ p.title (titled p.title) false menu n (codes "kernel") value
              behind_kernel kernel_line is_kernel line t.next)
            (kernel-Reaches _ p.title false menu n p.kernel p.append o h.kernel h.append
              (λ lineptr'. inside-Reaches p rest _ lineptr' menu n o h k.next further))))
