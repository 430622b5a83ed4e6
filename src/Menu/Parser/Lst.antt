-- ===== src/Menu/Parser/Lst.antt =====
-- `fsm` of src/menu.c, which reads `menu.lst`.
pub mod Total
pub mod Bootable
pub mod Print
pub mod Reads
pub mod Steps
pub mod Values
pub mod Lines
pub mod RoundTrip
use ub2lb.Prelude.{ℕ, ◌+◌, ◌*◌, true, none, some, ◌==◌, if◌then◌else◌, Bytes, take, drop}
use ub2lb.Support.{strlen, strchr, strtol, word, first}
use ub2lb.Menu.Entry.{Entry, ide_type, tftp_type, cd_type, Menu, link}
use ub2lb.Menu.Line.{getline, eatcomments, getnextword, strtrim}
use ub2lb.Menu.Parser.{
  Status, start, default_line, delay_line, title_line, inside, root_line, kernel_line, other_line,
  initrd_line, dtb_line, module_line, accept, reject, accept_quit, reject_quit, Fsm, Outcome,
  running, returned, initial, run, codes, is, behind, goto, step_title, step_kernel, step_module,
  step_accept, step_next_title, read_line,
}

-- case S
step_start : Bytes → ℕ → Fsm → Outcome
step_start buffer buffer_len f = elim (getline buffer buffer_len f.offset) [
  | none ↦ returned 1 f.menu
  | some (read, offset) ↦
      let line = strtrim (eatcomments read) in
      let w = getnextword line in
      if strlen line == 0
      then running (record f { offset = offset; status = start })
      else if is w (codes "title")
      then read_line f offset w line title_line
      else if is w (codes "default")
      then read_line f offset w line default_line
      else if is w (codes "delay")
      then read_line f offset w line delay_line
      else running (record f { offset = offset; status = start })
]

-- case DEF
step_default : Fsm → Outcome
step_default f =
    if strlen f.lineptr == 0
    then goto f start
    else (let lineptr = strtrim f.lineptr in
        let w = getnextword lineptr in
        if strlen w == 0
        then running (record f { lineptr = lineptr; status = start })
        else running (record f {
          lineptr = lineptr;
          status = start;
          menu = record (f.menu) { default_os = strtol w };
        }))

-- case DLY
step_delay : Fsm → Outcome
step_delay f =
    if strlen f.lineptr == 0
    then goto f start
    else (let lineptr = strtrim f.lineptr in
        let w = getnextword lineptr in
        if strlen w == 0
        then running (record f { lineptr = lineptr; status = start })
        else running (record f {
          lineptr = lineptr;
          status = start;
          menu = record (f.menu) { delay = strtol w };
        }))

-- The tests of the keyword in case IN.
abbrev inside_case : Fsm → ℕ → Bytes → Bytes → Outcome
inside_case f offset w line =
    if is w (codes "kernel")
    then read_line f offset w line kernel_line
    else if is w (codes "other")
    then read_line f offset w line other_line
    else if is w (codes "root")
    then read_line f offset w line root_line
    else if is w (codes "initrd")
    then read_line f offset w line initrd_line
    else if is w (codes "dtb")
    then read_line f offset w line dtb_line
    else if is w (codes "module")
    then read_line f offset w line module_line
    else if is w (codes "title")
    then step_next_title f offset w line
    else read_line f offset w line reject

-- case IN
step_inside : Bytes → ℕ → Fsm → Outcome
step_inside buffer buffer_len f = elim (getline buffer buffer_len f.offset) [
  | none ↦ goto f (if f.kernel then accept_quit else reject_quit)
  | some (read, offset) ↦
      let line = strtrim (eatcomments read) in
      let w = getnextword line in
      if strlen line == 0
      then running (record f { offset = offset; status = inside })
      else inside_case f offset w line
]

-- `root ide 0:2`: the device in front of the colon, the partition behind it, counted from one.
root_ide : Fsm → Bytes → Outcome
root_ide f lineptr = elim (strchr lineptr b':') [
  | none ↦ running (record f { lineptr = lineptr; status = reject })
  | some i ↦
      let sep = drop (i + 1) lineptr in
      if first sep == 0
      then running (record f { lineptr = lineptr; status = reject })
      else running (record f {
        lineptr = lineptr;
        status = inside;
        entry = record (f.entry) {
          device_type = ide_type;
          device_num = strtol (take i lineptr);
          partition = word (strtol sep + 0xffff_ffff);
        };
      })
]

-- case RT
step_root : Fsm → Outcome
unfolding root_ide
step_root f =
    let lineptr = strtrim f.lineptr in
    let w = getnextword lineptr in
    let device = strtrim (behind w lineptr) in
    if strlen w == 0
    then running (record f { lineptr = lineptr; status = reject })
    else if is w (codes "tftp")
    then running (record f {
      lineptr = device;
      status = inside;
      entry = record (f.entry) { device_type = tftp_type };
    })
    else if is w (codes "cdrom")
    then running (record f {
      lineptr = device;
      status = inside;
      entry = record (f.entry) { device_type = cd_type };
    })
    else if is w (codes "ide")
    then root_ide f device
    else running (record f { lineptr = device; status = reject })

-- A line with one word, which `put` stores in the entry: the cases RD and DTB, and O.
step_word : (Bytes → Entry → Entry) → Fsm → Outcome
step_word put f =
    let lineptr = strtrim f.lineptr in
    let w = getnextword lineptr in
    if strlen w == 0
    then running (record f { lineptr = lineptr; status = reject })
    else running (record f { lineptr = lineptr; status = inside; entry = put w f.entry })

-- case O
step_other : Fsm → Outcome
step_other f =
    let lineptr = strtrim f.lineptr in
    let w = getnextword lineptr in
    if strlen w == 0
    then running (record f { lineptr = lineptr; status = reject })
    else running (record f {
      lineptr = behind w lineptr;
      status = inside;
      kernel = true;
      entry = record (f.entry) { other = some w };
    })

-- One round of the loop: the `switch (status)`.
unfoldable pub dispatch : Status → Bytes → ℕ → Fsm → Outcome
unfolding step_start step_default step_delay step_inside step_root step_word step_other
dispatch start buffer buffer_len f = step_start buffer buffer_len f
dispatch default_line buffer buffer_len f = step_default f
dispatch delay_line buffer buffer_len f = step_delay f
dispatch title_line buffer buffer_len f = step_title f
dispatch inside buffer buffer_len f = step_inside buffer buffer_len f
dispatch kernel_line buffer buffer_len f = step_kernel f
dispatch root_line buffer buffer_len f = step_root f
dispatch other_line buffer buffer_len f = step_other f
dispatch initrd_line buffer buffer_len f = step_word (λ w e. record e { initrd = some w }) f
dispatch dtb_line buffer buffer_len f = step_word (λ w e. record e { dtb = some w }) f
dispatch module_line buffer buffer_len f = step_module f
dispatch accept buffer buffer_len f = step_accept f
dispatch reject buffer buffer_len f = goto f start
dispatch accept_quit buffer buffer_len f = returned 1 (link f.menu f.entry)
dispatch reject_quit buffer buffer_len f = returned 0 f.menu

unfoldable pub step : Bytes → ℕ → Fsm → Outcome
step buffer buffer_len f = dispatch f.status buffer buffer_len f

-- On fuel: eight rounds for each byte of the buffer.
unfoldable pub fsm : Bytes → ℕ → Menu → Outcome
fsm buffer buffer_len menu = run (step buffer buffer_len) (8 * buffer_len + 1) (initial menu)
