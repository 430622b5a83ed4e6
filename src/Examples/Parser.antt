-- ===== src/Examples/Parser.antt =====
-- The two parsers at small files.
use ub2lb.Prelude.{◌≡◌, refl, arith, map, none, some, [], ◌∷◌, Bytes, All, length, List}
use ub2lb.Support.{strcmp, strlen, strchr, isspace, strtol}
use ub2lb.Menu.Entry.{Entry, entry_alloc, ide_type, Menu, add_module, new_object}
use ub2lb.Menu.Line.{getline, eatcomments, kick_eatcomments, getnextword, strtrim}
use ub2lb.Menu.Parser.{returned, run, codes, is, step_title, step_kernel, step_module, step_accept}
use ub2lb.Menu.Parser.Measure.{Ends}
use ub2lb.Menu.Parser.Invariant.{IsBootable}
use ub2lb.Menu.Parser.Lst
use ub2lb.Menu.Parser.Lst.{fsm}
use ub2lb.Menu.Parser.Lst.Total.{fsm-Ends}
use ub2lb.Menu.Parser.Lst.Bootable.{fsm-IsBootable}
use ub2lb.Menu.Parser.Lst.Reads.{Text-IsLine, Plain-IsWord}
use ub2lb.Menu.Parser.Lst.Print.{Printed, booting, disc, print, entry_of, IsPrintable}
use ub2lb.Menu.Parser.Lst.RoundTrip.{fsm-print}
use ub2lb.Menu.Parser.Kick
use ub2lb.Menu.Parser.Kick.{kick_fsm}
use ub2lb.Menu.Parser.Kick.Total.{kick_fsm-Ends}
use ub2lb.Menu.Parser.Kick.Bootable.{kick_fsm-IsBootable}
use ub2lb.Support.Memory.{c_string}

abbrev empty : Menu
empty = record { head = entry_alloc; default_os = 0; delay = 5; entries = [] }

abbrev menu_lst : Bytes
menu_lst =
    codes
      "default 1 # linux\n\ntitle AROS\n kernel boot/aros  -x\nmodule a.o\nroot ide 0:2\ntitle Net\nother net\n"

abbrev menu_lst_entries : List Entry
menu_lst_entries =
    record entry_alloc {
      title = some (codes "AROS");
      kernel = some (codes "boot/aros");
      append = some (codes "-x");
      modules = new_object (codes "a.o") ∷ [];
      device_type = ide_type;
      partition = 1;
    }
    ∷ record entry_alloc { title = some (codes "Net"); other = some (codes "net") }
    ∷ []

fsm-menu_lst :
    fsm menu_lst (length menu_lst) empty
    ≡ returned 1 (record empty { default_os = 1; entries = menu_lst_entries })
unfolding fsm Lst.step Lst.dispatch run is strcmp strlen strchr isspace strtol getline eatcomments
    getnextword strtrim step_title step_kernel step_module step_accept add_module c_string
fsm-menu_lst = refl

fsm-Ends_example : Ends (fsm menu_lst (length menu_lst) empty)
fsm-Ends_example = fsm-Ends menu_lst (length menu_lst) empty

fsm-IsBootable_example : All IsBootable menu_lst_entries
fsm-IsBootable_example = fsm-IsBootable menu_lst (length menu_lst) empty tt fsm-menu_lst

abbrev kicklayout : Bytes
kicklayout = codes "LABEL OS4 ; one\nEXEC loader x y\nMODULE m.kmod\nLABEL bad\n"

abbrev kicklayout_entries : List Entry
kicklayout_entries =
    record entry_alloc {
      title = some (codes "OS4");
      kernel = some (codes "loader");
      append = some (codes "x y");
      modules = new_object (codes "m.kmod") ∷ [];
    }
    ∷ []

-- The last entry has no EXEC line, so the result is 0, though an entry has been linked.
kick_fsm-kicklayout :
    kick_fsm kicklayout (length kicklayout) empty
    ≡ returned 0 (record empty { entries = kicklayout_entries })
unfolding kick_fsm Kick.step Kick.dispatch run is strcmp strlen strchr isspace getline
    kick_eatcomments getnextword strtrim step_title step_kernel step_module step_accept add_module
    c_string
kick_fsm-kicklayout = refl

kick_fsm-Ends_example : Ends (kick_fsm kicklayout (length kicklayout) empty)
kick_fsm-Ends_example = kick_fsm-Ends kicklayout (length kicklayout) empty

kick_fsm-IsBootable_example : All IsBootable kicklayout_entries
kick_fsm-IsBootable_example =
    kick_fsm-IsBootable kicklayout (length kicklayout) empty tt kick_fsm-kicklayout

-- The second title has blanks behind it. Going back by the length of the trimmed line ends inside that
-- line, which is then no title, and its entry is lost.
abbrev trailing_blanks : Bytes
trailing_blanks = codes "title A\nother x\ntitle B   \nother y\n"

fsm-trailing_blanks :
    fsm trailing_blanks (length trailing_blanks) empty
    ≡ returned 1 (record empty {
      entries = record entry_alloc { title = some (codes "A"); other = some (codes "x") } ∷ [];
    })
unfolding fsm Lst.step Lst.dispatch run is strcmp strlen strchr isspace strtol getline eatcomments
    getnextword strtrim step_title step_kernel step_module step_accept add_module c_string
fsm-trailing_blanks = refl

-- Two entries, of which one has a command line, a partition, an initial RAM disk and modules, and the
-- other a device tree.
abbrev two_entries : List Printed
two_entries =
    record {
      title = codes "AROS 68k";
      kernel = codes "boot/aros";
      append = some (codes "-x y");
      root = disc (codes "0") (codes "12");
      initrd = some (codes "rd.gz");
      dtb = none;
      modules = codes "a.o" ∷ codes "b.o" ∷ [];
    }
    ∷ record {
      title = codes "Net";
      kernel = codes "n";
      append = none;
      root = booting;
      initrd = none;
      dtb = some (codes "x.dtb");
      modules = [];
    }
    ∷ []

two_entries-IsPrintable : All IsPrintable two_entries
unfolding isspace
two_entries-IsPrintable = (
  record {
    title = Text-IsLine (codes "AROS 68k") (ground arith) (omega arith) refl refl;
    kernel = Plain-IsWord (codes "boot/aros") (ground arith) (omega arith) refl refl;
    append = Text-IsLine (codes "-x y") (ground arith) (omega arith) refl refl;
    root = (
      Text-IsLine (codes "0:12") (ground arith) (omega arith) refl refl,
      ground arith,
      ground arith,
      omega arith,
    );
    initrd = Plain-IsWord (codes "rd.gz") (ground arith) (omega arith) refl refl;
    dtb = tt;
    modules = (
      Plain-IsWord (codes "a.o") (ground arith) (omega arith) refl refl,
      (Plain-IsWord (codes "b.o") (ground arith) (omega arith) refl refl, tt),
    );
    few = omega arith;
  },
  (
    record {
      title = Text-IsLine (codes "Net") (ground arith) (omega arith) refl refl;
      kernel = Plain-IsWord (codes "n") (ground arith) (omega arith) refl refl;
      append = tt;
      root = tt;
      initrd = tt;
      dtb = Plain-IsWord (codes "x.dtb") (ground arith) (omega arith) refl refl;
      modules = tt;
      few = omega arith;
    },
    tt,
  ),
)

fsm-print_example :
    fsm (print two_entries) (length (print two_entries)) empty
    ≡ returned 1 (record empty { entries = map entry_of two_entries })
fsm-print_example = fsm-print two_entries empty two_entries-IsPrintable

print-text :
    print two_entries
    ≡ codes
        "title AROS 68k\nkernel boot/aros -x y\nroot ide 0:12\ninitrd rd.gz\nmodule a.o\nmodule b.o\ntitle Net\nkernel n\ndtb x.dtb\n"
unfolding print
print-text = refl
