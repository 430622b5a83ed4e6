-- ===== src/Examples/Loading.antt =====
-- A disc with three partitions: one with a file system that is not known, one with a menu file, and one with a device that has
-- none.
use ub2lb.Prelude.{ℕ, Option, none, some, List, [], ◌∷◌, map, length, if◌then◌else◌, ◌==◌}
use ub2lb.Prelude.Int.{negsuc, pos}
use ub2lb.Rdb.{RdbPartition, Table}
use ub2lb.Menu.Entry.{Entry}
use ub2lb.Menu.Parser.{codes, is}
use ub2lb.Menu.Parser.Lst.Print.{Printed, booting, print, entry_of}
use ub2lb.Menu.Loading.{BootDev}
use ub2lb.Menu.Loading.Volumes.{Volume, Volumes}

abbrev one_entry : List Printed
one_entry =
    record {
      title = codes "AROS";
      kernel = codes "k";
      append = none;
      root = booting;
      initrd = none;
      dtb = none;
      modules = [];
    }
    ∷ []

-- A device whose only file is `boot/menu.lst`, and one with no files.
abbrev device : BootDev
device = record {
  load_file = λ name buffer.
      if is name (codes "boot/menu.lst")
      then (pos (length (print one_entry)), print one_entry)
      else (negsuc 4, buffer);
}

abbrev bare : BootDev
bare = record { load_file = λ name buffer. (negsuc 4, buffer) }

abbrev partition : ℕ → RdbPartition
partition n = record {
  name = codes "H0";
  partition = n;
  info = record { start = 2; size = 100; blksz = 512; name = codes "DH0"; type_name = [] };
}

abbrev table : Table
table = some (partition 0) ∷ some (partition 1) ∷ some (partition 2) ∷ none ∷ []

abbrev create_dev : RdbPartition → Option BootDev
create_dev p =
    if p.partition == 0 then none else if p.partition == 1 then some device else some bare

abbrev volumes : List Volume
volumes =
    record { number = 1; count = 1; entries = map entry_of one_entry }
    ∷ record { number = 2; count = 0; entries = [] }
    ∷ []
