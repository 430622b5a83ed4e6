-- ===== src/Menu/Parser/Lst/Print.antt =====
-- Menu files in the form that `fsm` reads, as they are printed from entries.
use ub2lb.Prelude.{
  ◌+◌, ◌%◌, ◌^◌, ◌≤◌, ◌<◌, Option, none, some, List, [], ◌∷◌, ◌++◌, map, All, Bytes, length,
}
use ub2lb.Support.{word}
use ub2lb.Support.Number.{IsDigits, decimal}
use ub2lb.Menu.Entry.{Entry, entry_alloc, new_object, ide_type, tftp_type, cd_type}
use ub2lb.Menu.Line.Printed.{IsLine, IsWord}
use ub2lb.Menu.Parser.{codes}

-- A line with a keyword and a value, in front of the rest of the file.
abbrev pub line_then : Bytes → Bytes → Bytes → Bytes
line_then w v rest = (w ++ b' ' ∷ v) ++ b'\n' ∷ rest

-- The device of an entry: the booting one, or one that a line `root` names; of a disc, the device and the partition in digits.
pub data Root : Type 0 where
  booting network optical : Root
  disc : Bytes → Bytes → Root

-- What the lines of an entry say.
pub record Printed : Type 0 where
  pub title : Bytes
  pub kernel : Bytes
  pub append : Option Bytes
  pub root : Root
  pub initrd : Option Bytes
  pub dtb : Option Bytes
  pub modules : List Bytes

-- The kernel and its command line.
abbrev pub kernel_value : Bytes → Option Bytes → Bytes
kernel_value kernel none = kernel
kernel_value kernel (some append) = kernel ++ b' ' ∷ append

abbrev pub print_root : Root → Bytes → Bytes
print_root booting rest = rest
print_root network rest = line_then (codes "root") (codes "tftp") rest
print_root optical rest = line_then (codes "root") (codes "cdrom") rest
print_root (disc d p) rest = line_then (codes "root") (codes "ide" ++ b' ' ∷ d ++ b':' ∷ p) rest

abbrev pub print_option : Bytes → Option Bytes → Bytes → Bytes
print_option w none rest = rest
print_option w (some v) rest = line_then w v rest

abbrev pub print_modules : List Bytes → Bytes → Bytes
print_modules [] rest = rest
print_modules (m ∷ ms) rest = line_then (codes "module") m (print_modules ms rest)

-- The lines behind that of the kernel.
abbrev pub print_inside : Printed → Bytes → Bytes
print_inside p rest = print_root p.root (
    print_option (codes "initrd") p.initrd
      (print_option (codes "dtb") p.dtb (print_modules p.modules rest)))

-- A menu file with these entries.
unfoldable pub print : List Printed → Bytes
print [] = []
print (p ∷ ps) =
    line_then (codes "title") p.title
      (line_then (codes "kernel") (kernel_value p.kernel p.append) (print_inside p (print ps)))

-- Partitions are counted from one.
abbrev pub with_root : Root → Entry → Entry
with_root booting entry = entry
with_root network entry = record entry { device_type = tftp_type }
with_root optical entry = record entry { device_type = cd_type }
with_root (disc d p) entry = record entry {
  device_type = ide_type;
  device_num = decimal 0 d % 2 ^ 32;
  partition = word (decimal 0 p % 2 ^ 32 + 0xffff_ffff);
}

abbrev pub kernel_of : Printed → Entry
kernel_of p = record entry_alloc { title = some p.title; kernel = some p.kernel; append = p.append }

abbrev pub entry_of : Printed → Entry
entry_of p = record (with_root p.root (kernel_of p)) {
  initrd = p.initrd;
  dtb = p.dtb;
  modules = map new_object p.modules;
}

abbrev pub IfSome : (Bytes → Type 0) → Option Bytes → Type 0
IfSome P none = Unit
IfSome P (some v) = P v

abbrev pub IsRoot : Root → Type 0
IsRoot (disc d p) = IsLine (d ++ b':' ∷ p) × IsDigits d × IsDigits p × (0 < length p)
IsRoot _ = Unit

-- Title and command line are lines, the names are words, device and partition are digits, and the modules fit into their array.
pub record IsPrintable (p : Printed) : Type 0 where
  pub title : IsLine p.title
  pub kernel : IsWord p.kernel
  pub append : IfSome IsLine p.append
  pub root : IsRoot p.root
  pub initrd : IfSome IsWord p.initrd
  pub dtb : IfSome IsWord p.dtb
  pub modules : All IsWord p.modules
  pub few : length p.modules ≤ 100
