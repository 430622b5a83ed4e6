-- ===== src/Menu/Loading/Volumes.antt =====
-- `menu_load` where the booting device is not known: the menu files of all partitions.
use ub2lb.Prelude.{
  ℕ, zero, suc, ◌+◌, ◌<◌, ◌≡◌, ◌≢◌, Option, none, some, List, [], ◌∷◌, ◌++◌, map, Bytes, All,
}
use ub2lb.Prelude.Int.{ℤ, pos}
use ub2lb.Rdb.{RdbPartition, Table, get}
use ub2lb.Menu.Entry.{Entry, Menu, DeviceType, default_type, ide_type, tftp_type, cd_type}
use ub2lb.Menu.Parser.{Outcome, returned, codes}
use ub2lb.Menu.Parser.Lst.{fsm}
use ub2lb.Menu.Parser.Kick.{kick_fsm}
use ub2lb.Menu.Loading.{BootDev, positive}

-- The parser of the first of the three files that the device has with some bytes, on this file; with none of them, no
-- parser is called.
pub data Parses (fresh : Bytes) (dev : BootDev) : (Menu → Outcome) → Type 0 where
  menu_lst :
      {n : ℕ} {b : Bytes}
      → 0 < n
      → dev.load_file (codes "menu.lst") fresh ≡ (pos n, b)
      → Parses fresh dev (fsm b n)
  boot_menu_lst :
      {n : ℕ} {z : ℤ} {b1 b : Bytes}
      → dev.load_file (codes "menu.lst") fresh ≡ (z, b1)
      → positive z ≡ 0
      → 0 < n
      → dev.load_file (codes "boot/menu.lst") b1 ≡ (pos n, b)
      → Parses fresh dev (fsm b n)
  kicklayout :
      {n : ℕ} {z y : ℤ} {b1 b2 b : Bytes}
      → dev.load_file (codes "menu.lst") fresh ≡ (z, b1)
      → positive z ≡ 0
      → dev.load_file (codes "boot/menu.lst") b1 ≡ (y, b2)
      → positive y ≡ 0
      → 0 < n
      → dev.load_file (codes "Kickstart/Kicklayout") b2 ≡ (pos n, b)
      → Parses fresh dev (kick_fsm b n)
  no_file :
      {z y x : ℤ} {b1 b2 b3 : Bytes}
      → dev.load_file (codes "menu.lst") fresh ≡ (z, b1)
      → positive z ≡ 0
      → dev.load_file (codes "boot/menu.lst") b1 ≡ (y, b2)
      → positive y ≡ 0
      → dev.load_file (codes "Kickstart/Kicklayout") b2 ≡ (x, b3)
      → positive x ≡ 0
      → Parses fresh dev (returned 0)

-- The parser returns `k`, with these entries behind those of the menu.
abbrev pub Adds : (Menu → Outcome) → ℕ → List Entry → Type 0
Adds parse k es =
    (menu : Menu) → parse menu ≡ returned k (record menu { entries = menu.entries ++ es })

-- An entry that names no device is on the partition of its menu file.
abbrev on_device : ℕ → DeviceType → Entry → Entry
on_device i default_type e = record e { device_type = ide_type; device_num = 0; partition = i }
on_device i ide_type e = e
on_device i tftp_type e = e
on_device i cd_type e = e

abbrev pub on_partition : ℕ → Entry → Entry
on_partition i e = on_device i e.device_type e

-- The number of a partition, what its parser returns and the entries of its menu file.
pub record Volume : Type 0 where
  pub number : ℕ
  pub count : ℕ
  pub entries : List Entry

abbrev pub total : List Volume → ℕ
total [] = 0
total (v ∷ vs) = v.count + total vs

abbrev pub gathered : List Volume → List Entry
gathered [] = []
gathered (v ∷ vs) = map (on_partition v.number) v.entries ++ gathered vs

module _ (fresh : Bytes) (create_dev : RdbPartition → Option BootDev) (table : Table) where
  -- The partitions from number `i` on, `count` at most, with a file system that is known.
  pub data Volumes : ℕ → ℕ → List Volume → Type 0 where
    full : {i : ℕ} → Volumes i zero []
    last_row : {i count : ℕ} → get table i ≡ none → Volumes i (suc count) []
    other_system :
        {i count : ℕ} {partition : RdbPartition} {vs : List Volume}
        → get table i ≡ some partition
        → create_dev partition ≡ none
        → Volumes (i + 1) count vs
        → Volumes i (suc count) vs
    with_menu :
        {i count k : ℕ} {partition : RdbPartition} {dev : BootDev} {parse : Menu → Outcome}
        {es : List Entry} {vs : List Volume}
        → get table i ≡ some partition
        → create_dev partition ≡ some dev
        → Parses fresh dev parse
        → Adds parse k es
        → Volumes (i + 1) count vs
        → Volumes i (suc count) (record { number = i; count = k; entries = es } ∷ vs)

  abbrev Settled : List Entry → Type 0
  Settled es = All (λ e. e.device_type ≢ default_type) es
