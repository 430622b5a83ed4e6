-- ===== src/Context.antt =====
-- The search for a drive: `get_scan_list` of src/context.c, and `get_dev` of src/cdrom.c and src/rdb.c. U-Boot's
-- scan of its units is a parameter, with a state `S` that its functions pass on.
pub mod First
use ub2lb.Prelude.{
  ℕ, zero, suc, ◌≡◌, Bool, Option, none, some, List, [], ◌∷◌, ◌==◌, if◌then◌else◌, Bytes,
}
use ub2lb.Menu.Parser.{codes}

abbrev pub dev_type_harddisk : ℕ
dev_type_harddisk = 0

abbrev pub dev_type_cdrom : ℕ
dev_type_cdrom = 5

-- The static `scan_list`, up to its NULL.
abbrev pub get_scan_list : List Bytes
get_scan_list =
    codes "s4sii" ∷ codes "s4siicdrom" ∷ codes "net" ∷ codes "ssii" ∷ codes "ssiicdrom" ∷ []

-- What the scan needs of U-Boot: a list of NULL is `none`, and so is a handle of NULL. `ush_device` is the
-- field of that name of a handle, and `device_type` the field `type` of a device.
pub record Units (S H D : Type 0) : Type 0 where
  pub start_unit_scan : Option (List Bytes) → S → Option H × S
  pub next_unit_scan : H → S → Option H × S
  pub end_unit_scan : Option H → S → S
  pub end_global_scan : S → S
  pub ush_device : H → S → D
  pub device_type : D → ℕ

-- The device that is copied, or NULL, with the last handle; or there are more units than rounds.
pub data Scanned (S H D : Type 0) : Type 0 where
  stopped : Option D → Option H → S → Scanned S H D
  unfinished : Scanned S H D

pub data FoundDrive (S D : Type 0) : Type 0 where
  device : Option D → S → FoundDrive S D
  hangs : FoundDrive S D

module _ {S H D : Type 0} (units : Units S H D) where
  -- The loop of both `get_dev`, for a type of device.
  unfoldable pub scan_units : ℕ → ℕ → Option H × S → Scanned S H D
  scan_units zero type at = unfinished
  scan_units (suc fuel) type (none, s) = stopped none none s
  scan_units (suc fuel) type (some hnd, s) =
      let rest = scan_units fuel type (units.next_unit_scan hnd s) in
      let found = units.ush_device hnd s in
      if units.device_type found == type then stopped (some found) (some hnd) s else rest

  abbrev pub end_scan : Scanned S H D → FoundDrive S D
  end_scan (stopped bdev hnd s) = device bdev (units.end_global_scan (units.end_unit_scan hnd s))
  end_scan unfinished = hangs

  -- `get_dev` of src/rdb.c, whose argument is not used.
  unfoldable pub get_harddisk : ℕ → S → FoundDrive S D
  get_harddisk fuel s =
      end_scan (scan_units fuel dev_type_harddisk (units.start_unit_scan (some get_scan_list) s))

  -- `get_dev` of src/cdrom.c, which starts two scans.
  unfoldable pub get_cdrom : ℕ → S → FoundDrive S D
  get_cdrom fuel s =
      let begun = units.start_unit_scan none s in
      end_scan
        (scan_units fuel dev_type_cdrom (units.start_unit_scan (some get_scan_list) (begun.1)))
