-- ===== src/Context/First.antt =====
-- Which drive the search finds.
use ub2lb.Prelude.{
  ℕ, zero, suc, ◌<◌, ◌≡◌, refl, Bool-cases, inl, inr, Option, none, some, List, [], ◌∷◌, ◌==◌,
  if◌then◌else◌, arith, length,
}
use ub2lb.Context.{
  Units, FoundDrive, device, dev_type_harddisk, dev_type_cdrom, get_scan_list, scan_units, end_scan,
  get_harddisk, get_cdrom,
}

module _ {S H D : Type 0} (units : Units S H D) where
  -- From here on the scan comes to these devices, and to NULL behind them.
  pub data Comes : Option H × S → List D → Type 0 where
    over : {s : S} → Comes (none, s) []
    unit :
        {hnd : H} {s : S} {ds : List D}
        → Comes (units.next_unit_scan hnd s) ds
        → Comes (some hnd, s) (units.ush_device hnd s ∷ ds)

  -- The first device of a type.
  abbrev pub first_of : ℕ → List D → Option D
  first_of type [] = none
  first_of type (d ∷ ds) = if units.device_type d == type then some d else first_of type ds

  -- The scan was ended at a handle, with this device.
  abbrev pub IsEnded : Option D → FoundDrive S D → Type 0
  IsEnded d result =
      (hnd : Option H) × (s : S) × (result
        ≡ device d (units.end_global_scan (units.end_unit_scan hnd s)))

  scan_units-first :
      (type fuel : ℕ) (at : Option H × S) (ds : List D)
      → Comes at ds
      → length ds < fuel
      → IsEnded (first_of type ds) (end_scan units (scan_units units fuel type at))
  unfolding scan_units
  scan_units-first type zero at ds c enough = ground arith
  scan_units-first type (suc fuel) _ _ (over {s}) enough = (none, s, refl)
  scan_units-first type (suc fuel) _ _ (unit {hnd} {s} {ds} c) enough =
      elim (Bool-cases (units.device_type (units.ush_device hnd s) == type)) [
        | inl fits ↦ (some hnd, s, rw fits refl)
        | inr other ↦ rw other (scan_units-first type fuel _ ds c (omega arith))
      ]

  -- If the scan that is started with the list of the boot loader, behind the one that is started with NULL,
  -- comes to certain devices, and then to its end, then get_dev of cdrom.c ends, in one round more than there
  -- are devices; it returns the first of them that is a CD drive, and NULL where none is; and a unit scan and
  -- then the whole scan have been ended.
  pub get_cdrom-first :
      (fuel : ℕ) (s : S) (ds : List D)
      → Comes (units.start_unit_scan (some get_scan_list) ((units.start_unit_scan none s).1)) ds
      → length ds < fuel
      → IsEnded (first_of dev_type_cdrom ds) (get_cdrom units fuel s)
  unfolding get_cdrom
  get_cdrom-first fuel s ds c enough = scan_units-first dev_type_cdrom fuel _ ds c enough

  -- The same of `get_dev` of src/rdb.c, with one scan and a hard disk.
  pub get_harddisk-first :
      (fuel : ℕ) (s : S) (ds : List D)
      → Comes (units.start_unit_scan (some get_scan_list) s) ds
      → length ds < fuel
      → IsEnded (first_of dev_type_harddisk ds) (get_harddisk units fuel s)
  unfolding get_harddisk
  get_harddisk-first fuel s ds c enough = scan_units-first dev_type_harddisk fuel _ ds c enough
