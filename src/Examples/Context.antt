-- ===== src/Examples/Context.antt =====
-- The search for a drive, where U-Boot has a disc, a CD drive and another disc.
use ub2lb.Prelude.{ℕ, ◌+◌, ◌≡◌, refl, arith, Option, none, some, List, [], ◌∷◌, get_elem?}
use ub2lb.Context.First.{over, unit, IsEnded, first_of, get_cdrom-first}
use ub2lb.Context.{Units, device, scan_units, get_harddisk, get_cdrom}

-- A device is its type and its number. The state counts the scans that are open.
abbrev drives : List (ℕ × ℕ)
drives = (7, 0) ∷ (5, 1) ∷ (0, 2) ∷ (5, 3) ∷ []

abbrev at_drive : ℕ → Option ℕ
at_drive i = elim (get_elem? drives i) [ none ↦ none | some _ ↦ some i ]

abbrev drive : ℕ → ℕ × ℕ
drive i = elim (get_elem? drives i) [ none ↦ (0xff, i) | some d ↦ d ]

abbrev units : Units ℕ ℕ (ℕ × ℕ)
units = record {
  start_unit_scan = λ list s. (at_drive 0, s + 1);
  next_unit_scan = λ hnd s. (at_drive (hnd + 1), s);
  end_unit_scan = λ hnd s. s;
  end_global_scan = λ s. 0;
  ush_device = λ hnd s. drive hnd;
  device_type = λ d. d.0;
}

get_cdrom-second : get_cdrom units 5 0 ≡ device (some (5, 1)) 0
unfolding get_cdrom scan_units
get_cdrom-second = refl

get_harddisk-third : get_harddisk units 5 0 ≡ device (some (0, 2)) 0
unfolding get_harddisk scan_units
get_harddisk-third = refl

get_cdrom-first_example : IsEnded units (first_of units 5 drives) (get_cdrom units 5 0)
get_cdrom-first_example =
    get_cdrom-first units 5 0 drives (unit (unit (unit (unit over)))) (omega arith)
