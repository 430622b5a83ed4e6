-- ===== src/Examples/Files.antt =====
-- A CD of two sectors: a directory with the file `K`, which Rock Ridge calls `vm`, and the file.
use ub2lb.Prelude.Int.{pos}
use ub2lb.Prelude.{
  ℕ, zero, suc, ◌+◌, ◌*◌, ◌≤◌, ◌≡◌, refl, arith, Bool, true, false, none, some, List, Bytes, [],
  ◌∷◌, ◌++◌, slice, leb, if◌then◌else◌,
}
use ub2lb.Support.{strcasecmp, tolower}
use ub2lb.Support.Memory.{c_string}
use ub2lb.Menu.Parser.{codes}
use ub2lb.Cdrom.{Boot, BlockRead}
use ub2lb.Cdrom.Read.{Disc, Coherent}
use ub2lb.Cdrom.Susp.First.{Susp, Area, last, first_signed, get_entry-first_signed}
use ub2lb.Cdrom.Susp.{found, get_entry, cdrom_reader, kind_of, iterate, unfinished}
use ub2lb.Cdrom.Susp.Hangs.{iterate-hangs}
use ub2lb.Cdrom.Find.{
  split, skip_slash, plain_name, strip_version, last_semicolon, fs_cdrom_load_file, returns, as_int,
  size_be, first_sector_be, rock_ridge,
}
use ub2lb.Cdrom.Susp.Served.{Serves, cdrom_reader-Serves}
use ub2lb.Cdrom.Find.Named.{Called, plainly, by_entry}
use ub2lb.Cdrom.Find.Served.{no_more, entry, first_match}
use ub2lb.Cdrom.Find.Path.{
  Lists, Resolves, at_last, Fails, here, root, fs_cdrom_load_file-Resolves,
  fs_cdrom_load_file-Fails,
}

abbrev zeros : ℕ → Bytes
zeros zero = []
zeros (suc n) = 0 ∷ zeros n

-- Three bytes in sector 1.
abbrev kernel_record : Bytes
kernel_record =
    41 ∷ 0 ∷ 0 ∷ 0 ∷ 0 ∷ 0 ∷ 0 ∷ 0 ∷ 0 ∷ 1 ∷ 0 ∷ 0 ∷ 0 ∷ 0 ∷ 0 ∷ 0 ∷ 0 ∷ 3 ∷ zeros 14 ++ 1 ∷ []

-- An entry NM.
abbrev name_entry : Bytes
name_entry = b'N' ∷ b'M' ∷ 7 ∷ 1 ∷ 0 ∷ b'v' ∷ b'm' ∷ []

abbrev bytes : Bytes
bytes = kernel_record ++ b'K' ∷ name_entry ++ zeros 2007 ++ 7 ∷ 8 ∷ 9 ∷ zeros 2045

abbrev block_read : BlockRead
block_read b n = if leb (b + n) 2 then some (slice (b * 2048) (n * 2048) bytes) else none

in_range : (b n : ℕ) → b + n ≤ 2 → block_read b n ≡ some (slice (b * 2048) (n * 2048) bytes)
in_range b n h = ground arith

abbrev disc : Disc block_read
disc = record { bytes = bytes; sectors = 2; addressable = omega arith; reads = in_range }

abbrev content : ℕ → ℕ → ℕ → Bytes
content b o n = slice (b * 2048 + o) n bytes

abbrev Inside : ℕ → ℕ → ℕ → Type 0
Inside b o n = b * 2048 + o + n ≤ 2 * 2048

abbrev serves : Serves (cdrom_reader block_read) content Inside (Coherent block_read disc)
serves = cdrom_reader-Serves block_read disc

abbrev fresh : Boot
fresh = record { tmpbuf = []; sector_in_buf = 0xffff_ffff }

abbrev malloc : ℕ → Bool
malloc n = true

abbrev records : List (Bytes × Bytes)
records = (plain_name (b'K' ∷ []), kernel_record) ∷ []

directory : Lists (cdrom_reader block_read) malloc content Inside false 0 5 (root 0 41) records
directory = record {
  rounds = 1;
  depth = 0;
  directory =
      entry (omega arith) (omega arith) refl (λ e. omega (arith, e)) (plainly refl (omega arith))
        (no_more (omega arith) (omega arith));
  enough = omega arith;
  small = omega arith;
}

-- The system use area of the record.
abbrev name_susp : Susp
name_susp = record { sua = name_entry; ptr = 0; len = 7 }

name_susp-Area : Area content Inside malloc 1 (content 0 34 7) 0 (name_susp ∷ [])
name_susp-Area =
    last
      (record { no_ce = refl; no_st = refl; says = refl; head = omega arith; inside = omega arith })
      (omega arith)

get_entry-first_signed_example :
    (dev' : Boot) × (get_entry (cdrom_reader block_read) malloc 3 fresh 0 34 7 b'N' b'M'
      ≡ found name_entry dev')
    × Coherent block_read disc dev'
unfolding first_signed
get_entry-first_signed_example =
    get_entry-first_signed (cdrom_reader block_read) malloc content Inside
      (Coherent block_read disc) serves b'N' b'M' 3 1 fresh 0 34 7 (name_susp ∷ []) refl
      (omega arith) name_susp-Area (omega arith) (λ h. absurd (omega arith))

abbrev ridge_records : List (Bytes × Bytes)
ridge_records = (codes "vm", kernel_record) ∷ []

kernel_record-Called :
    Called (cdrom_reader block_read) malloc content Inside true 0 2 0 0 kernel_record (codes "vm")
unfolding first_signed rock_ridge c_string
kernel_record-Called =
    by_entry refl
      (record {
        memory = refl;
        inside = omega arith;
        rounds = 1;
        area = name_susp-Area;
        few = omega arith;
      })
      refl refl

ridge_directory :
    Lists (cdrom_reader block_read) malloc content Inside true 0 5 (root 0 41) ridge_records
ridge_directory = record {
  rounds = 1;
  depth = 2;
  directory =
      entry (omega arith) (omega arith) refl (λ e. omega (arith, e)) kernel_record-Called
        (no_more (omega arith) (omega arith));
  enough = omega arith;
  small = omega arith;
}

path_to_kernel :
    Resolves
      (cdrom_reader block_read)
      malloc
      content
      Inside
      true
      0
      5
      (split [] (skip_slash (codes "/vm")))
      (root 0 41)
      kernel_record
unfolding split first_match c_string strcasecmp tolower
path_to_kernel = at_last ridge_directory refl

fs_cdrom_load_file-Resolves_example :
    (dev' : Boot) × (fs_cdrom_load_file
        (cdrom_reader block_read)
        malloc
        true
        0
        5
        (codes "/vm")
        fresh
        0
        41
      ≡ returns
          (as_int (size_be kernel_record))
          (some (content (first_sector_be kernel_record) 0 (size_be kernel_record)))
          dev')
    × Coherent block_read disc dev'
unfolding split
fs_cdrom_load_file-Resolves_example =
    fs_cdrom_load_file-Resolves (cdrom_reader block_read) malloc content Inside
      (Coherent block_read disc) serves true 0 5 (codes "/vm") fresh 0 41 kernel_record
      path_to_kernel (omega arith) (omega arith) (omega arith) (λ h. absurd (omega arith))

no_path :
    Fails
      (cdrom_reader block_read)
      malloc
      content
      Inside
      false
      0
      5
      (split [] (skip_slash (codes "/j")))
      (root 0 41)
unfolding split first_match plain_name strip_version last_semicolon c_string strcasecmp tolower
no_path = here directory refl

fs_cdrom_load_file-Fails_example :
    (dev' : Boot) × (fs_cdrom_load_file
        (cdrom_reader block_read)
        malloc
        false
        0
        5
        (codes "/j")
        fresh
        0
        41
      ≡ returns (pos 0) none dev')
    × Coherent block_read disc dev'
unfolding split
fs_cdrom_load_file-Fails_example =
    fs_cdrom_load_file-Fails (cdrom_reader block_read) malloc content Inside
      (Coherent block_read disc) serves false 0 5 (codes "/j") fresh 0 41 no_path (omega arith)
      (λ h. absurd (omega arith))

-- An area of zeros.
iterate-hangs_example :
    iterate (cdrom_reader block_read) malloc 9 b'N' b'M' fresh (0 ∷ 0 ∷ 0 ∷ 0 ∷ []) 0 ≡ unfinished
unfolding kind_of
iterate-hangs_example =
    iterate-hangs (cdrom_reader block_read) malloc 9 b'N' b'M' fresh (0 ∷ 0 ∷ 0 ∷ 0 ∷ []) 0 refl
      refl (omega arith)
