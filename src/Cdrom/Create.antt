-- ===== src/Cdrom/Create.antt =====
-- `cdrom_create` of src/cdrom.c, behind `get_dev`, which asks U-Boot for the drive.
use ub2lb.Prelude.{
  ℕ, ◌+◌, ◌-◌, ◌%◌, ◌^◌, Bool, true, false, none, some, Bytes, if◌then◌else◌, get_elem?, slice,
}
use ub2lb.Prelude.Int.{is_zero}
use ub2lb.Support.{word, strncmp}
use ub2lb.Support.Memory.{c_string}
use ub2lb.Menu.Parser.{codes}
use ub2lb.Cdrom.Susp.{Reader, found, missing, overrun, unfinished, has_sig, get_entry, then_read}
use ub2lb.Cdrom.Find.{dirent_size, len_of, first_sector_be, size_be, namelen}

-- The fields of `cdrom_boot_dev_t` that are set.
pub record Fields : Type 0 where
  pub rr : Bool
  pub susp_skip : ℕ
  pub root_block : ℕ
  pub root_size : ℕ

-- The device, NULL, a read behind an object, or no end.
pub data Created {ℓ} (S : Type ℓ) : Type ℓ where
  created : Fields → S → Created S
  null : S → Created S
  stray : Created S
  hangs : Created S

-- `struct iso9660_primary_voldesc`: its size, and `rootdir` in it.
abbrev pub voldesc_size : ℕ
voldesc_size = 189

abbrev pub rootdir_of : Bytes → Bytes
rootdir_of voldesc = slice 156 dirent_size voldesc

abbrev pub is_iso9660 : Bytes → Bool
is_iso9660 voldesc = is_zero (strncmp (c_string (slice 1 5 voldesc)) (codes "CD001") 5)

-- `sua_pos` and `sua_size`, for the directory that is its own first record.
abbrev pub sua_pos : Bytes → ℕ
sua_pos rootdir = dirent_size + namelen rootdir + namelen rootdir % 2 - 1

abbrev pub sua_size : Bytes → ℕ
sua_size rootdir = word (len_of rootdir + 2 ^ 32 - sua_pos rootdir)

module _ {S : Type 0} (read : Reader S) (malloc : ℕ → Bool) (fuel : ℕ) where
  -- The test for Rock Ridge; `fields` has what is known without it.
  unfoldable pub rock_ridge_fields : Fields → Bytes → Bytes → S → Created S
  rock_ridge_fields fields rootdir sua dev = elim (has_sig sua 0 b'S' b'P') [
    | none ↦ stray
    | some false ↦ created fields dev
    | some true ↦ elim (get_elem? sua 6) [
      | none ↦ stray
      | some skip ↦
          elim (get_entry read malloc fuel dev fields.root_block (sua_pos rootdir)
            (sua_size rootdir) b'R' b'R') [
              | found entry dev' ↦ created (record fields { rr = true; susp_skip = skip }) dev'
              | missing dev' ↦ created (record fields { susp_skip = skip }) dev'
              | overrun ↦ stray
              | unfinished ↦ hangs
            ]
    ]
  ]

  -- `junk` is what `malloc` leaves in `susp_skip`, and `fresh` what it leaves in `sua`.
  unfoldable pub cdrom_create : ℕ → Bytes → S → Created S
  unfolding rock_ridge_fields
  cdrom_create junk fresh dev = then_read (read dev 16 0 voldesc_size) null λ voldesc dev1.
      if is_iso9660 voldesc
      then (let fields : Fields = record {
        rr = false;
        susp_skip = junk;
        root_block = first_sector_be (rootdir_of voldesc);
        root_size = size_be (rootdir_of voldesc);
      } in
          then_read (read dev1 fields.root_block 0 dirent_size) null λ rootdir dev2.
            then_read (read dev2 fields.root_block (sua_pos rootdir) (sua_size rootdir))
              (rock_ridge_fields fields rootdir fresh) (rock_ridge_fields fields rootdir))
      else null dev1
