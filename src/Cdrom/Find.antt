-- ===== src/Cdrom/Find.antt =====
-- `fs_cdrom_find_file` and `fs_cdrom_load_file` of src/cdrom.c.
pub mod Named
pub mod Served
pub mod Path
use Prim.Native.Nat.{bit_and}
use ub2lb.Prelude.{
  ℕ, zero, suc, ◌+◌, ◌-◌, ◌*◌, ◌/◌, ◌%◌, ◌^◌, Bool, true, false, not, ◌&&◌, ◌||◌, Option, none,
  some, List, [], ◌∷◌, ◌++◌, Bytes, ltb, leb, ◌==◌, if◌then◌else◌, get_or, length, take, drop,
}
use ub2lb.Prelude.Int.{ℤ, pos, negsuc, is_zero}
use ub2lb.Support.{word, strcasecmp}
use ub2lb.Support.Memory.{c_string}
use ub2lb.Cdrom.Susp.{
  Reader, be32, Search, found, missing, overrun, unfinished, get_entry, then_read,
}

-- `struct iso9660_dir`, from its 33 bytes.
abbrev pub dirent_size : ℕ
dirent_size = 33

abbrev pub len_of : Bytes → ℕ
len_of dirent = get_or dirent 0 0

abbrev pub first_sector_be : Bytes → ℕ
first_sector_be dirent = be32 dirent 6

abbrev pub size_be : Bytes → ℕ
size_be dirent = be32 dirent 14

abbrev pub flags_of : Bytes → ℕ
flags_of dirent = get_or dirent 25 0

abbrev pub namelen : Bytes → ℕ
namelen dirent = get_or dirent 32 0

-- The elements of a path; `element` is what has been read of one. A slash at the end splits nothing.
unfoldable pub split : Bytes → Bytes → List Bytes
split element [] = element ∷ []
split element (c ∷ []) = (element ++ c ∷ []) ∷ []
split element (c ∷ d ∷ rest) =
    let here = split [] (d ∷ rest) in
    let further = split (element ++ c ∷ []) (d ∷ rest) in
    if c == b'/' then element ∷ here else further

abbrev pub skip_slash : Bytes → Bytes
skip_slash [] = []
skip_slash (c ∷ rest) = if c == b'/' then rest else c ∷ rest

-- `int` comparison of two words.
abbrev pub signed_lt : ℕ → ℕ → Bool
signed_lt a b = ltb ((a + 2 ^ 31) % 2 ^ 32) ((b + 2 ^ 31) % 2 ^ 32)

-- The last `;` behind the first byte ends the name. The search starts at `i`.
unfoldable pub last_semicolon : Bytes → ℕ → Option ℕ
last_semicolon name zero = none
last_semicolon name (suc i) =
    let further = last_semicolon name i in
    if get_or name (suc i) 0 == b';' then some (suc i) else further

unfoldable pub strip_version : Bytes → Bytes
unfolding last_semicolon
strip_version name = elim (last_semicolon name (length name - 1)) [
  | none ↦ name
  | some i ↦ take i name
]

-- The name that the directory record has.
unfoldable pub plain_name : Bytes → Bytes
unfolding strip_version
plain_name name =
    let stripped = strip_version name in
    if length name == 1 && get_or stripped 0 0 == 0
    then b'.' ∷ []
    else if length name == 1 && get_or stripped 0 0 == 1
    then b'.' ∷ b'.' ∷ []
    else c_string stripped

-- `type` and the test of it.
abbrev pub is_wanted : Bool → Bytes → Bool
is_wanted last dirent =
    let directory = bit_and (flags_of dirent) 3 == 2 in if last then not directory else directory

-- What a Rock Ridge entry says of the name: nothing, a name, more bytes than it has, or a name for which `malloc` fails.
pub data RockRidge : Type 0 where
  unnamed : RockRidge
  named : Bytes → RockRidge
  short no_memory : RockRidge

-- The state of `fs_cdrom_find_file` behind a level: the `found` flag with `block`, `size` and `offset`.
pub record Place : Type 0 where
  pub hit : Bool
  pub block : ℕ
  pub size : ℕ
  pub offset : ℕ

-- The next level, at its start.
abbrev pub place_of : Bytes → Place
place_of dirent = record {
  hit = true;
  block = first_sector_be dirent;
  size = size_be dirent;
  offset = 0;
}

-- How the loop over a directory ends; `lost` is the result 0.
pub data Level {ℓ} (S : Type ℓ) : Type ℓ where
  reached : Place → S → Level S
  lost : S → Level S
  broken : Level S
  endless : Level S

-- The system use area of the record at `offset`, behind its name.
abbrev pub sua_of : Bytes → ℕ
sua_of dirent = dirent_size + namelen dirent + 1 - namelen dirent % 2

abbrev pub sua_at : ℕ → ℕ → Bytes → ℕ
sua_at susp_skip offset dirent = word (sua_of dirent + offset + susp_skip)

abbrev pub sua_length : Bytes → ℕ
sua_length dirent = word (len_of dirent + 2 ^ 32 - sua_of dirent)

-- The names that a record can get: one, the result 0, or an undefined one.
pub data Name {ℓ} (S : Type ℓ) : Type ℓ where
  name_is : Bytes → S → Name S
  no_name : S → Name S
  bad_name : Name S
  late_name : Name S

-- A `uint32_t` that is returned as an `int`.
abbrev pub as_int : ℕ → ℤ
as_int n = if ltb n (2 ^ 31) then pos n else negsuc (2 ^ 32 - 1 - n)

-- What `fs_cdrom_load_file` returns, and the buffer where it was written as a whole.
pub data Loaded {ℓ} (S : Type ℓ) : Type ℓ where
  returns : ℤ → Option Bytes → S → Loaded S
  overflow : Loaded S
  never : Loaded S

module _ {S : Type 0} (read : Reader S) (malloc : ℕ → Bool) where
  -- `entry` is what `get_entry` returns, with its four bytes of head.
  unfoldable pub rock_ridge : Bytes → RockRidge
  rock_ridge entry =
      if leb (length entry) 4
      then short
      else if not (bit_and (get_or entry 4 0) 2 == 0)
      then named (b'.' ∷ [])
      else if not (bit_and (get_or entry 4 0) 4 == 0)
      then named (b'.' ∷ b'.' ∷ [])
      else if leb (length entry) 5
      then unnamed
      else if malloc (length entry - 4)
      then named (c_string (drop 5 entry))
      else no_memory

  -- The name behind the record at `offset`.
  unfoldable pub read_name : S → ℕ → ℕ → Bytes → Name S
  unfolding plain_name
  read_name dev block offset dirent =
      then_read (read dev block (word (offset + dirent_size)) (namelen dirent)) no_name
        (λ bytes dev'. name_is (plain_name bytes) dev')

  -- `rr` and `susp_skip` are those of the device.
  unfoldable pub name_of : Bool → ℕ → ℕ → S → ℕ → ℕ → Bytes → Name S
  unfolding rock_ridge read_name
  name_of rr susp_skip fuel dev block offset dirent = elim rr [
    | false ↦ read_name dev block offset dirent
    | true ↦
        elim (get_entry read malloc fuel dev block (sua_at susp_skip offset dirent)
          (sua_length dirent) b'N' b'M') [
            | missing dev' ↦ read_name dev' block offset dirent
            | overrun ↦ bad_name
            | unfinished ↦ late_name
            | found entry dev' ↦ elim (rock_ridge entry) [
              | unnamed ↦ read_name dev' block offset dirent
              | named name ↦ name_is name dev'
              | short ↦ bad_name
              | no_memory ↦ no_name dev'
            ]
          ]
  ]

  -- `while (!found && offset < size)`, on fuel.
  unfoldable pub find_entry : Bool → ℕ → ℕ → Bytes → Bool → S → ℕ → ℕ → ℕ → Level S
  unfolding name_of
  find_entry rr susp_skip zero element last dev block size offset = endless
  find_entry rr susp_skip (suc fuel) element last dev block size offset =
      elim (signed_lt offset size) [
        | false ↦ reached (record { hit = false; block = block; size = size; offset = offset }) dev
        | true ↦ then_read (read dev block offset dirent_size) lost λ dirent dev'.
            elim (len_of dirent == 0) [
              | true ↦
                  find_entry rr susp_skip fuel element last dev' block size
                    (word ((offset / 2048 + 1) * 2048))
              | false ↦ elim (name_of rr susp_skip fuel dev' block offset dirent) [
                | no_name dev'' ↦ lost dev''
                | bad_name ↦ broken
                | late_name ↦ endless
                | name_is name dev'' ↦
                    elim (is_zero (strcasecmp element name) && is_wanted last dirent) [
                      | true ↦ reached (place_of dirent) dev''
                      | false ↦
                          find_entry rr susp_skip fuel element last dev'' block size
                            (word (offset + len_of dirent))
                    ]
              ]
            ]
      ]

  -- The loop over the elements. The next level is searched even where one was not found.
  unfoldable pub find_path : Bool → ℕ → ℕ → List Bytes → S → Place → Level S
  unfolding find_entry
  find_path rr susp_skip fuel [] dev p = reached p dev
  find_path rr susp_skip fuel (element ∷ rest) dev p =
      elim (find_entry rr susp_skip fuel element (length rest == 0) dev p.block p.size p.offset) [
        | reached p' dev' ↦ find_path rr susp_skip fuel rest dev' p'
        | lost dev' ↦ lost dev'
        | broken ↦ broken
        | endless ↦ endless
      ]

  -- `elements` has room for nine.
  unfoldable pub fs_cdrom_find_file : Bool → ℕ → ℕ → Bytes → S → ℕ → ℕ → Level S
  unfolding find_path split
  fs_cdrom_find_file rr susp_skip fuel filename dev root_block root_size =
      let elements = split [] (skip_slash filename) in
      if ltb 9 (length elements)
      then broken
      else find_path rr susp_skip fuel elements dev
          (record { hit = false; block = root_block; size = root_size; offset = 0 })

  -- `fs_cdrom_load_file`: a file of no bytes is not read.
  unfoldable pub fs_cdrom_load_file : Bool → ℕ → ℕ → Bytes → S → ℕ → ℕ → Loaded S
  unfolding fs_cdrom_find_file
  fs_cdrom_load_file rr susp_skip fuel filename dev root_block root_size =
      elim (fs_cdrom_find_file rr susp_skip fuel filename dev root_block root_size) [
        | lost dev' ↦ returns (pos 0) none dev'
        | broken ↦ overflow
        | endless ↦ never
        | reached p dev' ↦
            if p.hit && not (p.size == 0)
            then then_read (read dev' p.block 0 p.size) (returns (as_int p.size) none)
                (λ bytes dev''. returns (as_int p.size) (some bytes) dev'')
            else returns (pos 0) none dev'
      ]
