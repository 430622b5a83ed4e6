-- ===== src/Sfs/Directory.antt =====
-- `sfs_nextobject`, `sfs_findobject`, `sfs_find` and `sfs_loadfile` of src/sfs.c. An object is known by its block and its
-- offset in it.
pub mod First
pub mod Objects
use Prim.Native.Nat.{bit_and}
use ub2lb.Prelude.{
  ℕ, zero, suc, ◌+◌, ◌-◌, ◌%◌, Bool, true, false, not, ◌&&◌, ◌||◌, Option, none, some, [], ◌∷◌, ltb,
  ◌==◌, if◌then◌else◌, Bytes, take, drop,
}
use ub2lb.Prelude.Int.{is_zero}
use ub2lb.Support.{strlen, strchr, strcasecmp}
use ub2lb.Sfs.{
  Block, Sector, block_or, long_at, soc_id, otype_dir, first_object, name_offset, without_checksum,
  calcchecksum, Lookup, Load, loaded, endless, Copying, copy_extents, get_bnode,
}

-- The string at `x`; no string in a block is longer than the block.
unfoldable pub string_at : Block → ℕ → ℕ → Bytes
string_at b zero x = []
string_at b (suc fuel) x =
    let rest = string_at b fuel (x + 1) in if b x == 0 then [] else b x ∷ rest

-- `p` behind `i` more NUL bytes; `none` where it leaves the block.
unfoldable pub skip_strings : Block → ℕ → ℕ → ℕ → Option ℕ
skip_strings b fuel zero p = some p
skip_strings b zero (suc i) p = none
skip_strings b (suc fuel) (suc i) p =
    let ended = skip_strings b fuel i (p + 1) in
    let inside = skip_strings b fuel (suc i) (p + 1) in if b p == 0 then ended else inside

-- Objects start at even offsets from one another.
unfoldable pub sfs_nextobject : Block → ℕ → ℕ → Option ℕ
unfolding skip_strings
sfs_nextobject b blocksize x = elim (skip_strings b blocksize 2 (x + name_offset)) [
  | none ↦ none
  | some p ↦ if (p - x) % 2 == 1 then some (p + 1) else some p
]

unfoldable pub objectnode : Block → ℕ → ℕ
unfolding long_at
objectnode b x = long_at b (x + 4)

-- `strcasecmp((char *) o->name, dirname) == 0 && (!type || o->bits & type)`
unfoldable pub matches : ℕ → Bytes → ℕ → Block → ℕ → Bool
unfolding string_at
matches blocksize dirname kind b x =
    is_zero (strcasecmp (string_at b blocksize (x + name_offset)) dirname)
    && (kind == 0 || not (bit_and (b (x + 24)) kind == 0))

pub data Search : Type 0 where
  object : Block → ℕ → Search
  missing : Search
  -- The source reads behind the block, or follows the block numbers forever.
  lost : Search

-- The loop over the objects of a container; `after` is what follows it.
unfoldable pub search_objects : ℕ → Bytes → ℕ → Block → ℕ → ℕ → Search → Search
unfolding sfs_nextobject objectnode matches
search_objects blocksize dirname kind b zero x after = lost
search_objects blocksize dirname kind b (suc fuel) x after =
    if not (ltb 0 (objectnode b x))
    then after
    else if matches blocksize dirname kind b x
    then object b x
    else elim (sfs_nextobject b blocksize x) [
      | none ↦ lost
      | some y ↦ search_objects blocksize dirname kind b fuel y after
    ]

-- The loop over the containers of a directory, from block `next`.
unfoldable pub search_containers : Sector → ℕ → Bytes → ℕ → ℕ → Block → ℕ → Search
unfolding search_objects calcchecksum without_checksum long_at
search_containers sector blocksize dirname kind zero buffer next = lost
search_containers sector blocksize dirname kind (suc fuel) buffer next =
    let raw = block_or buffer (sector next) in
    let b = without_checksum raw in
    let rest = search_containers sector blocksize dirname kind fuel b (long_at b 16) in
    if next == 0
    then missing
    else if calcchecksum raw blocksize == 0
    then missing
    else if not (long_at b 0 == soc_id)
    then missing
    else search_objects blocksize dirname kind b blocksize first_object rest

-- `fresh` is what `malloc` leaves in the buffer; the directory is an object.
unfoldable pub sfs_findobject : Sector → ℕ → ℕ → Block → Block → ℕ → Bytes → ℕ → Search
unfolding search_containers long_at
sfs_findobject sector blocksize fuel fresh dir x dirname kind =
    search_containers sector blocksize dirname kind fuel fresh (long_at dir (x + 16))

-- The loop of `sfs_find` over the directories of a path: `strlen(filename) - strlen(p)` is the index of
-- the slash.
unfoldable pub walk : Sector → ℕ → ℕ → Block → ℕ → Search → Bytes → Search
unfolding sfs_findobject
walk sector blocksize fuel fresh zero at filename = lost
walk sector blocksize fuel fresh (suc rounds) missing filename = missing
walk sector blocksize fuel fresh (suc rounds) lost filename = lost
walk sector blocksize fuel fresh (suc rounds) (object b x) filename = elim (strchr filename b'/') [
  | none ↦ sfs_findobject sector blocksize fuel fresh b x filename 0
  | some i ↦
      let directory = take i filename in
      walk sector blocksize fuel fresh rounds
        (sfs_findobject sector blocksize fuel fresh b x directory otype_dir)
        (drop (strlen directory + 1) filename)
]

abbrev pub without_slash : Bytes → Bytes
without_slash [] = []
without_slash (c ∷ s) = if c == b'/' then s else c ∷ s

-- Each round takes a byte of the path at least.
unfoldable pub sfs_find : Sector → ℕ → ℕ → Block → Search → Bytes → Search
unfolding walk
sfs_find sector blocksize fuel fresh root filename =
    walk sector blocksize fuel fresh (strlen filename + 1) root (without_slash filename)

-- `none` for the return of -1.
unfoldable pub sfs_loadfile : Sector → ℕ → ℕ → ℕ → Block → Search → Bytes → Option Load
unfolding sfs_find get_bnode copy_extents long_at
sfs_loadfile sector blocksize extentbnoderoot fuel fresh root filename =
    elim (sfs_find sector blocksize fuel fresh root filename) [
      | missing ↦ none
      | lost ↦ some endless
      | object b x ↦ some (
          copy_extents sector (get_bnode sector blocksize extentbnoderoot fuel) blocksize
            (long_at b (x + 16)) fuel (long_at b (x + 12)) (record { buffer = fresh; file = [] }))
    ]
