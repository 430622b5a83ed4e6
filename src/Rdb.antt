-- ===== src/Rdb.antt =====
-- The partition table of an Amiga disc: src/rdb.c and src/rdb.h. A block is the list of its 128
-- big-endian 32-bit words, as the PowerPC reads them; a field of a structure is the word there.
pub mod Checksum
pub mod Scan
pub mod Table
use ub2lb.Prelude.{
  ℕ, zero, suc, ◌+◌, ◌-◌, ◌*◌, ◌/◌, ◌%◌, ◌^◌, Bool, true, false, ◌||◌, Option, none, some, List, [],
  ◌∷◌, ◌++◌, leb, ltb, ◌==◌, if◌then◌else◌, Bytes, get_or, take, drop, slice, length,
}
use ub2lb.Prelude.Int.{ℤ, pos, negsuc}
use ub2lb.Support.{word, strcasecmp}
use ub2lb.Support.Memory.{c_string}

abbrev pub Words : Type 0
Words = List ℕ

abbrev pub rdb_location_limit : ℕ
rdb_location_limit = 16

abbrev pub idname_rigiddisk : ℕ
idname_rigiddisk = 0x5244534b

abbrev pub idname_partition : ℕ
idname_partition = 0x50415254

-- `amiga_ID`, `amiga_SummedLongss` and `amiga_ChkSum` of `struct AmigaBlock`.
abbrev pub amiga_id : Words → ℕ
amiga_id block = get_or block 0 0

abbrev pub amiga_summed_longs : Words → ℕ
amiga_summed_longs block = get_or block 1 0

-- The loop of `checksum`: `none` where it reads behind the block.
unfoldable pub sum_words : ℕ → Words → ℕ → Option ℕ
sum_words zero block sum = some sum
sum_words (suc n) [] sum = none
sum_words (suc n) (w ∷ block) sum = sum_words n block (word (sum + w))

unfoldable pub checksum : Words → Option ℕ
checksum block =
    let longs = amiga_summed_longs block in sum_words (if ltb 512 longs then 512 else longs) block 0

-- `dev_desc->block_read(dev_desc->dev, block, 1, buffer)`; `none` is the result 0.
abbrev pub BlockRead : Type 0
BlockRead = ℕ → Option Words

-- What a search comes to. A search that reads behind a block, or runs out of fuel, has no result.
pub data Search : Type 0 where
  found : Words → Search
  absent : Search
  overrun : Search
  out_of_fuel : Search

-- The fields of `struct RigidDiskBlock` and `struct PartitionBlock`.
abbrev pub rdb_block_bytes : Words → ℕ
rdb_block_bytes rdb = get_or rdb 4 0

abbrev pub rdb_partition_list : Words → ℕ
rdb_partition_list rdb = get_or rdb 7 0

abbrev pub pb_next : Words → ℕ
pb_next p = get_or p 4 0

-- The four bytes of a word, the highest one first.
abbrev pub word_bytes : ℕ → Bytes
word_bytes w = w / 2 ^ 24 ∷ w / 2 ^ 16 % 256 ∷ w / 2 ^ 8 % 256 ∷ w % 256 ∷ []

abbrev pub bytes_of : Words → Bytes
bytes_of [] = []
bytes_of (w ∷ ws) = word_bytes w ++ bytes_of ws

-- A C string in 32 bytes; one that fills them goes on into the words behind, and ends at the block.
abbrev pub pb_drive_name : Words → Bytes
pb_drive_name p = c_string (bytes_of (drop 9 p))

-- The fields of `struct AmigaPartitionGeometry`, which lies over `pb_Environment`.
abbrev pub environment : ℕ → Words → ℕ
environment i p = get_or p (32 + i) 0

abbrev is_equal : ℤ → Bool
is_equal (pos n) = n == 0
is_equal (negsuc n) = false

-- What a block that has been read is to `get_rdb`: `some true` if it is returned.
unfoldable pub is_rdb : Words → Option Bool
is_rdb block =
    if amiga_id block == idname_rigiddisk
    then elim (checksum block) [ none ↦ none | some sum ↦ some (sum == 0) ]
    else some false

module _ (block_read : BlockRead) where
  -- The rounds `n` of the loop that are left, from block `i` on.
  unfoldable pub get_rdb_loop : ℕ → ℕ → Search
  get_rdb_loop zero i = absent
  get_rdb_loop (suc n) i = elim (block_read i) [
    | none ↦ get_rdb_loop n (i + 1)
    | some block ↦ elim (is_rdb block) [
      | none ↦ overrun
      | some ok ↦ elim ok [ true ↦ found block | false ↦ get_rdb_loop n (i + 1) ]
    ]
  ]

  unfoldable pub get_rdb : Search
  unfolding get_rdb_loop is_rdb
  get_rdb = get_rdb_loop rdb_location_limit 0

  -- The loop of `get_partition_info`, on fuel. At a bad checksum `continue` leaves `block` as it is.
  unfoldable pub partition_loop : ℕ → ℕ → ℕ → Search
  partition_loop zero block part = out_of_fuel
  partition_loop (suc fuel) block part = elim (block == 0xffff_ffff) [
    | true ↦ absent
    | false ↦ elim (block_read block) [
      | none ↦ absent
      | some p ↦ elim (amiga_id p == idname_partition) [
        | false ↦ absent
        | true ↦ elim (checksum p) [
          | none ↦ overrun
          | some zero ↦ elim part [
            | zero ↦ found p
            | suc part' ↦ partition_loop fuel (pb_next p) part'
          ]
          | some (suc _) ↦ partition_loop fuel block part
        ]
      ]
    ]
  ]

-- `disk_partition_t`
pub record Info : Type 0 where
  pub start : ℕ
  pub size : ℕ
  pub blksz : ℕ
  pub name : Bytes
  pub type_name : Bytes

-- The second half of `get_partition_info`, with the wrap-around of `uint32_t`.
unfoldable pub partition_info : Words → Words → Info
partition_info rdb p =
    let surfaces = environment 3 p in
    let block_per_track = environment 5 p in
    let low_cyl = environment 9 p in
    let high_cyl = environment 10 p in
    let disk_type = environment 16 p in
    record {
      start = word (low_cyl * block_per_track * surfaces);
      size =
          word
            ((word (high_cyl + 2 ^ 32 - low_cyl + 1)) * block_per_track * surfaces + 0xffff_ffff);
      blksz = rdb_block_bytes rdb;
      name = pb_drive_name p;
      type_name =
          disk_type / 2 ^ 24 % 256
          ∷ disk_type / 2 ^ 16 % 256
          ∷ disk_type / 2 ^ 8 % 256
          ∷ b'\\'
          ∷ (disk_type % 256 + b'0') % 256
          ∷ 0
          ∷ [];
    }

-- A filled row of the static `table`: `name` is `info->name + 1`.
pub record RdbPartition : Type 0 where
  pub name : Bytes
  pub partition : ℕ
  pub info : Info

-- A row of the table behind a search; no result where the search has none.
abbrev pub row : Words → ℕ → Search → Option (Option RdbPartition)
row rdb i (found p) =
    let info = partition_info rdb p in
    some (some (record { name = drop 1 info.name; partition = i; info = info }))
row rdb i absent = some none
row rdb i overrun = none
row rdb i out_of_fuel = none

abbrev pub Table : Type 0
Table = List (Option RdbPartition)

-- The first loop of `RdbPartitionTable_init`.
abbrev pub empty_table : ℕ → Table
empty_table zero = []
empty_table (suc n) = none ∷ empty_table n

abbrev put_row : Option (Option RdbPartition) → Option Table → Option Table
put_row none rest = none
put_row (some r) none = none
put_row (some r) (some rest) = some (r ∷ rest)

-- The second loop: a row stays NULL where there is no partition.
unfoldable pub fill : BlockRead → ℕ → Words → ℕ → ℕ → Option Table
fill block_read fuel rdb zero i = some []
fill block_read fuel rdb (suc n) i =
    put_row (row rdb i (partition_loop block_read fuel (rdb_partition_list rdb) i))
      (fill block_read fuel rdb n (i + 1))

abbrev init_from : BlockRead → ℕ → Search → Option Table
init_from block_read fuel (found rdb) = fill block_read fuel rdb rdb_location_limit 0
init_from block_read fuel absent = some (empty_table rdb_location_limit)
init_from block_read fuel overrun = none
init_from block_read fuel out_of_fuel = none

-- `dev` is what `get_dev` finds; each of the sixteen searches has `fuel` rounds.
unfoldable pub init : Option BlockRead → ℕ → Option Table
init none fuel = some (empty_table rdb_location_limit)
init (some block_read) fuel = init_from block_read fuel (get_rdb block_read)

-- `RdbPartitionTable_get`; the argument `disk` is not used, and `partition` is narrowed to a `uint8_t`.
unfoldable pub get : Table → ℕ → Option RdbPartition
get table argument =
    let partition = argument % 2 ^ 8 in
    if leb rdb_location_limit partition then none else get_or table partition none

-- `RdbPartitionTable_getbyname`: the search ends at the first row that is NULL.
unfoldable pub getbyname : Table → Bytes → Option RdbPartition
getbyname [] name = none
getbyname (none ∷ table) name = none
getbyname (some p ∷ table) name =
    if is_equal (strcasecmp name p.name) then some p else getbyname table name
