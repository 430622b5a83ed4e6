-- ===== src/Sfs.antt =====
-- The file system of src/sfs.c and src/sfs.h: checksums, directories, the tree of extents, and files. A block is a
-- function from offsets to bytes, big-endian; `sector` is `sfs_loadsector`, `none` where it fails. The
-- loops that follow block numbers are on fuel.
pub mod File
pub mod Tree
pub mod Directory
pub mod Create
use ub2lb.Prelude.{
  ℕ, zero, suc, ◌+◌, ◌-◌, ◌*◌, ◌/◌, ◌%◌, ◌^◌, Bool, true, false, not, ◌&&◌, ◌||◌, Option, none,
  some, List, [], ◌∷◌, ◌++◌, ltb, leb, ◌==◌, if◌then◌else◌, Bytes, length, take, drop,
}
use Prim.Native.Nat.{bit_and}
use ub2lb.Prelude.Int.{is_zero}
use ub2lb.Support.{word, strlen, strchr, strcasecmp}

abbrev pub Block : Type 0
Block = ℕ → ℕ

abbrev pub Sector : Type 0
Sector = ℕ → Option Block

unfoldable pub half_at : Block → ℕ → ℕ
half_at b i = b i * 2 ^ 8 + b (i + 1)

unfoldable pub long_at : Block → ℕ → ℕ
long_at b i = b i * 2 ^ 24 + b (i + 1) * 2 ^ 16 + b (i + 2) * 2 ^ 8 + b (i + 3)

abbrev pub soc_id : ℕ
soc_id = 0x4f424a43

abbrev pub otype_dir : ℕ
otype_dir = 128

-- The offset of the first object in `struct SfsObjectContainer`, and that of the name in
-- `struct SfsObject`.
abbrev pub first_object : ℕ
first_object = 24

abbrev pub name_offset : ℕ
name_offset = 25

-- `block->checksum = 0`
unfoldable pub without_checksum : Block → Block
without_checksum b x = if leb 4 x && ltb x 8 then 0 else b x

unfoldable pub checksum_loop : Block → ℕ → ℕ → ℕ → ℕ
unfolding long_at
checksum_loop b zero x checksum = checksum
checksum_loop b (suc n) x checksum = checksum_loop b n (x + 4) (word (checksum + long_at b x))

-- The block has `blocksize` bytes, a multiple of four.
unfoldable pub calcchecksum : Block → ℕ → ℕ
unfolding checksum_loop without_checksum
calcchecksum b blocksize = word (2 ^ 32 - checksum_loop (without_checksum b) (blocksize / 4) 0 1)

-- A node of the tree of extents, at `x` in its block.
pub record BNode : Type 0 where
  pub block : Block
  pub x : ℕ

unfoldable pub key_of : BNode → ℕ
unfolding long_at
key_of node = long_at node.block node.x

unfoldable pub data_of : BNode → ℕ
unfolding long_at
data_of node = long_at node.block (node.x + 4)

-- `next` and `blocks` of `struct SfsExtentBNode`
unfoldable pub next_of : BNode → ℕ
unfolding long_at
next_of node = long_at node.block (node.x + 4)

unfoldable pub blocks_of : BNode → ℕ
unfolding half_at
blocks_of node = half_at node.block (node.x + 12)

unfoldable pub nodecount : Block → ℕ
unfolding half_at
nodecount b = half_at b 12

unfoldable pub isleaf : Block → Bool
isleaf b = not (b 14 == 0)

unfoldable pub nodesize : Block → ℕ
nodesize b = b 15

unfoldable pub node_at : Block → ℕ → BNode
unfolding nodesize
node_at b i = record { block = b; x = 16 + i * nodesize b }

-- What `get_bnode` does: it returns a node or NULL, reads in front of the nodes, or goes on forever.
pub data Lookup : Type 0 where
  node : BNode → Lookup
  null : Lookup
  wild : Lookup
  out_of_fuel : Lookup

-- The loop over the nodes, from number `i - 1` down.
unfoldable pub scan : Block → ℕ → ℕ → Option BNode
unfolding node_at key_of
scan b key zero = none
scan b key (suc i) = if leb (key_of (node_at b i)) key then some (node_at b i) else scan b key i

abbrev pub node_or_null : Option BNode → Lookup
node_or_null none = null
node_or_null (some n) = node n

unfoldable pub get_bnode_loop : Sector → ℕ → ℕ → ℕ → ℕ → Option BNode → Lookup
unfolding calcchecksum scan nodecount isleaf data_of without_checksum
get_bnode_loop sector blocksize zero key next bnode = out_of_fuel
get_bnode_loop sector blocksize (suc fuel) key next bnode = elim (sector next) [
  | none ↦ node_or_null bnode
  | some loaded ↦
      let b = without_checksum loaded in
      if calcchecksum loaded blocksize == 0 then null else elim (scan b key (nodecount b)) [
        | none ↦ wild
        | some n ↦
            let rest = get_bnode_loop sector blocksize fuel key (data_of n) (some n) in
            if isleaf b then node n else rest
      ]
]

unfoldable pub get_bnode : Sector → ℕ → ℕ → ℕ → ℕ → Lookup
unfolding get_bnode_loop
get_bnode sector blocksize extentbnoderoot fuel key =
    get_bnode_loop sector blocksize fuel key extentbnoderoot none

-- What `sfs_loadfile` does: it returns a count with the file buffer, uses NULL or a wild node, or goes
-- on forever.
pub data Load : Type 0 where
  loaded : ℕ → Bytes → Load
  crashed : Load
  endless : Load

-- The first `n` bytes of a block.
abbrev pub bytes_from : Block → ℕ → ℕ → Bytes
bytes_from b x zero = []
bytes_from b x (suc n) = b x ∷ bytes_from b (x + 1) n

-- The variables of `sfs_loadfile`. `readed` is the length of `file`, the bytes copied so far.
pub record Copying : Type 0 where
  pub buffer : Block
  pub file : Bytes

-- `size - readed >= blocksize ? blocksize : size - readed`
unfoldable pub to_copy : ℕ → ℕ → ℕ → ℕ
to_copy blocksize size readed = if leb blocksize (size - readed) then blocksize else size - readed

-- A read that fails leaves the buffer.
abbrev pub block_or : Block → Option Block → Block
block_or old none = old
block_or old (some b) = b

-- The loop over the blocks of an extent; `next + i` is a `uint32_t`.
unfoldable pub copy_blocks : Sector → ℕ → ℕ → ℕ → ℕ → Copying → Copying
unfolding to_copy
copy_blocks sector blocksize size zero block c = c
copy_blocks sector blocksize size (suc n) block c =
    let buffer = block_or c.buffer (sector block) in
    copy_blocks sector blocksize size n (word (block + 1)) (record {
      buffer = buffer;
      file = c.file ++ bytes_from buffer 0 (to_copy blocksize size (length c.file));
    })

-- The loop over the extents; `find_node` is `get_bnode`.
unfoldable pub copy_extents : Sector → (ℕ → Lookup) → ℕ → ℕ → ℕ → ℕ → Copying → Load
unfolding copy_blocks blocks_of next_of
copy_extents sector find_node blocksize size zero next c = endless
copy_extents sector find_node blocksize size (suc fuel) next c =
    let finished = next == 0 || leb size (length c.file) in
    if finished then loaded (length c.file) c.file else elim (find_node next) [
      | node n ↦
          copy_extents sector find_node blocksize size fuel (next_of n)
            (copy_blocks sector blocksize size (blocks_of n) next c)
      | null ↦ crashed
      | wild ↦ crashed
      | out_of_fuel ↦ endless
    ]
