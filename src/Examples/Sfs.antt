-- ===== src/Examples/Sfs.antt =====
-- A volume of blocks of 64 bytes: block 1 is the root of the tree of extents, with one extent of two
-- blocks, from block 5 on; block 2 is the container of a directory with one object, `a`.
use ub2lb.Prelude.{
  ℕ, zero, suc, ◌≤◌, ◌≡◌, refl, arith, some, [], ◌∷◌, ◌++◌, Bytes, length, take, get_or,
}
use ub2lb.Support.{strcasecmp, tolower}
use ub2lb.Sfs.{
  Block, Sector, BNode, node, node_at, loaded, calcchecksum, checksum_loop, without_checksum,
  long_at, half_at, isleaf, nodecount, nodesize, key_of, next_of, blocks_of, get_bnode,
  copy_extents,
}
use ub2lb.Sfs.File.{Chain, data_at, copy_extents-Chain}
use ub2lb.Sfs.Tree.{Descent, get_bnode-Descent}
use ub2lb.Sfs.Directory.{
  object, sfs_findobject, search_containers, search_objects, sfs_nextobject, skip_strings,
  objectnode, matches, string_at,
}
use ub2lb.Sfs.Directory.Objects.{Item, Objects}
use ub2lb.Sfs.Directory.First.{Finds, Containers, sfs_findobject-first}

abbrev block : Bytes → Block
block bytes x = get_or bytes x 0

-- The header, one node of a leaf with nodes of 14 bytes: key 5, next 0, previous 0, two blocks.
abbrev tree : Block
tree = block (
    0 ∷ 0 ∷ 0 ∷ 0 ∷ 0 ∷ 0 ∷ 0 ∷ 0 ∷ 0 ∷ 0 ∷ 0 ∷ 1 ∷ 0 ∷ 1 ∷ 1 ∷ 14 ∷ 0 ∷ 0 ∷ 0 ∷ 5 ∷ 0 ∷ 0 ∷ 0 ∷ 0
    ∷ 0 ∷ 0 ∷ 0 ∷ 0 ∷ 0 ∷ 2 ∷ [])

-- `OBJC`, checksum, own block, parent, next, previous; the object, with node 9, and the names.
abbrev container : Block
container = block (
    b'O' ∷ b'B' ∷ b'J' ∷ b'C' ∷ 0 ∷ 0 ∷ 0 ∷ 0 ∷ 0 ∷ 0 ∷ 0 ∷ 2 ∷ 0 ∷ 0 ∷ 0 ∷ 0 ∷ 0 ∷ 0 ∷ 0 ∷ 0 ∷ 0
    ∷ 0 ∷ 0 ∷ 0 ∷ 0 ∷ 0 ∷ 0 ∷ 0 ∷ 0 ∷ 0 ∷ 0 ∷ 9 ∷ 0 ∷ 0 ∷ 0 ∷ 0 ∷ 0 ∷ 0 ∷ 0 ∷ 5 ∷ 0 ∷ 0 ∷ 0 ∷ 100
    ∷ 0 ∷ 0 ∷ 0 ∷ 0 ∷ 0 ∷ b'A' ∷ 0 ∷ 0 ∷ [])

-- The root object, whose first block is 2.
abbrev root : Block
root = block (0 ∷ 0 ∷ 0 ∷ 0 ∷ 0 ∷ 0 ∷ 0 ∷ 0 ∷ 0 ∷ 0 ∷ 0 ∷ 0 ∷ 0 ∷ 0 ∷ 0 ∷ 0 ∷ 0 ∷ 0 ∷ 0 ∷ 2 ∷ [])

abbrev disc : ℕ → Block
disc zero = block []
disc (suc zero) = tree
disc (suc (suc zero)) = container
disc (suc (suc (suc n))) = block (n ∷ [])

abbrev sector : Sector
sector n = some (disc n)

abbrev extent_node : BNode
extent_node = node_at (without_checksum tree) 0

descent : Descent sector 64 5 0 1 extent_node
unfolding calcchecksum checksum_loop without_checksum long_at half_at isleaf nodecount nodesize
    node_at key_of
descent =
    Descent.leaf {next = 1} {loaded = tree} {i = 0} refl (λ e. ground (arith, e)) refl
      (record { inside = omega arith; below = omega arith; above = λ j h k. absurd (omega arith) })

get_bnode-Descent_example : get_bnode sector 64 1 1 5 ≡ node extent_node
get_bnode-Descent_example = get_bnode-Descent sector 64 5 1 1 0 extent_node descent (omega arith)

abbrev file : Bytes
file = data_at sector disc 64 100 5 (blocks_of extent_node) ++ []

chain : Chain sector disc 64 100 (get_bnode sector 64 1 1) 5 1 file
unfolding next_of without_checksum long_at node_at nodesize blocks_of
chain =
    Chain.extent extent_node (λ e. ground (arith, e)) get_bnode-Descent_example (refl, (refl, tt))
      Chain.end

long_enough : 100 ≤ length file
unfolding blocks_of half_at node_at nodesize without_checksum
long_enough = omega arith

copy_extents-Chain_example :
    copy_extents sector
      (get_bnode sector 64 1 1)
      64
      100
      2
      5
      (record { buffer = block []; file = [] })
    ≡ loaded 100 (take 100 file)
copy_extents-Chain_example =
    copy_extents-Chain sector disc 64 100 (get_bnode sector 64 1 1) 2 1 5 file (block []) chain
      (omega arith) long_enough

abbrev item : Item
item = record { start = 24; bits = 0; name = b'A' ∷ []; comment = [] }

objects : Objects (without_checksum container) 64 24 (item ∷ [])
unfolding objectnode long_at without_checksum
objects =
    Objects.next_object item (λ e. ground (arith, e)) refl (refl, (λ e. ground (arith, e)), refl)
      refl (omega arith) (Objects.no_object refl)

containers : Containers sector 64 2 ((without_checksum container, item ∷ []) ∷ [])
unfolding calcchecksum checksum_loop without_checksum long_at
containers =
    Containers.more {raw = container} (λ e. ground (arith, e)) refl (λ e. ground (arith, e)) refl
      objects (omega arith) Containers.stop

sfs_findobject-first_example :
    Finds 64
      (b'a' ∷ [])
      0
      ((without_checksum container, item ∷ []) ∷ [])
      (sfs_findobject sector 64 2 (block []) root 0 (b'a' ∷ []) 0)
unfolding long_at
sfs_findobject-first_example =
    sfs_findobject-first 64 (b'a' ∷ []) 0 sector 2 0 (block []) root
      ((without_checksum container, item ∷ []) ∷ []) ((λ e. ground (arith, e)), tt) containers
      (omega arith)

sfs_findobject-a :
    sfs_findobject sector 64 2 (block []) root 0 (b'a' ∷ []) 0
    ≡ object (without_checksum container) 24
unfolding sfs_findobject search_containers search_objects sfs_nextobject objectnode matches
    string_at without_checksum long_at strcasecmp tolower calcchecksum checksum_loop skip_strings
sfs_findobject-a = refl
