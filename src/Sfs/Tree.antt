-- ===== src/Sfs/Tree.antt =====
-- The descent of `get_bnode` in the tree of extents.
use ub2lb.Prelude.{
  ℕ, zero, suc, ◌≤◌, ◌<◌, ◌≡◌, ◌≢◌, refl, ap, Bool-cases, inl, inr, true, false, Option, none, some,
  leb, ◌==◌, arith,
}
use ub2lb.Sfs.{
  Block, Sector, BNode, node, node_at, key_of, data_of, nodecount, isleaf, scan, calcchecksum,
  without_checksum, get_bnode_loop, get_bnode,
}

-- Node `i` is the last one of the block whose key is not above `key`.
pub record Picks (b : Block) (key i : ℕ) : Type 0 where
  pub inside : i < nodecount b
  pub below : key_of (node_at b i) ≤ key
  pub above : (j : ℕ) → i < j → j < nodecount b → key < key_of (node_at b j)

scan-some :
    (b : Block) (key i n : ℕ)
    → i < n
    → key_of (node_at b i) ≤ key
    → ((j : ℕ) → i < j → j < n → key < key_of (node_at b j))
    → scan b key n ≡ some (node_at b i)
unfolding scan
scan-some b key i zero h le above = absurd (omega arith)
scan-some b key i (suc n) h le above = elim (Bool-cases (leb (key_of (node_at b n)) key)) [
  | inl t ↦
      let same : n ≡ i = ground (arith, above n) in rw (t, scan) (ap (λ k. some (node_at b k)) same)
  | inr f ↦
      let less : i < n = elim (Bool-cases (i == n)) [
        | inl e ↦
            let same : i ≡ n = ground arith in ground (arith, ap (λ k. key_of (node_at b k)) same)
        | inr e ↦ ground arith
      ] in
      rw (f, scan) (scan-some b key i n less le (λ j p q. above j p (omega arith)))
]

module _ (sector : Sector) (blocksize key : ℕ) where
  -- The way from block `next` down to a node of a leaf, through `depth` inner blocks.
  pub data Descent : ℕ → ℕ → BNode → Type 0 where
    leaf :
        {next : ℕ} {loaded : Block} {i : ℕ}
        → sector next ≡ some loaded
        → calcchecksum loaded blocksize ≢ 0
        → isleaf (without_checksum loaded) ≡ true
        → Picks (without_checksum loaded) key i
        → Descent 0 next (node_at (without_checksum loaded) i)
    inner :
        {depth next : ℕ} {loaded : Block} {i : ℕ} {found : BNode}
        → sector next ≡ some loaded
        → calcchecksum loaded blocksize ≢ 0
        → isleaf (without_checksum loaded) ≡ false
        → Picks (without_checksum loaded) key i
        → Descent depth (data_of (node_at (without_checksum loaded) i)) found
        → Descent (suc depth) next found

  not_zero : (n : ℕ) → n ≢ 0 → (n == 0) ≡ false
  not_zero n h = ground arith

  get_bnode_loop-Descent :
      (fuel depth next : ℕ) (found : BNode) (bnode : Option BNode)
      → Descent depth next found
      → depth < fuel
      → get_bnode_loop sector blocksize fuel key next bnode ≡ node found
  unfolding get_bnode_loop
  get_bnode_loop-Descent zero depth next found bnode d h = absurd (omega arith)
  get_bnode_loop-Descent (suc fuel) _ _ _ bnode (leaf {next} {loaded} {i} r c l p) h =
      let b = without_checksum loaded in
      rw
        (
          r,
          not_zero (calcchecksum loaded blocksize) c,
          scan-some b key i (nodecount b) p.inside p.below p.above,
          l,
          get_bnode_loop,
        )
        refl
  get_bnode_loop-Descent (suc fuel) _ _ _ bnode
        (inner {depth} {next} {loaded} {i} {found} r c l p d) h =
      let b = without_checksum loaded in
      rw
        (
          r,
          not_zero (calcchecksum loaded blocksize) c,
          scan-some b key i (nodecount b) p.inside p.below p.above,
          l,
          get_bnode_loop,
        )
        (get_bnode_loop-Descent fuel depth (data_of (node_at b i)) found (some (node_at b i)) d
          (omega arith))

  -- If from the root down each block can be read, passes its checksum test and has a node with a key
  -- that is not above the one wanted, `get_bnode` ends and returns the node that is reached by the
  -- last such node of each block. As many rounds as the tree has levels are enough.
  pub get_bnode-Descent :
      (root fuel depth : ℕ) (found : BNode)
      → Descent depth root found
      → depth < fuel
      → get_bnode sector blocksize root fuel key ≡ node found
  unfolding get_bnode
  get_bnode-Descent root fuel depth found d h =
      get_bnode_loop-Descent fuel depth root found none d h
