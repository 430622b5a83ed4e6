-- ===== src/Sfs/File.antt =====
-- The bytes of a file, as `sfs_loadfile` copies them.
use ub2lb.Prelude.{
  ℕ, zero, suc, ◌+◌, ◌-◌, ◌≤◌, ◌<◌, ◌≡◌, ◌≢◌, ◌∙◌, sym, refl, ap, Bool-cases, inl, inr, true, false,
  ◌||◌, some, [], ◌∷◌, ◌++◌, append-nil, append_assoc, leb, ◌==◌, if◌then◌else◌, Bytes, length,
  take, arith, length-append, length-take,
}
use ub2lb.Support.{word}
use ub2lb.Sfs.{
  Block, Sector, BNode, Lookup, node, loaded, bytes_from, Copying, to_copy, copy_blocks,
  copy_extents, next_of, blocks_of,
}

length-bytes_from : (b : Block) (x n : ℕ) → length (bytes_from b x n) ≡ n
length-bytes_from b x zero = refl
length-bytes_from b x (suc n) = omega (arith, length-bytes_from b (x + 1) n)

zero-minus : (n : ℕ) → 0 - n ≡ 0
zero-minus n = omega arith

minus-zero : (n : ℕ) → n - 0 ≡ n
minus-zero n = omega arith

minus-suc : (m n : ℕ) → suc m - suc n ≡ m - n
minus-suc m n = omega arith

take-bytes_from :
    (b : Block) (n m x : ℕ) → take n (bytes_from b x m) ≡ bytes_from b x (if leb m n then m else n)
take-bytes_from b zero zero x = refl
take-bytes_from b zero (suc m) x = let g : leb (suc m) 0 ≡ false = ground arith in rw g refl
take-bytes_from b (suc n) zero x = let g : leb 0 (suc n) ≡ true = ground arith in rw g refl
take-bytes_from b (suc n) (suc m) x =
    ap (λ r. b x ∷ r) (take-bytes_from b n m (x + 1)) ∙ elim (Bool-cases (leb m n)) [
      | inl h ↦ let g : leb (suc m) (suc n) ≡ true = ground arith in rw (h, g) refl
      | inr h ↦ let g : leb (suc m) (suc n) ≡ false = ground arith in rw (h, g) refl
    ]

take-nil : (n : ℕ) → take {A = ℕ} n [] ≡ []
take-nil zero = refl
take-nil (suc n) = refl

take-append : (n : ℕ) (xs ys : Bytes) → take n (xs ++ ys) ≡ take n xs ++ take (n - length xs) ys
take-append zero xs ys = rw (zero-minus (length xs)) refl
take-append (suc n) [] ys = rw (minus-zero (suc n)) refl
take-append (suc n) (x ∷ xs) ys =
    ap (λ r. x ∷ r) (take-append n xs ys) ∙ rw (minus-suc n (length xs)) refl

module _ (sector : Sector) (disc : ℕ → Block) (blocksize size : ℕ) where
  -- The bytes of `n` blocks from number `k` on.
  abbrev pub data_at : ℕ → ℕ → Bytes
  data_at k zero = []
  data_at k (suc n) = bytes_from (disc k) 0 blocksize ++ data_at (word (k + 1)) n

  -- These blocks can be read.
  abbrev pub Readable : ℕ → ℕ → Type 0
  Readable k zero = Unit
  Readable k (suc n) = (sector k ≡ some (disc k)) × Readable (word (k + 1)) n

  -- With a prefix of the file in the buffer, the blocks that follow make a longer prefix.
  copy_blocks-file :
      (n k : ℕ) (c : Copying) (before : Bytes)
      → Readable k n
      → c.file ≡ take size before
      → (copy_blocks sector blocksize size n k c).file ≡ take size (before ++ data_at k n)
  unfolding copy_blocks to_copy
  copy_blocks-file zero k c before reads e = rw (append-nil before) e
  copy_blocks-file (suc n) k c before reads e =
      let bytes = bytes_from (disc k) 0 blocksize in
      let left : size - length c.file ≡ size - length before =
        omega (arith, ap length e, length-take size before) in
      let copied : c.file ++ bytes_from (disc k) 0 (to_copy blocksize size (length c.file))
          ≡ take size (before ++ bytes) =
        rw (left, to_copy)
          (sym (ap (λ r. c.file ++ r) (take-bytes_from (disc k) (size - length before) blocksize 0))
            ∙ ap (λ r. r ++ take (size - length before) bytes) e
            ∙ sym (take-append size before bytes)) in
      rw (reads.0, copy_blocks)
        (copy_blocks-file n (word (k + 1))
          (record {
            buffer = disc k;
            file = c.file ++ bytes_from (disc k) 0 (to_copy blocksize size (length c.file));
          })
          (before ++ bytes) (reads.1) copied)
      ∙ ap (take size) (append_assoc before bytes (data_at (word (k + 1)) n))

  -- The chain of extents from key `next` on, as `get_bnode` finds them, with the file's bytes.
  pub data Chain (find_node : ℕ → Lookup) : ℕ → ℕ → Bytes → Type 0 where
    end : Chain find_node 0 0 []
    extent :
        {next count : ℕ} {rest : Bytes} (n : BNode)
        → next ≢ 0
        → find_node next ≡ node n
        → Readable next (blocks_of n)
        → Chain find_node (next_of n) count rest
        → Chain find_node next (suc count) (data_at next (blocks_of n) ++ rest)

  -- Behind the size nothing is taken.
  take_more :
      (before rest : Bytes) → size ≤ length before → take size (before ++ rest) ≡ take size before
  take_more before rest h =
      let none_left : size - length before ≡ 0 = omega arith in
      take-append size before rest ∙ rw none_left (append-nil (take size before))

  loaded-file :
      (before rest : Bytes) (c : Copying)
      → c.file ≡ take size before
      → size ≤ length before
      → loaded (length c.file) c.file ≡ loaded size (take size (before ++ rest))
  loaded-file before rest c e h =
      let n : length c.file ≡ size = omega (arith, ap length e, length-take size before) in
      rw n (ap (loaded size) (e ∙ sym (take_more before rest h)))

  module _ (find_node : ℕ → Lookup) where
    copy_extents-step :
        (fuel next : ℕ) (n : BNode) (c : Copying)
        → next ≢ 0
        → leb size (length c.file) ≡ false
        → find_node next ≡ node n
        → copy_extents sector find_node blocksize size (suc fuel) next c
          ≡ copy_extents sector find_node blocksize size fuel
              (next_of n)
              (copy_blocks sector blocksize size (blocks_of n) next c)
    unfolding copy_extents
    copy_extents-step fuel next n c h g e =
        let nz : (next == 0) ≡ false = ground arith in rw (nz, g, e, copy_extents) refl

    copy_extents-stop :
        (fuel next : ℕ) (c : Copying)
        → ((next == 0) || leb size (length c.file)) ≡ true
        → copy_extents sector find_node blocksize size (suc fuel) next c
          ≡ loaded (length c.file) c.file
    unfolding copy_extents
    copy_extents-stop fuel next c h = rw (h, copy_extents) refl

    copy_extents-file :
        (fuel count next : ℕ) (rest before : Bytes) (c : Copying)
        → Chain find_node next count rest
        → count < fuel
        → c.file ≡ take size before
        → size ≤ length (before ++ rest)
        → copy_extents sector find_node blocksize size fuel next c
          ≡ loaded size (take size (before ++ rest))
    copy_extents-file zero count next rest before c ch h e s = absurd (omega arith)
    copy_extents-file (suc fuel) zero zero [] before c end h e s =
        copy_extents-stop fuel 0 c refl
        ∙ loaded-file before [] c e (omega (arith, length-append before []))
    copy_extents-file (suc fuel) _ _ _ before c
          (extent {next} {count = k} {rest} n nz found reads ch) h e s =
        elim (Bool-cases (leb size (length c.file))) [
          | inl g ↦
              copy_extents-stop fuel next c (ground arith)
              ∙ loaded-file before (data_at next (blocks_of n) ++ rest) c e
                  (ground (arith, ap length e, length-take size before))
          | inr g ↦
              let bytes = data_at next (blocks_of n) in
              copy_extents-step fuel next n c nz g found
              ∙ copy_extents-file fuel k (next_of n) rest (before ++ bytes)
                  (copy_blocks sector blocksize size (blocks_of n) next c) ch (omega arith)
                  (copy_blocks-file (blocks_of n) next c before reads e)
                  (omega (arith, s, ap length (append_assoc before bytes rest)))
              ∙ ap (λ r. loaded size (take size r)) (append_assoc before bytes rest)
        ]

    -- If the extents that get_bnode finds, from the file's first one on, hold at least size
    -- bytes, in blocks that can all be read, the loop of sfs_loadfile ends and returns size,
    -- with the first size bytes of their blocks in the buffer; as many rounds as there are
    -- extents, and one, are enough.
    pub copy_extents-Chain :
        (fuel count next : ℕ) (bytes : Bytes) (buffer : Block)
        → Chain find_node next count bytes
        → count < fuel
        → size ≤ length bytes
        → copy_extents sector find_node blocksize size fuel next
            (record { buffer = buffer; file = [] })
          ≡ loaded size (take size bytes)
    copy_extents-Chain fuel count next bytes buffer ch h s =
        copy_extents-file fuel count next bytes [] (record { buffer = buffer; file = [] }) ch h
          (sym (take-nil size)) s
