-- ===== src/Sfs/Directory/First.antt =====
-- `sfs_findobject` on a well-formed directory.
use Prim.Native.Nat.{bit_and}
use mathlib.Core.Bool.{true≢false}
use ub2lb.Prelude.{
  ℕ, zero, suc, ◌+◌, ◌<◌, ◌≡◌, ◌≢◌, ◌⊎◌, ◌↔◌, ◌∙◌, refl, sym, ap, Bool-cases, inl, inr, true, false,
  not, ◌&&◌, ◌||◌, subst, Bool, some, List, [], ◌∷◌, map, ltb, ◌==◌, Bytes, length, arith,
}
use ub2lb.Prelude.Int.{ℤ, pos, negsuc, is_zero}
use ub2lb.Support.{tolower, strcasecmp}
use ub2lb.Support.Compare.{IsText, strcasecmp-zero}
use ub2lb.Sfs.{
  Block, Sector, long_at, soc_id, first_object, name_offset, without_checksum, calcchecksum,
}
use ub2lb.Sfs.Directory.{
  objectnode, matches, Search, object, missing, search_objects, search_containers, sfs_findobject,
}
use ub2lb.Sfs.Directory.Objects.{
  no_object, next_object, Holds-IsText, string_at-Holds, sfs_nextobject-Holds, Item, Holds,
  object_size, Objects,
}

-- The containers of a directory from block `next` on, with their objects.
pub data Containers (sector : Sector) (blocksize : ℕ) : ℕ → List (Block × List Item) → Type 0 where
  stop : Containers sector blocksize 0 []
  more :
      {next : ℕ} {raw : Block} {xs : List Item} {rest : List (Block × List Item)}
      → next ≢ 0
      → sector next ≡ some raw
      → calcchecksum raw blocksize ≢ 0
      → long_at (without_checksum raw) 0 ≡ soc_id
      → Objects (without_checksum raw) blocksize first_object xs
      → length xs < blocksize
      → Containers sector blocksize (long_at (without_checksum raw) 16) rest
      → Containers sector blocksize next ((without_checksum raw, xs) ∷ rest)

is_zero_iff : (z : ℤ) → (is_zero z ≡ true) ↔ (z ≡ pos 0)
is_zero_iff (pos zero) = ground arith
is_zero_iff (pos (suc n)) = ground arith
is_zero_iff (negsuc n) = ground arith

module _ (blocksize : ℕ) (dirname : Bytes) (kind : ℕ) where
  -- The name is the one wanted, in lower case, and the object has a flag that is asked for, where any is.
  abbrev pub Fits : Item → Type 0
  Fits item =
      (map tolower item.name ≡ map tolower dirname) × ((kind ≡ 0) ⊎ (bit_and item.bits kind ≢ 0))

  -- What a search through these containers finds: the first object that fits, or none.
  pub data Finds : List (Block × List Item) → Search → Type 0 where
    nowhere : Finds [] missing
    container_ends :
        {b : Block} {rest : List (Block × List Item)} {found : Search}
        → Finds rest found
        → Finds ((b, []) ∷ rest) found
    this_one :
        {b : Block} {item : Item} {items : List Item} {rest : List (Block × List Item)}
        → Fits item
        → Finds ((b, item ∷ items) ∷ rest) (object b item.start)
    behind_it :
        {b : Block} {item : Item} {items : List Item} {rest : List (Block × List Item)}
        {found : Search}
        → ¬ Fits item
        → Finds ((b, items) ∷ rest) found
        → Finds ((b, item ∷ items) ∷ rest) found

  matches-Fits :
      (b : Block) (item : Item)
      → IsText dirname
      → b (item.start + 24) ≡ item.bits
      → Holds b (item.start + name_offset) item.name
      → length item.name < blocksize
      → (matches blocksize dirname kind b item.start ≡ true) ↔ Fits item
  unfolding matches
  matches-Fits b item text flags named short =
      let same =
        strcasecmp-zero item.name dirname
          (Holds-IsText b (item.start + name_offset) item.name named) text in
      rw
        (
          string_at-Holds b blocksize (item.start + name_offset) item.name named short,
          flags,
          matches,
        )
        (both (strcasecmp item.name dirname) same)
    where
      wanted : Bool
      wanted = kind == 0 || not (bit_and item.bits kind == 0)

      wanted_iff : (wanted ≡ true) ↔ ((kind ≡ 0) ⊎ (bit_and item.bits kind ≢ 0))
      wanted_iff = elim (Bool-cases (kind == 0)) [
        | inl k ↦ ((λ _. inl (ground arith)), (λ _. rw k refl))
        | inr k ↦ elim (Bool-cases (bit_and item.bits kind == 0)) [
          | inl m ↦ ((λ e. absurd (ground (arith, e))), (λ e. absurd (ground (arith, e))))
          | inr m ↦ ((λ _. inr (λ z. ground arith)), (λ _. rw (k, m) refl))
        ]
      ]

      both :
          {N : Type 0} (z : ℤ)
          → (z ≡ pos 0) ↔ N
          → ((is_zero z && wanted) ≡ true) ↔ (N × ((kind ≡ 0) ⊎ (bit_and item.bits kind ≢ 0)))
      both z e = elim (Bool-cases (is_zero z)) [
        | inl y ↦ (
          (λ h. (e.0 ((is_zero_iff z).0 y), wanted_iff.0 (subst (λ t. (t && wanted) ≡ true) y h))),
          (λ h. rw y (wanted_iff.1 (h.1))),
        )
        | inr y ↦ (
          (λ h. absurd (true≢false (sym h ∙ ap (λ t. t && wanted) y))),
          (λ h. absurd (true≢false (sym ((is_zero_iff z).1 (e.1 (h.0))) ∙ y))),
        )
      ]

  search_objects-Finds :
      (b : Block) (rest : List (Block × List Item)) (after : Search) (fuel x : ℕ)
      (items : List Item)
      → IsText dirname
      → Finds rest after
      → Objects b blocksize x items
      → length items < fuel
      → Finds ((b, items) ∷ rest) (search_objects blocksize dirname kind b fuel x after)
  unfolding search_objects
  search_objects-Finds b rest after zero x items text f o h = absurd (omega arith)
  search_objects-Finds b rest after (suc fuel) x _ text f (no_object e) h =
      let none_left : ltb 0 (objectnode b x) ≡ false = ground arith in
      rw (none_left, search_objects) (container_ends f)
  search_objects-Finds b rest after (suc fuel) _ _ text f
        (next_object {items} item nz flags named noted fits o) h =
      let some_left : ltb 0 (objectnode b item.start) ≡ true = ground arith in
      let is_it = matches-Fits b item text flags named (omega arith) in
      elim (Bool-cases (matches blocksize dirname kind b item.start)) [
        | inl m ↦ rw (some_left, m, search_objects) (this_one (is_it.0 m))
        | inr m ↦
            rw
              (some_left, m, sfs_nextobject-Holds b blocksize item named noted fits, search_objects)
              (behind_it (λ y. true≢false (sym (is_it.1 y) ∙ m))
                (search_objects-Finds b rest after fuel (item.start + object_size item) items text f
                  o (omega arith)))
      ]

  search_containers-Finds :
      (sector : Sector) (fuel next : ℕ) (buffer : Block) (cs : List (Block × List Item))
      → IsText dirname
      → Containers sector blocksize next cs
      → length cs < fuel
      → Finds cs (search_containers sector blocksize dirname kind fuel buffer next)
  unfolding search_containers
  search_containers-Finds sector zero next buffer cs text c h = absurd (omega arith)
  search_containers-Finds sector (suc fuel) next buffer _ text stop h = nowhere
  search_containers-Finds sector (suc fuel) _ buffer _ text
        (more {next} {raw} {xs} {rest} nz r sum id objects short c) h =
      let b = without_checksum raw in
      let nz' : (next == 0) ≡ false = ground arith in
      let sum' : (calcchecksum raw blocksize == 0) ≡ false = ground arith in
      let id' : (long_at b 0 == soc_id) ≡ true = ground arith in
      rw (nz', r, sum', id', search_containers)
        (search_objects-Finds b rest _ blocksize first_object xs text
          (search_containers-Finds sector fuel (long_at b 16) b rest text c (omega arith)) objects
          short)

  -- In a directory of well-formed containers, in which the objects stand one behind the other,
  -- each with its name and its comment, sfs_findobject ends, for a name with no NUL inside: it
  -- returns the first object of the first container that has one whose name is the one wanted in
  -- lower case, with one of the flags asked for, where any are, and NULL where none has; as many
  -- rounds as there are containers, and one, are enough.
  pub sfs_findobject-first :
      (sector : Sector) (fuel x : ℕ) (fresh dir : Block) (cs : List (Block × List Item))
      → IsText dirname
      → Containers sector blocksize (long_at dir (x + 16)) cs
      → length cs < fuel
      → Finds cs (sfs_findobject sector blocksize fuel fresh dir x dirname kind)
  unfolding sfs_findobject
  sfs_findobject-first sector fuel x fresh dir cs text c h =
      search_containers-Finds sector fuel (long_at dir (x + 16)) fresh cs text c h
