-- ===== src/Sfs/Directory/Objects.antt =====
-- The objects of a container, as they are written in it.
use ub2lb.Prelude.{
  ℕ, zero, suc, ◌+◌, ◌-◌, ◌%◌, ◌≤◌, ◌<◌, ◌≡◌, ◌≢◌, ◌∙◌, refl, ap, Bool-cases, inl, inr, true, false,
  some, List, [], ◌∷◌, ◌==◌, Bytes, length, arith,
}
use ub2lb.Support.Compare.{IsText}
use ub2lb.Sfs.{Block, name_offset}
use ub2lb.Sfs.Directory.{string_at, skip_strings, sfs_nextobject, objectnode}

-- An object that is written in a container: its offset, its flags, its name and its comment.
pub record Item : Type 0 where
  pub start : ℕ
  pub bits : ℕ
  pub name : Bytes
  pub comment : Bytes

-- The string `s`, with no NUL inside, stands at `p`, with a NUL behind it.
abbrev pub Holds : Block → ℕ → Bytes → Type 0
Holds b p [] = b p ≡ 0
Holds b p (c ∷ s) = (b p ≡ c) × (c ≢ 0) × Holds b (p + 1) s

-- The bytes of an object: a head, two strings with their NULs, and one byte more where these are odd.
abbrev pub object_size : Item → ℕ
object_size item =
    let bytes = name_offset + (length item.name + 1) + (length item.comment + 1) in
    bytes + bytes % 2

-- The objects of a container from offset `x` on, one behind the other, up to one with no node.
pub data Objects (b : Block) (blocksize : ℕ) : ℕ → List Item → Type 0 where
  no_object : {x : ℕ} → objectnode b x ≡ 0 → Objects b blocksize x []
  next_object :
      {items : List Item} (item : Item)
      → objectnode b item.start ≢ 0
      → b (item.start + 24) ≡ item.bits
      → Holds b (item.start + name_offset) item.name
      → Holds b (item.start + name_offset + length item.name + 1) item.comment
      → length item.name + length item.comment + 2 ≤ blocksize
      → Objects b blocksize (item.start + object_size item) items
      → Objects b blocksize item.start (item ∷ items)

pub Holds-IsText : (b : Block) (p : ℕ) (s : Bytes) → Holds b p s → IsText s
Holds-IsText b p [] h = tt
Holds-IsText b p (c ∷ s) (e, nz, h) = (nz, Holds-IsText b (p + 1) s h)

pub string_at-Holds :
    (b : Block) (fuel p : ℕ) (s : Bytes) → Holds b p s → length s < fuel → string_at b fuel p ≡ s
unfolding string_at
string_at-Holds b zero p s h l = absurd (omega arith)
string_at-Holds b (suc fuel) p [] h l =
    let ended : (b p == 0) ≡ true = ground arith in rw (ended, string_at) refl
string_at-Holds b (suc fuel) p (c ∷ s) (e, nz, h) l =
    let inside : (b p == 0) ≡ false = ground arith in
    rw (inside, e, string_at) (ap (λ r. c ∷ r) (string_at-Holds b fuel (p + 1) s h (omega arith)))

skip_strings-Holds :
    (b : Block) (fuel i p : ℕ) (s : Bytes)
    → Holds b p s
    → length s < fuel
    → skip_strings b fuel (suc i) p ≡ skip_strings b (fuel - length s - 1) i (p + length s + 1)
unfolding skip_strings
skip_strings-Holds b zero i p s h l = absurd (omega arith)
skip_strings-Holds b (suc fuel) i p [] h l =
    let ended : (b p == 0) ≡ true = ground arith in
    let left : suc fuel - 0 - 1 ≡ fuel = omega arith in
    let place : p + 0 + 1 ≡ p + 1 = omega arith in rw (ended, left, place, skip_strings) refl
skip_strings-Holds b (suc fuel) i p (c ∷ s) (e, nz, h) l =
    let inside : (b p == 0) ≡ false = ground arith in
    let left : suc fuel - suc (length s) - 1 ≡ fuel - length s - 1 = omega arith in
    let place : p + suc (length s) + 1 ≡ p + 1 + length s + 1 = omega arith in
    rw (inside, left, place, skip_strings) (skip_strings-Holds b fuel i (p + 1) s h (omega arith))

skip_strings-none : (b : Block) (fuel p : ℕ) → skip_strings b fuel 0 p ≡ some p
unfolding skip_strings
skip_strings-none b zero p = refl
skip_strings-none b (suc fuel) p = refl

pub sfs_nextobject-Holds :
    (b : Block) (blocksize : ℕ) (item : Item)
    → Holds b (item.start + name_offset) item.name
    → Holds b (item.start + name_offset + length item.name + 1) item.comment
    → length item.name + length item.comment + 2 ≤ blocksize
    → sfs_nextobject b blocksize item.start ≡ some (item.start + object_size item)
unfolding sfs_nextobject
sfs_nextobject-Holds b blocksize item named noted fits =
    let x = item.start in
    let p = x + name_offset + length item.name + 1 + length item.comment + 1 in
    let skipped : skip_strings b blocksize 2 (x + name_offset) ≡ some p =
      skip_strings-Holds b blocksize 1 (x + name_offset) item.name named (omega arith)
      ∙ skip_strings-Holds b (blocksize - length item.name - 1) 0 _ item.comment noted (omega arith)
      ∙ skip_strings-none b (blocksize - length item.name - 1 - length item.comment - 1) p in
    elim (Bool-cases ((p - x) % 2 == 1)) [
      | inl o ↦
          let odd : (p - x) % 2 ≡ 1 = ground arith in
          let place : p + 1 ≡ x + object_size item = omega (arith, odd) in
          rw (skipped, o, sfs_nextobject) (ap some place)
      | inr o ↦
          let even : (p - x) % 2 ≢ 1 = λ z. ground arith in
          let place : p ≡ x + object_size item = omega (arith, even) in
          rw (skipped, o, sfs_nextobject) (ap some place)
    ]
