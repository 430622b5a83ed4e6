-- ===== src/Cdrom/Susp.antt =====
-- `iterate_entries`, `my_iteration` and `get_entry` of src/cdrom.c: the entries of a system use area. Any reader stands
-- for `cdrom_read`, which is one by `cdrom_reader`.
pub mod Hangs
pub mod First
pub mod Served
use ub2lb.Prelude.{
  ℕ, zero, suc, ◌+◌, ◌*◌, Bool, true, false, Option, none, some, [], ◌∷◌, Bytes, ltb, ◌==◌,
  if◌then◌else◌, get_elem?, get_or, length, leb, slice,
}
use ub2lb.Cdrom.{Boot, BlockRead, Reading, ok, failed, cdrom_read}

-- The device, with what is cached; `none` is the result -1.
abbrev pub Reader : Type 0 → Type 0
Reader S = S → ℕ → ℕ → ℕ → Option Bytes × S

-- What follows a call of the reader, for the results -1 and 0.
abbrev pub then_read {ℓ} :
    {S : Type 0} → {R : Type ℓ} → Option Bytes × S → (S → R) → (Bytes → S → R) → R
then_read (none, dev) fail next = fail dev
then_read (some bytes, dev) fail next = next bytes dev

abbrev pub read_result : Reading → Option Bytes × Boot
read_result (ok p) = (some p.dest, p.boot)
read_result (failed p) = (none, p.boot)

abbrev pub cdrom_reader : BlockRead → Reader Boot
cdrom_reader block_read boot block offset length =
    read_result (cdrom_read block_read boot block offset length)

-- A 32-bit number in the byte order of the machine, which is a big-endian one.
abbrev pub be32 : Bytes → ℕ → ℕ
be32 b i =
    ((get_or b i 0 * 256 + get_or b (i + 1) 0) * 256 + get_or b (i + 2) 0) * 256
    + get_or b (i + 3) 0

-- `e->sig[0] == a && e->sig[1] == c`; `none` where that is read behind the area.
unfoldable pub has_sig : Bytes → ℕ → ℕ → ℕ → Option Bool
has_sig sua ptr a c = elim (get_elem? sua ptr) [
  | none ↦ none
  | some x ↦
      if x == a
      then elim (get_elem? sua (ptr + 1)) [ none ↦ none | some y ↦ some (y == c) ]
      else some false
]

-- How a search for an entry ends: with the entry and NULL, behind the area, or not within the fuel.
pub data Search {ℓ} (S : Type ℓ) : Type ℓ where
  found : Bytes → S → Search S
  missing : S → Search S
  overrun : Search S
  unfinished : Search S

-- `malloc(e->len)`, which is taken to find these 255 bytes at most, and `memcpy`.
abbrev copy_entry {ℓ} : {S : Type ℓ} → Bytes → ℕ → S → Search S
copy_entry sua ptr dev = elim (get_elem? sua (ptr + 2)) [
  | none ↦ overrun
  | some len ↦ if leb (ptr + len) (length sua) then found (slice ptr len sua) dev else overrun
]

-- What is done with the entry at `ptr`.
pub data Kind : Type 0 where
  continuation stop match other behind : Kind

abbrev next_kind : Option Bool → Kind → Kind → Kind
next_kind none hit miss = behind
next_kind (some true) hit miss = hit
next_kind (some false) hit miss = miss

-- The tests of the loop, of which the last is that of `my_iteration`.
unfoldable pub kind_of : ℕ → ℕ → Bytes → ℕ → Kind
unfolding has_sig
kind_of a c sua ptr =
    next_kind (has_sig sua ptr b'C' b'E') continuation
      (next_kind (has_sig sua ptr b'S' b'T') stop (next_kind (has_sig sua ptr a c) match other))

module _ {S : Type 0} (read : Reader S) (malloc : ℕ → Bool) where
  -- The loop, on fuel; `a` and `c` are the signature that is wanted. A CE entry at its end leads to a
  -- new area.
  unfoldable pub iterate : ℕ → ℕ → ℕ → S → Bytes → ℕ → Search S
  unfolding kind_of
  iterate zero a c dev sua ptr = unfinished
  iterate (suc fuel) a c dev sua ptr = elim (kind_of a c sua ptr) [
    | behind ↦ overrun
    | stop ↦ missing dev
    | match ↦ copy_entry sua ptr dev
    | other ↦ elim (get_elem? sua (ptr + 2)) [
      | none ↦ overrun
      | some len ↦ elim (ltb (ptr + len + 1) (length sua)) [
        | true ↦ iterate fuel a c dev sua (ptr + len)
        | false ↦ missing dev
      ]
    ]
    | continuation ↦ elim (leb (ptr + 28) (length sua)) [
      | false ↦ overrun
      | true ↦ elim (malloc (be32 sua (ptr + 24))) [
        | false ↦ missing dev
        | true ↦
            then_read (read dev (be32 sua (ptr + 8)) (be32 sua (ptr + 16)) (be32 sua (ptr + 24)))
              missing (λ sua' dev'. iterate fuel a c dev' sua' 0)
      ]
    ]
  ]

  -- `get_entry` and the start of `iterate_entries`.
  unfoldable pub get_entry : ℕ → S → ℕ → ℕ → ℕ → ℕ → ℕ → Search S
  unfolding iterate
  get_entry fuel dev block offset size a c = elim (malloc size) [
    | false ↦ missing dev
    | true ↦
        then_read (read dev block offset size) missing (λ sua dev'. iterate fuel a c dev' sua 0)
  ]
