-- ===== src/Cdrom/Susp/First.antt =====
-- The entry that `get_entry` finds, over any reader that serves a disc.
use ub2lb.Prelude.{
  ℕ, zero, suc, ◌+◌, ◌≤◌, ◌<◌, ◌≡◌, ◌∙◌, refl, sym, ap, subst, arith, Bool, Bool-cases, inl, inr,
  true, false, ◌&&◌, Option, none, some, List, [], ◌∷◌, Bytes, ◌==◌, ltb, leb, if◌then◌else◌,
  get_elem?, get_or, length, slice,
}
use ub2lb.Cdrom.Susp.{
  Reader, then_read, be32, has_sig, Search, found, missing, kind_of, continuation, stop, match,
  other, copy_entry, iterate, get_entry,
}
use ub2lb.Cdrom.Susp.Served.{Serves}

get_elem?-get_or : (xs : Bytes) (i : ℕ) → i < length xs → get_elem? xs i ≡ some (get_or xs i 0)
get_elem?-get_or [] i h = absurd (omega arith)
get_elem?-get_or (x ∷ xs) zero h = refl
get_elem?-get_or (x ∷ xs) (suc i) h = get_elem?-get_or xs i (omega arith)

-- The two bytes at `ptr`.
abbrev pub signed : Bytes → ℕ → ℕ → ℕ → Bool
signed sua ptr a c = get_or sua ptr 0 == a && get_or sua (ptr + 1) 0 == c

has_sig-signed :
    (sua : Bytes) (ptr a c : ℕ)
    → ptr + 1 < length sua
    → has_sig sua ptr a c ≡ some (signed sua ptr a c)
unfolding has_sig
has_sig-signed sua ptr a c h =
    let first = get_elem?-get_or sua ptr (omega arith) in
    let second = get_elem?-get_or sua (ptr + 1) h in
    elim (Bool-cases (get_or sua ptr 0 == a)) [
      | inl e ↦ rw (first, e, second, has_sig) refl
      | inr e ↦ rw (first, e, has_sig) refl
    ]

-- Where an entry stands: its area, and in it its place and its length.
pub record Susp : Type 0 where
  pub sua : Bytes
  pub ptr : ℕ
  pub len : ℕ

-- The first entry with the signature, of those that are given.
unfoldable pub first_signed : ℕ → ℕ → List Susp → Option Bytes
first_signed a c [] = none
first_signed a c (e ∷ es) =
    let further = first_signed a c es in
    if signed e.sua e.ptr a c then some (slice e.ptr e.len e.sua) else further

-- An entry of at least its signature and length, which is in the area and neither CE nor ST.
pub record Ordinary (e : Susp) : Type 0 where
  pub no_ce : signed e.sua e.ptr b'C' b'E' ≡ false
  pub no_st : signed e.sua e.ptr b'S' b'T' ≡ false
  pub says : get_or e.sua (e.ptr + 2) 0 ≡ e.len
  pub head : 3 ≤ e.len
  pub inside : e.ptr + e.len ≤ length e.sua

module _ (content : ℕ → ℕ → ℕ → Bytes) (Inside : ℕ → ℕ → ℕ → Type 0) (malloc : ℕ → Bool) where
  -- The entries of the area `sua` from `ptr` on, up to an entry ST or the end; an entry CE leads to the area that it names. The
  -- first number is that of the entries that are passed.
  pub data Area : ℕ → Bytes → ℕ → List Susp → Type 0 where
    stops :
        {sua : Bytes} {ptr : ℕ}
        → ptr + 1 < length sua
        → signed sua ptr b'C' b'E' ≡ false
        → signed sua ptr b'S' b'T' ≡ true
        → Area 1 sua ptr []
    last :
        {sua : Bytes} {ptr len : ℕ}
        → Ordinary (record { sua = sua; ptr = ptr; len = len })
        → length sua ≤ ptr + len + 1
        → Area 1 sua ptr (record { sua = sua; ptr = ptr; len = len } ∷ [])
    more :
        {n : ℕ} {sua : Bytes} {ptr len : ℕ} {es : List Susp}
        → Ordinary (record { sua = sua; ptr = ptr; len = len })
        → ptr + len + 1 < length sua
        → Area n sua (ptr + len) es
        → Area (suc n) sua ptr (record { sua = sua; ptr = ptr; len = len } ∷ es)
    continues :
        {n : ℕ} {sua : Bytes} {ptr : ℕ} {es : List Susp}
        → signed sua ptr b'C' b'E' ≡ true
        → ptr + 28 ≤ length sua
        → malloc (be32 sua (ptr + 24)) ≡ true
        → Inside (be32 sua (ptr + 8)) (be32 sua (ptr + 16)) (be32 sua (ptr + 24))
        → Area n (content (be32 sua (ptr + 8)) (be32 sua (ptr + 16)) (be32 sua (ptr + 24))) 0 es
        → Area (suc n) sua ptr es

-- The search has found the entry, or there is none.
abbrev pub Answers : {S : Type 0} → (S → Type 0) → Search S → Option Bytes → Type 0
Answers {S = S} Ok r (some entry) = (dev : S) × (r ≡ found entry dev) × Ok dev
Answers {S = S} Ok r none = (dev : S) × (r ≡ missing dev) × Ok dev

module _ {S : Type 0} (read : Reader S) (malloc : ℕ → Bool) (content : ℕ → ℕ → ℕ → Bytes)
    (Inside : ℕ → ℕ → ℕ → Type 0) (Ok : S → Type 0) (serves : Serves read content Inside Ok)
    (a c : ℕ) where
  answers :
      {r r' : Search S} {o o' : Option Bytes} → r ≡ r' → o ≡ o' → Answers Ok r' o' → Answers Ok r o
  answers {r} {r'} {o} {o'} p q x =
      subst (λ k. Answers Ok k o) (sym p) (subst (λ k. Answers Ok r' k) (sym q) x)

  -- An ordinary entry, with the signature that is wanted, or with another one.
  kind_of-Ordinary :
      (e : Susp)
      → Ordinary e
      → kind_of a c e.sua e.ptr ≡ (if signed e.sua e.ptr a c then match else other)
  unfolding kind_of
  kind_of-Ordinary e o =
      let low : e.ptr + 1 < length e.sua = omega (arith, o.head, o.inside) in
      elim (Bool-cases (signed e.sua e.ptr a c)) [
        | inl h ↦
            rw
              (
                has_sig-signed e.sua e.ptr b'C' b'E' low,
                has_sig-signed e.sua e.ptr b'S' b'T' low,
                has_sig-signed e.sua e.ptr a c low,
                o.no_ce,
                o.no_st,
                h,
              )
              refl
        | inr h ↦
            rw
              (
                has_sig-signed e.sua e.ptr b'C' b'E' low,
                has_sig-signed e.sua e.ptr b'S' b'T' low,
                has_sig-signed e.sua e.ptr a c low,
                o.no_ce,
                o.no_st,
                h,
              )
              refl
      ]

  -- One round at an ordinary entry.
  iterate-hit :
      (fuel : ℕ) (e : Susp) (dev : S)
      → Ordinary e
      → signed e.sua e.ptr a c ≡ true
      → iterate read malloc (suc fuel) a c dev e.sua e.ptr ≡ found (slice e.ptr e.len e.sua) dev
  unfolding iterate
  iterate-hit fuel e dev o h =
      let kind : kind_of a c e.sua e.ptr ≡ match = kind_of-Ordinary e o ∙ rw h refl in
      let len =
        get_elem?-get_or e.sua (e.ptr + 2) (omega (arith, o.head, o.inside)) ∙ ap some o.says in
      let inside : leb (e.ptr + e.len) (length e.sua) ≡ true = ground (arith, o.inside) in
      rw (kind, len, inside, copy_entry, iterate) refl

  iterate-other :
      (fuel : ℕ) (e : Susp) (dev : S)
      → Ordinary e
      → signed e.sua e.ptr a c ≡ false
      → iterate read malloc (suc fuel) a c dev e.sua e.ptr ≡ (
          if ltb (e.ptr + e.len + 1) (length e.sua)
          then iterate read malloc fuel a c dev e.sua (e.ptr + e.len)
          else missing dev)
  unfolding iterate
  iterate-other fuel e dev o h =
      let kind : kind_of a c e.sua e.ptr ≡ other = kind_of-Ordinary e o ∙ rw h refl in
      let len =
        get_elem?-get_or e.sua (e.ptr + 2) (omega (arith, o.head, o.inside)) ∙ ap some o.says in
      elim (Bool-cases (ltb (e.ptr + e.len + 1) (length e.sua))) [
        | inl g ↦ rw (kind, len, g, iterate) refl
        | inr g ↦ rw (kind, len, g, iterate) refl
      ]

  iterate-stops :
      (fuel : ℕ) (sua : Bytes) (ptr : ℕ) (dev : S)
      → ptr + 1 < length sua
      → signed sua ptr b'C' b'E' ≡ false
      → signed sua ptr b'S' b'T' ≡ true
      → iterate read malloc (suc fuel) a c dev sua ptr ≡ missing dev
  unfolding iterate kind_of
  iterate-stops fuel sua ptr dev low no_ce st =
      let ce = has_sig-signed sua ptr b'C' b'E' low ∙ ap some no_ce in
      let stop_here = has_sig-signed sua ptr b'S' b'T' low ∙ ap some st in
      let kind : kind_of a c sua ptr ≡ stop = rw (ce, stop_here, kind_of) refl in
      rw (kind, iterate) refl

  iterate-continues :
      (fuel : ℕ) (sua : Bytes) (ptr : ℕ) (dev dev' : S) (sua' : Bytes)
      → signed sua ptr b'C' b'E' ≡ true
      → ptr + 28 ≤ length sua
      → malloc (be32 sua (ptr + 24)) ≡ true
      → read dev (be32 sua (ptr + 8)) (be32 sua (ptr + 16)) (be32 sua (ptr + 24))
        ≡ (some sua', dev')
      → iterate read malloc (suc fuel) a c dev sua ptr ≡ iterate read malloc fuel a c dev' sua' 0
  unfolding iterate kind_of
  iterate-continues fuel sua ptr dev dev' sua' ce room memory reads =
      let has_ce = has_sig-signed sua ptr b'C' b'E' (omega arith) ∙ ap some ce in
      let kind : kind_of a c sua ptr ≡ continuation = rw (has_ce, kind_of) refl in
      let inside : leb (ptr + 28) (length sua) ≡ true = ground arith in
      rw (kind, inside, memory, reads, then_read, iterate) refl

  first_signed-hit :
      (e : Susp) (es : List Susp)
      → signed e.sua e.ptr a c ≡ true
      → first_signed a c (e ∷ es) ≡ some (slice e.ptr e.len e.sua)
  unfolding first_signed
  first_signed-hit e es h = rw (h, first_signed) refl

  first_signed-miss :
      (e : Susp) (es : List Susp)
      → signed e.sua e.ptr a c ≡ false
      → first_signed a c (e ∷ es) ≡ first_signed a c es
  unfolding first_signed
  first_signed-miss e es h = rw (h, first_signed) refl

  iterate-first_signed :
      (fuel n : ℕ) (sua : Bytes) (ptr : ℕ) (es : List Susp) (dev : S)
      → Area content Inside malloc n sua ptr es
      → n ≤ fuel
      → Ok dev
      → Answers Ok (iterate read malloc fuel a c dev sua ptr) (first_signed a c es)
  unfolding first_signed
  iterate-first_signed zero _ sua ptr _ dev (stops low no_ce st) h ok = absurd (omega arith)
  iterate-first_signed zero _ sua ptr _ dev (last o end) h ok = absurd (omega arith)
  iterate-first_signed zero _ sua ptr _ dev (more {n} o inside rest) h ok = absurd (omega arith)
  iterate-first_signed zero _ sua ptr es dev (continues {n} ce room memory inside rest) h ok =
      absurd (omega arith)
  iterate-first_signed (suc fuel) _ sua ptr _ dev (stops low no_ce st) h ok =
      (dev, iterate-stops fuel sua ptr dev low no_ce st, ok)
  iterate-first_signed (suc fuel) _ sua ptr _ dev (last {len = len} o end) h ok =
      let e : Susp = record { sua = sua; ptr = ptr; len = len } in
      elim (Bool-cases (signed sua ptr a c)) [
        | inl hit ↦
            answers (iterate-hit fuel e dev o hit) (first_signed-hit e [] hit) (dev, refl, ok)
        | inr miss ↦
            let past : ltb (ptr + len + 1) (length sua) ≡ false = ground arith in
            answers (iterate-other fuel e dev o miss ∙ rw past refl) (first_signed-miss e [] miss)
              (dev, refl, ok)
      ]
  iterate-first_signed (suc fuel) _ sua ptr _ dev (more {n} {len = len} {es} o inside rest) h ok =
      let e : Susp = record { sua = sua; ptr = ptr; len = len } in
      elim (Bool-cases (signed sua ptr a c)) [
        | inl hit ↦
            answers (iterate-hit fuel e dev o hit) (first_signed-hit e es hit) (dev, refl, ok)
        | inr miss ↦
            let on : ltb (ptr + len + 1) (length sua) ≡ true = ground arith in
            answers (iterate-other fuel e dev o miss ∙ rw on refl) (first_signed-miss e es miss)
              (iterate-first_signed fuel n sua (ptr + len) es dev rest (omega arith) ok)
      ]
  iterate-first_signed (suc fuel) _ sua ptr es dev (continues {n} ce room memory inside rest) h ok =
      let (dev', reads, ok') =
        serves.reads dev (be32 sua (ptr + 8)) (be32 sua (ptr + 16)) (be32 sua (ptr + 24)) ok
          inside in
      answers (iterate-continues fuel sua ptr dev dev' _ ce room memory reads) refl
        (iterate-first_signed fuel n _ 0 es dev' rest (omega arith) ok')

  -- Over a reader that serves a disc, in a system use area whose entries are well formed, through the areas that its entries CE
  -- lead to, `get_entry` ends, in one round for each entry, and finds the first entry with the signature in front of an entry
  -- ST or the end; it returns NULL where there is none.
  pub get_entry-first_signed :
      (fuel n : ℕ) (dev : S) (block offset size : ℕ) (es : List Susp)
      → malloc size ≡ true
      → Inside block offset size
      → Area content Inside malloc n (content block offset size) 0 es
      → n ≤ fuel
      → Ok dev
      → Answers Ok (get_entry read malloc fuel dev block offset size a c) (first_signed a c es)
  unfolding get_entry
  get_entry-first_signed fuel n dev block offset size es memory inside area h ok =
      let (dev', reads, ok') = serves.reads dev block offset size ok inside in
      let start : get_entry read malloc fuel dev block offset size a c
          ≡ iterate read malloc fuel a c dev' (content block offset size) 0 =
        rw (memory, reads, then_read, get_entry) refl in
      answers start refl
        (iterate-first_signed fuel n (content block offset size) 0 es dev' area h ok')
