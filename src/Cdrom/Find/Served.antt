-- ===== src/Cdrom/Find/Served.antt =====
-- A directory on a disc, and what the search in it finds.
use ub2lb.Prelude.{
  ℕ, zero, suc, ◌+◌, ◌*◌, ◌/◌, ◌^◌, ◌≤◌, ◌<◌, ◌≡◌, ◌≢◌, ◌∙◌, refl, sym, ap, subst, arith, Bool,
  true, false, Bool-cases, inl, inr, ◌&&◌, Option, none, some, List, [], ◌∷◌, Bytes, ◌==◌,
  if◌then◌else◌,
}
use ub2lb.Prelude.Int.{is_zero}
use ub2lb.Support.{word, strcasecmp}
use ub2lb.Cdrom.Susp.{Reader, then_read}
use ub2lb.Cdrom.Susp.Served.{Serves}
use ub2lb.Cdrom.Find.Named.{Called, name_of-Called}
use ub2lb.Cdrom.Find.{
  dirent_size, len_of, signed_lt, is_wanted, place_of, Level, reached, name_of, name_is, find_entry,
}

module _ {S : Type 0} (read : Reader S) (malloc : ℕ → Bool) (content : ℕ → ℕ → ℕ → Bytes)
    (Inside : ℕ → ℕ → ℕ → Type 0) (rr : Bool) (susp_skip depth block size : ℕ) where
  -- The records from `offset` on, each with its name; the search takes `n` rounds to pass them.
  pub data Directory : ℕ → ℕ → List (Bytes × Bytes) → Type 0 where
    no_more : {offset : ℕ} → size ≤ offset → offset < 2 ^ 31 → Directory 0 offset []
    pad :
        {n offset : ℕ} {rs : List (Bytes × Bytes)}
        → offset < size
        → Inside block offset dirent_size
        → len_of (content block offset dirent_size) ≡ 0
        → Directory n ((offset / 2048 + 1) * 2048) rs
        → Directory (suc n) offset rs
    entry :
        {n offset : ℕ} {rs : List (Bytes × Bytes)} {dirent name : Bytes}
        → offset < size
        → Inside block offset dirent_size
        → content block offset dirent_size ≡ dirent
        → len_of dirent ≢ 0
        → Called read malloc content Inside rr susp_skip depth block offset dirent name
        → Directory n (offset + len_of dirent) rs
        → Directory (suc n) offset ((name, dirent) ∷ rs)

-- The first record with the name, up to case, that is a directory or, for the last element, is none.
unfoldable pub first_match : Bytes → Bool → List (Bytes × Bytes) → Option Bytes
first_match element last [] = none
first_match element last ((name, dirent) ∷ rs) =
    let further = first_match element last rs in
    if is_zero (strcasecmp element name) && is_wanted last dirent then some dirent else further

-- The search has come to the record, or has passed the directory.
abbrev pub Arrives : {S : Type 0} → (S → Type 0) → ℕ → ℕ → Level S → Option Bytes → Type 0
Arrives {S = S} Ok block size level (some dirent) =
    (dev : S) × (level ≡ reached (place_of dirent) dev) × Ok dev
Arrives {S = S} Ok block size level none =
    (dev : S) × (offset : ℕ) × (level
      ≡ reached (record { hit = false; block = block; size = size; offset = offset }) dev)
    × (size ≤ offset)
    × (offset < 2 ^ 31)
    × Ok dev

Directory-offset :
    {S : Type 0} (read : Reader S) (malloc : ℕ → Bool) (content : ℕ → ℕ → ℕ → Bytes)
    (Inside : ℕ → ℕ → ℕ → Type 0) (rr : Bool) (susp_skip depth block size n offset : ℕ)
    (rs : List (Bytes × Bytes))
    → Directory read malloc content Inside rr susp_skip depth block size n offset rs
    → size < 2 ^ 31
    → offset < 2 ^ 31
Directory-offset read malloc content Inside rr susp_skip depth block size n offset rs (no_more h k)
      g =
    k
Directory-offset read malloc content Inside rr susp_skip depth block size _ offset rs (pad h i e d)
      g =
    omega arith
Directory-offset read malloc content Inside rr susp_skip depth block size _ offset _
      (entry h i e l j d) g =
    omega arith

module _ {S : Type 0} (read : Reader S) (malloc : ℕ → Bool) (content : ℕ → ℕ → ℕ → Bytes)
    (Inside : ℕ → ℕ → ℕ → Type 0) (Ok : S → Type 0) (serves : Serves read content Inside Ok)
    (rr : Bool) (susp_skip depth : ℕ) (element : Bytes) (last : Bool) (block size : ℕ) where
  abbrev fits : Bytes → Bytes → Bool
  fits name dirent = is_zero (strcasecmp element name) && is_wanted last dirent

  first_match-hit :
      (name dirent : Bytes) (rs : List (Bytes × Bytes))
      → fits name dirent ≡ true
      → first_match element last ((name, dirent) ∷ rs) ≡ some dirent
  unfolding first_match
  first_match-hit name dirent rs h = rw h refl

  first_match-miss :
      (name dirent : Bytes) (rs : List (Bytes × Bytes))
      → fits name dirent ≡ false
      → first_match element last ((name, dirent) ∷ rs) ≡ first_match element last rs
  unfolding first_match
  first_match-miss name dirent rs h = rw h refl

  abbrev search : ℕ → S → ℕ → Level S
  search fuel dev offset =
      find_entry read malloc rr susp_skip fuel element last dev block size offset

  -- One round of the loop, at a record.
  find_entry-record :
      (fuel offset : ℕ) (dirent name : Bytes) (dev dev' dev'' : S)
      → signed_lt offset size ≡ true
      → read dev block offset dirent_size ≡ (some dirent, dev')
      → (len_of dirent == 0) ≡ false
      → name_of read malloc rr susp_skip fuel dev' block offset dirent ≡ name_is name dev''
      → word (offset + len_of dirent) ≡ offset + len_of dirent
      → (fits name dirent ≡ true → search (suc fuel) dev offset ≡ reached (place_of dirent) dev'')
        × (fits name dirent ≡ false
            → search (suc fuel) dev offset ≡ search fuel dev'' (offset + len_of dirent))
  unfolding find_entry name_of
  find_entry-record fuel offset dirent name dev dev' dev'' e here some_here named next = (
    λ hit. rw (e, here, then_read, some_here, named, hit, find_entry) refl,
    λ miss.
        rw (e, here, then_read, some_here, named, miss, find_entry)
          (ap (λ o. search fuel dev'' o) next),
  )

  arrives :
      {l l' : Level S} {r r' : Option Bytes}
      → l ≡ l'
      → r ≡ r'
      → Arrives Ok block size l' r'
      → Arrives Ok block size l r
  arrives {l} {l'} {r} {r'} p q x =
      subst (λ k. Arrives Ok block size k r) (sym p)
        (subst (λ o. Arrives Ok block size l' o) (sym q) x)

  -- The search in a directory below 2^31 bytes ends, and comes to the first record with
  -- the name, up to case, that is a directory or, for the last element, is none; it passes the directory where there is no such record.
  pub find_entry-first_match :
      (fuel n offset : ℕ) (rs : List (Bytes × Bytes)) (dev : S)
      → Directory read malloc content Inside rr susp_skip depth block size n offset rs
      → n + depth < fuel
      → size < 2 ^ 31
      → Ok dev
      → Arrives Ok block size
          (find_entry read malloc rr susp_skip fuel element last dev block size offset)
          (first_match element last rs)
  unfolding find_entry first_match name_of
  find_entry-first_match zero n offset rs dev d h g ok = absurd (omega arith)
  find_entry-first_match (suc fuel) n offset [] dev (no_more past small) h g ok =
      let e : signed_lt offset size ≡ false = ground arith in
      (dev, offset, rw (e, find_entry) refl, past, small, ok)
  find_entry-first_match (suc fuel) _ offset rs dev (pad {n} before inside empty d) h g ok =
      let e : signed_lt offset size ≡ true = ground arith in
      let (dev', read_record, ok') = serves.reads dev block offset dirent_size ok inside in
      let none_here : (len_of (content block offset dirent_size) == 0) ≡ true = rw empty refl in
      let low =
        Directory-offset read malloc content Inside rr susp_skip depth block size n _ rs d g in
      let next : word ((offset / 2048 + 1) * 2048) ≡ (offset / 2048 + 1) * 2048 =
        omega (arith, low) in
      let rest =
        find_entry-first_match fuel n ((offset / 2048 + 1) * 2048) rs dev' d (omega arith) g ok' in
      rw (e, read_record, then_read, none_here, next, find_entry) rest
  find_entry-first_match (suc fuel) _ offset _ dev
        (entry {n} {rs = rs} {dirent} {name} before inside is some_len called d) h g ok =
      let e : signed_lt offset size ≡ true = ground arith in
      let (dev', read_record, ok') = serves.reads dev block offset dirent_size ok inside in
      let here : read dev block offset dirent_size ≡ (some dirent, dev') =
        read_record ∙ ap (λ b. (some b, dev')) is in
      let some_here : (len_of dirent == 0) ≡ false = ground arith in
      let low =
        Directory-offset read malloc content Inside rr susp_skip depth block size n _ rs d g in
      let next : word (offset + len_of dirent) ≡ offset + len_of dirent = omega (arith, low) in
      let (dev'', named, ok'') =
        name_of-Called read malloc content Inside rr susp_skip depth block offset dirent Ok serves
          fuel dev' name called (omega arith) (omega arith) ok' in
      let rest =
        find_entry-first_match fuel n (offset + len_of dirent) rs dev'' d (omega arith) g ok'' in
      let step =
        find_entry-record fuel offset dirent name dev dev' dev'' e here some_here named next in
      elim (Bool-cases (fits name dirent)) [
        | inl hit ↦ arrives (step.0 hit) (first_match-hit name dirent rs hit) (dev'', refl, ok'')
        | inr miss ↦ arrives (step.1 miss) (first_match-miss name dirent rs miss) rest
      ]
