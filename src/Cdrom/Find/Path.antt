-- ===== src/Cdrom/Find/Path.antt =====
-- The search for a path, and the file that is loaded.
use ub2lb.Prelude.Int.{pos}
use ub2lb.Prelude.{
  ℕ, zero, suc, ◌+◌, ◌^◌, ◌≤◌, ◌<◌, ◌≡◌, ◌∙◌, refl, ap, subst, arith, Bool, true, false, none, some,
  List, [], ◌∷◌, Bytes, ltb, ◌==◌, length,
}
use ub2lb.Cdrom.Susp.{Reader, then_read}
use ub2lb.Cdrom.Find.{
  signed_lt, Place, place_of, size_be, first_sector_be, Level, reached, find_entry, find_path,
  split, skip_slash, fs_cdrom_load_file, returns, as_int,
}
use ub2lb.Cdrom.Susp.Served.{Serves}
use ub2lb.Cdrom.Find.Served.{Directory, first_match, Arrives, find_entry-first_match}

-- Where the search starts.
abbrev pub root : ℕ → ℕ → Place
root block size = record { hit = false; block = block; size = size; offset = 0 }

module _ {S : Type 0} (read : Reader S) (malloc : ℕ → Bool) (content : ℕ → ℕ → ℕ → Bytes)
    (Inside : ℕ → ℕ → ℕ → Type 0) (rr : Bool) (susp_skip fuel : ℕ) where
  -- The directory at a place has these records, and the fuel is enough to search it.
  pub record Lists (p : Place) (rs : List (Bytes × Bytes)) : Type 0 where
    pub rounds : ℕ
    pub depth : ℕ
    pub directory :
        Directory read malloc content Inside rr susp_skip depth p.block p.size rounds p.offset rs
    pub enough : rounds + depth < fuel
    pub small : p.size < 2 ^ 31

  -- The path leads to the record: at each level it is the first one that matches.
  pub data Resolves : List Bytes → Place → Bytes → Type 0 where
    at_last :
        {element : Bytes} {p : Place} {rs : List (Bytes × Bytes)} {dirent : Bytes}
        → Lists p rs
        → first_match element true rs ≡ some dirent
        → Resolves (element ∷ []) p dirent
    down :
        {element below : Bytes} {rest : List Bytes} {p : Place} {rs : List (Bytes × Bytes)}
        {directory dirent : Bytes}
        → Lists p rs
        → first_match element false rs ≡ some directory
        → Resolves (below ∷ rest) (place_of directory) dirent
        → Resolves (element ∷ below ∷ rest) p dirent

  -- At some level, no record matches.
  pub data Fails : List Bytes → Place → Type 0 where
    here :
        {element : Bytes} {rest : List Bytes} {p : Place} {rs : List (Bytes × Bytes)}
        → Lists p rs
        → first_match element (length rest == 0) rs ≡ none
        → Fails (element ∷ rest) p
    below :
        {element below : Bytes} {rest : List Bytes} {p : Place} {rs : List (Bytes × Bytes)}
        {directory : Bytes}
        → Lists p rs
        → first_match element false rs ≡ some directory
        → Fails (below ∷ rest) (place_of directory)
        → Fails (element ∷ below ∷ rest) p

module _ {S : Type 0} (read : Reader S) (malloc : ℕ → Bool) (content : ℕ → ℕ → ℕ → Bytes)
    (Inside : ℕ → ℕ → ℕ → Type 0) (Ok : S → Type 0) (serves : Serves read content Inside Ok)
    (rr : Bool) (susp_skip fuel : ℕ) where
  abbrev level : Bytes → Bool → S → Place → Level S
  level element last dev p =
      find_entry read malloc rr susp_skip fuel element last dev p.block p.size p.offset

  abbrev path : List Bytes → S → Place → Level S
  path elements dev p = find_path read malloc rr susp_skip fuel elements dev p

  find_path-next :
      (element : Bytes) (rest : List Bytes) (dev dev' : S) (p q : Place)
      → level element (length rest == 0) dev p ≡ reached q dev'
      → path (element ∷ rest) dev p ≡ path rest dev' q
  unfolding find_path
  find_path-next element rest dev dev' p q e = rw (e, find_path) refl

  -- One level, at whose directory the search arrives.
  level-Arrives :
      (element : Bytes) (last : Bool) (p : Place) (rs : List (Bytes × Bytes)) (dev : S)
      → Lists read malloc content Inside rr susp_skip fuel p rs
      → Ok dev
      → Arrives Ok p.block p.size (level element last dev p) (first_match element last rs)
  level-Arrives element last p rs dev l ok =
      find_entry-first_match read malloc content Inside Ok serves rr susp_skip l.depth element last
        p.block p.size fuel l.rounds p.offset rs dev l.directory l.enough l.small ok

  level-found :
      (element : Bytes) (last : Bool) (p : Place) (rs : List (Bytes × Bytes)) (dirent : Bytes)
      (dev : S)
      → Lists read malloc content Inside rr susp_skip fuel p rs
      → first_match element last rs ≡ some dirent
      → Ok dev
      → (dev' : S) × (level element last dev p ≡ reached (place_of dirent) dev') × Ok dev'
  level-found element last p rs dirent dev l f ok =
      subst (Arrives Ok p.block p.size (level element last dev p)) f
        (level-Arrives element last p rs dev l ok)

  find_path-Resolves :
      (elements : List Bytes) (p : Place) (dirent : Bytes) (dev : S)
      → Resolves read malloc content Inside rr susp_skip fuel elements p dirent
      → Ok dev
      → (dev' : S) × (path elements dev p ≡ reached (place_of dirent) dev') × Ok dev'
  unfolding find_path
  find_path-Resolves _ p dirent dev (at_last {element} {rs = rs} l f) ok =
      let (dev', e, ok') = level-found element true p rs dirent dev l f ok in
      (dev', find_path-next element [] dev dev' p _ e, ok')
  find_path-Resolves _ p dirent dev (down {element} {below} {rest} {rs = rs} {directory} l f r) ok =
      let (dev', e, ok') = level-found element false p rs directory dev l f ok in
      let more : (length (below ∷ rest) == 0) ≡ false = ground arith in
      let e' = ap (λ b. level element b dev p) more ∙ e in
      let (dev'', e'', ok'') =
        find_path-Resolves (below ∷ rest) (place_of directory) dirent dev' r ok' in
      (dev'', find_path-next element (below ∷ rest) dev dev' p _ e' ∙ e'', ok'')

  abbrev missed : ℕ → ℕ → ℕ → Place
  missed block size offset = record { hit = false; block = block; size = size; offset = offset }

  find_entry-past :
      (n : ℕ) (element : Bytes) (last : Bool) (dev : S) (block size offset : ℕ)
      → 0 < n
      → size ≤ offset
      → offset < 2 ^ 31
      → find_entry read malloc rr susp_skip n element last dev block size offset
        ≡ reached (missed block size offset) dev
  unfolding find_entry
  find_entry-past zero element last dev block size offset h k g = absurd (omega arith)
  find_entry-past (suc n) element last dev block size offset h k g =
      let e : signed_lt offset size ≡ false = ground arith in rw (e, find_entry) refl

  -- Behind a level that was not found, no level is.
  find_path-past :
      (elements : List Bytes) (dev : S) (block size offset : ℕ)
      → 0 < fuel
      → size ≤ offset
      → offset < 2 ^ 31
      → path elements dev (missed block size offset) ≡ reached (missed block size offset) dev
  unfolding find_path
  find_path-past [] dev block size offset h k g = refl
  find_path-past (element ∷ rest) dev block size offset h k g =
      find_path-next element rest dev dev (missed block size offset) _
        (find_entry-past fuel element _ dev block size offset h k g)
      ∙ find_path-past rest dev block size offset h k g

  find_path-Fails :
      (elements : List Bytes) (p : Place) (dev : S)
      → Fails read malloc content Inside rr susp_skip fuel elements p
      → Ok dev
      → (dev' : S) × (q : Place) × (path elements dev p ≡ reached q dev')
        × (q.hit ≡ false)
        × Ok dev'
  find_path-Fails _ p dev (here {element} {rest} {rs = rs} l f) ok =
      let (dev', offset, e, past, low, ok') =
        subst (Arrives Ok p.block p.size (level element (length rest == 0) dev p)) f
          (level-Arrives element (length rest == 0) p rs dev l ok) in
      let some_fuel : 0 < fuel = omega (arith, l.enough) in
      (
        dev',
        missed p.block p.size offset,
        find_path-next element rest dev dev' p _ e
            ∙ find_path-past rest dev' p.block p.size offset some_fuel past low,
        refl,
        ok',
      )
  find_path-Fails _ p dev (below {element} {below = second} {rest} {rs = rs} {directory} l f r) ok =
      let (dev', e, ok') = level-found element false p rs directory dev l f ok in
      let more : (length (second ∷ rest) == 0) ≡ false = ground arith in
      let e' = ap (λ b. level element b dev p) more ∙ e in
      let (dev'', q, e'', miss, ok'') =
        find_path-Fails (second ∷ rest) (place_of directory) dev' r ok' in
      (dev'', q, find_path-next element (second ∷ rest) dev dev' p _ e' ∙ e'', miss, ok'')

  -- With and without Rock Ridge, a path of at most nine elements that leads to a record of a file with some bytes, through
  -- directories below 2^31 bytes, is loaded: `fs_cdrom_load_file` returns the size, as an `int`, with the bytes of the file in the buffer.
  pub fs_cdrom_load_file-Resolves :
      (filename : Bytes) (dev : S) (root_block root_size : ℕ) (dirent : Bytes)
      → Resolves read malloc content Inside rr susp_skip fuel
          (split [] (skip_slash filename))
          (root root_block root_size)
          dirent
      → length (split [] (skip_slash filename)) ≤ 9
      → 0 < size_be dirent
      → Inside (first_sector_be dirent) 0 (size_be dirent)
      → Ok dev
      → (dev' : S) × (fs_cdrom_load_file read malloc rr susp_skip fuel filename dev root_block
            root_size
          ≡ returns
              (as_int (size_be dirent))
              (some (content (first_sector_be dirent) 0 (size_be dirent)))
              dev')
        × Ok dev'
  unfolding fs_cdrom_load_file
  fs_cdrom_load_file-Resolves filename dev root_block root_size dirent r short some_bytes inside
        ok =
      let elements = split [] (skip_slash filename) in
      let (dev', e, ok') =
        find_path-Resolves elements (root root_block root_size) dirent dev r ok in
      let (dev'', e', ok'') =
        serves.reads dev' (first_sector_be dirent) 0 (size_be dirent) ok' inside in
      let few : ltb 9 (length elements) ≡ false = ground arith in
      let filled : (size_be dirent == 0) ≡ false = ground arith in
      (dev'', rw (few, e, filled, e', then_read, fs_cdrom_load_file) refl, ok'')

  -- With and without Rock Ridge, `fs_cdrom_load_file` returns 0 and leaves the buffer alone, where at some level of a path of at
  -- most nine elements no record matches, in directories below 2^31 bytes.
  pub fs_cdrom_load_file-Fails :
      (filename : Bytes) (dev : S) (root_block root_size : ℕ)
      → Fails read malloc content Inside rr susp_skip fuel
          (split [] (skip_slash filename))
          (root root_block root_size)
      → length (split [] (skip_slash filename)) ≤ 9
      → Ok dev
      → (dev' : S) × (fs_cdrom_load_file read malloc rr susp_skip fuel filename dev root_block
            root_size
          ≡ returns (pos 0) none dev')
        × Ok dev'
  unfolding fs_cdrom_load_file
  fs_cdrom_load_file-Fails filename dev root_block root_size r short ok =
      let elements = split [] (skip_slash filename) in
      let (dev', q, e, miss, ok') = find_path-Fails elements (root root_block root_size) dev r ok in
      let few : ltb 9 (length elements) ≡ false = ground arith in
      (dev', rw (few, e, miss, fs_cdrom_load_file) refl, ok')
