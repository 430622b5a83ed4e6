-- ===== src/Cdrom/Find/Named.antt =====
-- The name of a directory record, with and without Rock Ridge.
use ub2lb.Prelude.{
  ℕ, ◌+◌, ◌^◌, ◌≤◌, ◌<◌, ◌≡◌, refl, subst, arith, Bool, true, false, Option, none, some, List,
  Bytes,
}
use ub2lb.Support.{word}
use ub2lb.Cdrom.Susp.{Reader, then_read, Search, get_entry}
use ub2lb.Cdrom.Susp.Served.{Serves}
use ub2lb.Cdrom.Susp.First.{Susp, Area, Answers, first_signed, get_entry-first_signed}
use ub2lb.Cdrom.Find.{
  dirent_size, namelen, plain_name, sua_at, sua_length, unnamed, named, rock_ridge, Name, name_is,
  read_name, name_of,
}

module _ {S : Type 0} (read : Reader S) (malloc : ℕ → Bool) (content : ℕ → ℕ → ℕ → Bytes)
    (Inside : ℕ → ℕ → ℕ → Type 0) (rr : Bool) (susp_skip depth block offset : ℕ)
    (dirent : Bytes) where
  abbrev stored : Bytes
  stored = plain_name (content block (offset + dirent_size) (namelen dirent))

  abbrev InsideName : Type 0
  InsideName = Inside block (offset + dirent_size) (namelen dirent)

  -- The entries of the system use area of the record, of which the search passes `depth` at most.
  pub record HasArea (es : List Susp) : Type 0 where
    pub memory : malloc (sua_length dirent) ≡ true
    pub inside : Inside block (sua_at susp_skip offset dirent) (sua_length dirent)
    pub rounds : ℕ
    pub area :
        Area content Inside malloc rounds
          (content block (sua_at susp_skip offset dirent) (sua_length dirent))
          0
          es
    pub few : rounds ≤ depth

  -- The record has this name: without Rock Ridge, and where there is no entry NM or one without a name, it is what stands in the
  -- record; otherwise it is the name that the first entry NM has.
  pub data Called : Bytes → Type 0 where
    plainly : rr ≡ false → InsideName → Called stored
    without_entry :
        {es : List Susp}
        → rr ≡ true
        → HasArea es
        → first_signed b'N' b'M' es ≡ none
        → InsideName
        → Called stored
    without_name :
        {es : List Susp} {entry : Bytes}
        → rr ≡ true
        → HasArea es
        → first_signed b'N' b'M' es ≡ some entry
        → rock_ridge read malloc entry ≡ unnamed
        → InsideName
        → Called stored
    by_entry :
        {es : List Susp} {entry name : Bytes}
        → rr ≡ true
        → HasArea es
        → first_signed b'N' b'M' es ≡ some entry
        → rock_ridge read malloc entry ≡ named name
        → Called name

  module _ (Ok : S → Type 0) (serves : Serves read content Inside Ok) where
    abbrev NameIs : Name S → Bytes → Type 0
    NameIs r name = (dev' : S) × (r ≡ name_is name dev') × Ok dev'

    read_name-stored :
        (dev : S)
        → Ok dev
        → offset < 2 ^ 31
        → InsideName
        → NameIs (read_name read malloc dev block offset dirent) stored
    unfolding read_name
    read_name-stored dev ok small inside =
        let here : word (offset + dirent_size) ≡ offset + dirent_size = omega arith in
        let (dev', e, ok') =
          serves.reads dev block (offset + dirent_size) (namelen dirent) ok inside in
        (dev', rw (here, e, then_read, read_name) refl, ok')

    abbrev searched : ℕ → S → Search S
    searched fuel dev =
        get_entry read malloc fuel dev block (sua_at susp_skip offset dirent) (sua_length dirent)
          b'N' b'M'

    answer :
        (fuel : ℕ) (dev : S) (es : List Susp) (r : Option Bytes)
        → HasArea es
        → depth ≤ fuel
        → Ok dev
        → first_signed b'N' b'M' es ≡ r
        → Answers Ok (searched fuel dev) r
    answer fuel dev es r a enough ok e = subst (Answers Ok (searched fuel dev)) e (
        get_entry-first_signed read malloc content Inside Ok serves b'N' b'M' fuel a.rounds dev
          block (sua_at susp_skip offset dirent) (sua_length dirent) es a.memory a.inside a.area
          (omega (arith, a.few)) ok)

    pub name_of-Called :
        (fuel : ℕ) (dev : S) (name : Bytes)
        → Called name
        → depth ≤ fuel
        → offset < 2 ^ 31
        → Ok dev
        → NameIs (name_of read malloc rr susp_skip fuel dev block offset dirent) name
    unfolding name_of
    name_of-Called fuel dev _ (plainly plain inside) enough small ok =
        rw (plain, name_of) (read_name-stored dev ok small inside)
    name_of-Called fuel dev _ (without_entry {es} ridge a e inside) enough small ok =
        let (dev', runs, ok') = answer fuel dev es none a enough ok e in
        rw (ridge, runs, name_of) (read_name-stored dev' ok' small inside)
    name_of-Called fuel dev _ (without_name {es} {entry} ridge a e short inside) enough small ok =
        let (dev', runs, ok') = answer fuel dev es (some entry) a enough ok e in
        rw (ridge, runs, short, name_of) (read_name-stored dev' ok' small inside)
    name_of-Called fuel dev name (by_entry {es} {entry} ridge a e says) enough small ok =
        let (dev', runs, ok') = answer fuel dev es (some entry) a enough ok e in
        let runs' : name_of read malloc rr susp_skip fuel dev block offset dirent
            ≡ name_is name dev' =
          rw (ridge, runs, says, name_of) refl in
        (dev', runs', ok')
