-- ===== src/Menu/Free/Faulty.antt =====
-- `menu_free` frees the entry that it is about to go on with.
use ub2lb.Prelude.{
  ℕ, suc, ◌≡◌, ◌≢◌, ◌∙◌, refl, sym, ap, arith, inl, inr, false, true, Option, Option-cases, none,
  some, ◌==◌, if◌then◌else◌,
}
use mathlib.Core.Option.{none-ne-some, some-injective}
use ub2lb.Menu.Free.{
  Object, string, menu_entry, Allocated, release, free_strings, free_entry, entry_free, undefined,
  next_pointer, menu_free,
}

-- An object that has been freed is no longer there.
release-gone : (p : ℕ) (mem mem' : Allocated) → release p mem ≡ some mem' → mem' p ≡ none
unfolding release
release-gone p mem mem' e = elim (Option-cases (mem p)) [
  | inl f ↦
      let fails : release p mem ≡ none = rw (f, release) refl in
      absurd (none-ne-some _ (sym fails ∙ e))
  | inr (object, f) ↦
      let runs : release p mem ≡ some (λ x. if x == p then none else mem x) =
        rw (f, release) refl in
      let same = some-injective _ _ (sym e ∙ runs) in
      let here : (p == p) ≡ true = ground arith in ap (λ m. m p) same ∙ rw here refl
]

free_entry-gone :
    (entry : ℕ) (object : Option Object) (mem mem' : Allocated)
    → free_entry entry object mem ≡ some mem'
    → mem' entry ≡ none
free_entry-gone entry none mem mem' e = absurd (none-ne-some _ e)
free_entry-gone entry (some string) mem mem' e = absurd (none-ne-some _ e)
free_entry-gone entry (some (menu_entry next strings)) mem mem' e =
    elim (Option-cases (free_strings strings mem)) [
      | inl f ↦
          let fails : free_entry entry (some (menu_entry next strings)) mem ≡ none =
            rw (f, free_entry) refl in
          absurd (none-ne-some _ (sym fails ∙ e))
      | inr (mem1, f) ↦
          let runs : free_entry entry (some (menu_entry next strings)) mem ≡ release entry mem1 =
            rw (f, free_entry) refl in
          release-gone entry mem1 mem' (sym runs ∙ e)
    ]

entry_free-gone :
    (entry : ℕ) (mem mem' : Allocated) → entry_free entry mem ≡ some mem' → mem' entry ≡ none
unfolding entry_free
entry_free-gone entry mem mem' e = free_entry-gone entry (mem entry) mem mem' e

entry_free-null : (entry : ℕ) (mem : Allocated) → mem entry ≡ none → entry_free entry mem ≡ none
unfolding entry_free
entry_free-null entry mem e = rw (e, free_entry) refl

-- The entry that is read next is not allocated.
menu_free-gone :
    (fuel self : ℕ) (mem : Allocated)
    → self ≢ 0
    → mem self ≡ none
    → menu_free (suc fuel) self mem ≡ undefined
unfolding menu_free
menu_free-gone fuel self mem n e =
    let some_self : (self == 0) ≡ false = ground arith in
    rw (some_self, e, next_pointer, menu_free) refl

-- On every menu that is not NULL, with NULL not allocated, `menu_free` runs into undefined behaviour in its second round at the latest: it
-- frees the entry behind the first one, which it then reads, or it passes NULL to `entry_free`, which reads it.
pub menu_free-undefined :
    (fuel self : ℕ) (mem : Allocated)
    → mem 0 ≡ none
    → self ≢ 0
    → menu_free (suc (suc fuel)) self mem ≡ undefined
unfolding menu_free
menu_free-undefined fuel self mem null n =
    let some_self : (self == 0) ≡ false = ground arith in
    elim (Option-cases (next_pointer (mem self))) [
      | inl e ↦ rw (some_self, e, menu_free) refl
      | inr (next, e) ↦ elim (Option-cases (entry_free next mem)) [
        | inl f ↦ rw (some_self, e, f, menu_free) refl
        | inr (mem', f) ↦
            let some_next : next ≢ 0 =
              λ z. none-ne-some _ (sym (entry_free-null next mem (ap mem z ∙ null)) ∙ f) in
            let on : menu_free (suc (suc fuel)) self mem ≡ menu_free (suc fuel) next mem' =
              rw (some_self, e, f, menu_free) refl in
            on ∙ menu_free-gone fuel next mem' some_next (entry_free-gone next mem mem' f)
      ]
    ]
