-- ===== src/Install/Slb/Find.antt =====
-- The block that `find_rdb` of tools/parthenope-install.c finds.
use mathlib.Core.Option.{none-ne-some, some-injective}
use ub2lb.Prelude.{
  ℕ, zero, suc, ◌+◌, ◌<◌, ◌≡◌, ◌∙◌, sym, refl, ap, subst, Bool-cases, inl, inr, Option, none, some,
  ◌==◌, ==_iff, arith,
}
use ub2lb.Rdb.{Words, amiga_id, checksum, idname_rigiddisk, rdb_location_limit}
use ub2lb.Install.Free.{Device}
use ub2lb.Install.Slb.{
  read_block, tested, Finding, located, missing, overread, picked, find_rdb_loop, find_rdb,
}

-- The block that `find_rdb` finds.
pub record Found (dev : Device) (limit rdb_block : ℕ) (rdb : Words) : Type 0 where
  pub is : dev rdb_block ≡ rdb
  pub id : amiga_id rdb ≡ idname_rigiddisk
  pub low : rdb_block < limit

abbrev at : Finding → Option (ℕ × Words)
at (located rdb_block rdb) = some (rdb_block, rdb)
at missing = none
at overread = none

-- One round of the search, with what the block comes to and what the rest does.
round :
    (dev : Device) (i limit rdb_block : ℕ) (rdb : Words) (sum : Option ℕ) (rest : Finding)
    → i < limit
    → (rest ≡ located rdb_block rdb → Found dev limit rdb_block rdb)
    → picked i (tested (dev i) sum) rest ≡ located rdb_block rdb
    → Found dev limit rdb_block rdb
round dev i limit rdb_block rdb none rest less later e = absurd (none-ne-some _ (ap at e))
round dev i limit rdb_block rdb (some (suc n)) rest less later e = later e
round dev i limit rdb_block rdb (some zero) rest less later e =
    elim (Bool-cases (amiga_id (dev i) == idname_rigiddisk)) [
      | inl hit ↦
          let now : picked i (tested (dev i) (some 0)) rest ≡ located i (dev i) = rw hit refl in
          let here = sym now ∙ e in
          let both = some-injective _ _ (ap at here) in
          let same = ap (λ p. p.1) both in
          record {
            is = subst (λ k. dev k ≡ rdb) (ap (λ p. p.0) both) same;
            id =
                subst (λ b. amiga_id b ≡ idname_rigiddisk) same
                  ((==_iff (amiga_id (dev i)) idname_rigiddisk).0 hit);
            low = subst (λ k. k < limit) (ap (λ p. p.0) both) less;
          }
      | inr miss ↦
          let now : picked i (tested (dev i) (some 0)) rest ≡ rest = rw miss refl in
          later (sym now ∙ e)
    ]

find_rdb_loop-Found :
    (dev : Device) (n i limit rdb_block : ℕ) (rdb : Words)
    → i + n ≡ limit
    → find_rdb_loop dev n i ≡ located rdb_block rdb
    → Found dev limit rdb_block rdb
unfolding find_rdb_loop read_block
find_rdb_loop-Found dev zero i limit rdb_block rdb l e = absurd (none-ne-some _ (ap at e))
find_rdb_loop-Found dev (suc n) i limit rdb_block rdb l e =
    round dev i limit rdb_block rdb (checksum (dev i)) (find_rdb_loop dev n (i + 1)) (omega arith)
      (find_rdb_loop-Found dev n (i + 1) limit rdb_block rdb (omega arith)) e

pub find_rdb-Found :
    (dev : Device) (rdb_block : ℕ) (rdb : Words)
    → find_rdb dev ≡ located rdb_block rdb
    → Found dev rdb_location_limit rdb_block rdb
unfolding find_rdb
find_rdb-Found dev rdb_block rdb e =
    find_rdb_loop-Found dev rdb_location_limit 0 rdb_location_limit rdb_block rdb refl e
