-- ===== src/Cdrom/Susp/Hangs.antt =====
-- A system use area that `iterate_entries` never leaves.
use ub2lb.Prelude.{
  ℕ, zero, suc, ◌+◌, ◌<◌, ◌≡◌, ◌∙◌, refl, ap, arith, Bool, true, some, Bytes, ltb, get_elem?,
  length,
}
use ub2lb.Cdrom.Susp.{Reader, kind_of, other, unfinished, iterate}

module _ {S : Type 0} (read : Reader S) (malloc : ℕ → Bool) where
  -- At an entry that is not wanted, and says that it has no bytes, in front of the last byte of the area, the loop never ends.
  pub iterate-hangs :
      (fuel a c : ℕ) (dev : S) (sua : Bytes) (ptr : ℕ)
      → kind_of a c sua ptr ≡ other
      → get_elem? sua (ptr + 2) ≡ some 0
      → ptr + 1 < length sua
      → iterate read malloc fuel a c dev sua ptr ≡ unfinished
  unfolding iterate
  iterate-hangs zero a c dev sua ptr k g h = refl
  iterate-hangs (suc fuel) a c dev sua ptr k g h =
      let same : ptr + 0 ≡ ptr = omega arith in
      let inside : ltb (ptr + 0 + 1) (length sua) ≡ true = ground arith in
      rw (k, g, inside, iterate)
        (ap (λ p. iterate read malloc fuel a c dev sua p) same
          ∙ iterate-hangs fuel a c dev sua ptr k g h)
