-- ===== src/Cdrom/Susp/Served.antt =====
-- What is expected of a reader, and that `cdrom_read` of src/cdrom.c is one.
use ub2lb.Prelude.{ℕ, ◌+◌, ◌*◌, ◌≤◌, ◌≡◌, ap, some, Bytes, slice}
use ub2lb.Cdrom.{Boot, BlockRead, Reading}
use ub2lb.Cdrom.Read.{Disc, Good, good, Coherent, cdrom_read-Whole}
use ub2lb.Cdrom.Susp.{Reader, read_result, cdrom_reader}

-- A reader that keeps `Ok`, and then reads the bytes of a disc, where these are.
pub record Serves {S : Type 0} (read : Reader S) (content : ℕ → ℕ → ℕ → Bytes)
    (Inside : ℕ → ℕ → ℕ → Type 0) (Ok : S → Type 0) : Type 0 where
  pub reads :
      (dev : S) (block offset length : ℕ)
      → Ok dev
      → Inside block offset length
      → (dev' : S) × (read dev block offset length ≡ (some (content block offset length), dev'))
        × Ok dev'

served :
    {P : Boot → Type 0} (bytes : Bytes) (r : Reading)
    → Good (λ p. (p.dest ≡ bytes) × P p.boot) r
    → (dev' : Boot) × (read_result r ≡ (some bytes, dev')) × P dev'
served bytes _ (good {p} (e, c)) = (p.boot, ap (λ b. (some b, p.boot)) e, c)

-- `cdrom_read` with its cache serves a disc.
pub cdrom_reader-Serves :
    (block_read : BlockRead) (disc : Disc block_read)
    → Serves
        (cdrom_reader block_read)
        (λ b o n. slice (b * 2048 + o) n disc.bytes)
        (λ b o n. b * 2048 + o + n ≤ disc.sectors * 2048)
        (Coherent block_read disc)
cdrom_reader-Serves block_read disc = record {
  reads = λ dev block offset length c inside.
      served _ _ (cdrom_read-Whole block_read disc dev block offset length inside c);
}
