-- ===== src/Examples/Cdrom.antt =====
-- A disc of three sectors, read from the middle of one to the middle of another.
use ub2lb.Prelude.{
  ℕ, zero, suc, ◌+◌, ◌*◌, ◌≤◌, ◌≡◌, arith, some, none, Bytes, [], ◌∷◌, slice, leb, if◌then◌else◌,
}
use ub2lb.Cdrom.{Boot, BlockRead, cdrom_read}
use ub2lb.Cdrom.Read.{Disc, Good, Coherent, cdrom_read-Whole}

abbrev ramp : ℕ → Bytes
ramp zero = []
ramp (suc n) = n ∷ ramp n

abbrev block_read : BlockRead
block_read b n = if leb (b + n) 3 then some (slice (b * 2048) (n * 2048) (ramp 6144)) else none

in_range : (b n : ℕ) → b + n ≤ 3 → block_read b n ≡ some (slice (b * 2048) (n * 2048) (ramp 6144))
in_range b n h = ground arith

abbrev disc : Disc block_read
disc = record { bytes = ramp 6144; sectors = 3; addressable = omega arith; reads = in_range }

abbrev fresh : Boot
fresh = record { tmpbuf = []; sector_in_buf = 0xffffffff }

cdrom_read-Whole_example :
    Good
      (λ p. (p.dest ≡ slice 1000 4000 (ramp 6144)) × Coherent block_read disc p.boot)
      (cdrom_read block_read fresh 0 1000 4000)
cdrom_read-Whole_example =
    cdrom_read-Whole block_read disc fresh 0 1000 4000 (omega arith) (λ h. absurd (omega arith))
