-- ===== src/Elf/Relocate/Fields.antt =====
-- What the instructions make of the fields that `relocate` writes.
use Prim.Native.Nat.{bit_and}
use ub2lb.Prelude.{ℕ, ◌+◌, ◌-◌, ◌*◌, ◌/◌, ◌%◌, ◌^◌, ◌<◌, ◌≡◌, ◌∙◌, ap, arith, leb, if◌then◌else◌}
use ub2lb.Prelude.Bits.{
  bit_and-fields, bit_or-fields, bit_and-ones, bit_and-zeros, bit_or-zeros, zeros-bit_or,
}
use ub2lb.Support.{word}
use ub2lb.Elf.Relocate.{addr16_lo, addr16_ha, rel24, read_word, write_word}

-- A half-word as the 32-bit number that `addi` and the loads add.
abbrev pub sign_extend : ℕ → ℕ
sign_extend h = if leb 0x8000 h then h + (2 ^ 32 - 2 ^ 16) else h

addr16_lo_lem : (v : ℕ) → v < 2 ^ 32 → addr16_lo v ≡ v % 2 ^ 16
unfolding addr16_lo
addr16_lo_lem v h =
    ap (λ (y : ℕ). bit_and y 0xffff) (omega arith)
    ∙ bit_and-fields 16 (v / 2 ^ 16) (v % 2 ^ 16) 0 0xffff (omega arith) (omega arith)
    ∙ omega (
      arith,
      bit_and-zeros 16 (v / 2 ^ 16) (omega arith),
      bit_and-ones 16 (v % 2 ^ 16) (omega arith),
    )

sign_bit : (v : ℕ) → v < 2 ^ 32 → bit_and v 0x8000 ≡ v / 2 ^ 15 % 2 * 2 ^ 15
sign_bit v h =
    ap (λ (y : ℕ). bit_and y 0x8000) (omega arith)
    ∙ bit_and-fields 16 (v / 2 ^ 16) (v / 2 ^ 15 % 2 * 2 ^ 15 + v % 2 ^ 15) 0 0x8000 (omega arith)
        (omega arith)
    ∙ omega (
      arith,
      bit_and-zeros 16 (v / 2 ^ 16) (omega arith),
      bit_and-fields 15 (v / 2 ^ 15 % 2) (v % 2 ^ 15) 1 0 (omega arith) (omega arith),
      bit_and-ones 1 (v / 2 ^ 15 % 2) (omega arith),
      bit_and-zeros 15 (v % 2 ^ 15) (omega arith),
    )

-- Of a 32-bit value, the high half that R_PPC_ADDR16_HA writes, shifted, and the sign-extended low half that
-- R_PPC_ADDR16_LO writes add up to the value.
pub addr16_ha-addr16_lo :
    (v : ℕ) → v < 2 ^ 32 → word (addr16_ha v * 2 ^ 16 + sign_extend (addr16_lo v)) ≡ v
unfolding addr16_ha
addr16_ha-addr16_lo v h = rw (addr16_lo_lem v h, sign_bit v h) (ground arith)

rel24-kept :
    (old : ℕ)
    → old < 2 ^ 32
    → bit_and old (2 ^ 32 - 1 - 0x3fffffc) ≡ old / 2 ^ 26 * 2 ^ 26 + (0 * 2 ^ 2 + old % 4)
rel24-kept old h =
    ap (λ (y : ℕ). bit_and y 0xfc000003) (omega arith)
    ∙ bit_and-fields 26 (old / 2 ^ 26) (old / 4 % 2 ^ 24 * 2 ^ 2 + old % 4) 0x3f 3 (omega arith)
        (omega arith)
    ∙ omega (
      arith,
      bit_and-ones 6 (old / 2 ^ 26) (omega arith),
      bit_and-fields 2 (old / 4 % 2 ^ 24) (old % 4) 0 3 (omega arith) (omega arith),
      bit_and-zeros 24 (old / 4 % 2 ^ 24) (omega arith),
      bit_and-ones 2 (old % 4) (omega arith),
    )

rel24-set : (d : ℕ) → d < 2 ^ 32 → bit_and d 0x3fffffc ≡ 0 * 2 ^ 26 + (d / 4 % 2 ^ 24 * 2 ^ 2 + 0)
rel24-set d h =
    ap (λ (y : ℕ). bit_and y 0x3fffffc) (omega arith)
    ∙ bit_and-fields 26 (d / 2 ^ 26) (d / 4 % 2 ^ 24 * 2 ^ 2 + d % 4) 0 0x3fffffc (omega arith)
        (omega arith)
    ∙ omega (
      arith,
      bit_and-zeros 6 (d / 2 ^ 26) (omega arith),
      bit_and-fields 2 (d / 4 % 2 ^ 24) (d % 4) 0xffffff 0 (omega arith) (omega arith),
      bit_and-ones 24 (d / 4 % 2 ^ 24) (omega arith),
      bit_and-zeros 2 (d % 4) (omega arith),
    )

-- Of 32-bit words, R_PPC_REL24 keeps the opcode and the two low bits of the instruction, and puts bits 2 to 25 of the
-- displacement between them.
pub rel24_lem :
    (old d : ℕ)
    → old < 2 ^ 32
    → d < 2 ^ 32
    → rel24 old d ≡ old / 2 ^ 26 * 2 ^ 26 + d / 4 % 2 ^ 24 * 4 + old % 4
unfolding rel24
rel24_lem old d h g =
    rw (rel24-kept old h, rel24-set d g)
      (bit_or-fields 26 (old / 2 ^ 26) (0 * 2 ^ 2 + old % 4) 0 (d / 4 % 2 ^ 24 * 2 ^ 2 + 0)
          (omega arith) (omega arith)
        ∙ omega (
          arith,
          bit_or-zeros 6 (old / 2 ^ 26) (omega arith),
          bit_or-fields 2 0 (old % 4) (d / 4 % 2 ^ 24) 0 (omega arith) (omega arith),
          bit_or-zeros 2 (old % 4) (omega arith),
          zeros-bit_or (d / 4 % 2 ^ 24),
        ))

-- Four bytes that are written as a word are read as that word.
pub read_word-write_word :
    (p v : ℕ) (mem : ℕ → ℕ) → v < 2 ^ 32 → read_word (write_word p v mem) p ≡ v
unfolding read_word write_word
read_word-write_word p v mem h = ground arith
