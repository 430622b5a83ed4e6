-- ===== src/Elf/Relocate/Apply.antt =====
-- `apply` touches nothing but the field of the relocation.
use ub2lb.Prelude.{
  ℕ, ◌+◌, ◌-◌, ◌^◌, ◌≡◌, ◌∙◌, refl, ap, arith, ◌==◌, if◌then◌else◌, some, true, false,
}
use ub2lb.Support.{word}
use ub2lb.Elf.{Memory, within}
use ub2lb.Elf.Relocate.{
  Target, apply, read_word, write_word, write_half, addr16_lo, addr16_ha, rel24, r_ppc_none,
  r_ppc_addr32, r_ppc_addr16_lo, r_ppc_addr16_ha, r_ppc_rel24, r_ppc_rel32,
}

-- The types of relocation that the second `switch` handles.
pub data Known : ℕ → Type 0 where
  is_none : {k : ℕ} → k ≡ r_ppc_none → Known k
  is_addr32 : {k : ℕ} → k ≡ r_ppc_addr32 → Known k
  is_addr16_lo : {k : ℕ} → k ≡ r_ppc_addr16_lo → Known k
  is_addr16_ha : {k : ℕ} → k ≡ r_ppc_addr16_ha → Known k
  is_rel24 : {k : ℕ} → k ≡ r_ppc_rel24 → Known k
  is_rel32 : {k : ℕ} → k ≡ r_ppc_rel32 → Known k

-- How many bytes a relocation writes.
abbrev pub width : ℕ → ℕ
width kind = if kind == r_ppc_addr16_lo then 2 else if kind == r_ppc_addr16_ha then 2 else 4

-- `result` is what `apply` makes of `mem`: it differs in the field at `p` only, and what is there hangs
-- on nothing but that field.
pub record Applies (kind p addend : ℕ) (t : Target) (mem : Memory) : Type 0 where
  pub result : Memory
  pub runs : apply kind p addend t mem ≡ some result
  pub outside : (x : ℕ) → within p (width kind) x ≡ false → result x ≡ mem x
  pub local :
      (other : Memory)
      → ((x : ℕ) → within p (width kind) x ≡ true → other x ≡ mem x)
      → (made : Memory) × (apply kind p addend t other ≡ some made)
        × ((x : ℕ) → within p (width kind) x ≡ true → made x ≡ result x)

read_word-same :
    (p : ℕ) (mem other : Memory)
    → ((x : ℕ) → within p 4 x ≡ true → other x ≡ mem x)
    → read_word other p ≡ read_word mem p
unfolding read_word
read_word-same p mem other h = omega (
  arith,
  h p (ground arith),
  h (p + 1) (ground arith),
  h (p + 2) (ground arith),
  h (p + 3) (ground arith),
)

write_word-outside :
    (p v : ℕ) (mem : Memory) (x : ℕ) → within p 4 x ≡ false → write_word p v mem x ≡ mem x
unfolding write_word
write_word-outside p v mem x h = ground arith

write_word-inside :
    (p v : ℕ) (mem other : Memory) (x : ℕ)
    → within p 4 x ≡ true
    → write_word p v mem x ≡ write_word p v other x
unfolding write_word
write_word-inside p v mem other x h = ground arith

write_half-outside :
    (p v : ℕ) (mem : Memory) (x : ℕ) → within p 2 x ≡ false → write_half p v mem x ≡ mem x
unfolding write_half
write_half-outside p v mem x h = ground arith

write_half-inside :
    (p v : ℕ) (mem other : Memory) (x : ℕ)
    → within p 2 x ≡ true
    → write_half p v mem x ≡ write_half p v other x
unfolding write_half
write_half-inside p v mem other x h = ground arith

pub applies :
    (kind p addend : ℕ) (t : Target) (mem : Memory) → Known kind → Applies kind p addend t mem
unfolding apply
applies kind p addend t mem (is_none e) = rw e (record {
  result = mem;
  runs = refl;
  outside = λ _ _. refl;
  local = λ other h. (other, refl, h);
})
applies kind p addend t mem (is_addr32 e) =
    let v = word (t.s + addend + t.virtoffset) in
    rw e (record {
      result = write_word p v mem;
      runs = refl;
      outside = write_word-outside p v mem;
      local = λ other h. (write_word p v other, refl, write_word-inside p v other mem);
    })
applies kind p addend t mem (is_addr16_lo e) =
    let v = addr16_lo (word (t.s + addend + t.virtoffset)) in
    rw e (record {
      result = write_half p v mem;
      runs = refl;
      outside = write_half-outside p v mem;
      local = λ other h. (write_half p v other, refl, write_half-inside p v other mem);
    })
applies kind p addend t mem (is_addr16_ha e) =
    let v = addr16_ha (word (t.s + addend + t.virtoffset)) in
    rw e (record {
      result = write_half p v mem;
      runs = refl;
      outside = write_half-outside p v mem;
      local = λ other h. (write_half p v other, refl, write_half-inside p v other mem);
    })
applies kind p addend t mem (is_rel24 e) =
    let d = word (t.s + addend + 2 ^ 32 - p) in
    rw e (record {
      result = write_word p (rel24 (read_word mem p) d) mem;
      runs = refl;
      outside = write_word-outside p (rel24 (read_word mem p) d) mem;
      local = λ other h. (
        write_word p (rel24 (read_word other p) d) other,
        refl,
        λ x o.
            write_word-inside p (rel24 (read_word other p) d) other mem x o
            ∙ ap (λ y. write_word p (rel24 y d) mem x) (read_word-same p mem other h),
      );
    })
applies kind p addend t mem (is_rel32 e) =
    let d = word (t.s + addend + 2 ^ 32 - p) in
    rw e (record {
      result = write_word p d mem;
      runs = refl;
      outside = write_word-outside p d mem;
      local = λ other h. (write_word p d other, refl, write_word-inside p d other mem);
    })
