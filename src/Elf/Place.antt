-- ===== src/Elf/Place.antt =====
-- Where a section goes: `load_hunk` between the two pointers.
use Prim.Native.Nat.{bit_and}
use native.Mathlib.Nat.{one-le-pow}
use ub2lb.Prelude.{
  ℕ, suc, ◌+◌, ◌-◌, ◌*◌, ◌%◌, ◌^◌, ◌≤◌, ◌<◌, ◌≡◌, ◌∙◌, sym, subst, arith, ◌==◌, Bool, Bool-cases,
  inl, inr, ◌&&◌, ◌||◌, not, if◌then◌else◌, ◌⊎◌,
}
use ub2lb.Support.{word}
use ub2lb.Elf.{
  Memory, Sheader, Loader, align_down, hunk_address, move_pointers, sht_symtab, sht_strtab,
  sht_nobits,
}
use ub2lb.Elf.Hunk.{align_down-bounds}

-- The sections that `load_hunk` loads.
abbrev pub needs_memory : Sheader → Bool
needs_memory sh =
    not (sh.type_of == sht_symtab || sh.type_of == sht_strtab)
    && not (bit_and sh.flags 2 == 0)
    && not (sh.size == 0)

-- `align` is a power of two below 2^32.
pub record IsPower (align : ℕ) : Type 0 where
  pub exponent : ℕ
  pub rest : ℕ
  pub total : suc rest + exponent ≡ 32
  pub is : align ≡ 2 ^ exponent

-- The memory between the two pointers is kept, and only grows.
pub record Kept (st st' : Loader) : Type 0 where
  pub down : st'.ptr_rw ≤ st.ptr_rw
  pub up : st.ptr_ro ≤ st'.ptr_ro
  pub bytes : (x : ℕ) → st.ptr_rw ≤ x → x < st.ptr_ro → st'.mem x ≡ st.mem x

-- Between the pointers there is room for `n` bytes more on both sides.
pub record Room (n : ℕ) (st : Loader) : Type 0 where
  pub order : st.ptr_rw ≤ st.ptr_ro
  pub below : n ≤ st.ptr_rw
  pub above : st.ptr_ro + n < 2 ^ 32

abbrev pub content : Memory → Sheader → ℕ → ℕ
content file sh i = if sh.type_of == sht_nobits then 0 else file (sh.offset + i)

-- The section lies between the pointers, at a multiple of its alignment, with its bytes.
pub record Image (file : Memory) (sh : Sheader) (st : Loader) : Type 0 where
  pub left : st.ptr_rw ≤ sh.addr
  pub right : sh.addr + sh.size ≤ st.ptr_ro
  pub aligned : sh.addr % sh.addralign ≡ 0
  pub bytes : (i : ℕ) → i < sh.size → st.mem (sh.addr + i) ≡ content file sh i

pub Kept-trans : (a b c : Loader) → a.ptr_rw ≤ a.ptr_ro → Kept a b → Kept b c → Kept a c
Kept-trans a b c o p q = record {
  down = omega arith;
  up = omega arith;
  bytes = λ x h g. q.bytes x (omega (arith, p.down)) (omega (arith, p.up)) ∙ p.bytes x h g;
}

pub Image-Kept :
    {file : Memory} {sh : Sheader} {st st' : Loader}
    → Image file sh st
    → Kept st st'
    → Image file sh st'
Image-Kept {file} {sh} {st} {st'} m k = record {
  left = omega (arith, m.left, k.down);
  right = omega (arith, m.right, k.up);
  aligned = m.aligned;
  bytes =
      λ i h. k.bytes (sh.addr + i) (omega (arith, m.left)) (omega (arith, m.right)) ∙ m.bytes i h;
}

-- How much of the room a section takes at most.
abbrev pub room : Sheader → ℕ
room sh = sh.size + 2 * sh.addralign

-- Where the section goes: `a` is its address.
pub record Place (n : ℕ) (sh : Sheader) (st : Loader) (a : ℕ) (moved : Loader) : Type 0 where
  pub aligned : a % sh.addralign ≡ 0
  pub fresh : (st.ptr_ro ≤ a) ⊎ (a + sh.size ≤ st.ptr_rw)
  pub left : moved.ptr_rw ≤ a
  pub right : a + sh.size ≤ moved.ptr_ro
  pub down : moved.ptr_rw ≤ st.ptr_rw
  pub up : st.ptr_ro ≤ moved.ptr_ro
  pub roomy : Room n moved

align_down-IsPower :
    (align x : ℕ)
    → IsPower align
    → x < 2 ^ 32
    → (align_down x align ≤ x) × (x < align_down x align + align) × (align_down x align % align ≡ 0)
align_down-IsPower align x p h =
    subst (λ y. (align_down x y ≤ x) × (x < align_down x y + y) × (align_down x y % y ≡ 0))
      (sym p.is) (align_down-bounds (suc p.rest) p.exponent x p.total h)

positive : (align : ℕ) → IsPower align → 1 ≤ align
positive align p = omega (arith, p.is, one-le-pow p.exponent 2)

pub placed :
    (n : ℕ) (sh : Sheader) (st : Loader)
    → IsPower sh.addralign
    → Room (room sh + n) st
    → Place n sh st (hunk_address st sh) (move_pointers st sh (hunk_address st sh))
unfolding hunk_address move_pointers
placed n sh st p r =
    let one = positive sh.addralign p in
    let order = r.order in
    let below = r.below in
    let above = r.above in
    elim (Bool-cases (bit_and sh.flags 1 == 0)) [
      | inl h ↦
          let x = st.ptr_ro + sh.addralign - 1 in
          let e : word (st.ptr_ro + sh.addralign + 2 ^ 32 - 1) ≡ x = omega arith in
          let (le, lt, multiple) = align_down-IsPower sh.addralign x p (omega arith) in
          let sum : word (align_down x sh.addralign + sh.size)
              ≡ align_down x sh.addralign + sh.size =
            omega arith in
          rw (h, e, sum)
            (record {
              aligned = multiple;
              fresh = inl (omega arith);
              left = omega arith;
              right = omega arith;
              down = omega arith;
              up = omega arith;
              roomy = record { order = omega arith; below = omega arith; above = omega arith };
            })
      | inr h ↦
          let x = st.ptr_rw + 1 - sh.size - sh.addralign in
          let e : word (st.ptr_rw + 2 * 2 ^ 32 - sh.size - sh.addralign + 1) ≡ x = omega arith in
          let (le, lt, multiple) = align_down-IsPower sh.addralign x p (omega arith) in
          rw (h, e)
            (record {
              aligned = multiple;
              fresh = inr (omega arith);
              left = omega arith;
              right = omega arith;
              down = omega arith;
              up = omega arith;
              roomy = record { order = omega arith; below = omega arith; above = omega arith };
            })
    ]
