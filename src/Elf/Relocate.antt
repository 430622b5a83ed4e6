-- ===== src/Elf/Relocate.antt =====
-- `relocate` of src/elf.c: the values it computes and the words and half-words it writes. The PowerPC is
-- big-endian. The symbol table and the relocations are arrays that no relocation changes.
pub mod Fields
pub mod Apply
pub mod Loop
use Prim.Native.Nat.{bit_and, bit_or}
use ub2lb.Prelude.{
  ℕ, zero, suc, ◌+◌, ◌-◌, ◌*◌, ◌/◌, ◌%◌, ◌^◌, Bool, true, false, not, ◌&&◌, Option, none, some,
  List, [], ◌∷◌, get_elem?, ◌==◌, if◌then◌else◌, Bytes,
}
use ub2lb.Prelude.Int.{is_zero}
use ub2lb.Support.{word, strncmp}
use ub2lb.Elf.{Memory, Sheader}

abbrev pub shn_undef : ℕ
shn_undef = 0

abbrev pub shn_abs : ℕ
shn_abs = 0xfff1

abbrev pub shn_common : ℕ
shn_common = 0xfff2

-- The types of relocation, by their numbers in elf.h.
abbrev pub r_ppc_none : ℕ
r_ppc_none = 0

abbrev pub r_ppc_addr32 : ℕ
r_ppc_addr32 = 1

abbrev pub r_ppc_addr16_lo : ℕ
r_ppc_addr16_lo = 4

abbrev pub r_ppc_addr16_ha : ℕ
r_ppc_addr16_ha = 6

abbrev pub r_ppc_rel24 : ℕ
r_ppc_rel24 = 10

abbrev pub r_ppc_rel32 : ℕ
r_ppc_rel32 = 26

-- The fields of `struct symbol` that `relocate` reads.
pub record Symbol : Type 0 where
  pub name : ℕ
  pub value : ℕ
  pub shindex : ℕ

-- `struct relo`; the addend is its 32-bit pattern.
pub record Relo : Type 0 where
  pub offset : ℕ
  pub info : ℕ
  pub addend : ℕ

unfoldable pub r_sym : ℕ → ℕ
r_sym info = info / 2 ^ 8

unfoldable pub r_type : ℕ → ℕ
r_type info = info % 2 ^ 8

unfoldable pub read_word : Memory → ℕ → ℕ
read_word mem p = mem p * 2 ^ 24 + mem (p + 1) * 2 ^ 16 + mem (p + 2) * 2 ^ 8 + mem (p + 3)

unfoldable pub write_half : ℕ → ℕ → Memory → Memory
write_half p v mem x = if x == p then v / 2 ^ 8 % 2 ^ 8 else if x == p + 1 then v % 2 ^ 8 else mem x

unfoldable pub write_word : ℕ → ℕ → Memory → Memory
write_word p v mem x =
    if x == p
    then v / 2 ^ 24 % 2 ^ 8
    else if x == p + 1
    then v / 2 ^ 16 % 2 ^ 8
    else if x == p + 2
    then v / 2 ^ 8 % 2 ^ 8
    else if x == p + 3
    then v % 2 ^ 8
    else mem x

unfoldable pub addr16_lo : ℕ → ℕ
addr16_lo v = bit_and v 0xffff

unfoldable pub addr16_ha : ℕ → ℕ
addr16_ha v = let c = v / 2 ^ 16 in if not (bit_and v 0x8000 == 0) then (c + 1) % 2 ^ 16 else c

-- `*p &= ~0x3fffffc; *p |= displacement & 0x3fffffc`
unfoldable pub rel24 : ℕ → ℕ → ℕ
rel24 old displacement =
    bit_or (bit_and old (2 ^ 32 - 1 - 0x3fffffc)) (bit_and displacement 0x3fffffc)

-- What the symbol stands for, with the offset to add and `SysBase_sym` afterwards. A symbol is known by
-- its index, as its address is in the source.
pub record Target : Type 0 where
  pub s : ℕ
  pub virtoffset : ℕ
  pub sysbase_sym : Option ℕ

pub data Resolved : Type 0 where
  found : Target → Resolved
  rejected : Resolved
  -- The source reads behind the section headers.
  wild : Resolved

unfoldable pub resolve_abs : (ℕ → Bytes) → ℕ → Symbol → ℕ → Option ℕ → Target
resolve_abs names i symbol virt none =
    if is_zero (strncmp (names symbol.name) (b'S' ∷ b'y' ∷ b's' ∷ b'B' ∷ b'a' ∷ b's' ∷ b'e' ∷ []) 8)
    then record { s = 4; virtoffset = 0; sysbase_sym = some i }
    else record { s = symbol.value; virtoffset = virt; sysbase_sym = none }
resolve_abs names i symbol virt (some base) =
    if base == i
    then record { s = 4; virtoffset = 0; sysbase_sym = some base }
    else record { s = symbol.value; virtoffset = virt; sysbase_sym = some base }

-- The first `switch`.
unfoldable pub resolve : List Sheader → (ℕ → Bytes) → ℕ → Symbol → ℕ → Option ℕ → Resolved
unfolding resolve_abs
resolve shs names i symbol virt sysbase_sym =
    if symbol.shindex == shn_undef
    then rejected
    else if symbol.shindex == shn_common
    then rejected
    else if symbol.shindex == shn_abs
    then found (resolve_abs names i symbol virt sysbase_sym)
    else elim (get_elem? shs symbol.shindex) [
      | none ↦ wild
      | some sh ↦ found (record {
        s = word (sh.addr + symbol.value);
        virtoffset = virt;
        sysbase_sym = sysbase_sym;
      })
    ]

-- The second `switch`, at address `p`: `none` where `relocate` returns 0.
unfoldable pub apply : ℕ → ℕ → ℕ → Target → Memory → Option Memory
unfolding read_word write_half write_word addr16_lo addr16_ha rel24
apply kind p addend t mem =
    let v = word (t.s + addend + t.virtoffset) in
    let displacement = word (t.s + addend + 2 ^ 32 - p) in
    if kind == r_ppc_addr32
    then some (write_word p v mem)
    else if kind == r_ppc_addr16_lo
    then some (write_half p (addr16_lo v) mem)
    else if kind == r_ppc_addr16_ha
    then some (write_half p (addr16_ha v) mem)
    else if kind == r_ppc_rel24
    then some (write_word p (rel24 (read_word mem p) displacement) mem)
    else if kind == r_ppc_rel32
    then some (write_word p displacement mem)
    else if kind == r_ppc_none
    then some mem
    else none

pub data Relocation : Type 0 where
  relocated : Memory → Relocation
  refused : Relocation
  astray : Relocation

-- The loop over the relocations of the section at `section`.
unfoldable pub relocate_loop :
    List Sheader → (ℕ → Symbol) → (ℕ → Bytes) → ℕ → ℕ → List Relo → Option ℕ → Memory → Relocation
unfolding r_sym r_type resolve apply
relocate_loop shs symtab names section virt [] sysbase_sym mem = relocated mem
relocate_loop shs symtab names section virt (rel ∷ rels) sysbase_sym mem =
    let i = r_sym rel.info in
    elim (resolve shs names i (symtab i) virt sysbase_sym) [
      | rejected ↦ refused
      | wild ↦ astray
      | found t ↦ elim (apply (r_type rel.info) (word (section + rel.offset)) rel.addend t mem) [
        | none ↦ refused
        | some mem' ↦ relocate_loop shs symtab names section virt rels t.sysbase_sym mem'
      ]
    ]

-- `SysBase_sym` is null at first.
unfoldable pub relocate :
    List Sheader → (ℕ → Symbol) → (ℕ → Bytes) → ℕ → ℕ → List Relo → Memory → Relocation
unfolding relocate_loop
relocate shs symtab names section virt rels mem =
    relocate_loop shs symtab names section virt rels none mem
