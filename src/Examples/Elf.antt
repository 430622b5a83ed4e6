-- ===== src/Examples/Elf.antt =====
-- Three sections and three relocations.
use ub2lb.Prelude.{
  inl, ◌⊎◌, ℕ, ◌+◌, ◌-◌, ◌*◌, ◌^◌, ◌≡◌, refl, arith, inl, inr, some, none, List, [], ◌∷◌, All,
  Bytes,
}
use ub2lb.Support.{word}
use ub2lb.Elf.{Memory, Sheader, Loader, load_sections, kernel_phys_base, kernel_virt_base}
use ub2lb.Elf.Place.{Kept}
use ub2lb.Elf.Sections.{Loaded, load_sections-Loaded}
use ub2lb.Elf.Relocate.{
  Symbol, Relo, addr16_ha, addr16_lo, rel24, r_type, relocate, relocated, read_word, write_word,
}
use ub2lb.Elf.Relocate.Apply.{Known}
use ub2lb.Elf.Relocate.Fields.{sign_extend, addr16_ha-addr16_lo, rel24_lem, read_word-write_word}
use ub2lb.Elf.Relocate.Loop.{Handled, Separate, Applied, Spares, relocate-Applied}
use ub2lb.Elf.Register.{ModuleInfo, register_module}
use ub2lb.Elf.Register.Range.{Within, Lowest, Highest}
use ub2lb.Elf.Register.Covers.{Registers, FirstTable, register_module-Covers}

abbrev text : Sheader
text = record {
  type_of = 1;
  flags = 6;
  addr = 0;
  offset = 52;
  size = 100;
  link = 0;
  info = 0;
  addralign = 16;
  entsize = 0;
}

abbrev bss : Sheader
bss = record {
  type_of = 8;
  flags = 3;
  addr = 0;
  offset = 152;
  size = 40;
  link = 0;
  info = 0;
  addralign = 8;
  entsize = 0;
}

abbrev symbols : Sheader
symbols = record {
  type_of = 2;
  flags = 0;
  addr = 0;
  offset = 152;
  size = 32;
  link = 0;
  info = 0;
  addralign = 0;
  entsize = 16;
}

abbrev image : Memory
image x = x

abbrev start : Loader
start = record {
  mem = λ x. 255;
  ptr_ro = kernel_phys_base;
  ptr_rw = kernel_phys_base;
  tracker = [];
}

load_sections-Loaded_example :
    (shs' : List Sheader) × (end : Loader) × (load_sections image 0x01000000
        (text ∷ bss ∷ symbols ∷ [])
        start
      ≡ some (shs', end))
    × Loaded image end (text ∷ bss ∷ symbols ∷ []) shs'
    × Kept start end
load_sections-Loaded_example =
    load_sections-Loaded image 0x01000000 (text ∷ bss ∷ symbols ∷ []) start
      (
        λ _. record { exponent = 4; rest = 27; total = refl; is = refl },
        (
          λ _. record { exponent = 3; rest = 28; total = refl; is = refl },
          (λ e. ground (arith, e), tt),
        ),
      )
      (record { order = omega arith; below = omega arith; above = omega arith }) (omega arith)

addr16_ha-addr16_lo_example :
    word (addr16_ha 0xff80_9abc * 2 ^ 16 + sign_extend (addr16_lo 0xff80_9abc)) ≡ 0xff80_9abc
addr16_ha-addr16_lo_example = addr16_ha-addr16_lo 0xff80_9abc (omega arith)

rel24_lem_example : rel24 0x4800_0001 0x0012_3456 ≡ 0x4812_3455
rel24_lem_example = rel24_lem 0x4800_0001 0x0012_3456 (omega arith) (omega arith)

read_word-write_word_example : read_word (write_word 8 0x0102_0304 image) 8 ≡ 0x0102_0304
read_word-write_word_example = read_word-write_word 8 0x0102_0304 image (omega arith)

-- One symbol, in the first section.
abbrev symtab : ℕ → Symbol
symtab i = record { name = 0; value = 8; shindex = 1 }

abbrev names : ℕ → Bytes
names i = []

abbrev sections : List Sheader
sections = text ∷ record text { addr = 0x0080_0000 } ∷ []

-- The high and the low half of the address in the instructions at 0 and 4, and a branch at 8.
abbrev relos : List Relo
relos =
    record { offset = 2; info = 6; addend = 4 }
    ∷ record { offset = 6; info = 4; addend = 4 }
    ∷ record { offset = 8; info = 10; addend = 0 }
    ∷ []

abbrev virt : ℕ
virt = kernel_virt_base - kernel_phys_base

defined :
    (rel : Relo) → Known (r_type rel.info) → Handled sections symtab names 0x0080_0000 virt rel
defined rel k = record {
  known = k;
  is_defined = λ e. ground (arith, e);
  is_own = λ e. ground (arith, e);
  place = inr (record text { addr = 0x0080_0000 }, refl);
}

handled : All (Handled sections symtab names 0x0080_0000 virt) relos
unfolding r_type
handled = (
  defined _ (Known.is_addr16_ha refl),
  (defined _ (Known.is_addr16_lo refl), (defined _ (Known.is_rel24 refl), tt)),
)

separate : Separate sections symtab names 0x0080_0000 virt relos
unfolding r_type
separate = ((inl (omega arith), (inl (omega arith), tt)), ((inl (omega arith), tt), (tt, tt)))

relocate-Applied_example :
    (mem' : Memory) × (relocate sections symtab names 0x0080_0000 virt relos image ≡ relocated mem')
    × Applied sections symtab names 0x0080_0000 virt image mem' relos none
    × ((x : ℕ) → All (Spares sections symtab names 0x0080_0000 virt x) relos → mem' x ≡ image x)
relocate-Applied_example =
    relocate-Applied sections symtab names 0x0080_0000 virt relos image handled separate

-- A symbol in the code, and one in the data.
abbrev file_symbols : Sheader → List (Symbol × ℕ)
file_symbols sh =
    (record { name = 1; value = 8; shindex = 0 }, 4)
    ∷ (record { name = 5; value = 0; shindex = 1 }, 4)
    ∷ []

abbrev placed : List Sheader
placed = record text { addr = 0x80_0000 } ∷ bss ∷ record symbols { addr = 152 } ∷ []

register_module-Covers_example :
    (m : ModuleInfo) × (register_module file_symbols placed 3 ≡ some m)
    × All (Within (m.m_lowest, m.m_highest)) placed
    × ((m.m_lowest ≡ 0xffff_ffff) ⊎ Lowest m.m_lowest placed)
    × ((m.m_highest ≡ 0) ⊎ Highest m.m_highest placed)
    × Registers placed (file_symbols (record symbols { addr = 152 })) m.m_symbols
register_module-Covers_example =
    register_module-Covers file_symbols placed 3 (some (record symbols { addr = 152 }))
      (FirstTable.table_behind (inl (λ e. ground (arith, e))) (
        FirstTable.table_behind (inl (λ e. ground (arith, e)))
          (FirstTable.table_here refl (λ e. ground (arith, e)))))
      (omega arith, (omega arith, tt))
