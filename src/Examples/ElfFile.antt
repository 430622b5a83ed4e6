-- ===== src/Examples/ElfFile.antt =====
-- An ELF file with a section of code, a table of two symbols, and one relocation.
use ub2lb.Prelude.{
  false, ℕ, set, zero, suc, ◌+◌, ◌/◌, ◌≡◌, refl, inr, some, List, [], ◌∷◌, ◌++◌, Bytes, arith,
}
use ub2lb.Support.{word}
use ub2lb.Elf.{
  within, Memory, Sheader, Loader, check_header, load_sections, load_section, load_hunk,
  hunk_address, align_down, move_pointers, kernel_phys_base,
}
use ub2lb.Elf
use ub2lb.Elf.Relocate.{read_word, r_type, r_sym}
use ub2lb.Elf.Relocate.Apply.{Known}
use ub2lb.Elf.Register.{ModuleInfo, register_module, symbol_table}
use ub2lb.Elf.Register.Covers.{Indexed}
use ub2lb.Elf.File.{
  Loading, accepted, invalid, wild, sheaders_at, symbols_at, buffered, load_elf_file, located_at,
}
use ub2lb.Elf.File.Patched.{
  Relocates, IsSound, Orderly, finished, skips, takes, Patched, load_elf_file-Patched,
}

abbrev zeros : ℕ → Bytes
zeros zero = []
zeros (suc n) = 0 ∷ zeros n

abbrev file_header : Bytes
file_header =
    (127 ∷ 69 ∷ 76 ∷ 70 ∷ [])
    ++ zeros 13
    ++ (1 ∷ 0 ∷ 20 ∷ [])
    ++ zeros 15
    ++ (104 ∷ [])
    ++ zeros 13
    ++ (4 ∷ 0 ∷ 0 ∷ [])

abbrev file_code : Bytes
file_code = (72 ∷ 0 ∷ 0 ∷ 1 ∷ 96 ∷ 0 ∷ 0 ∷ 0 ∷ [])

abbrev file_symtab : Bytes
file_symtab = zeros 23 ++ (4 ∷ 0 ∷ 0 ∷ 0 ∷ 4 ∷ 0 ∷ 0 ∷ 0 ∷ 1 ∷ [])

abbrev file_rela : Bytes
file_rela = zeros 6 ++ (1 ∷ 1 ∷ []) ++ zeros 4

abbrev code_header : Bytes
code_header =
    zeros 7
    ++ (1 ∷ 0 ∷ 0 ∷ 0 ∷ 6 ∷ [])
    ++ zeros 7
    ++ (52 ∷ 0 ∷ 0 ∷ 0 ∷ 8 ∷ [])
    ++ zeros 11
    ++ (4 ∷ [])
    ++ zeros 4

abbrev symtab_header : Bytes
symtab_header =
    zeros 7
    ++ (2 ∷ [])
    ++ zeros 11
    ++ (60 ∷ 0 ∷ 0 ∷ 0 ∷ 32 ∷ [])
    ++ zeros 11
    ++ (4 ∷ 0 ∷ 0 ∷ 0 ∷ 16 ∷ [])

abbrev rela_header : Bytes
rela_header =
    zeros 7
    ++ (4 ∷ [])
    ++ zeros 11
    ++ (92 ∷ 0 ∷ 0 ∷ 0 ∷ 12 ∷ 0 ∷ 0 ∷ 0 ∷ 2 ∷ 0 ∷ 0 ∷ 0 ∷ 1 ∷ 0 ∷ 0 ∷ 0 ∷ 4 ∷ 0 ∷ 0 ∷ 0 ∷ 12 ∷ [])

abbrev elf_file : Bytes
elf_file =
    file_header
    ++ file_code
    ++ file_symtab
    ++ file_rela
    ++ zeros 40
    ++ code_header
    ++ symtab_header
    ++ rela_header

abbrev at : ℕ
at = 0x0100_0000

abbrev start : Loader
unfolding buffered
start = record {
  mem = buffered at elf_file (λ x. 0);
  ptr_ro = kernel_phys_base;
  ptr_rw = kernel_phys_base;
  tracker = [];
}

abbrev unused : Sheader
unused = record {
  type_of = 0;
  flags = 0;
  addr = 0;
  offset = 0;
  size = 0;
  link = 0;
  info = 0;
  addralign = 0;
  entsize = 0;
}

abbrev code : Sheader
code = record unused {
  type_of = 1;
  flags = 6;
  addr = 0x80_0000;
  offset = 52;
  size = 8;
  addralign = 4;
}

abbrev symtab : Sheader
symtab = record unused {
  type_of = 2;
  addr = at + 60;
  offset = 60;
  size = 32;
  addralign = 4;
  entsize = 16;
}

abbrev rela : Sheader
rela = record unused {
  type_of = 4;
  offset = 92;
  size = 12;
  link = 2;
  info = 1;
  addralign = 4;
  entsize = 12;
}

abbrev placed : List Sheader
placed = unused ∷ code ∷ symtab ∷ rela ∷ []

abbrev loaded : Loader
loaded = record start {
  mem = Elf.read_block (λ offset. start.mem (word (at + offset))) 52 0x80_0000 8 start.mem;
  ptr_ro = 0x80_0008;
}

loads :
    load_sections
      (λ offset. start.mem (word (at + offset)))
      at
      (sheaders_at start.mem (at + 104) 4)
      start
    ≡ some (placed, loaded)
unfolding load_sections load_section load_hunk hunk_address align_down move_pointers Elf.read_block
    read_word buffered
loads = refl

rela-IsSound :
    IsSound at (at + 104) (set placed 3 (located_at at rela)) (located_at at rela) loaded.mem
unfolding Elf.read_block read_word buffered r_type r_sym
rela-IsSound = record {
  has_address = λ e. ground (arith, e);
  has_entries = λ e. ground (arith, e);
  handled = (
    record {
      known = Known.is_addr32 refl;
      is_defined = λ e. ground (arith, e);
      is_own = λ e. ground (arith, e);
      place = inr (code, refl);
    },
    tt,
  );
  separate = (tt, tt);
}

-- The table of symbols is read from the last memory, which has it as it was: the one field lies elsewhere.
named :
    (mem' : Memory)
    → Relocates at
        (at + 104)
        (set placed 3 (located_at at rela))
        (located_at at rela)
        loaded.mem
        mem'
    → Indexed (set placed 3 (located_at at rela)) (symbols_at mem' (at + 60) 2)
unfolding Elf.read_block read_word buffered r_type r_sym
named mem' (made, others) =
    let kept = λ (x : ℕ) (o : within 0x80_0000 4 x ≡ false). others x (o, tt) in
    let first0 : mem' (at + 74) ≡ 0 = kept (at + 74) refl in
    let first1 : mem' (at + 75) ≡ 0 = kept (at + 75) refl in
    let second0 : mem' (at + 90) ≡ 0 = kept (at + 90) refl in
    let second1 : mem' (at + 91) ≡ 1 = kept (at + 91) refl in
    (omega (arith, first0, first1), (omega (arith, second0, second1), tt))

orderly : Orderly at (at + 104) placed 0 placed loaded.mem
unfolding symbol_table
orderly =
    skips refl
      (skips refl (skips refl (takes refl rela-IsSound (λ mem' r. finished (named mem' r)))))

load_elf_file-Patched_example :
    (shs' : List Sheader) × (mem' : Memory) × (m : ModuleInfo) × (load_elf_file at start
      ≡ accepted (record loaded { mem = mem' }) m)
    × (register_module (λ sh. symbols_at mem' sh.addr (sh.size / 16)) shs' 0 ≡ some m)
    × Patched at (at + 104) placed 0 placed loaded.mem shs' mem'
unfolding check_header read_word buffered
load_elf_file-Patched_example = load_elf_file-Patched at start loaded placed refl loads orderly

-- The first word of the code holds the virtual address of the symbol.
abbrev first_word : Loading → ℕ
first_word (accepted st m) = read_word st.mem 0x80_0000
first_word invalid = 0
first_word wild = 0

relocated_word : first_word (load_elf_file at start) ≡ 0xff80_0004
unfolding load_elf_file load_sections load_section load_hunk hunk_address align_down move_pointers
    Elf.read_block read_word buffered check_header
relocated_word = refl
