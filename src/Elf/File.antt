-- ===== src/Elf/File.antt =====
-- `load_elf_file` of src/elf.c as a whole, on a memory that holds the file. The structures of src/elf.h are read as the
-- PowerPC does, big-endian.
pub mod Patched
use ub2lb.Prelude.{
  Bool, ℕ, zero, suc, ◌+◌, ◌-◌, ◌*◌, ◌/◌, ◌%◌, ◌^◌, not, ◌&&◌, Option, none, some, List, [], ◌∷◌,
  ◌==◌, ◌≡◌, ◌⊎◌, inl, inr, refl, if◌then◌else◌, Bytes, length, get_elem?, get_or, set,
}
use ub2lb.Support.{word}
use ub2lb.Elf.{
  Memory, Elfheader, Sheader, Loader, check_header, within, load_sections, sht_rela,
  kernel_phys_base, kernel_virt_base,
}
use ub2lb.Elf.Relocate.{Symbol, Relo, read_word, Relocation, relocated, refused, astray, relocate}
use ub2lb.Elf.Register.{ModuleInfo, register_module}

abbrev pub read_half : Memory → ℕ → ℕ
read_half mem p = mem p * 2 ^ 8 + mem (p + 1)

abbrev pub elfheader_at : Memory → ℕ → Elfheader
elfheader_at mem p = record {
  ident = λ i. mem (p + i);
  type_of = read_half mem (p + 16);
  machine = read_half mem (p + 18);
  shoff = read_word mem (p + 32);
  shnum = read_half mem (p + 48);
  shstrndx = read_half mem (p + 50);
}

abbrev pub sheader_at : Memory → ℕ → Sheader
sheader_at mem p = record {
  type_of = read_word mem (p + 4);
  flags = read_word mem (p + 8);
  addr = read_word mem (p + 12);
  offset = read_word mem (p + 16);
  size = read_word mem (p + 20);
  link = read_word mem (p + 24);
  info = read_word mem (p + 28);
  addralign = read_word mem (p + 32);
  entsize = read_word mem (p + 36);
}

abbrev pub symbol_at : Memory → ℕ → Symbol
symbol_at mem p = record {
  name = read_word mem p;
  value = read_word mem (p + 4);
  shindex = read_half mem (p + 14);
}

abbrev pub relo_at : Memory → ℕ → Relo
relo_at mem p = record {
  offset = read_word mem p;
  info = read_word mem (p + 4);
  addend = read_word mem (p + 8);
}

-- `n` section headers, relocations, and symbols with their sizes, one behind the other.
abbrev pub sheaders_at : Memory → ℕ → ℕ → List Sheader
sheaders_at mem p zero = []
sheaders_at mem p (suc n) = sheader_at mem p ∷ sheaders_at mem (p + 40) n

abbrev pub relos_at : Memory → ℕ → ℕ → List Relo
relos_at mem p zero = []
relos_at mem p (suc n) = relo_at mem p ∷ relos_at mem (p + 12) n

abbrev pub symbols_at : Memory → ℕ → ℕ → List (Symbol × ℕ)
symbols_at mem p zero = []
symbols_at mem p (suc n) = (symbol_at mem p, read_word mem (p + 8)) ∷ symbols_at mem (p + 16) n

-- The string at `p`, of which `n` bytes are looked at.
abbrev pub name_at : Memory → ℕ → ℕ → Bytes
name_at mem p zero = []
name_at mem p (suc n) = let rest = name_at mem (p + 1) n in if mem p == 0 then [] else mem p ∷ rest

-- `sh[i]`, also behind the last header; `sh` is at `table`.
abbrev pub header_at : Memory → ℕ → List Sheader → ℕ → Sheader
header_at mem table shs i = elim (get_elem? shs i) [
  | some sh ↦ sh
  | none ↦ sheader_at mem (word (table + i * 40))
]

abbrev pub virt : ℕ
virt = kernel_virt_base - kernel_phys_base

-- The arguments of the loop in `relocate`: the symbols, their names, where the section to relocate is, and the
-- relocations, for the section `shrel`.
abbrev pub symbols_of : ℕ → List Sheader → Sheader → Memory → ℕ → Symbol
symbols_of table shs shrel mem i =
    symbol_at mem (word ((header_at mem table shs shrel.link).addr + i * 16))

abbrev pub names_of : ℕ → List Sheader → Sheader → Memory → ℕ → Bytes
names_of table shs shrel mem name =
    let strings = header_at mem table shs (header_at mem table shs shrel.link).link in
    name_at mem (word (strings.addr + name)) 8

abbrev pub base_of : ℕ → List Sheader → Sheader → Memory → ℕ
base_of table shs shrel mem = (header_at mem table shs shrel.info).addr

abbrev pub relos_of : Sheader → Memory → List Relo
relos_of shrel mem = relos_at mem shrel.addr (shrel.size / shrel.entsize)

-- The call of `relocate` for the section `shrel`; also astray where it divides by zero.
unfoldable pub relocate_section : ℕ → List Sheader → Sheader → Memory → Relocation
unfolding relocate
relocate_section table shs shrel mem =
    if shrel.entsize == 0
    then astray
    else relocate shs (symbols_of table shs shrel mem) (names_of table shs shrel mem)
        (base_of table shs shrel mem) virt (relos_of shrel mem) mem

-- How the loop over the sections ends: with the headers and the memory, with 0, or in undefined behaviour.
pub data Stage : Type 0 where
  complete : List Sheader → Memory → Stage
  stopped : Stage
  lost : Stage

-- `sh[i].addr` as it is set in front of the call of `relocate`.
abbrev pub located_at : ℕ → Sheader → Sheader
located_at file sh = record sh { addr = word (file + sh.offset) }

-- A section with relocations for one that has an address.
abbrev pub needs_relocation : ℕ → List Sheader → Sheader → Memory → Bool
needs_relocation table shs sh mem =
    sh.type_of == sht_rela && not ((header_at mem table shs sh.info).addr == 0)

-- The loop over the section headers `rest`, of which the first is number `i` of `shs`.
unfoldable pub relocate_sections : ℕ → ℕ → List Sheader → ℕ → List Sheader → Memory → Stage
unfolding relocate_section
relocate_sections file table [] i shs mem = complete shs mem
relocate_sections file table (sh ∷ rest) i shs mem =
    let skipped = relocate_sections file table rest (i + 1) shs mem in
    let shrel = located_at file sh in
    let shs' = set shs i shrel in
    if needs_relocation table shs sh mem
    then (if shrel.addr == 0 then stopped else elim (relocate_section table shs' shrel mem) [
      | refused ↦ stopped
      | astray ↦ lost
      | relocated mem' ↦ relocate_sections file table rest (i + 1) shs' mem'
    ])
    else skipped

-- What `load_elf_file` comes to: 1, with the static variables and the module; 0; or undefined behaviour, where it
-- writes behind `tracker`, divides by zero, or takes a header behind the last one for the section of a symbol.
pub data Loading : Type 0 where
  accepted : Loader → ModuleInfo → Loading
  invalid : Loading
  wild : Loading

abbrev pub registered : Loader → Option ModuleInfo → Loading
registered st none = wild
registered st (some m) = accepted st m

abbrev pub after_relocation : Loader → ℕ → Stage → Loading
after_relocation st shstrndx (complete shs mem) =
    registered (record st { mem = mem })
      (register_module (λ sh. symbols_at mem sh.addr (sh.size / 16)) shs shstrndx)
after_relocation st shstrndx stopped = invalid
after_relocation st shstrndx lost = wild

abbrev pub after_sections : ℕ → ℕ → ℕ → Option (List Sheader × Loader) → Loading
after_sections file table shstrndx none = wild
after_sections file table shstrndx (some (shs, st)) =
    after_relocation st shstrndx (relocate_sections file table shs 0 shs st.mem)

pub Loading-cases :
    (l : Loading)
    → ((st : Loader) × (m : ModuleInfo) × (l ≡ accepted st m)) ⊎ (l ≡ invalid) ⊎ (l ≡ wild)
Loading-cases (accepted st m) = inl (st, m, refl)
Loading-cases invalid = inr (inl refl)
Loading-cases wild = inr (inr refl)

-- The file is in memory, at `file`.
unfoldable pub load_elf_file : ℕ → Loader → Loading
unfolding check_header load_sections relocate_sections register_module read_word
load_elf_file file st =
    let eh = elfheader_at st.mem file in
    let table = word (file + eh.shoff) in
    if check_header eh
    then after_sections file table eh.shstrndx (
        load_sections (λ offset. st.mem (word (file + offset))) file
          (sheaders_at st.mem table eh.shnum) st)
    else invalid

-- The memory with a file that a driver has put to a buffer.
unfoldable pub buffered : ℕ → Bytes → Memory → Memory
buffered p bytes mem x = if within p (length bytes) x then get_or bytes (x - p) 0 else mem x

abbrev pub load_elf_bytes : ℕ → Bytes → Loader → Loading
load_elf_bytes p bytes st = load_elf_file p (record st { mem = buffered p bytes st.mem })
