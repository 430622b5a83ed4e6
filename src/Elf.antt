-- ===== src/Elf.antt =====
-- The ELF loader of src/elf.c and src/elf.h: where sections go, and how they are relocated. Memory
-- is a function from addresses to bytes; the file is one from offsets to bytes, and lies apart from
-- the memory that sections are loaded to. `unsigned long` has 32 bits.
pub mod Hunk
pub mod Place
pub mod Sections
pub mod Relocate
pub mod Register
pub mod File
use Prim.Native.Nat.{bit_and}
use ub2lb.Prelude.{
  ℕ, zero, suc, ◌+◌, ◌-◌, ◌*◌, ◌/◌, ◌%◌, ◌^◌, ◌≢◌, Bool, true, false, not, ◌&&◌, ◌||◌, Option, none,
  some, List, [], ◌∷◌, ◌++◌, ltb, leb, ◌==◌, if◌then◌else◌, Bytes, length,
}
use ub2lb.Support.{word}

abbrev pub kernel_phys_base : ℕ
kernel_phys_base = 0x00800000

abbrev pub kernel_virt_base : ℕ
kernel_virt_base = 0xff800000

abbrev pub max_bss_sections : ℕ
max_bss_sections = 1024

abbrev pub sht_symtab : ℕ
sht_symtab = 2

abbrev pub sht_strtab : ℕ
sht_strtab = 3

abbrev pub sht_rela : ℕ
sht_rela = 4

abbrev pub sht_nobits : ℕ
sht_nobits = 8

abbrev pub Memory : Type 0
Memory = ℕ → ℕ

-- The fields of `struct elfheader` that the loader reads.
pub record Elfheader : Type 0 where
  pub ident : ℕ → ℕ
  pub type_of : ℕ
  pub machine : ℕ
  pub shoff : ℕ
  pub shnum : ℕ
  pub shstrndx : ℕ

-- `struct sheader`
pub record Sheader : Type 0 where
  pub type_of : ℕ
  pub flags : ℕ
  pub addr : ℕ
  pub offset : ℕ
  pub size : ℕ
  pub link : ℕ
  pub info : ℕ
  pub addralign : ℕ
  pub entsize : ℕ

-- `ET_REL` is 1 and `EM_PPC` is 20.
unfoldable pub check_header : Elfheader → Bool
check_header eh =
    eh.ident 0 == 0x7f
    && eh.ident 1 == b'E'
    && eh.ident 2 == b'L'
    && eh.ident 3 == b'F'
    && eh.type_of == 1
    && eh.machine == 20

-- The static variables of elf.c, and the memory. `tracker` holds the rows in front of `bss_tracker`.
pub record Loader : Type 0 where
  pub mem : Memory
  pub ptr_ro : ℕ
  pub ptr_rw : ℕ
  pub tracker : List (ℕ × ℕ)

-- `x & ~(align - 1)`
unfoldable pub align_down : ℕ → ℕ → ℕ
align_down x align = bit_and x (2 ^ 32 - 1 - word (align + 2 ^ 32 - 1))

abbrev pub within : ℕ → ℕ → ℕ → Bool
within a size x = leb a x && ltb x (a + size)

-- `read_block` and `bzero`: what a byte at `x` is afterwards.
unfoldable pub read_block : Memory → ℕ → ℕ → ℕ → Memory → Memory
read_block file offset dest length mem x =
    if within dest length x then file (offset + (x - dest)) else mem x

unfoldable pub clear : ℕ → ℕ → Memory → Memory
clear dest length mem x = if within dest length x then 0 else mem x

-- The address that `load_hunk` chooses.
unfoldable pub hunk_address : Loader → Sheader → ℕ
unfolding align_down
hunk_address st sh =
    if bit_and sh.flags 1 == 0
    then align_down (word (st.ptr_ro + sh.addralign + 2 ^ 32 - 1)) sh.addralign
    else align_down (word (st.ptr_rw + 2 * 2 ^ 32 - sh.size - sh.addralign + 1)) sh.addralign

-- The two pointers behind it.
unfoldable pub move_pointers : Loader → Sheader → ℕ → Loader
move_pointers st sh ptr =
    if bit_and sh.flags 1 == 0
    then record st { ptr_ro = word (ptr + sh.size) }
    else record st { ptr_rw = ptr }

-- `none` where a row behind `tracker` is written.
unfoldable pub load_hunk : Memory → Sheader → Loader → Option (Sheader × Loader)
unfolding hunk_address move_pointers
load_hunk file sh st =
    let ptr = hunk_address st sh in
    let moved = move_pointers st sh ptr in
    if sh.size == 0
    then some (sh, st)
    else if not (sh.type_of == sht_nobits)
    then some (
      record sh { addr = ptr },
      record moved { mem = read_block file sh.offset ptr sh.size moved.mem },
    )
    else if leb max_bss_sections (length st.tracker)
    then none
    else some (
      record sh { addr = ptr },
      record moved {
        mem = clear ptr sh.size moved.mem;
        tracker = moved.tracker ++ (word (ptr + kernel_virt_base - kernel_phys_base), sh.size) ∷ [];
      },
    )

-- One round of the first loop of `load_elf_file`; `file_addr` is the address of the file.
unfoldable pub load_section : Memory → ℕ → Sheader → Loader → Option (Sheader × Loader)
load_section file file_addr sh st =
    if sh.type_of == sht_symtab || sh.type_of == sht_strtab
    then some (record sh { addr = word (file_addr + sh.offset) }, st)
    else if not (bit_and sh.flags 2 == 0)
    then load_hunk file sh st
    else some (sh, st)

-- The loop over the section headers.
unfoldable pub load_sections : Memory → ℕ → List Sheader → Loader → Option (List Sheader × Loader)
load_sections file file_addr [] st = some ([], st)
load_sections file file_addr (sh ∷ rest) st = elim (load_section file file_addr sh st) [
  | none ↦ none
  | some (sh', st') ↦ elim (load_sections file file_addr rest st') [
    | none ↦ none
    | some (rest', end) ↦ some (sh' ∷ rest', end)
  ]
]
