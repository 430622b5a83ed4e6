-- ===== src/Elf/File/Patched.antt =====
-- `load_elf_file` on a file whose relocations are in order.
use ub2lb.Prelude.{
  ℕ, ◌+◌, ◌/◌, ◌≡◌, ◌≢◌, ◌∙◌, none, refl, ap, true, false, some, List, [], ◌∷◌, ◌==◌, All, set,
  arith,
}
use ub2lb.Support.{word}
use ub2lb.Elf.{Memory, Sheader, Loader, check_header, load_sections}
use ub2lb.Elf.Relocate.{relocated, Symbol}
use ub2lb.Elf.Relocate.Loop.{Handled, Separate, Applied, Spares, relocate-Applied}
use ub2lb.Elf.Register.{ModuleInfo, register_module, symbols_in, symbol_table}
use ub2lb.Elf.Register.Covers.{Indexed, register_module-some}
use ub2lb.Elf.File.{
  accepted, elfheader_at, sheaders_at, symbols_at, symbols_of, names_of, base_of, relos_of, virt,
  relocate_section, complete, located_at, needs_relocation, relocate_sections, registered,
  after_relocation, load_elf_file,
}

module _ (file table : ℕ) where
  -- What `relocate` makes of a section: `mem'` of `mem`.
  abbrev pub Relocates : List Sheader → Sheader → Memory → Memory → Type 0
  Relocates shs shrel mem mem' =
      Applied shs (symbols_of table shs shrel mem) (names_of table shs shrel mem)
        (base_of table shs shrel mem) virt mem mem' (relos_of shrel mem) none
      × ((x : ℕ)
          → All
              (Spares shs (symbols_of table shs shrel mem) (names_of table shs shrel mem)
                (base_of table shs shrel mem) virt x)
              (relos_of shrel mem)
          → mem' x ≡ mem x)

  -- The relocations of a section are ones that `relocate` handles, and their fields share no byte.
  pub record IsSound (shs : List Sheader) (shrel : Sheader) (mem : Memory) : Type 0 where
    pub has_address : shrel.addr ≢ 0
    pub has_entries : shrel.entsize ≢ 0
    pub handled :
        All
          (Handled shs
            (symbols_of table shs shrel mem)
            (names_of table shs shrel mem)
            (base_of table shs shrel mem)
            virt)
          (relos_of shrel mem)
    pub separate :
        Separate shs
          (symbols_of table shs shrel mem)
          (names_of table shs shrel mem)
          (base_of table shs shrel mem)
          virt
          (relos_of shrel mem)

  abbrev pub table_of : Memory → Sheader → List (Symbol × ℕ)
  table_of mem sh = symbols_at mem sh.addr (sh.size / 16)

  -- Each section that the loop relocates is sound when the loop comes to it, whatever the sections in front of it
  -- were made into; and in the end the symbols of the table that is registered name sections that there are.
  pub data Orderly : List Sheader → ℕ → List Sheader → Memory → Type 0 where
    finished :
        {i : ℕ} {shs : List Sheader} {mem : Memory}
        → Indexed shs (symbols_in (table_of mem) (symbol_table shs))
        → Orderly [] i shs mem
    skips :
        {sh : Sheader} {rest shs : List Sheader} {i : ℕ} {mem : Memory}
        → needs_relocation table shs sh mem ≡ false
        → Orderly rest (i + 1) shs mem
        → Orderly (sh ∷ rest) i shs mem
    takes :
        {sh : Sheader} {rest shs : List Sheader} {i : ℕ} {mem : Memory}
        → needs_relocation table shs sh mem ≡ true
        → IsSound (set shs i (located_at file sh)) (located_at file sh) mem
        → ((mem' : Memory)
            → Relocates (set shs i (located_at file sh)) (located_at file sh) mem mem'
            → Orderly rest (i + 1) (set shs i (located_at file sh)) mem')
        → Orderly (sh ∷ rest) i shs mem

  -- What the loop over `rest` makes of the headers and of the memory.
  pub data Patched : List Sheader → ℕ → List Sheader → Memory → List Sheader → Memory → Type 0 where
    unchanged : {i : ℕ} {shs : List Sheader} {mem : Memory} → Patched [] i shs mem shs mem
    passed :
        {sh : Sheader} {rest shs shs' : List Sheader} {i : ℕ} {mem mem' : Memory}
        → needs_relocation table shs sh mem ≡ false
        → Patched rest (i + 1) shs mem shs' mem'
        → Patched (sh ∷ rest) i shs mem shs' mem'
    patched :
        {sh : Sheader} {rest shs shs' : List Sheader} {i : ℕ} {mem mem1 mem' : Memory}
        → needs_relocation table shs sh mem ≡ true
        → Relocates (set shs i (located_at file sh)) (located_at file sh) mem mem1
        → Patched rest (i + 1) (set shs i (located_at file sh)) mem1 shs' mem'
        → Patched (sh ∷ rest) i shs mem shs' mem'

  relocate_section-Relocates :
      (shs : List Sheader) (shrel : Sheader) (mem : Memory)
      → IsSound shs shrel mem
      → (mem' : Memory) × (relocate_section table shs shrel mem ≡ relocated mem')
        × Relocates shs shrel mem mem'
  unfolding relocate_section
  relocate_section-Relocates shs shrel mem s =
      let (mem', runs, made, others) =
        relocate-Applied shs (symbols_of table shs shrel mem) (names_of table shs shrel mem)
          (base_of table shs shrel mem) virt (relos_of shrel mem) mem s.handled s.separate in
      let entries : (shrel.entsize == 0) ≡ false = ground (arith, s.has_entries) in
      (mem', rw entries runs, (made, others))

  relocate_sections-skips :
      (sh : Sheader) (rest : List Sheader) (i : ℕ) (shs : List Sheader) (mem : Memory)
      → needs_relocation table shs sh mem ≡ false
      → relocate_sections file table (sh ∷ rest) i shs mem
        ≡ relocate_sections file table rest (i + 1) shs mem
  unfolding relocate_sections
  relocate_sections-skips sh rest i shs mem w = rw (w, relocate_sections) refl

  relocate_sections-takes :
      (sh : Sheader) (rest : List Sheader) (i : ℕ) (shs : List Sheader) (mem mem' : Memory)
      → needs_relocation table shs sh mem ≡ true
      → (located_at file sh).addr ≢ 0
      → relocate_section table (set shs i (located_at file sh)) (located_at file sh) mem
        ≡ relocated mem'
      → relocate_sections file table (sh ∷ rest) i shs mem
        ≡ relocate_sections file table rest (i + 1) (set shs i (located_at file sh)) mem'
  unfolding relocate_sections
  relocate_sections-takes sh rest i shs mem mem' w a r =
      let at : (word (file + sh.offset) == 0) ≡ false = ground arith in
      rw (w, at, r, relocate_sections) refl

  relocate_sections-Patched :
      (rest : List Sheader) (i : ℕ) (shs : List Sheader) (mem : Memory)
      → Orderly rest i shs mem
      → (shs' : List Sheader) × (mem' : Memory) × (relocate_sections file table rest i shs mem
          ≡ complete shs' mem')
        × Patched rest i shs mem shs' mem'
        × Indexed shs' (symbols_in (table_of mem') (symbol_table shs'))
  unfolding relocate_sections
  relocate_sections-Patched [] i shs mem (finished named) = (shs, mem, refl, unchanged, named)
  relocate_sections-Patched (sh ∷ rest) i shs mem (skips w o) =
      let (shs', mem', runs, p, named) = relocate_sections-Patched rest (i + 1) shs mem o in
      (shs', mem', relocate_sections-skips sh rest i shs mem w ∙ runs, passed w p, named)
  relocate_sections-Patched (sh ∷ rest) i shs mem (takes w s o) =
      let next = set shs i (located_at file sh) in
      let (mem1, one, r) = relocate_section-Relocates next (located_at file sh) mem s in
      let (shs', mem', runs, p, named) =
        relocate_sections-Patched rest (i + 1) next mem1 (o mem1 r) in
      (
        shs',
        mem',
        relocate_sections-takes sh rest i shs mem mem1 w s.has_address one ∙ runs,
        patched w r p,
        named,
      )

-- Let the header of a file in memory be valid, and the loading loop succeed; let each section that
-- is then relocated be sound when the loop comes to it, with symbols and types that relocate
-- handles, and fields that share no byte; and let the symbols of the table that is registered name
-- sections that there are, once the relocations are made. Then load_elf_file returns 1: it
-- relocates one such section behind the other, from the memory that the one in front of it leaves,
-- with nothing else written, and it registers the module that register_module makes of the memory
-- and the headers in the end.
pub load_elf_file-Patched :
    (file : ℕ) (st st1 : Loader) (shs : List Sheader)
    → let eh = elfheader_at st.mem file in
      let table = word (file + eh.shoff) in
      check_header eh ≡ true
      → load_sections
          (λ offset. st.mem (word (file + offset)))
          file
          (sheaders_at st.mem table eh.shnum)
          st
        ≡ some (shs, st1)
      → Orderly file table shs 0 shs st1.mem
      → (shs' : List Sheader) × (mem' : Memory) × (m : ModuleInfo) × (load_elf_file file st
          ≡ accepted (record st1 { mem = mem' }) m)
        × (register_module (λ sh. symbols_at mem' sh.addr (sh.size / 16)) shs' eh.shstrndx ≡ some m)
        × Patched file table shs 0 shs st1.mem shs' mem'
unfolding load_elf_file
load_elf_file-Patched file st st1 shs valid loads orderly =
    let eh = elfheader_at st.mem file in
    let table = word (file + eh.shoff) in
    let (shs', mem', runs, p, named) =
      relocate_sections-Patched file table shs 0 shs st1.mem orderly in
    let (m, noted) =
      register_module-some (λ sh. symbols_at mem' sh.addr (sh.size / 16)) shs' eh.shstrndx named in
    let ends = ap (after_relocation st1 eh.shstrndx) runs in
    (
      shs',
      mem',
      m,
      rw (valid, loads, load_elf_file) (ends ∙ ap (registered (record st1 { mem = mem' })) noted),
      noted,
      p,
    )
