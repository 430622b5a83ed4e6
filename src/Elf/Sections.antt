-- ===== src/Elf/Sections.antt =====
-- The loading loop of `load_elf_file`: every section stays as it was loaded.
use Prim.Native.Nat.{bit_and}
use ub2lb.Prelude.{
  ℕ, ◌+◌, ◌-◌, ◌≤◌, ◌<◌, ◌≡◌, ◌∙◌, refl, ap, arith, some, ◌==◌, Bool-cases, inl, inr, true, false,
  ◌||◌, List, [], ◌∷◌, ◌++◌, All, length, leb, length-append,
}
use ub2lb.Support.{word}
use ub2lb.Elf.{
  Memory, Sheader, Loader, hunk_address, move_pointers, load_hunk, load_section, load_sections,
  read_block, clear, within, sht_symtab, sht_strtab, sht_nobits, max_bss_sections, kernel_virt_base,
  kernel_phys_base,
}
use ub2lb.Elf.Place.{
  needs_memory, IsPower, Kept, Room, content, Image, Kept-trans, Image-Kept, room, Place, placed,
}

-- One round of the loop with room for `n` bytes of later sections.
record Round (n : ℕ) (file : Memory) (file_addr : ℕ) (sh : Sheader) (st : Loader) : Type 0 where
  sh' : Sheader
  st' : Loader
  runs : load_section file file_addr sh st ≡ some (sh', st')
  kept : Kept st st'
  roomy : Room n st'
  rows : length st'.tracker ≤ length st.tracker + 1
  moved : sh' ≡ record sh { addr = sh'.addr }
  image : needs_memory sh ≡ true → Image file sh' st'

move_pointers-mem :
    (st : Loader) (sh : Sheader) (a x : ℕ) → (move_pointers st sh a).mem x ≡ st.mem x
unfolding move_pointers
move_pointers-mem st sh a x = elim (Bool-cases (bit_and sh.flags 1 == 0)) [
  | inl h ↦ rw h
  | inr h ↦ rw h
]

move_pointers-tracker :
    (st : Loader) (sh : Sheader) (a : ℕ) → (move_pointers st sh a).tracker ≡ st.tracker
unfolding move_pointers
move_pointers-tracker st sh a = elim (Bool-cases (bit_and sh.flags 1 == 0)) [
  | inl h ↦ rw h
  | inr h ↦ rw h
]

-- A write of the section's bytes at its place.
module _ (n : ℕ) (file : Memory) (sh : Sheader) (st : Loader)
    (place : Place n sh st (hunk_address st sh) (move_pointers st sh (hunk_address st sh)))
    (end : Loader) (ro : end.ptr_ro ≡ (move_pointers st sh (hunk_address st sh)).ptr_ro)
    (low : end.ptr_rw ≡ (move_pointers st sh (hunk_address st sh)).ptr_rw) where
  module _
      (outside : (x : ℕ)
        → within (hunk_address st sh) sh.size x ≡ false
        → end.mem x ≡ st.mem x) where
    written-Kept : Room n end → Kept st end
    written-Kept r = record {
      down = omega (arith, place.down);
      up = omega (arith, place.up);
      bytes = λ x h g. outside x (ground (arith, place.fresh));
    }

  written-Room : Room n end
  written-Room = record {
    order = omega (arith, place.roomy.order);
    below = omega (arith, place.roomy.below);
    above = omega (arith, place.roomy.above);
  }

  module _
      (inside : (i : ℕ) → i < sh.size → end.mem (hunk_address st sh + i) ≡ content file sh i) where
    written-Image : Image file (record sh { addr = hunk_address st sh }) end
    written-Image = record {
      left = omega (arith, place.left);
      right = omega (arith, place.right);
      aligned = place.aligned;
      bytes = inside;
    }

is_within : (a size i : ℕ) → i < size → within a size (a + i) ≡ true
is_within a size i h = ground arith

hunk :
    (n : ℕ) (file : Memory) (file_addr : ℕ) (sh : Sheader) (st : Loader)
    → needs_memory sh ≡ true
    → IsPower sh.addralign
    → Room (room sh + n) st
    → length st.tracker < max_bss_sections
    → Round n file file_addr sh st
unfolding load_section load_hunk move_pointers read_block clear
hunk n file file_addr sh st needs p r h =
    let a = hunk_address st sh in
    let place = placed n sh st p r in
    let is_loaded : load_section file file_addr sh st ≡ load_hunk file sh st = ground arith in
    let full : leb max_bss_sections (length st.tracker) ≡ false = ground arith in
    let size : (sh.size == 0) ≡ false = ground arith in
    elim (Bool-cases (sh.type_of == sht_nobits)) [
      | inl t ↦
          let moved = move_pointers st sh a in
          let end : Loader = record moved {
            mem = clear a sh.size moved.mem;
            tracker =
                moved.tracker ++ (word (a + kernel_virt_base - kernel_phys_base), sh.size) ∷ [];
          } in
          let roomy = written-Room n file sh st place end refl refl in
          record {
            sh' = record sh { addr = a };
            st' = end;
            runs = is_loaded ∙ rw (size, t, full) refl;
            kept =
                written-Kept n file sh st place end refl refl
                  (λ x o. rw o (move_pointers-mem st sh a x)) roomy;
            roomy = roomy;
            rows = omega (
              arith,
              length-append moved.tracker
                  ((word (a + kernel_virt_base - kernel_phys_base), sh.size) ∷ []),
              ap length (move_pointers-tracker st sh a),
            );
            moved = refl;
            image = λ _.
                written-Image n file sh st place end refl refl
                  (λ i o. rw (t, is_within a sh.size i o) refl);
          }
      | inr t ↦
          let moved = move_pointers st sh a in
          let end : Loader = record moved { mem = read_block file sh.offset a sh.size moved.mem } in
          let roomy = written-Room n file sh st place end refl refl in
          record {
            sh' = record sh { addr = a };
            st' = end;
            runs = is_loaded ∙ rw (size, t) refl;
            kept =
                written-Kept n file sh st place end refl refl
                  (λ x o. rw o (move_pointers-mem st sh a x)) roomy;
            roomy = roomy;
            rows = omega (arith, ap length (move_pointers-tracker st sh a));
            moved = refl;
            image = λ _. written-Image n file sh st place end refl refl (λ i o.
                rw (t, is_within a sh.size i o)
                  (ap (λ (d : ℕ). file (sh.offset + d)) (omega arith)));
          }
    ]

Kept-refl : (st : Loader) → Kept st st
Kept-refl st = record { down = omega arith; up = omega arith; bytes = λ _ _ _. refl }

-- A section that takes no memory changes nothing but, at most, its own address.
stays :
    (n : ℕ) (file : Memory) (file_addr addr : ℕ) (sh : Sheader) (st : Loader)
    → needs_memory sh ≡ false
    → Room (room sh + n) st
    → load_section file file_addr sh st ≡ some (record sh { addr = addr }, st)
    → Round n file file_addr sh st
stays n file file_addr addr sh st needs r e = record {
  sh' = record sh { addr = addr };
  st' = st;
  runs = e;
  kept = Kept-refl st;
  roomy = record {
    order = omega (arith, r.order);
    below = omega (arith, r.below);
    above = omega (arith, r.above);
  };
  rows = omega arith;
  moved = refl;
  image = λ h. ground arith;
}

idle :
    (n : ℕ) (file : Memory) (file_addr : ℕ) (sh : Sheader) (st : Loader)
    → needs_memory sh ≡ false
    → Room (room sh + n) st
    → Round n file file_addr sh st
unfolding load_section load_hunk
idle n file file_addr sh st needs r =
    elim (Bool-cases (sh.type_of == sht_symtab || sh.type_of == sht_strtab)) [
      | inl h ↦ stays n file file_addr (word (file_addr + sh.offset)) sh st needs r (rw h refl)
      | inr h ↦ elim (Bool-cases (bit_and sh.flags 2 == 0)) [
        | inl g ↦ stays n file file_addr sh.addr sh st needs r (rw (h, g) refl)
        | inr g ↦
            let empty : (sh.size == 0) ≡ true = ground arith in
            stays n file file_addr sh.addr sh st needs r (rw (h, g, empty) refl)
      ]
    ]

load_sections-step :
    (file : Memory) (file_addr : ℕ) (sh : Sheader) (rest : List Sheader) (st : Loader)
    {sh' : Sheader} {rest' : List Sheader} {st' end : Loader}
    → load_section file file_addr sh st ≡ some (sh', st')
    → load_sections file file_addr rest st' ≡ some (rest', end)
    → load_sections file file_addr (sh ∷ rest) st ≡ some (sh' ∷ rest', end)
unfolding load_sections
load_sections-step file file_addr sh rest st h g =
    rw (h, load_sections) (rw (g, load_sections) refl)

-- Every section of the second list is one of the first with its address, in `st` as it was loaded.
pub data Loaded (file : Memory) (st : Loader) : List Sheader → List Sheader → Type 0 where
  none_left : Loaded file st [] []
  one_more :
      {sh sh' : Sheader} {rest rest' : List Sheader}
      → sh' ≡ record sh { addr = sh'.addr }
      → (needs_memory sh ≡ true → Image file sh' st)
      → Loaded file st rest rest'
      → Loaded file st (sh ∷ rest) (sh' ∷ rest')

abbrev pub room_of : List Sheader → ℕ
room_of [] = 0
room_of (sh ∷ rest) = room sh + room_of rest

-- Suppose each section that takes memory is aligned to a power of two below 2^32, the memory has room
-- for all sections and twice their alignments on both sides of the pointers, and `tracker` has a row
-- for each. Then the loop succeeds; at its end each section that takes memory lies between the
-- pointers, at a multiple of its alignment, and holds its bytes of the file, or zeros for
-- SHT_NOBITS; and what lay between the pointers before it is kept.
pub load_sections-Loaded :
    (file : Memory) (file_addr : ℕ) (shs : List Sheader) (st : Loader)
    → All (λ sh. needs_memory sh ≡ true → IsPower sh.addralign) shs
    → Room (room_of shs) st
    → length st.tracker + length shs ≤ max_bss_sections
    → (shs' : List Sheader) × (end : Loader) × (load_sections file file_addr shs st
        ≡ some (shs', end))
      × Loaded file end shs shs'
      × Kept st end
unfolding load_sections
load_sections-Loaded file file_addr [] st p r h = ([], st, refl, none_left, Kept-refl st)
load_sections-Loaded file file_addr (sh ∷ rest) st p r h =
    let round : Round (room_of rest) file file_addr sh st = elim (Bool-cases (needs_memory sh)) [
      | inl e ↦ hunk (room_of rest) file file_addr sh st e (p.0 e) r (omega arith)
      | inr e ↦ idle (room_of rest) file file_addr sh st e r
    ] in
    let (rest', end, runs, loaded, kept) =
      load_sections-Loaded file file_addr rest round.st' (p.1) round.roomy
        (omega (arith, round.rows)) in
    (
      round.sh' ∷ rest',
      end,
      load_sections-step file file_addr sh rest st round.runs runs,
      one_more round.moved (λ e. Image-Kept (round.image e) kept) loaded,
      Kept-trans st round.st' end r.order round.kept kept,
    )
