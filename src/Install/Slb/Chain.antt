-- ===== src/Install/Slb/Chain.antt =====
-- Chains of boot blocks, and the free blocks that `install_slb` takes.
use ub2lb.Prelude.{
  ℕ, zero, suc, ◌+◌, ◌-◌, ◌≤◌, ◌<◌, ◌≡◌, ◌≢◌, ◌∙◌, refl, sym, subst, ap, Bool-cases, inl, inr, true,
  false, Option, none, some, List, [], ◌∷◌, ◌++◌, ltb, ◌==◌, if◌then◌else◌, take, drop, length, All,
  arith,
}
use mathlib.Core.Bool.{true≢false}
use ub2lb.Rdb.{Words, amiga_id, amiga_summed_longs, checksum}
use ub2lb.Install.Free.{Device, is_free, idname_boot, next_free_loop, next_free_block}
use ub2lb.Install.Slb.{idname_free, bcb_next, Slb, words_from}

-- What the boot block `blk` gives, with `rest` behind it; the first five words are its head.
abbrev chunk : Words → Option Words → Option Words
chunk blk none = none
chunk blk (some words) =
    if amiga_id blk == idname_boot
    then elim (checksum blk) [
      | none ↦ none
      | some sum ↦
          if sum == 0 then some (take (amiga_summed_longs blk - 5) (drop 5 blk) ++ words) else none
    ]
    else none

-- What a boot ROM loads: the words of a chain of boot blocks, of which each has a good checksum.
unfoldable pub load_chain : Device → ℕ → ℕ → Option Words
load_chain dev zero block = none
load_chain dev (suc fuel) block =
    let rest = load_chain dev fuel (bcb_next (dev block)) in
    if block == idname_free then some [] else chunk (dev block) rest

-- The next free blocks behind `from`, up to `nblocks`, as the search meets them.
pub data FreeList (dev : Device) (nblocks : ℕ) : ℕ → List ℕ → Type 0 where
  last : {from : ℕ} → FreeList dev nblocks from []
  more :
      {from b : ℕ} {bs : List ℕ}
      → from < b
      → b ≤ nblocks
      → is_free (dev b) ≡ true
      → ((i : ℕ) → from < i → i < b → is_free (dev i) ≡ false)
      → FreeList dev nblocks b bs
      → FreeList dev nblocks from (b ∷ bs)

next_free_loop-found :
    (dev : Device) (nblocks fuel from b : ℕ)
    → b ≤ from + fuel
    → from < b
    → b ≤ nblocks
    → is_free (dev b) ≡ true
    → ((i : ℕ) → from < i → i < b → is_free (dev i) ≡ false)
    → next_free_loop dev nblocks fuel from ≡ some (some b)
unfolding next_free_loop
next_free_loop-found dev nblocks zero from b h less inside free others = absurd (omega arith)
next_free_loop-found dev nblocks (suc fuel) from b h less inside free others =
    elim (Bool-cases (from + 1 == b)) [
      | inl e ↦ let same : from + 1 ≡ b = ground arith in rw (same, free, next_free_loop) refl
      | inr e ↦
          let far : from + 1 < b = ground arith in
          let used = others (from + 1) (omega arith) far in
          let go_on : ltb (from + 1) nblocks ≡ true = ground arith in
          rw (used, go_on, next_free_loop)
            (next_free_loop-found dev nblocks fuel (from + 1) b (omega arith) far inside free
              (λ i p q. others i (omega arith) q))
    ]

pub next_free_block-found :
    (dev : Device) (nblocks from b : ℕ)
    → from < b
    → b ≤ nblocks
    → is_free (dev b) ≡ true
    → ((i : ℕ) → from < i → i < b → is_free (dev i) ≡ false)
    → next_free_block dev nblocks from ≡ some (some b)
unfolding next_free_block
next_free_block-found dev nblocks from b less inside free others =
    next_free_loop-found dev nblocks (nblocks - from + 1) from b (omega arith) less inside free
      others

pub length-words_from : (slb : Slb) (offset n : ℕ) → length (words_from slb offset n) ≡ n
length-words_from slb offset zero = refl
length-words_from slb offset (suc n) = omega (arith, length-words_from slb (offset + 1) n)

pub take-words_from :
    (slb : Slb) (offset n m : ℕ)
    → n ≤ m
    → take n (words_from slb offset m) ≡ words_from slb offset n
take-words_from slb offset zero m h = refl
take-words_from slb offset (suc n) zero h = absurd (omega arith)
take-words_from slb offset (suc n) (suc m) h =
    ap (λ r. slb offset ∷ r) (take-words_from slb (offset + 1) n m (omega arith))

pub words_from-add :
    (slb : Slb) (offset n m : ℕ)
    → words_from slb offset (n + m) ≡ words_from slb offset n ++ words_from slb (offset + n) m
words_from-add slb offset zero m =
    ap (λ (k : ℕ). words_from slb offset k) (omega arith)
    ∙ ap (λ (k : ℕ). words_from slb k m) (omega arith)
words_from-add slb offset (suc n) m =
    let sum : suc n + m ≡ suc (n + m) = omega arith in
    let next : offset + 1 + n ≡ offset + suc n = omega arith in
    ap (λ (k : ℕ). words_from slb offset k) sum
    ∙ ap (λ r. slb offset ∷ r)
        (words_from-add slb (offset + 1) n m
          ∙ ap (λ (k : ℕ). words_from slb (offset + 1) n ++ words_from slb k m) next)

chunk-good :
    (blk words : Words)
    → amiga_id blk ≡ idname_boot
    → checksum blk ≡ some 0
    → chunk blk (some words) ≡ some (take (amiga_summed_longs blk - 5) (drop 5 blk) ++ words)
chunk-good blk words id sum =
    let id' : (amiga_id blk == idname_boot) ≡ true = ground arith in rw (id', sum) refl

load_chain-step :
    (dev : Device) (fuel block : ℕ) (blk words : Words)
    → block ≢ idname_free
    → dev block ≡ blk
    → amiga_id blk ≡ idname_boot
    → checksum blk ≡ some 0
    → load_chain dev fuel (bcb_next blk) ≡ some words
    → load_chain dev (suc fuel) block
      ≡ some (take (amiga_summed_longs blk - 5) (drop 5 blk) ++ words)
unfolding load_chain
load_chain-step dev fuel block blk words n e id sum rest =
    let n' : (block == idname_free) ≡ false = ground arith in
    let tail : load_chain dev fuel (bcb_next (dev block)) ≡ some words = rw e rest in
    rw (n', load_chain) (rw tail (ap (λ b. chunk b (some words)) e ∙ chunk-good blk words id sum))

load_chain-end_suc : (dev : Device) (fuel : ℕ) → load_chain dev (suc fuel) idname_free ≡ some []
unfolding load_chain
load_chain-end_suc dev fuel = refl

pub load_chain-end :
    (dev : Device) (fuel : ℕ) → 0 < fuel → load_chain dev fuel idname_free ≡ some []
load_chain-end dev zero h = absurd (omega arith)
load_chain-end dev (suc fuel) h = load_chain-end_suc dev fuel

-- A good boot block, and the chain behind it.
pub load_chain-cons :
    (dev : Device) (fuel block : ℕ) (blk payload words : Words)
    → 0 < fuel
    → block ≢ idname_free
    → dev block ≡ blk
    → amiga_id blk ≡ idname_boot
    → checksum blk ≡ some 0
    → take (amiga_summed_longs blk - 5) (drop 5 blk) ≡ payload
    → load_chain dev (fuel - 1) (bcb_next blk) ≡ some words
    → load_chain dev fuel block ≡ some (payload ++ words)
load_chain-cons dev zero block blk payload words h n e id sum content rest = absurd (omega arith)
load_chain-cons dev (suc fuel) block blk payload words h n e id sum content rest =
    let one_less : fuel ≡ suc fuel - 1 = omega arith in
    load_chain-step dev fuel block blk words n e id sum
      (ap (λ k. load_chain dev k (bcb_next blk)) one_less ∙ rest)
    ∙ ap (λ r. some (r ++ words)) content

-- The search looks only at what is free behind `from`.
pub FreeList-free :
    (dev dev' : Device) (nblocks from : ℕ) (bs : List ℕ)
    → ((x : ℕ) → from < x → x ≤ nblocks → is_free (dev' x) ≡ is_free (dev x))
    → FreeList dev nblocks from bs
    → FreeList dev' nblocks from bs
FreeList-free dev dev' nblocks from [] same last = last
FreeList-free dev dev' nblocks from _ same (more {from = _} {b} {bs} less inside free others rest) =
    more less inside (same b less inside ∙ free) (λ i p q. same i p (omega arith) ∙ others i p q)
      (FreeList-free dev dev' nblocks b bs (λ x p q. same x (omega arith) q) rest)

pub FreeList-frame :
    (dev dev' : Device) (nblocks from : ℕ) (bs : List ℕ)
    → ((x : ℕ) → from < x → x ≤ nblocks → dev' x ≡ dev x)
    → FreeList dev nblocks from bs
    → FreeList dev' nblocks from bs
FreeList-frame dev dev' nblocks from bs same free =
    FreeList-free dev dev' nblocks from bs (λ x p q. ap is_free (same x p q)) free

-- A block in use is none of the free ones.
pub FreeList-apart :
    (dev : Device) (nblocks from x : ℕ) (bs : List ℕ)
    → is_free (dev x) ≡ false
    → FreeList dev nblocks from bs
    → All (λ b. x ≢ b) bs
FreeList-apart dev nblocks from x [] used last = tt
FreeList-apart dev nblocks from x _ used (more {from = _} {b} {bs} less inside free others rest) = (
  λ e. true≢false (sym (subst (λ y. is_free (dev y) ≡ true) (sym e) free) ∙ used),
  FreeList-apart dev nblocks b x bs used rest,
)

pub FreeList-bounded :
    (dev : Device) (nblocks from : ℕ) (bs : List ℕ)
    → FreeList dev nblocks from bs
    → All (λ b. b ≤ nblocks) bs
FreeList-bounded dev nblocks from [] last = tt
FreeList-bounded dev nblocks from _ (more {from = _} {b} {bs} less inside free others rest) =
    (inside, FreeList-bounded dev nblocks b bs rest)
