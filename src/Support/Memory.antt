-- ===== src/Support/Memory.antt =====
-- The functions of src/support.c that fill and copy memory. An object is the list of its bytes, and
-- `none` says that the code goes past its end. `memmove` and `malloc` are U-Boot's.
use ub2lb.Prelude.{
  ℕ, zero, suc, ◌+◌, ◌*◌, ◌%◌, ◌≤◌, ◌<◌, ◌≡◌, refl, sym, ap, ◌∙◌, Option, none, some, [], ◌∷◌, ◌++◌,
  append-nil, append_assoc, arith, leb, if◌then◌else◌, Bytes, length, take, drop, length-append,
}
use ub2lb.Support.{strlen}
use ub2lb.Support.Compare.{IsText}

-- `while (n-- > 0) *ptr++ = c`, with `c` cut down to a `char`.
unfoldable pub memset : Bytes → ℕ → ℕ → Option Bytes
memset dest c zero = some dest
memset [] c (suc n) = none
memset (_ ∷ dest) c (suc n) = elim (memset dest c n) [
  | none ↦ none
  | some rest ↦ some (c % 256 ∷ rest)
]

unfoldable pub bzero : Bytes → ℕ → Option Bytes
bzero d zero = some d
bzero [] (suc length) = none
bzero (_ ∷ d) (suc length) = elim (bzero d length) [ none ↦ none | some rest ↦ some (0 ∷ rest) ]

abbrev replicate : ℕ → ℕ → Bytes
replicate zero c = []
replicate (suc n) c = c ∷ replicate n c

-- `memset` writes `n` bytes and keeps the rest; it goes past the end exactly if `n` is too large.
pub memset-replicate :
    (dest : Bytes) (c n : ℕ)
    → memset dest c n
      ≡ (if leb n (length dest) then some (replicate n (c % 256) ++ drop n dest) else none)
unfolding memset
memset-replicate dest c zero = ground arith
memset-replicate [] c (suc n) = ground arith
memset-replicate (b ∷ dest) c (suc n) = ground (arith, memset-replicate dest c n)

-- Clearing memory is filling it with zeros.
pub bzero-memset : (d : Bytes) (n : ℕ) → bzero d n ≡ memset d 0 n
unfolding bzero memset
bzero-memset d zero = refl
bzero-memset [] (suc n) = refl
bzero-memset (b ∷ d) (suc n) = rw (bzero-memset d n)

-- The bytes of an object up to its first NUL.
unfoldable pub c_string : Bytes → Bytes
c_string [] = []
c_string (zero ∷ s) = []
c_string (suc c ∷ s) = suc c ∷ c_string s

c_string-IsText : (s rest : Bytes) → IsText s → c_string (s ++ 0 ∷ rest) ≡ s
unfolding c_string
c_string-IsText [] rest h = refl
c_string-IsText (zero ∷ s) rest h = absurd (h.0 refl)
c_string-IsText (suc c ∷ s) rest h = ap (◌∷◌ (suc c)) (c_string-IsText s rest h.1)

pub strlen-length : (s : Bytes) → strlen s ≡ length s
unfolding strlen
strlen-length [] = refl
strlen-length (c ∷ s) = omega (arith, strlen-length s)

-- What the callbacks of U-Boot do: `memmove` copies as the C function does, and `malloc` returns
-- an object of the size that is asked for.
pub record Allocator : Type 0 where
  pub memmove : Bytes → Bytes → ℕ → Bytes
  pub malloc : ℕ → Bytes
  pub copies :
      (dest src : Bytes) (n : ℕ)
      → n ≤ length dest
      → n ≤ length src
      → memmove dest src n ≡ take n src ++ drop n dest
  pub sized : (n : ℕ) → length (malloc n) ≡ n

take-append : (s t : Bytes) (n : ℕ) → n ≡ length s → take n (s ++ t) ≡ s
take-append [] t zero h = refl
take-append [] t (suc n) h = absurd (omega arith)
take-append (c ∷ s) t zero h = absurd (omega arith)
take-append (c ∷ s) t (suc n) h = ap (◌∷◌ c) (take-append s t n (omega arith))

drop_all : (s : Bytes) (n : ℕ) → n ≡ length s → drop n s ≡ []
drop_all [] zero h = refl
drop_all [] (suc n) h = refl
drop_all (c ∷ s) zero h = absurd (omega arith)
drop_all (c ∷ s) (suc n) h = drop_all s n (omega arith)

read_size : (s rest : Bytes) → IsText s → strlen (c_string (s ++ 0 ∷ rest)) + 1 ≡ length s + 1
read_size s rest h = rw (c_string-IsText s rest h, strlen-length s)

module _ (u : Allocator) where
  open u use {memmove, malloc, copies, sized}

  unfoldable pub strcpy : Bytes → Bytes → Bytes
  strcpy dest src = memmove dest src (strlen (c_string src) + 1)

  unfoldable pub strncpy : Bytes → Bytes → ℕ → Bytes
  strncpy dest src n = memmove dest src n

  pub memcpy : Bytes → Bytes → ℕ → Bytes
  memcpy dest src n = memmove dest src n

  pub calloc : ℕ → ℕ → Bytes
  calloc size n = malloc (size * n)

  unfoldable pub strdup : Bytes → Bytes
  unfolding strcpy
  strdup s = strcpy (malloc (strlen (c_string s) + 1)) s

  -- `strcpy` writes the string and its NUL, and leaves what is behind them in `dest`.
  pub strcpy_lem :
      (dest s rest : Bytes)
      → IsText s
      → length s < length dest
      → strcpy dest (s ++ 0 ∷ rest) ≡ (s ++ 0 ∷ []) ++ drop (length s + 1) dest
  unfolding strcpy
  strcpy_lem dest s rest h fits =
      let n = length s + 1 in
      let whole : s ++ 0 ∷ rest ≡ (s ++ 0 ∷ []) ++ rest = sym (append_assoc s (0 ∷ []) rest) in
      let size : n ≡ length (s ++ 0 ∷ []) = omega (arith, length-append s (0 ∷ [])) in
      ap (memmove dest (s ++ 0 ∷ rest)) (read_size s rest h)
      ∙ copies dest (s ++ 0 ∷ rest) n (omega arith) (omega (arith, length-append s (0 ∷ rest)))
      ∙ ap (λ t. t ++ drop n dest) (ap (take n) whole ∙ take-append (s ++ 0 ∷ []) rest n size)

  -- `strdup` makes an object that holds the string and its NUL, and nothing more.
  pub strdup_lem : (s rest : Bytes) → IsText s → strdup (s ++ 0 ∷ rest) ≡ s ++ 0 ∷ []
  unfolding strdup
  strdup_lem s rest h =
      let n = length s + 1 in
      ap (λ k. strcpy (malloc k) (s ++ 0 ∷ rest)) (read_size s rest h)
      ∙ strcpy_lem (malloc n) s rest h (omega (arith, sized n))
      ∙ rw (drop_all (malloc n) n (omega (arith, sized n))) (append-nil (s ++ 0 ∷ []))
