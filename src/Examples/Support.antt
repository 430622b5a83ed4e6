-- ===== src/Examples/Support.antt =====
-- The functions of src/support.c at small inputs.
use ub2lb.Prelude.{
  ℕ, ◌%◌, ◌^◌, ◌≡◌, ◌↔◌, refl, [], ◌∷◌, ◌++◌, map, arith, take, drop, zero, suc, List, length,
}
use ub2lb.Prelude.Int.{pos}
use ub2lb.Support.{tolower, strncasecmp, strtol}
use ub2lb.Support.Compare.{strncasecmp-zero}
use ub2lb.Support.Number.{decimal, strtol-decimal}
use ub2lb.Support.Memory.{Allocator, strcpy, strcpy_lem}
use ub2lb.Menu.Parser.{codes}

strncasecmp-zero_example :
    (strncasecmp (codes "BOOTx") (codes "booty") 4 ≡ pos 0)
    ↔ (map tolower (take 4 (codes "BOOTx")) ≡ map tolower (take 4 (codes "booty")))
strncasecmp-zero_example =
    strncasecmp-zero (codes "BOOTx") (codes "booty") 4 (omega arith) (omega arith)

strtol-decimal_example : strtol (codes "4294967298") ≡ decimal 0 (codes "4294967298") % 2 ^ 32
strtol-decimal_example = strtol-decimal (codes "4294967298") (omega arith)

-- An allocator that does what U-Boot documents: `malloc` returns zeros here.
abbrev zeros : ℕ → List ℕ
zeros zero = []
zeros (suc n) = 0 ∷ zeros n

length-zeros : (n : ℕ) → length (zeros n) ≡ n
length-zeros zero = refl
length-zeros (suc n) = omega (arith, length-zeros n)

abbrev allocator : Allocator
allocator = record {
  memmove = λ dest src n. take n src ++ drop n dest;
  malloc = zeros;
  copies = λ dest src n h k. refl;
  sized = length-zeros;
}

strcpy_lem_example :
    strcpy allocator (1 ∷ 2 ∷ 3 ∷ 4 ∷ []) (codes "ab" ++ 0 ∷ 9 ∷ [])
    ≡ (codes "ab" ++ 0 ∷ []) ++ drop 3 (1 ∷ 2 ∷ 3 ∷ 4 ∷ [])
strcpy_lem_example =
    strcpy_lem allocator (1 ∷ 2 ∷ 3 ∷ 4 ∷ []) (codes "ab") (9 ∷ []) (omega arith) (omega arith)
