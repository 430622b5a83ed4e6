-- ===== src/Support/Compare.antt =====
-- What a result of zero says of the two strings that are compared.
use ub2lb.Prelude.{ℕ, suc, zero, ◌≡◌, ◌≢◌, ◌↔◌, [], ◌∷◌, map, take, arith, Bytes, All}
use ub2lb.Prelude.Int.{pos}
use ub2lb.Support.{tolower, strcmp, strcasecmp, strncmp, strncasecmp}

-- No byte is the terminator.
abbrev pub IsText : Bytes → Type 0
IsText s = All (λ c. c ≢ 0) s

-- On strings with no NUL inside, `strcmp` returns zero exactly for two equal ones.
pub strcmp-zero : (s t : Bytes) → IsText s → IsText t → (strcmp s t ≡ pos 0) ↔ (s ≡ t)
unfolding strcmp
strcmp-zero [] [] h k = ground arith
strcmp-zero [] (b ∷ t) h k = ground arith
strcmp-zero (a ∷ s) [] h k = ground arith
strcmp-zero (a ∷ s) (b ∷ t) h k = ground (arith, strcmp-zero s t)

-- On strings with no NUL inside, `strncmp` returns zero exactly if the first `max` bytes agree, or all up to the ends.
pub strncmp-zero :
    (s t : Bytes) (max : ℕ)
    → IsText s
    → IsText t
    → (strncmp s t max ≡ pos 0) ↔ (take max s ≡ take max t)
unfolding strncmp
strncmp-zero [] [] zero h k = ground arith
strncmp-zero [] (b ∷ t) zero h k = ground arith
strncmp-zero (a ∷ s) [] zero h k = ground arith
strncmp-zero (a ∷ s) (b ∷ t) zero h k = ground arith
strncmp-zero [] [] (suc max) h k = ground arith
strncmp-zero [] (b ∷ t) (suc max) h k = ground arith
strncmp-zero (a ∷ s) [] (suc max) h k = ground arith
strncmp-zero (a ∷ s) (b ∷ t) (suc max) h k = ground (arith, strncmp-zero s t max)

tolower-ne-zero : (c : ℕ) → c ≢ 0 → tolower c ≢ tolower 0
unfolding tolower
tolower-ne-zero c h = ground arith

-- On strings with no NUL inside, `strcasecmp` returns zero exactly for two that are equal in lower case.
pub strcasecmp-zero :
    (s t : Bytes) → IsText s → IsText t → (strcasecmp s t ≡ pos 0) ↔ (map tolower s ≡ map tolower t)
unfolding strcasecmp
strcasecmp-zero [] [] h k = ground arith
strcasecmp-zero [] (b ∷ t) h k = ground (arith, tolower-ne-zero b k.0)
strcasecmp-zero (a ∷ s) [] h k = ground (arith, tolower-ne-zero a h.0)
strcasecmp-zero (a ∷ s) (b ∷ t) h k = ground (arith, strcasecmp-zero s t)

-- The same for the first `max` bytes and `strncasecmp`.
pub strncasecmp-zero :
    (s t : Bytes) (max : ℕ)
    → IsText s
    → IsText t
    → (strncasecmp s t max ≡ pos 0) ↔ (map tolower (take max s) ≡ map tolower (take max t))
unfolding strncasecmp
strncasecmp-zero [] [] zero h k = ground arith
strncasecmp-zero [] (b ∷ t) zero h k = ground arith
strncasecmp-zero (a ∷ s) [] zero h k = ground arith
strncasecmp-zero (a ∷ s) (b ∷ t) zero h k = ground arith
strncasecmp-zero [] [] (suc max) h k = ground arith
strncasecmp-zero [] (b ∷ t) (suc max) h k = ground (arith, tolower-ne-zero b k.0)
strncasecmp-zero (a ∷ s) [] (suc max) h k = ground (arith, tolower-ne-zero a h.0)
strncasecmp-zero (a ∷ s) (b ∷ t) (suc max) h k = ground (arith, strncasecmp-zero s t max)
