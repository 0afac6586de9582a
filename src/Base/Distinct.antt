-- ===== src/Base/Distinct.antt =====
-- Lists without repetitions.
use kaaval.Base.{◌≡◌, refl, false, List, [], ◌∷◌, ◌++◌, contains, contains-append, Eq, arith}

-- No element stands twice.
abbrev pub Distinct {ℓ} : {A : Type ℓ} ⦃e : Eq A⦄ → List A → Type 0
Distinct [] = Unit
Distinct (x ∷ xs) = (contains xs x ≡ false) × Distinct xs

pub Distinct-snoc {ℓ} :
    {A : Type ℓ} ⦃e : Eq A⦄ (xs : List A) (a : A)
    → Distinct xs
    → contains xs a ≡ false
    → Distinct (xs ++ a ∷ [])
unfolding contains
Distinct-snoc [] a u h = (refl, tt)
Distinct-snoc ⦃e⦄ (x ∷ xs) a (fresh, u) h = (
  rw contains-append (ground (arith, e.beq_iff a x, e.beq_iff x a)),
  Distinct-snoc xs a u (ground arith),
)
