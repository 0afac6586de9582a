-- ===== src/Base/Lists.antt =====
-- `any`, `all` and the comprehensions, over the library's lists.
use Prim.Native.Nat.{ℕ, zero, suc, ◌+◌, ◌≤◌}
use mathlib.Core.Path.{◌≡◌, refl, ap}
use mathlib.Core.Bool.{Bool, true, false, ◌&&◌, ◌||◌}
use mathlib.Core.Option.{Option, none, some}
use mathlib.Core.List.{List, [], ◌∷◌, ◌++◌}
use native.Mathlib.Omega.{arith}
use mathlib.Core.Logic.{inl, inr}
use kaaval.Base.Tests.{if◌then◌else◌, Bool-cases}

pub or_assoc : (a b c : Bool) → ((a || b) || c) ≡ (a || (b || c))
or_assoc true b c = refl
or_assoc false b c = refl

pub or-true : (a : Bool) → (a || true) ≡ true
or-true true = refl
or-true false = refl

pub and-true : (a : Bool) → (a && true) ≡ a
and-true true = refl
and-true false = refl

pub or-false : (a : Bool) → (a || false) ≡ a
or-false true = refl
or-false false = refl

module _ {ℓ} {A : Type ℓ} where
  abbrev pub length : List A → ℕ
  length [] = 0
  length (x ∷ xs) = suc (length xs)

  unfoldable pub any : (A → Bool) → List A → Bool
  any p [] = false
  any p (x ∷ xs) = p x || any p xs

  unfoldable pub all : (A → Bool) → List A → Bool
  all p [] = true
  all p (x ∷ xs) = p x && all p xs

  -- `[x for x in xs if p(x)]`
  unfoldable pub filter : (A → Bool) → List A → List A
  filter p [] = []
  filter p (x ∷ xs) = let rest = filter p xs in if p x then x ∷ rest else rest

  -- `bool(xs)` of a list
  abbrev pub nonempty : List A → Bool
  nonempty [] = false
  nonempty (x ∷ xs) = true

  -- `xs[:n]`
  unfoldable pub take : ℕ → List A → List A
  take zero xs = []
  take (suc n) [] = []
  take (suc n) (x ∷ xs) = x ∷ take n xs

  -- `xs[n:]`
  unfoldable pub drop : ℕ → List A → List A
  drop zero xs = xs
  drop (suc n) [] = []
  drop (suc n) (x ∷ xs) = drop n xs

  abbrev pub head? : List A → Option A
  head? [] = none
  head? (x ∷ xs) = some x

  abbrev pub All {κ} : (A → Type κ) → List A → Type κ
  All P [] = Unit
  All P (x ∷ xs) = P x × All P xs

  pub take-drop : (n : ℕ) (xs : List A) → take n xs ++ drop n xs ≡ xs
  unfolding take drop
  take-drop zero xs = refl
  take-drop (suc n) [] = refl
  take-drop (suc n) (x ∷ xs) = ap (◌∷◌ x) (take-drop n xs)

  pub drop-drop : (n m : ℕ) (xs : List A) → drop n (drop m xs) ≡ drop (m + n) xs
  unfolding drop
  drop-drop n zero xs = let q : 0 + n ≡ n = omega arith in rw q refl
  drop-drop zero (suc m) [] = let q : suc m + 0 ≡ suc m = omega arith in rw q refl
  drop-drop (suc n) (suc m) [] = let q : suc m + suc n ≡ suc (m + suc n) = omega arith in rw q refl
  drop-drop n (suc m) (x ∷ xs) =
      let q : suc m + n ≡ suc (m + n) = omega arith in rw q (drop-drop n m xs)

  pub drop-length : (n : ℕ) (xs : List A) → length xs ≤ n → drop n xs ≡ []
  unfolding drop
  drop-length zero [] h = refl
  drop-length zero (x ∷ xs) h = ground arith
  drop-length (suc n) [] h = refl
  drop-length (suc n) (x ∷ xs) h = drop-length n xs (omega arith)

  pub length-append : (xs ys : List A) → length (xs ++ ys) ≡ length xs + length ys
  length-append [] ys = omega arith
  length-append (x ∷ xs) ys = omega (arith, length-append xs ys)

  pub any-append : (p : A → Bool) (xs ys : List A) → any p (xs ++ ys) ≡ (any p xs || any p ys)
  unfolding any
  any-append p [] ys = refl
  any-append p (x ∷ xs) ys = ground (arith, any-append p xs ys)

  pub all-append : (p : A → Bool) (xs ys : List A) → all p (xs ++ ys) ≡ (all p xs && all p ys)
  unfolding all
  all-append p [] ys = refl
  all-append p (x ∷ xs) ys = ground (arith, all-append p xs ys)

  pub any_or : (p q : A → Bool) (xs : List A) → any (λ x. p x || q x) xs ≡ (any p xs || any q xs)
  unfolding any
  any_or p q [] = refl
  any_or p q (x ∷ xs) = ground (arith, any_or p q xs)

  pub any_and : (b : Bool) (p : A → Bool) (xs : List A) → any (λ x. b && p x) xs ≡ (b && any p xs)
  unfolding any
  any_and true p [] = refl
  any_and false p [] = refl
  any_and b p (x ∷ xs) = ground (arith, any_and b p xs)

  pub any-false : (xs : List A) → any (λ x. false) xs ≡ false
  unfolding any
  any-false [] = refl
  any-false (x ∷ xs) = any-false xs

  pub filter-append :
      (p : A → Bool) (xs ys : List A) → filter p (xs ++ ys) ≡ filter p xs ++ filter p ys
  unfolding filter
  filter-append p [] ys = refl
  filter-append p (x ∷ xs) ys = ground (arith, filter-append p xs ys)

  pub All-append {κ} : (P : A → Type κ) (xs ys : List A) → All P xs → All P ys → All P (xs ++ ys)
  All-append P [] ys h k = k
  All-append P (x ∷ xs) ys (h, hs) k = (h, All-append P xs ys hs k)

  -- What follows of each element that a filter keeps.
  pub All-filter {κ μ} :
      (P : A → Type κ) (Q : A → Type μ) (p : A → Bool) (xs : List A)
      → ((x : A) → P x → p x ≡ true → Q x)
      → All P xs
      → All Q (filter p xs)
  unfolding filter
  All-filter P Q p [] keep h = tt
  All-filter P Q p (x ∷ xs) keep (h, hs) = elim (Bool-cases (p x)) [
    | inl e ↦ rw e (keep x h e, All-filter P Q p xs keep hs)
    | inr e ↦ rw e (All-filter P Q p xs keep hs)
  ]

  pub All-imp {κ μ} :
      (P : A → Type κ) (Q : A → Type μ) (xs : List A) → ((x : A) → P x → Q x) → All P xs → All Q xs
  All-imp P Q [] keep h = tt
  All-imp P Q (x ∷ xs) keep (h, hs) = (keep x h, All-imp P Q xs keep hs)

-- `[y for x in xs for y in f(x)]`
unfoldable pub flat_map {ℓ κ} : {A : Type ℓ} {B : Type κ} → (A → List B) → List A → List B
flat_map f [] = []
flat_map f (x ∷ xs) = f x ++ flat_map f xs

pub all_of_All {ℓ} :
    {A : Type ℓ} (p : A → Bool) (xs : List A) → All (λ x. p x ≡ true) xs → all p xs ≡ true
unfolding all
all_of_All p [] h = refl
all_of_All p (x ∷ xs) (h, hs) = rw h (all_of_All p xs hs)

pub All-of_all {ℓ} :
    {A : Type ℓ} (p : A → Bool) (xs : List A) → all p xs ≡ true → All (λ x. p x ≡ true) xs
unfolding all
All-of_all p [] h = tt
All-of_all p (x ∷ xs) h = elim (Bool-cases (p x)) [
  | inl e ↦ (e, All-of_all p xs (rw e at h))
  | inr e ↦ cc (rw e at h)
]

pub filter-true {ℓ} : {A : Type ℓ} (xs : List A) → filter (λ x. true) xs ≡ xs
unfolding filter
filter-true [] = refl
filter-true (x ∷ xs) = ap (◌∷◌ x) (filter-true xs)
