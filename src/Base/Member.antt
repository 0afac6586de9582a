-- ===== src/Base/Member.antt =====
-- Membership as data that can be matched on, through the list operations of the program.
use mathlib.Core.Path.{◌≡◌, refl, ap, sym, ◌∙◌, subst}
use mathlib.Core.Logic.{◌⊎◌, inl, inr}
use mathlib.Core.Bool.{Bool, true}
use mathlib.Core.List.{List, [], ◌∷◌, ◌++◌, map}
use mathlib.Core.Option.{some, some-injective}
use native.Mathlib.Omega.{arith}
use kaaval.Base.Equality.{Eq, ◌==◌}
use kaaval.Base.Dict.{Dict, lookup, list_at}
use kaaval.Base.Tests.{Bool-cases, Option-cases}
use kaaval.Base.Lists.{any, flat_map, All}
use kaaval.Base.Sort.{insert, sort}

pub data Member {ℓ} {A : Type ℓ} (a : A) : List A → Type ℓ where
  here : {x : A} {xs : List A} → a ≡ x → Member a (x ∷ xs)
  there : {x : A} {xs : List A} → Member a xs → Member a (x ∷ xs)

module _ {ℓ} {A : Type ℓ} where
  pub Member-append_left : (a : A) (xs ys : List A) → Member a xs → Member a (xs ++ ys)
  Member-append_left a [] ys m = elim m [ ]
  Member-append_left a (x ∷ xs) ys (here e) = here e
  Member-append_left a (x ∷ xs) ys (there m) = there (Member-append_left a xs ys m)

  pub Member-append_right : (a : A) (xs ys : List A) → Member a ys → Member a (xs ++ ys)
  Member-append_right a [] ys m = m
  Member-append_right a (x ∷ xs) ys m = there (Member-append_right a xs ys m)

  pub Member-append_cases :
      (a : A) (xs ys : List A) → Member a (xs ++ ys) → Member a xs ⊎ Member a ys
  Member-append_cases a [] ys m = inr m
  Member-append_cases a (x ∷ xs) ys (here e) = inl (here e)
  Member-append_cases a (x ∷ xs) ys (there m) = elim (Member-append_cases a xs ys m) [
    | inl k ↦ inl (there k)
    | inr k ↦ inr k
  ]

  pub Member-All {κ} : (P : A → Type κ) (a : A) (xs : List A) → All P xs → Member a xs → P a
  Member-All P a [] h m = elim m [ ]
  Member-All P a (x ∷ xs) (h, hs) (here e) = subst P (sym e) h
  Member-All P a (x ∷ xs) (h, hs) (there m) = Member-All P a xs hs m

  -- What holds of every member holds of the list.
  pub All-Member {κ} : (P : A → Type κ) (xs : List A) → ((a : A) → Member a xs → P a) → All P xs
  All-Member P [] h = tt
  All-Member P (x ∷ xs) h = (h x (here refl), All-Member P xs (λ a m. h a (there m)))

  pub any-Member : (p : A → Bool) (a : A) (xs : List A) → Member a xs → p a ≡ true → any p xs ≡ true
  unfolding any
  any-Member p a [] m h = elim m [ ]
  any-Member p a (x ∷ xs) (here e) h = ground (arith, ap p e)
  any-Member p a (x ∷ xs) (there m) h = ground (arith, any-Member p a xs m h)

  pub Member-of_any :
      (p : A → Bool) (xs : List A) → any p xs ≡ true → (a : A) × Member a xs × (p a ≡ true)
  unfolding any
  Member-of_any p [] h = cc
  Member-of_any p (x ∷ xs) h = elim (Bool-cases (p x)) [
    | inl k ↦ (x, here refl, k)
    | inr k ↦ let (a, m, j) = Member-of_any p xs (rw k at h) in (a, there m, j)
  ]

  Member-insert_self : (before : A → A → Bool) (x : A) (xs : List A) → Member x (insert before x xs)
  unfolding insert
  Member-insert_self before x [] = here refl
  Member-insert_self before x (y ∷ ys) = elim (Bool-cases (before x y)) [
    | inl k ↦ rw k (here refl)
    | inr k ↦ rw k (there (Member-insert_self before x ys))
  ]

  Member-insert :
      (before : A → A → Bool) (a x : A) (xs : List A) → Member a xs → Member a (insert before x xs)
  unfolding insert
  Member-insert before a x [] m = elim m [ ]
  Member-insert before a x (y ∷ ys) (here e) = elim (Bool-cases (before x y)) [
    | inl k ↦ rw k (there (here e))
    | inr k ↦ rw k (here e)
  ]
  Member-insert before a x (y ∷ ys) (there m) = elim (Bool-cases (before x y)) [
    | inl k ↦ rw k (there (there m))
    | inr k ↦ rw k (there (Member-insert before a x ys m))
  ]

  pub Member-sort :
      (before : A → A → Bool) (a : A) (xs : List A) → Member a xs → Member a (sort before xs)
  unfolding sort
  Member-sort before a [] m = elim m [ ]
  Member-sort before a (x ∷ xs) (here e) =
      subst (λ b. Member b (insert before x (sort before xs))) (sym e)
        (Member-insert_self before x (sort before xs))
  Member-sort before a (x ∷ xs) (there m) =
      Member-insert before a x (sort before xs) (Member-sort before a xs m)

module _ {ℓ κ} {A : Type ℓ} {B : Type κ} where
  pub Member-map : (f : A → B) (a : A) (xs : List A) → Member a xs → Member (f a) (map f xs)
  Member-map f a [] m = elim m [ ]
  Member-map f a (x ∷ xs) (here e) = here (ap f e)
  Member-map f a (x ∷ xs) (there m) = there (Member-map f a xs m)

  pub Member-of_map :
      (f : A → B) (b : B) (xs : List A) → Member b (map f xs) → (a : A) × Member a xs × (b ≡ f a)
  Member-of_map f b [] m = elim m [ ]
  Member-of_map f b (x ∷ xs) (here e) = (x, here refl, e)
  Member-of_map f b (x ∷ xs) (there m) = let (a, k, e) = Member-of_map f b xs m in (a, there k, e)

  pub Member-flat_map :
      (f : A → List B) (a : A) (b : B) (xs : List A)
      → Member a xs
      → Member b (f a)
      → Member b (flat_map f xs)
  unfolding flat_map
  Member-flat_map f a b [] m k = elim m [ ]
  Member-flat_map f a b (x ∷ xs) (here e) k =
      Member-append_left b (f x) _ (subst (λ c. Member b (f c)) e k)
  Member-flat_map f a b (x ∷ xs) (there m) k =
      Member-append_right b (f x) _ (Member-flat_map f a b xs m k)

  pub Member-of_flat_map :
      (f : A → List B) (b : B) (xs : List A)
      → Member b (flat_map f xs)
      → (a : A) × Member a xs × Member b (f a)
  unfolding flat_map
  Member-of_flat_map f b [] m = elim m [ ]
  Member-of_flat_map f b (x ∷ xs) m = elim (Member-append_cases b (f x) (flat_map f xs) m) [
    | inl k ↦ (x, here refl, k)
    | inr k ↦ let (a, j, l) = Member-of_flat_map f b xs k in (a, there j, l)
  ]

module _ {ℓ κ} {K : Type ℓ} {V : Type κ} ⦃e : Eq K⦄ where
  pub Member-lookup : (k : K) (v : V) (d : Dict K V) → lookup k d ≡ some v → Member (k, v) d
  unfolding lookup
  Member-lookup k v [] q = cc
  Member-lookup k v ((j, w) ∷ d) q = elim (Bool-cases (k == j)) [
    | inl same ↦
        let found : some w ≡ some v = rw same at q in
        here (
          ap (λ i. (i, v)) ((e.beq_iff k j).0 same)
          ∙ ap (λ u. (j, u)) (sym (some-injective w v found)))
    | inr differ ↦ there (Member-lookup k v d (rw differ at q))
  ]

module _ {ℓ κ} {K : Type ℓ} {A : Type κ} ⦃e : Eq K⦄ where
  -- A list that is not empty is an entry.
  pub Member-list_at :
      (k : K) (d : Dict K (List A)) (a : A) (xs : List A)
      → list_at k d ≡ xs
      → Member a xs
      → Member (k, xs) d
  Member-list_at k d a xs q m = elim (Option-cases (lookup k d)) [
    | inl h ↦ let empty : [] ≡ xs = rw h at q in elim (subst (Member a) (sym empty) m) [ ]
    | inr (ys, h) ↦ let full : ys ≡ xs = rw h at q in Member-lookup k xs d (h ∙ ap some full)
  ]
