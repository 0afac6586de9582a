-- ===== src/Base/Sort.antt =====
-- `list.sort(key=...)`: a stable sort, here by insertion. `before x y` is "the key of `x` is at
-- most that of `y`", so `x` may stand in front of `y`.
use mathlib.Core.Path.{◌≡◌, refl, ap, ◌∙◌}
use mathlib.Core.Logic.{inl, inr}
use mathlib.Core.Bool.{Bool, true, false}
use mathlib.Core.List.{List, [], ◌∷◌, Perm}
use mathlib.Core.List.Perm
use Prim.Native.Nat.{suc, ◌≤◌}
use native.Mathlib.Omega.{arith}
use kaaval.Base.Tests.{if◌then◌else◌, Bool-cases}
use kaaval.Base.Lists.{filter, All, length}

empty_of_length {ℓ} : {A : Type ℓ} (xs : List A) → suc (length xs) ≤ 1 → xs ≡ []
empty_of_length [] h = refl
empty_of_length (x ∷ xs) h = ground arith

module _ {ℓ} {A : Type ℓ} (before : A → A → Bool) where
  unfoldable pub insert : A → List A → List A
  insert x [] = x ∷ []
  insert x (y ∷ ys) = if before x y then x ∷ y ∷ ys else y ∷ insert x ys

  unfoldable pub sort : List A → List A
  sort [] = []
  sort (x ∷ xs) = insert x (sort xs)

  -- Every element may stand in front of all that follow it.
  abbrev pub IsSorted : List A → Type 0
  IsSorted [] = Unit
  IsSorted (x ∷ xs) = All (λ y. before x y ≡ true) xs × IsSorted xs

  pub insert-perm : (x : A) (xs : List A) → Perm (insert x xs) (x ∷ xs)
  unfolding insert
  insert-perm x [] = Perm.refl (x ∷ [])
  insert-perm x (y ∷ ys) = elim (Bool-cases (before x y)) [
    | inl p ↦ rw p (Perm.refl (x ∷ y ∷ ys))
    | inr p ↦ rw p (Perm.trans (Perm.cons y (insert-perm x ys)) (Perm.swap x y ys))
  ]

  pub sort-perm : (xs : List A) → Perm (sort xs) xs
  unfolding sort
  sort-perm [] = Perm.refl []
  sort-perm (x ∷ xs) = Perm.trans (insert-perm x (sort xs)) (Perm.cons x (sort-perm xs))

  All-insert : (P : A → Type 0) (x : A) (xs : List A) → P x → All P xs → All P (insert x xs)
  unfolding insert
  All-insert P x [] h hs = (h, tt)
  All-insert P x (y ∷ ys) h (k, ks) = elim (Bool-cases (before x y)) [
    | inl p ↦ rw p (h, (k, ks))
    | inr p ↦ rw p (k, All-insert P x ys h ks)
  ]

  -- What held of every element holds of every element of the sorted list.
  pub All-sort : (P : A → Type 0) (xs : List A) → All P xs → All P (sort xs)
  unfolding sort
  All-sort P [] h = tt
  All-sort P (x ∷ xs) (h, hs) = All-insert P x (sort xs) h (All-sort P xs hs)

  length-insert : (x : A) (ys : List A) → length (insert x ys) ≡ suc (length ys)
  unfolding insert
  length-insert x [] = refl
  length-insert x (y ∷ ys) = ground (arith, length-insert x ys)

  pub length-sort : (xs : List A) → length (sort xs) ≡ length xs
  unfolding sort
  length-sort [] = refl
  length-sort (x ∷ xs) = length-insert x (sort xs) ∙ ap suc (length-sort xs)

  filter-insert-true :
      (p : A → Bool) (x : A) (ys : List A)
      → p x ≡ true
      → ((y : A) → p y ≡ true → before x y ≡ true)
      → filter p (insert x ys) ≡ x ∷ filter p ys
  unfolding insert filter
  filter-insert-true p x [] h k = rw h
  filter-insert-true p x (y ∷ ys) h k = ground (arith, k y, filter-insert-true p x ys h k)

  filter-insert-false :
      (p : A → Bool) (x : A) (ys : List A) → p x ≡ false → filter p (insert x ys) ≡ filter p ys
  unfolding insert filter
  filter-insert-false p x [] h = rw h
  filter-insert-false p x (y ∷ ys) h = ground (arith, filter-insert-false p x ys h)

  -- Elements that may stand in front of each other either way keep their order.
  pub filter-sort :
      (p : A → Bool) (xs : List A)
      → ((x y : A) → p x ≡ true → p y ≡ true → before x y ≡ true)
      → filter p (sort xs) ≡ filter p xs
  unfolding sort filter
  filter-sort p [] k = refl
  filter-sort p (x ∷ xs) k = elim (Bool-cases (p x)) [
    | inl h ↦
        rw h (filter-insert-true p x (sort xs) h (λ y. k x y h) ∙ ap (◌∷◌ x) (filter-sort p xs k))
    | inr h ↦ rw h (filter-insert-false p x (sort xs) h ∙ filter-sort p xs k)
  ]

  filter-insert_single :
      (p : A → Bool) (x : A) (ys : List A)
      → p x ≡ true
      → filter p ys ≡ []
      → filter p (insert x ys) ≡ x ∷ []
  unfolding insert filter
  filter-insert_single p x [] h k = rw h refl
  filter-insert_single p x (y ∷ ys) h k = elim (Bool-cases (p y)) [
    | inl q ↦ cc
    | inr q ↦ ground (arith, filter-insert_single p x ys h (rw q at k))
  ]

  -- At most one element with a property: the sort finds it again.
  pub filter-sort_single :
      (p : A → Bool) (xs : List A) → length (filter p xs) ≤ 1 → filter p (sort xs) ≡ filter p xs
  unfolding sort filter
  filter-sort_single p [] h = refl
  filter-sort_single p (x ∷ xs) h = elim (Bool-cases (p x)) [
    | inl q ↦
        let rest : filter p xs ≡ [] = empty_of_length (filter p xs) (rw q at h) in
        rw (q, rest)
          (filter-insert_single p x (sort xs) q
            (filter-sort_single p xs (rw rest (ground arith)) ∙ rest))
    | inr q ↦ rw q (filter-insert-false p x (sort xs) q ∙ filter-sort_single p xs (rw q at h))
  ]

-- The laws of the test under which the result is sorted.
pub record IsOrder {ℓ} {A : Type ℓ} (before : A → A → Bool) : Type ℓ where
  pub total : (x y : A) → before x y ≡ false → before y x ≡ true
  pub trans : (x y z : A) → before x y ≡ true → before y z ≡ true → before x z ≡ true

module _ {ℓ} {A : Type ℓ} (before : A → A → Bool) (o : IsOrder before) where
  All-trans :
      (x y : A) (zs : List A)
      → before x y ≡ true
      → All (λ z. before y z ≡ true) zs
      → All (λ z. before x z ≡ true) zs
  All-trans x y [] h hs = tt
  All-trans x y (z ∷ zs) h (k, ks) = (o.trans x y z h k, All-trans x y zs h ks)

  insert-IsSorted :
      (x : A) (ys : List A) → IsSorted before ys → IsSorted before (insert before x ys)
  unfolding insert
  insert-IsSorted x [] s = (tt, tt)
  insert-IsSorted x (y ∷ ys) (h, s) = elim (Bool-cases (before x y)) [
    | inl p ↦ rw p ((p, All-trans x y ys p h), (h, s))
    | inr p ↦
        rw p (
          All-insert before (λ z. before y z ≡ true) x ys (o.total x y p) h,
          insert-IsSorted x ys s,
        )
  ]

  pub sort-IsSorted : (xs : List A) → IsSorted before (sort before xs)
  unfolding sort
  sort-IsSorted [] = tt
  sort-IsSorted (x ∷ xs) = insert-IsSorted x (sort before xs) (sort-IsSorted xs)
