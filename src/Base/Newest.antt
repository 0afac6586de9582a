-- ===== src/Base/Newest.antt =====
-- `order_by(scanned_at.desc())`: rows by falling time. Rows of one time, whose order a database leaves
-- open, keep that of the table.
use kaaval.Base.{
  ◌≡◌, refl, ℕ, Bool, true, List, [], ◌∷◌, leb, ltb, All, All-imp, nonempty, arith, Bool-cases, inl,
  inr,
}
use kaaval.Base.Sort.{insert, sort, All-sort}

module _ {ℓ} {A : Type ℓ} (time : A → ℕ) where
  abbrev pub no_later : A → A → Bool
  no_later a b = leb (time b) (time a)

  unfoldable pub newest_first : List A → List A
  unfolding sort
  newest_first xs = sort no_later xs

  insert-newest :
      (x : A) (xs : List A) → All (λ y. no_later x y ≡ true) xs → insert no_later x xs ≡ x ∷ xs
  unfolding insert
  insert-newest x [] h = refl
  insert-newest x (y ∷ ys) (h, hs) = rw h refl

  -- A row that is later than every other one comes first.
  nonempty-insert : (x : A) (xs : List A) → nonempty (insert no_later x xs) ≡ true
  unfolding insert
  nonempty-insert x [] = refl
  nonempty-insert x (y ∷ ys) = elim (Bool-cases (no_later x y)) [
    | inl h ↦ rw h refl
    | inr h ↦ rw h refl
  ]

  pub nonempty-newest_first : (xs : List A) → nonempty (newest_first xs) ≡ nonempty xs
  unfolding newest_first sort
  nonempty-newest_first [] = refl
  nonempty-newest_first (x ∷ xs) = nonempty-insert x (sort no_later xs)

  pub newest_first-cons :
      (x : A) (xs : List A)
      → All (λ y. ltb (time y) (time x) ≡ true) xs
      → newest_first (x ∷ xs) ≡ x ∷ newest_first xs
  unfolding newest_first sort
  newest_first-cons x xs h =
      insert-newest x (sort no_later xs)
        (All-sort no_later (λ y. no_later x y ≡ true) xs (All-imp _ _ xs (λ y k. ground arith) h))
