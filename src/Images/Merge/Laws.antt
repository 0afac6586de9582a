-- ===== src/Images/Merge/Laws.antt =====
-- What the dict of trivy_adapter.py and grype_adapter.py in control-plane/app holds after the loop.
use kaaval.Base.{
  ◌≡◌, refl, ap, sym, ◌∙◌, true, false, Option, none, some, List, [], ◌∷◌, arith, if◌then◌else◌,
  is_some, Bool-cases, Option-cases, inl, inr, All, filter, length, ◌≤◌, ◌++◌, Eq, ◌==◌,
}
use mathlib.Core.Path.{subst}
use kaaval.Base.Dict.{
  Dict, lookup, has_key, values, NodupKeys, has_key-lookup, lookup-insert, insert-NodupKeys,
  All-insert,
}
use kaaval.Images.Merge.{keep_first, merge}

abbrev or_else {ℓ} : {V : Type ℓ} → Option V → Option V → Option V
or_else none o = o
or_else (some v) o = some v

-- A list of one, or of none.
abbrev pub at_most_one {ℓ} : {V : Type ℓ} → Option V → List V
at_most_one none = []
at_most_one (some v) = v ∷ []

pub length-at_most_one {ℓ} : {V : Type ℓ} (o : Option V) → length (at_most_one o) ≤ 1
length-at_most_one none = omega arith
length-at_most_one (some v) = omega arith

module _ {ℓ κ} {K : Type ℓ} {V : Type κ} ⦃e : Eq K⦄ where
  -- The record of the first entry with the key.
  abbrev pub first_of {μ} : {A : Type μ} → (A → Option (K × V)) → K → List A → Option V
  first_of entry k [] = none
  first_of entry k (a ∷ entries) =
      let rest = first_of entry k entries in
      elim (entry a) [ none ↦ rest | some (j, v) ↦ if k == j then some v else rest ]

  is_some-same :
      (k j : K) (d : Dict K V)
      → is_some (lookup j d) ≡ true
      → (k == j) ≡ true
      → is_some (lookup k d) ≡ true
  is_some-same k j d h q = subst (λ i. is_some (lookup i d) ≡ true) (sym ((e.beq_iff k j).0 q)) h

  is_none-same :
      (k j : K) (d : Dict K V)
      → is_some (lookup j d) ≡ false
      → (k == j) ≡ true
      → is_some (lookup k d) ≡ false
  is_none-same k j d h q = subst (λ i. is_some (lookup i d) ≡ false) (sym ((e.beq_iff k j).0 q)) h

  found_first :
      (k j : K) (v : V) (o rest : Option V)
      → ((k == j) ≡ true → is_some o ≡ true)
      → or_else o rest ≡ or_else o (if k == j then some v else rest)
  found_first k j v (some w) rest h = refl
  found_first k j v none rest h = elim (Bool-cases (k == j)) [
    | inl q ↦ cc (h q)
    | inr q ↦ rw q refl
  ]

  added_last :
      (k j : K) (v : V) (o rest : Option V)
      → ((k == j) ≡ true → is_some o ≡ false)
      → or_else (if k == j then some v else o) rest ≡ or_else o (if k == j then some v else rest)
  added_last k j v none rest h = elim (Bool-cases (k == j)) [
    | inl q ↦ rw q refl
    | inr q ↦ rw q refl
  ]
  added_last k j v (some w) rest h = elim (Bool-cases (k == j)) [
    | inl q ↦ cc (h q)
    | inr q ↦ rw q refl
  ]

  lookup-keep_first :
      (k : K) (o : Option (K × V)) (d : Dict K V) (rest : Option V)
      → or_else (lookup k (keep_first o d)) rest
        ≡ or_else
            (lookup k d)
            (elim o [ none ↦ rest | some (j, v) ↦ if k == j then some v else rest ])
  unfolding keep_first
  lookup-keep_first k none d rest = refl
  lookup-keep_first k (some (j, v)) d rest = elim (Bool-cases (has_key j d)) [
    | inl h ↦
        rw h
          (found_first k j v (lookup k d) rest (is_some-same k j d (sym (has_key-lookup j d) ∙ h)))
    | inr h ↦
        rw (h, lookup-insert)
          (added_last k j v (lookup k d) rest (is_none-same k j d (sym (has_key-lookup j d) ∙ h)))
  ]

  -- Each key of the dict leads to the first record with that key.
  pub lookup-merge {μ} :
      {A : Type μ} (entry : A → Option (K × V)) (k : K) (entries : List A) (d : Dict K V)
      → lookup k (merge entry entries d) ≡ or_else (lookup k d) (first_of entry k entries)
  unfolding merge
  lookup-merge entry k [] d = elim (Option-cases (lookup k d)) [
    | inl h ↦ rw h refl
    | inr (v, h) ↦ rw h refl
  ]
  lookup-merge entry k (a ∷ entries) d =
      lookup-merge entry k entries (keep_first (entry a) d)
      ∙ lookup-keep_first k (entry a) d (first_of entry k entries)

  keep_first-NodupKeys :
      (o : Option (K × V)) (d : Dict K V) → NodupKeys d → NodupKeys (keep_first o d)
  unfolding keep_first
  keep_first-NodupKeys none d u = u
  keep_first-NodupKeys (some (k, v)) d u = elim (Bool-cases (has_key k d)) [
    | inl h ↦ rw h u
    | inr h ↦ rw h (insert-NodupKeys k v d u)
  ]

  pub merge-NodupKeys {μ} :
      {A : Type μ} (entry : A → Option (K × V)) (entries : List A) (d : Dict K V)
      → NodupKeys d
      → NodupKeys (merge entry entries d)
  unfolding merge
  merge-NodupKeys entry [] d u = u
  merge-NodupKeys entry (a ∷ entries) d u =
      merge-NodupKeys entry entries (keep_first (entry a) d) (keep_first-NodupKeys (entry a) d u)

  module _ (key : V → K) where
    -- Every record stands at its own key.
    abbrev pub Keyed : K × V → Type ℓ
    Keyed (k, v) = key v ≡ k

    keep_first-Keyed :
        (o : Option (K × V)) (d : Dict K V)
        → ((k : K) (v : V) → o ≡ some (k, v) → key v ≡ k)
        → All Keyed d
        → All Keyed (keep_first o d)
    unfolding keep_first
    keep_first-Keyed none d h u = u
    keep_first-Keyed (some (k, v)) d h u = elim (Bool-cases (has_key k d)) [
      | inl q ↦ rw q u
      | inr q ↦ rw q (All-insert Keyed k v d u (h k v refl))
    ]

    merge-Keyed {μ} :
        {A : Type μ} (entry : A → Option (K × V)) (entries : List A) (d : Dict K V)
        → ((a : A) (k : K) (v : V) → entry a ≡ some (k, v) → key v ≡ k)
        → All Keyed d
        → All Keyed (merge entry entries d)
    unfolding merge
    merge-Keyed entry [] d h u = u
    merge-Keyed entry (a ∷ entries) d h u =
        merge-Keyed entry entries (keep_first (entry a) d) h (keep_first-Keyed (entry a) d (h a) u)

    filter-absent :
        (k : K) (d : Dict K V)
        → All Keyed d
        → has_key k d ≡ false
        → filter (λ v. k == key v) (values d) ≡ []
    unfolding filter values has_key
    filter-absent k [] u h = refl
    filter-absent k ((j, v) ∷ d) (q, u) h = rw q (ground (arith, filter-absent k d u))

    filter-values :
        (k : K) (d : Dict K V)
        → All Keyed d
        → NodupKeys d
        → filter (λ v. k == key v) (values d) ≡ at_most_one (lookup k d)
    unfolding filter values lookup
    filter-values k [] u n = refl
    filter-values k ((j, v) ∷ d) (q, u) (fresh, n) = elim (Bool-cases (k == j)) [
      | inl h ↦
          let absent : has_key k d ≡ false =
            subst (λ i. has_key i d ≡ false) (sym ((e.beq_iff k j).0 h)) fresh in
          rw (q, h) (ap (λ vs. v ∷ vs) (filter-absent k d u absent))
      | inr h ↦ rw (q, h) (filter-values k d u n)
    ]

    -- The records with a key are the first one that the entries give for it, if they give one.
    pub filter-merge {μ} :
        {A : Type μ} (entry : A → Option (K × V)) (entries : List A)
        → ((a : A) (k : K) (v : V) → entry a ≡ some (k, v) → key v ≡ k)
        → (k : K)
        → filter (λ v. k == key v) (values (merge entry entries []))
          ≡ at_most_one (first_of entry k entries)
    unfolding lookup
    filter-merge entry entries h k =
        filter-values k (merge entry entries []) (merge-Keyed entry entries [] h tt)
          (merge-NodupKeys entry entries [] tt)
        ∙ ap at_most_one (lookup-merge entry k entries [])

  -- A loop over two lists is the loop over the second, from what the first leaves.
  pub merge-append {μ} :
      {A : Type μ} (entry : A → Option (K × V)) (xs ys : List A) (d : Dict K V)
      → merge entry (xs ++ ys) d ≡ merge entry ys (merge entry xs d)
  unfolding merge
  merge-append entry [] ys d = refl
  merge-append entry (x ∷ xs) ys d = merge-append entry xs ys (keep_first (entry x) d)
