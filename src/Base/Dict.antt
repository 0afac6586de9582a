-- ===== src/Base/Dict.antt =====
-- Python's `dict`: entries in insertion order, a key's second assignment keeps its place.
use mathlib.Core.Path.{◌≡◌, refl, sym, ap, subst, ◌∙◌}
use mathlib.Core.Bool.{Bool, false, ◌||◌}
use mathlib.Core.Option.{Option, none, some, some-injective}
use mathlib.Core.List.{List, [], ◌∷◌, ◌++◌, append-nil}
use native.Mathlib.Omega.{arith}
use mathlib.Core.Logic.{◌⊎◌, inl, inr}
use kaaval.Base.Tests.{if◌then◌else◌, get_or, is_some, Bool-cases, Option-cases}
use kaaval.Base.Lists.{All}
use kaaval.Base.Equality.{Eq, ◌==◌, ==-refl}

abbrev pub Dict {ℓ κ} : Type ℓ → Type κ → Type (ℓ ⊔ κ)
Dict K V = List (K × V)

module _ {ℓ κ} {K : Type ℓ} {V : Type κ} where
  -- `d.keys()`
  unfoldable pub keys : Dict K V → List K
  keys [] = []
  keys ((k, v) ∷ d) = k ∷ keys d

  -- `d.values()`
  unfoldable pub values : Dict K V → List V
  values [] = []
  values ((k, v) ∷ d) = v ∷ values d

module _ {ℓ κ} {K : Type ℓ} {V : Type κ} ⦃e : Eq K⦄ where
  -- `d.get(k)`
  unfoldable pub lookup : K → Dict K V → Option V
  lookup k [] = none
  lookup k ((j, v) ∷ d) = if k == j then some v else lookup k d

  -- `k in d`
  unfoldable pub has_key : K → Dict K V → Bool
  has_key k [] = false
  has_key k ((j, v) ∷ d) = k == j || has_key k d

  -- `d[k] = v`
  unfoldable pub insert : K → V → Dict K V → Dict K V
  insert k v [] = (k, v) ∷ []
  insert k v ((j, w) ∷ d) = if k == j then (j, v) ∷ d else (j, w) ∷ insert k v d

  -- No key stands twice.
  abbrev pub NodupKeys : Dict K V → Type 0
  NodupKeys [] = Unit
  NodupKeys ((k, v) ∷ d) = (has_key k d ≡ false) × NodupKeys d

  pub has_key-lookup : (k : K) (d : Dict K V) → has_key k d ≡ is_some (lookup k d)
  unfolding has_key lookup
  has_key-lookup k [] = refl
  has_key-lookup k ((j, v) ∷ d) = ground (arith, has_key-lookup k d)

  pub lookup-insert :
      (j k : K) (v : V) (d : Dict K V)
      → lookup j (insert k v d) ≡ (if j == k then some v else lookup j d)
  unfolding insert lookup
  lookup-insert j k v [] = refl
  lookup-insert j k v ((i, w) ∷ d) =
      ground (arith, lookup-insert j k v d, e.beq_iff k i, e.beq_iff j i, e.beq_iff j k)

  pub has_key-insert :
      (j k : K) (v : V) (d : Dict K V) → has_key j (insert k v d) ≡ (j == k || has_key j d)
  unfolding insert has_key
  has_key-insert j k v [] = refl
  has_key-insert j k v ((i, w) ∷ d) =
      ground (arith, has_key-insert j k v d, e.beq_iff k i, e.beq_iff j i, e.beq_iff j k)

  pub insert-NodupKeys : (k : K) (v : V) (d : Dict K V) → NodupKeys d → NodupKeys (insert k v d)
  unfolding insert has_key
  insert-NodupKeys k v [] u = (refl, tt)
  insert-NodupKeys k v ((j, w) ∷ d) (fresh, u) =
      ground (arith, insert-NodupKeys k v d u, has_key-insert j k v d, e.beq_iff k j, e.beq_iff j k)

  pub lookup-insert_self : (k : K) (v : V) (d : Dict K V) → lookup k (insert k v d) ≡ some v
  lookup-insert_self k v d = ground (arith, lookup-insert k k v d, ==-refl k)

  -- What an assignment leaves at a key: the value assigned, or what was there.
  pub lookup-insert_cases :
      (j k : K) (v w : V) (d : Dict K V)
      → lookup j (insert k v d) ≡ some w
      → ((j ≡ k) × (v ≡ w)) ⊎ (lookup j d ≡ some w)
  lookup-insert_cases j k v w d h = elim (Bool-cases (j == k)) [
    | inl same ↦ inl ((e.beq_iff j k).0 same, ground (arith, lookup-insert j k v d))
    | inr differ ↦ inr (ground (arith, lookup-insert j k v d))
  ]

  pub lookup-nil : (k : K) → lookup k [] ≡ none
  unfolding lookup
  lookup-nil k = refl

  -- What holds of the entries and of the one assigned holds of the entries after it.
  pub All-insert {μ} :
      (P : K × V → Type μ) (k : K) (v : V) (d : Dict K V)
      → All P d
      → P (k, v)
      → All P (insert k v d)
  unfolding insert
  All-insert P k v [] h q = (q, tt)
  All-insert P k v ((j, w) ∷ d) (h, hs) q = elim (Bool-cases (k == j)) [
    | inl same ↦ rw same (subst (λ i. P (i, v)) ((e.beq_iff k j).0 same) q, hs)
    | inr differ ↦ rw differ (h, All-insert P k v d hs q)
  ]

  pub All-lookup {μ} :
      (P : K × V → Type μ) (k : K) (v : V) (d : Dict K V) → All P d → lookup k d ≡ some v → P (k, v)
  unfolding lookup
  All-lookup P k v [] h q = cc
  All-lookup P k v ((j, w) ∷ d) (h, hs) q = elim (Bool-cases (k == j)) [
    | inl same ↦
        let found : some w ≡ some v = rw same at q in
        subst P
          (ap (λ i. (i, w)) (sym ((e.beq_iff k j).0 same))
            ∙ ap (λ u. (k, u)) (some-injective w v found))
          h
    | inr differ ↦ All-lookup P k v d hs (rw differ at q)
  ]

module _ {ℓ κ} {K : Type ℓ} {A : Type κ} ⦃e : Eq K⦄ where
  -- `d[k].append(x)` on a `defaultdict(list)`, `d.setdefault(k, []).append(x)`
  unfoldable pub append_to : K → A → Dict K (List A) → Dict K (List A)
  unfolding lookup insert
  append_to k x d = insert k (get_or (lookup k d) [] ++ x ∷ []) d

  -- The list at a key, empty where there is none.
  abbrev pub list_at : K → Dict K (List A) → List A
  list_at k d = get_or (lookup k d) []

  pub list_at-append_to :
      (k j : K) (x : A) (d : Dict K (List A))
      → list_at k (append_to j x d) ≡ list_at k d ++ (if k == j then x ∷ [] else [])
  unfolding append_to
  list_at-append_to k j x d = elim (Bool-cases (k == j)) [
    | inl h ↦ rw (h, lookup-insert, h) (ap (λ i. list_at i d ++ x ∷ []) (sym ((e.beq_iff k j).0 h)))
    | inr h ↦ rw (h, lookup-insert, h) (sym (append-nil _))
  ]

  -- What holds of a list of one, and stays when the list grows, holds of each list of the dict.
  pub All-append_to {μ} :
      (P : K × List A → Type μ) (k : K) (x : A) (d : Dict K (List A))
      → ((xs : List A) → P (k, xs) → P (k, xs ++ x ∷ []))
      → P (k, x ∷ [])
      → All P d
      → All P (append_to k x d)
  unfolding append_to
  All-append_to P k x d grow one h = elim (Option-cases (lookup k d)) [
    | inl q ↦ rw q (All-insert P k _ d h one)
    | inr (xs, q) ↦ rw q (All-insert P k _ d h (grow xs (All-lookup P k xs d h q)))
  ]
