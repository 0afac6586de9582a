-- ===== src/Cli/PolicyReport/Laws.antt =====
-- Which results stand in which PolicyReport of control-plane/app/cli.py.
use kaaval.Base.{
  ◌≤◌, ◌≡◌, refl, sym, ap, ◌∙◌, String, Bool, true, false, not, ◌&&◌, Option, none, some, List, [],
  ◌∷◌, ◌++◌, map, arith, if◌then◌else◌, get_or, is_some, length, Bool-cases, inl, inr, filter,
  flat_map, Eq, ◌==◌, string_eq, option_eq,
}
use mathlib.Core.List.{append-nil, append_assoc}
use mathlib.Core.Path.{subst}
use kaaval.Base.Dict.{
  Dict, lookup, has_key, keys, NodupKeys, append_to, list_at, list_at-append_to, insert-NodupKeys,
  has_key-lookup,
}
use kaaval.Base.Sort.{sort, filter-sort_single}
use kaaval.Base.Text.{show, truthy, text_le}
use kaaval.Floats.{Floats}
use kaaval.Finding.{Finding}
use kaaval.Cli.PolicyReport.{
  Entry, Report, policyreport_result, group_of, by_namespace, cluster_results, namespace_report,
  cluster_report, build_policy_reports,
}

module _ {ℓ κ} {K : Type ℓ} {V : Type κ} ⦃e : Eq K⦄ where
  filter-keys_absent :
      (k : K) (d : Dict K V) → has_key k d ≡ false → filter (λ j. k == j) (keys d) ≡ []
  unfolding filter keys has_key
  filter-keys_absent k [] h = refl
  filter-keys_absent k ((j, v) ∷ d) h = ground (arith, filter-keys_absent k d)

  -- A key stands once among the keys, or not at all.
  filter-keys :
      (k : K) (d : Dict K V)
      → NodupKeys d
      → filter (λ j. k == j) (keys d) ≡ (if has_key k d then k ∷ [] else [])
  unfolding filter keys has_key
  filter-keys k [] u = refl
  filter-keys k ((j, v) ∷ d) (fresh, u) = elim (Bool-cases (k == j)) [
    | inl h ↦
        let same : k ≡ j = (e.beq_iff k j).0 h in
        let absent : has_key k d ≡ false = subst (λ i. has_key i d ≡ false) (sym same) fresh in
        rw h (ap (λ ks. j ∷ ks) (filter-keys_absent k d absent) ∙ ap (λ i. i ∷ []) (sym same))
    | inr h ↦ rw h (filter-keys k d u)
  ]

length-if {ℓ} : {A : Type ℓ} (b : Bool) (a : A) → length (if b then a ∷ [] else []) ≤ 1
length-if true a = omega arith
length-if false a = omega arith

-- The finding belongs to the namespace, which is not empty.
abbrev pub belongs {ℓ} : {A : Type ℓ} → (A → Option String) → String → A → Bool
belongs group ns f = truthy (group f) && ns == show (group f)

module _ {ℓ κ} {A : Type ℓ} {B : Type κ} (group : A → Option String) (result : A → B) where
  single :
      (xs : List B) (b : Bool) (f : A) (rest : List A)
      → (xs ++ (if b then result f ∷ [] else [])) ++ map result rest
        ≡ xs ++ map result (if b then f ∷ rest else rest)
  single xs true f rest = append_assoc xs (result f ∷ []) (map result rest)
  single xs false f rest = ap (λ ys. ys ++ map result rest) (append-nil xs)

  list_at-by_namespace :
      (ns : String) (fs : List A) (d : Dict String (List B))
      → list_at ns (by_namespace group result fs d)
        ≡ list_at ns d ++ map result (filter (belongs group ns) fs)
  unfolding by_namespace filter
  list_at-by_namespace ns [] d = sym (append-nil _)
  list_at-by_namespace ns (f ∷ fs) d = elim (Bool-cases (truthy (group f))) [
    | inl t ↦ rw t (
        list_at-by_namespace ns fs (append_to (show (group f)) (result f) d)
        ∙ rw list_at-append_to
            (single (list_at ns d) (ns == show (group f)) f (filter (belongs group ns) fs)))
    | inr t ↦ rw t (list_at-by_namespace ns fs d)
  ]

  by_namespace-NodupKeys :
      (fs : List A) (d : Dict String (List B))
      → NodupKeys d
      → NodupKeys (by_namespace group result fs d)
  unfolding by_namespace append_to
  by_namespace-NodupKeys [] d u = u
  by_namespace-NodupKeys (f ∷ fs) d u = elim (Bool-cases (truthy (group f))) [
    | inl t ↦ rw t (by_namespace-NodupKeys fs _ (insert-NodupKeys (show (group f)) _ d u))
    | inr t ↦ rw t (by_namespace-NodupKeys fs d u)
  ]

  cluster_results_lem :
      (fs : List A)
      → cluster_results group result fs ≡ map result (filter (λ f. not (truthy (group f))) fs)
  unfolding cluster_results filter
  cluster_results_lem [] = refl
  cluster_results_lem (f ∷ fs) = elim (Bool-cases (truthy (group f))) [
    | inl t ↦ rw t (cluster_results_lem fs)
    | inr t ↦ rw t (ap (λ rs. result f ∷ rs) (cluster_results_lem fs))
  ]

-- The results of the reports for a namespace, or of the cluster's report.
abbrev pub results_in : Option String → List Report → List Entry
results_in ns reports = flat_map (λ r. if ns == r.namespace then r.results else []) reports

results_in-namespaces :
    (scan_type ns : String) (d : Dict String (List Entry)) (ks : List String)
    → results_in (some ns) (map (namespace_report scan_type d) ks)
      ≡ flat_map (λ k. list_at k d) (filter (λ k. ns == k) ks)
unfolding flat_map filter
results_in-namespaces scan_type ns d [] = refl
results_in-namespaces scan_type ns d (k ∷ ks) = elim (Bool-cases (ns == k)) [
  | inl h ↦ rw h (ap (λ rs. list_at k d ++ rs) (results_in-namespaces scan_type ns d ks))
  | inr h ↦ rw h (results_in-namespaces scan_type ns d ks)
]

results_in-cluster :
    (scan_type : String) (d : Dict String (List Entry)) (ks : List String)
    → results_in none (map (namespace_report scan_type d) ks) ≡ []
unfolding flat_map
results_in-cluster scan_type d [] = refl
results_in-cluster scan_type d (k ∷ ks) = results_in-cluster scan_type d ks

results_in-append :
    (ns : Option String) (xs ys : List Report)
    → results_in ns (xs ++ ys) ≡ results_in ns xs ++ results_in ns ys
unfolding flat_map
results_in-append ns [] ys = refl
results_in-append ns (x ∷ xs) ys =
    ap (λ rs. (if ns == x.namespace then x.results else []) ++ rs) (results_in-append ns xs ys)
    ∙ sym (
        append_assoc (if ns == x.namespace then x.results else []) (results_in ns xs)
          (results_in ns ys))

absent_list : (o : Option (List Entry)) → is_some o ≡ false → [] ≡ get_or o []
absent_list none h = refl
absent_list (some es) h = cc

-- The lists at a key, taken once if it is there.
lists_at :
    (ns : String) (d : Dict String (List Entry))
    → flat_map (λ k. list_at k d) (if has_key ns d then ns ∷ [] else []) ≡ list_at ns d
unfolding flat_map
lists_at ns d = elim (Bool-cases (has_key ns d)) [
  | inl h ↦ rw h (append-nil (list_at ns d))
  | inr h ↦ rw h (absent_list (lookup ns d) (sym (has_key-lookup ns d) ∙ h))
]

sorted_key :
    (ns : String) (d : Dict String (List Entry))
    → NodupKeys d
    → filter (λ k. ns == k) (sort text_le (keys d)) ≡ (if has_key ns d then ns ∷ [] else [])
sorted_key ns d u =
    let once = filter-keys ns d u in
    filter-sort_single text_le (λ k. ns == k) (keys d)
      (subst (λ ks. length ks ≤ 1) (sym once) (length-if (has_key ns d) ns))
    ∙ once

module _ (F : Floats) where
  -- In a list of findings, the reports for a namespace, which is not empty, hold the results of its
  -- findings, and the cluster's report those of the findings with no namespace, in their order: each
  -- result stands in one report.
  pub build_policy_reports_partition :
      (scan_type : String) (fs : List (Finding F))
      → ((ns : String)
          → results_in (some ns) (build_policy_reports F scan_type fs)
            ≡ map (policyreport_result F) (filter (belongs (group_of F) ns) fs))
        × (results_in none (build_policy_reports F scan_type fs)
            ≡ map (policyreport_result F) (filter (λ f. not (truthy (group_of F f))) fs))
  unfolding build_policy_reports flat_map lookup
  build_policy_reports_partition scan_type fs =
      let d = by_namespace (group_of F) (policyreport_result F) fs [] in
      let ks = sort text_le (keys d) in
      let cluster =
        cluster_report scan_type (cluster_results (group_of F) (policyreport_result F) fs) in
      (
        λ ns.
            results_in-append (some ns) (map (namespace_report scan_type d) ks) (cluster ∷ [])
            ∙ append-nil (results_in (some ns) (map (namespace_report scan_type d) ks))
            ∙ results_in-namespaces scan_type ns d ks
            ∙ ap (flat_map (λ k. list_at k d)) (
                sorted_key ns d
                  (by_namespace-NodupKeys (group_of F) (policyreport_result F) fs [] tt))
            ∙ lists_at ns d
            ∙ list_at-by_namespace (group_of F) (policyreport_result F) ns fs [],
        results_in-append none (map (namespace_report scan_type d) ks) (cluster ∷ [])
            ∙ ap (λ rs. rs ++ results_in none (cluster ∷ [])) (results_in-cluster scan_type d ks)
            ∙ append-nil cluster.results
            ∙ cluster_results_lem (group_of F) (policyreport_result F) fs,
      )
