-- ===== src/Rbac/Diff/Exact.antt =====
-- What the diff of control-plane/app/rbac_service.py holds for each key.
use kaaval.Base.{
  ◌≡◌, refl, subst, sym, ap, ◌∙◌, ◌+◌, true, false, Bool-cases, inl, inr, Option, none, some, List,
  [], ◌∷◌, length, Option-cases, if◌then◌else◌, ◌==◌, ==-refl, string_eq, option_eq, pair_eq, Eq,
}
use kaaval.Base.Dict.{Dict, lookup, has_key, has_key-lookup, insert, NodupKeys, lookup-insert}
use kaaval.Floats.{Floats}
use kaaval.Finding.{Finding}
use kaaval.Rbac.Diff.{
  FindingKey, finding_key, by_key, missing_from, changed_from, Change, diff_scans,
}
use kaaval.Rbac.Diff.Keys.{IsKeyed, by_key-IsKeyed, by_key-NodupKeys}
use kaaval.Rbac.Diff.Partition.{diff_scans_partition}

-- The first element with a key.
abbrev pub find_at {ℓ} : {A : Type ℓ} {K : Type 0} ⦃e : Eq K⦄ → (A → K) → K → List A → Option A
find_at key k [] = none
find_at key k (x ∷ xs) = let rest = find_at key k xs in if k == key x then some x else rest

module _ (F : Floats) {K : Type 0} ⦃e : Eq K⦄ (key : Finding F → K) where
  -- The last finding of a list that has a key.
  abbrev pub last_at : K → List (Finding F) → Option (Finding F)
  last_at k [] = none
  last_at k (f ∷ fs) = elim (last_at k fs) [
    | some g ↦ some g
    | none ↦ if k == key f then some f else none
  ]

  or_last : Option (Finding F) → Option (Finding F) → Option (Finding F)
  or_last none old = old
  or_last (some g) old = some g

  lookup-by_key_onto :
      (k : K) (fs : List (Finding F)) (d : Dict K (Finding F))
      → lookup k (by_key F key fs d) ≡ or_last (last_at k fs) (lookup k d)
  unfolding by_key or_last
  lookup-by_key_onto k [] d = refl
  lookup-by_key_onto k (f ∷ fs) d = elim (Option-cases (last_at k fs)) [
    | inr (g, q) ↦ rw (lookup-by_key_onto k fs (insert (key f) f d), q) refl
    | inl q ↦
        rw (lookup-by_key_onto k fs (insert (key f) f d), q, lookup-insert)
          (elim (Bool-cases (k == key f)) [ inl h ↦ rw h refl | inr h ↦ rw h refl ])
  ]

  lookup-by_key : (k : K) (fs : List (Finding F)) → lookup k (by_key F key fs []) ≡ last_at k fs
  unfolding or_last lookup
  lookup-by_key k fs =
      lookup-by_key_onto k fs []
      ∙ elim (Option-cases (last_at k fs)) [ inl q ↦ rw q refl | inr (g, q) ↦ rw q refl ]

  -- What the comprehensions keep at a key, from the entries of the two dicts there.
  abbrev pub missing_at : Option (Finding F) → Option (Finding F) → Option (Finding F)
  missing_at own (some g) = none
  missing_at own none = own

  abbrev pub changed_at : Option (Finding F) → Option (Finding F) → Option (Change F)
  changed_at own none = none
  changed_at none (some g) = none
  changed_at (some f) (some g) =
      if f.severity == g.severity
      then none
      else some (record { finding = f; previous_severity = g.severity })

  own_key : (j : K) (f : Finding F) → j ≡ key f → (j == key f) ≡ true
  own_key j f keyed = ap (λ i. j == i) (sym keyed) ∙ ==-refl j

  other_key : (k j : K) (f : Finding F) → j ≡ key f → (k == j) ≡ false → (k == key f) ≡ false
  other_key k j f keyed differ = ap (λ i. k == i) (sym keyed) ∙ differ

  missing_nothing : (old : Option (Finding F)) → none ≡ missing_at none old
  missing_nothing none = refl
  missing_nothing (some g) = refl

  changed_nothing : (old : Option (Finding F)) → none ≡ changed_at none old
  changed_nothing none = refl
  changed_nothing (some g) = refl

  find_at-missing_from :
      (k : K) (other d : Dict K (Finding F))
      → IsKeyed F key d
      → find_at key k (missing_from F other d) ≡ missing_at (lookup k d) (lookup k other)
  unfolding missing_from lookup
  find_at-missing_from k other [] h = missing_nothing (lookup k other)
  find_at-missing_from k other ((j, f) ∷ d) (keyed, h) = elim (Bool-cases (k == j)) [
    | inl same ↦
        subst
          (λ i.
            find_at key i (missing_from F other ((j, f) ∷ d))
            ≡ missing_at (lookup i ((j, f) ∷ d)) (lookup i other))
          (sym ((e.beq_iff k j).0 same))
          (elim (Option-cases (lookup j other)) [
            | inl q ↦ rw (has_key-lookup j other, q, own_key j f keyed, ==-refl j) refl
            | inr (g, q) ↦
                let rest : find_at key j (missing_from F other d) ≡ none =
                  rw q at (find_at-missing_from j other d h) in
                rw (has_key-lookup j other, q) rest
          ])
    | inr differ ↦ rw differ (elim (Bool-cases (has_key j other)) [
      | inl known ↦ rw known (find_at-missing_from k other d h)
      | inr unknown ↦ rw (unknown, other_key k j f keyed differ) (find_at-missing_from k other d h)
    ])
  ]

  changed_key : Change F → K
  changed_key c = key c.finding

  absent : (j : K) (d : Dict K (Finding F)) → has_key j d ≡ false → lookup j d ≡ none
  absent j d fresh = elim (Option-cases (lookup j d)) [
    | inl q ↦ q
    | inr (g, q) ↦ cc (has_key-lookup j d, fresh, q)
  ]

  find_at-changed_from :
      (k : K) (other d : Dict K (Finding F))
      → IsKeyed F key d
      → NodupKeys d
      → find_at changed_key k (changed_from F other d) ≡ changed_at (lookup k d) (lookup k other)
  unfolding changed_from lookup changed_key
  find_at-changed_from k other [] h u = changed_nothing (lookup k other)
  find_at-changed_from k other ((j, f) ∷ d) (keyed, h) (fresh, u) = elim (Bool-cases (k == j)) [
    | inl same ↦
        subst
          (λ i.
            find_at changed_key i (changed_from F other ((j, f) ∷ d))
            ≡ changed_at (lookup i ((j, f) ∷ d)) (lookup i other))
          (sym ((e.beq_iff k j).0 same))
          (elim (Option-cases (lookup j other)) [
            | inl q ↦
                let rest : find_at changed_key j (changed_from F other d) ≡ none =
                  rw q at (find_at-changed_from j other d h u) in
                rw (changed_from, q) rest
            | inr (g, q) ↦
                let rest : find_at changed_key j (changed_from F other d) ≡ none =
                  rw (q, absent j d fresh) at (find_at-changed_from j other d h u) in
                (elim (Bool-cases (f.severity == g.severity)) [
                  | inl s ↦ rw (changed_from, q, ==-refl j, s) rest
                  | inr s ↦ rw (changed_from, q, ==-refl j, s, own_key j f keyed) refl
                ])
          ])
    | inr differ ↦
        let rest = find_at-changed_from k other d h u in
        rw differ (elim (Option-cases (lookup j other)) [
          | inl q ↦ rw (changed_from, q) rest
          | inr (g, q) ↦ (elim (Bool-cases (f.severity == g.severity)) [
            | inl s ↦ rw (changed_from, q, s) rest
            | inr s ↦ rw (changed_from, q, s, other_key k j f keyed differ) rest
          ])
        ])
  ]

module _ (F : Floats) where
  abbrev pub change_key : Change F → FindingKey
  change_key c = finding_key F c.finding

  -- At every key, the diff of two scans compares the last findings that they have there: it is added if
  -- only the latest scan has one, resolved if only the previous one has, and if both have one it is listed
  -- as changed, as the latest scan has it and with the severity that it had before, exactly if the two
  -- severities differ. The findings of either scan, one for each key, are so accounted for, and the rest of
  -- them is counted as unchanged.
  pub diff_scans_exact :
      (k : FindingKey) (latest previous : List (Finding F))
      → let d = diff_scans F latest previous in
        let now = last_at F (finding_key F) k latest in
        let old = last_at F (finding_key F) k previous in
        (find_at (finding_key F) k d.added ≡ missing_at F (finding_key F) now old)
        × (find_at (finding_key F) k d.resolved ≡ missing_at F (finding_key F) old now)
        × (find_at change_key k d.severity_changed ≡ changed_at F (finding_key F) now old)
        × (length d.added + (length d.severity_changed + d.unchanged_count)
            ≡ length (by_key F (finding_key F) latest []))
        × (length d.resolved + (length d.severity_changed + d.unchanged_count)
            ≡ length (by_key F (finding_key F) previous []))
  unfolding diff_scans changed_key
  diff_scans_exact k latest previous =
      let key = finding_key F in
      let l = by_key F key latest [] in
      let p = by_key F key previous [] in
      let counts = diff_scans_partition F latest previous in
      let now_at = lookup-by_key F key k latest in
      let old_at = lookup-by_key F key k previous in
      (
        find_at-missing_from F key k p l (by_key-IsKeyed F key latest [] tt)
            ∙ rw (now_at, old_at) refl,
        find_at-missing_from F key k l p (by_key-IsKeyed F key previous [] tt)
            ∙ rw (now_at, old_at) refl,
        find_at-changed_from F key k p l (by_key-IsKeyed F key latest [] tt)
              (by_key-NodupKeys F key latest [] tt)
            ∙ rw (now_at, old_at) refl,
        counts.0,
        counts.1,
      )
