-- ===== src/Rbac/Diff/Keys.antt =====
-- Which findings the diff of control-plane/app/rbac_service.py lists, by their keys.
use kaaval.Base.{
  ◌≡◌, refl, sym, ◌∙◌, Bool, not, Bool-cases, inl, inr, ◌&&◌, ◌||◌, List, [], ◌∷◌, arith, any,
  or-false, ◌==◌, string_eq, option_eq, pair_eq, Eq,
}
use kaaval.Base.Dict.{Dict, has_key, insert, NodupKeys, has_key-insert, insert-NodupKeys}
use kaaval.Floats.{Floats}
use kaaval.Finding.{Finding}
use kaaval.Rbac.Diff.{FindingKey, finding_key, by_key, missing_from, diff_scans}

module _ (F : Floats) {K : Type 0} ⦃e : Eq K⦄ (key : Finding F → K) where
  -- A finding of the list has this key.
  abbrev pub has_finding : K → List (Finding F) → Bool
  has_finding k fs = any (λ f. k == key f) fs

  -- Each entry stands under its finding's key.
  abbrev pub IsKeyed : Dict K (Finding F) → Type 0
  IsKeyed [] = Unit
  IsKeyed ((k, f) ∷ d) = (k ≡ key f) × IsKeyed d

  insert-IsKeyed :
      (f : Finding F) (d : Dict K (Finding F)) → IsKeyed d → IsKeyed (insert (key f) f d)
  unfolding insert
  insert-IsKeyed f [] h = (refl, tt)
  insert-IsKeyed f ((j, g) ∷ d) (keyed, h) = elim (Bool-cases (key f == j)) [
    | inl same ↦ rw same (sym ((e.beq_iff (key f) j).0 same), h)
    | inr differ ↦ rw differ (keyed, insert-IsKeyed f d h)
  ]

  pub by_key-IsKeyed :
      (fs : List (Finding F)) (d : Dict K (Finding F)) → IsKeyed d → IsKeyed (by_key F key fs d)
  unfolding by_key
  by_key-IsKeyed [] d h = h
  by_key-IsKeyed (f ∷ fs) d h = by_key-IsKeyed fs _ (insert-IsKeyed f d h)

  pub by_key-NodupKeys :
      (fs : List (Finding F)) (d : Dict K (Finding F)) → NodupKeys d → NodupKeys (by_key F key fs d)
  unfolding by_key
  by_key-NodupKeys [] d u = u
  by_key-NodupKeys (f ∷ fs) d u = by_key-NodupKeys fs _ (insert-NodupKeys (key f) f d u)

  has_key-by_key :
      (k : K) (fs : List (Finding F)) (d : Dict K (Finding F))
      → has_key k (by_key F key fs d) ≡ (has_finding k fs || has_key k d)
  unfolding by_key any
  has_key-by_key k [] d = refl
  has_key-by_key k (f ∷ fs) d =
      ground (arith, has_key-by_key k fs (insert (key f) f d), has_key-insert k (key f) f d)

  has_finding-missing_from :
      (k : K) (other d : Dict K (Finding F))
      → IsKeyed d
      → has_finding k (missing_from F other d) ≡ (has_key k d && not (has_key k other))
  unfolding missing_from any has_key
  has_finding-missing_from k other [] h = refl
  has_finding-missing_from k other ((j, f) ∷ d) (keyed, h) =
      ground (arith, e.beq_iff k j, has_finding-missing_from k other d h)

  -- The dict of one list without the keys of the other's.
  pub has_finding-by_key :
      (k : K) (fs others : List (Finding F))
      → has_finding k (missing_from F (by_key F key others []) (by_key F key fs []))
        ≡ (has_finding k fs && not (has_finding k others))
  unfolding has_key
  has_finding-by_key k fs others =
      has_finding-missing_from k _ _ (by_key-IsKeyed fs [] tt) ∙ simp (has_key-by_key, or-false)

module _ (F : Floats) where
  -- The keys among the added findings are those of the latest scan that the previous one lacks, and
  -- the keys among the resolved ones are those of the previous scan that the latest lacks.
  pub diff_scans_keys :
      (k : FindingKey) (latest previous : List (Finding F))
      → (has_finding F (finding_key F) k (diff_scans F latest previous).added ≡ (
          has_finding F (finding_key F) k latest && not (has_finding F (finding_key F) k previous)))
        × (has_finding F (finding_key F) k (diff_scans F latest previous).resolved ≡ (
            has_finding F (finding_key F) k previous
            && not (has_finding F (finding_key F) k latest)))
  unfolding diff_scans
  diff_scans_keys k latest previous = (
    has_finding-by_key F (finding_key F) k latest previous,
    has_finding-by_key F (finding_key F) k previous latest,
  )
