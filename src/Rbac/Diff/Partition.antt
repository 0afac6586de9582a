-- ===== src/Rbac/Diff/Partition.antt =====
-- How many findings the diff of control-plane/app/rbac_service.py lists.
use kaaval.Base.{
  ℕ, ◌+◌, ◌≡◌, refl, sym, false, some, List, [], ◌∷◌, arith, if◌then◌else◌, length, Eq, string_eq,
  option_eq, pair_eq, ==-refl,
}
use kaaval.Base.Dict.{Dict, lookup, has_key, NodupKeys, has_key-lookup}
use kaaval.Floats.{Floats}
use kaaval.Finding.{Finding}
use kaaval.Rbac.Diff.{finding_key, by_key, missing_from, changed_from, count_unchanged, diff_scans}
use kaaval.Rbac.Diff.Keys.{by_key-NodupKeys}

module _ (F : Floats) {K : Type 0} ⦃e : Eq K⦄ where
  -- The entries of `d` whose key `other` has.
  common : Dict K (Finding F) → Dict K (Finding F) → ℕ
  common other [] = 0
  common other ((k, f) ∷ d) = (if has_key k other then 1 else 0) + common other d

  length-missing_from :
      (other d : Dict K (Finding F)) → length (missing_from F other d) + common other d ≡ length d
  unfolding missing_from common
  length-missing_from other [] = refl
  length-missing_from other ((k, f) ∷ d) = ground (arith, length-missing_from other d)

  changed_or_unchanged :
      (other d : Dict K (Finding F))
      → length (changed_from F other d) + count_unchanged F other d ≡ common other d
  unfolding changed_from count_unchanged common
  changed_or_unchanged other [] = refl
  changed_or_unchanged other ((k, f) ∷ d) =
      ground (arith, changed_or_unchanged other d, has_key-lookup k other)

  -- One more key in the other dict.
  common-cons :
      (k : K) (f : Finding F) (d other : Dict K (Finding F))
      → has_key k d ≡ false
      → NodupKeys other
      → common ((k, f) ∷ d) other ≡ (if has_key k other then 1 else 0) + common d other
  unfolding common has_key
  common-cons k f d [] h u = omega arith
  common-cons k f d ((j, g) ∷ other) h (fresh, u) =
      ground (arith, common-cons k f d other h u, e.beq_iff k j, e.beq_iff j k)

  common-nil : (other : Dict K (Finding F)) → common [] other ≡ 0
  unfolding common has_key
  common-nil [] = refl
  common-nil ((k, f) ∷ other) = omega (arith, common-nil other)

  common_comm :
      (d other : Dict K (Finding F))
      → NodupKeys d
      → NodupKeys other
      → common other d ≡ common d other
  unfolding common
  common_comm [] other u v = sym (common-nil other)
  common_comm ((k, f) ∷ d) other (fresh, u) v =
      ground (arith, common_comm d other u v, common-cons k f d other fresh v)

  -- Every entry of `part` stands in `d`.
  abbrev Within : Dict K (Finding F) → Dict K (Finding F) → Type 0
  Within d [] = Unit
  Within d ((k, f) ∷ part) = (lookup k d ≡ some f) × Within d part

  Within-cons :
      (k : K) (f : Finding F) (d part : Dict K (Finding F))
      → has_key k part ≡ false
      → Within d part
      → Within ((k, f) ∷ d) part
  unfolding lookup has_key
  Within-cons k f d [] h w = tt
  Within-cons k f d ((j, g) ∷ part) h (at, w) =
      (ground (arith, e.beq_iff j k, e.beq_iff k j), Within-cons k f d part (ground arith) w)

  Within-refl : (d : Dict K (Finding F)) → NodupKeys d → Within d d
  unfolding lookup
  Within-refl [] u = tt
  Within-refl ((k, f) ∷ d) (fresh, u) =
      (ground (arith, e.beq_iff k k), Within-cons k f d d fresh (Within-refl d u))

  missing-Within : (d part : Dict K (Finding F)) → Within d part → missing_from F d part ≡ []
  unfolding missing_from
  missing-Within d [] w = refl
  missing-Within d ((k, f) ∷ part) (at, w) =
      ground (arith, missing-Within d part w, has_key-lookup k d)

  changed-Within : (d part : Dict K (Finding F)) → Within d part → changed_from F d part ≡ []
  unfolding changed_from
  changed-Within d [] w = refl
  changed-Within d ((k, f) ∷ part) (at, w) =
      ground (arith, changed-Within d part w, ==-refl f.severity)

  unchanged-Within :
      (d part : Dict K (Finding F)) → Within d part → count_unchanged F d part ≡ length part
  unfolding count_unchanged
  unchanged-Within d [] w = refl
  unchanged-Within d ((k, f) ∷ part) (at, w) =
      ground (arith, unchanged-Within d part w, ==-refl f.severity)

module _ (F : Floats) where
  -- The diff accounts for every finding of either scan, one for each key: those of the latest scan
  -- are added, changed or unchanged, and those of the previous one resolved, changed or unchanged.
  pub diff_scans_partition :
      (latest previous : List (Finding F))
      → let d = diff_scans F latest previous in
        (length d.added + (length d.severity_changed + d.unchanged_count)
          ≡ length (by_key F (finding_key F) latest []))
        × (length d.resolved + (length d.severity_changed + d.unchanged_count)
            ≡ length (by_key F (finding_key F) previous []))
  unfolding diff_scans
  diff_scans_partition latest previous =
      let l = by_key F (finding_key F) latest [] in
      let p = by_key F (finding_key F) previous [] in
      let same =
        common_comm F l p (by_key-NodupKeys F (finding_key F) latest [] tt)
          (by_key-NodupKeys F (finding_key F) previous [] tt) in
      (
        omega (arith, length-missing_from F p l, changed_or_unchanged F p l),
        omega (arith, length-missing_from F l p, changed_or_unchanged F p l, same),
      )

  -- Against itself a scan has nothing added, resolved or changed, and one unchanged finding for each
  -- key.
  pub diff_scans_self :
      (fs : List (Finding F))
      → diff_scans F fs fs ≡ record {
        added = [];
        resolved = [];
        severity_changed = [];
        unchanged_count = length (by_key F (finding_key F) fs []);
      }
  unfolding diff_scans
  diff_scans_self fs =
      let d = by_key F (finding_key F) fs [] in
      let w = Within-refl F d (by_key-NodupKeys F (finding_key F) fs [] tt) in
      ground (arith, missing-Within F d d w, changed-Within F d d w, unchanged-Within F d d w)
