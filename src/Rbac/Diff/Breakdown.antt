-- ===== src/Rbac/Diff/Breakdown.antt =====
-- What the severity breakdown of control-plane/app/rbac_service.py says of the findings.
use kaaval.Base.{
  ℕ, ◌+◌, ◌≡◌, ap, String, List, [], ◌∷◌, arith, if◌then◌else◌, get_or, length, filter, ◌==◌,
  string_eq, option_eq, pair_eq, eq_iff,
}
use kaaval.Base.Dict.{Dict, lookup, values, lookup-insert}
use kaaval.Floats.{Floats}
use kaaval.Finding.{Finding}
use kaaval.Rbac.Diff.{count_severity, empty_breakdown, count_findings, severity_breakdown}

abbrev pub sum : List ℕ → ℕ
sum [] = 0
sum (n ∷ ns) = n + sum ns

sum-count_severity :
    (s : String) (d : Dict String ℕ) → sum (values (count_severity s d)) ≡ sum (values d) + 1
unfolding count_severity values
sum-count_severity s [] = omega arith
sum-count_severity s ((t, n) ∷ d) = ground (arith, sum-count_severity s d)

lookup-count_severity :
    (s t : String) (d : Dict String ℕ)
    → get_or (lookup t (count_severity s d)) 0 ≡ (if t == s then 1 else 0) + get_or (lookup t d) 0
unfolding count_severity
lookup-count_severity s t d =
    ground
      (arith, lookup-insert t s (get_or (lookup s d) 0 + 1) d, eq_iff t s, ap (λ u. lookup u d))

module _ (F : Floats) where
  sum-count_findings :
      (fs : List (Finding F)) (d : Dict String ℕ)
      → sum (values (count_findings F fs d)) ≡ sum (values d) + length fs
  unfolding count_findings
  sum-count_findings [] d = omega arith
  sum-count_findings (f ∷ fs) d =
      omega (
        arith,
        sum-count_findings fs (count_severity f.severity d),
        sum-count_severity f.severity d,
      )

  lookup-count_findings :
      (t : String) (fs : List (Finding F)) (d : Dict String ℕ)
      → get_or (lookup t (count_findings F fs d)) 0
        ≡ length (filter (λ f. t == f.severity) fs) + get_or (lookup t d) 0
  unfolding count_findings filter
  lookup-count_findings t [] d = omega arith
  lookup-count_findings t (f ∷ fs) d = ground (
    arith,
    lookup-count_findings t fs (count_severity f.severity d),
    lookup-count_severity f.severity t d,
  )

  -- The breakdown counts every finding once: its numbers add up to the findings, and the number at a
  -- severity is that of the findings that have it.
  pub severity_breakdown_counts :
      (fs : List (Finding F))
      → (sum (values (severity_breakdown F fs)) ≡ length fs)
        × ((t : String)
            → get_or (lookup t (severity_breakdown F fs)) 0
              ≡ length (filter (λ f. t == f.severity) fs))
  unfolding severity_breakdown values lookup
  severity_breakdown_counts fs = (
    omega (arith, sum-count_findings fs empty_breakdown),
    λ t. ground (arith, lookup-count_findings t fs empty_breakdown),
  )
