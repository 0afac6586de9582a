-- ===== src/Images/Report/Laws.antt =====
-- `score_report` of control-plane/app/image_ingest.py returns, with a breakdown of its findings.
use kaaval.Base.{
  ℕ, suc, or-true, ◌≡◌, refl, ap, ◌∙◌, String, true, false, some, List, [], ◌∷◌, map, arith, get_or,
  is_some, Bool-cases, Option-cases, inl, inr, contains, filter, length, All, ◌==◌, string_eq,
}
use kaaval.Base.Dict.{Dict, lookup, has_key, values, has_key-lookup, has_key-insert}
use kaaval.Floats.{Floats}
use kaaval.Scoring.{Context, severity_order}
use kaaval.Finding.{Finding}
use kaaval.Rbac.Diff.{count_severity, empty_breakdown, count_findings, severity_breakdown}
use kaaval.Rbac.Diff.Breakdown.{sum, severity_breakdown_counts}
use kaaval.Images.Report.{
  bump, ImageReport, Scored, known_severity, tally, parse_report, image_of, source_of, score_report,
}

abbrev pub IsTotal : Dict String ℕ → Type 0
IsTotal d = (s : String) → contains severity_order s ≡ true → has_key s d ≡ true

bump-count_severity :
    (s : String) (d : Dict String ℕ) → has_key s d ≡ true → bump s d ≡ some (count_severity s d)
unfolding bump count_severity
bump-count_severity s d h = elim (Option-cases (lookup s d)) [
  | inl q ↦ let absent : has_key s d ≡ false = has_key-lookup s d ∙ ap is_some q in cc
  | inr (n, q) ↦ rw (q, bump) refl
]

count_severity-IsTotal : (t : String) (d : Dict String ℕ) → IsTotal d → IsTotal (count_severity t d)
unfolding count_severity
count_severity-IsTotal t d h s k = rw (has_key-insert, h s k) (or-true (s == t))

empty_breakdown-IsTotal : IsTotal empty_breakdown
unfolding contains has_key
empty_breakdown-IsTotal s h = ground arith

unknown_known : contains severity_order "UNKNOWN" ≡ true
unfolding contains
unknown_known = refl

length-map {ℓ κ} :
    {A : Type ℓ} {B : Type κ} (f : A → B) (xs : List A) → length (map f xs) ≡ length xs
length-map f [] = refl
length-map f (x ∷ xs) = ap suc (length-map f xs)

module _ (F : Floats) where
  known_severity-known :
      (f : Finding F) → contains severity_order (known_severity F f).severity ≡ true
  unfolding known_severity
  known_severity-known f = elim (Bool-cases (contains severity_order f.severity)) [
    | inl h ↦ rw h h
    | inr h ↦ rw h unknown_known
  ]

  All-known :
      (fs : List (Finding F))
      → All (λ f. contains severity_order f.severity ≡ true) (map (known_severity F) fs)
  All-known [] = tt
  All-known (f ∷ fs) = (known_severity-known f, All-known fs)

  tally-count_findings :
      (fs : List (Finding F)) (d : Dict String ℕ)
      → IsTotal d
      → tally F fs d ≡ some (count_findings F (map (known_severity F) fs) d)
  unfolding tally count_findings
  tally-count_findings [] d h = refl
  tally-count_findings (f ∷ fs) d h =
      let s = (known_severity F f).severity in
      rw (bump-count_severity s d (h s (known_severity-known f)), tally)
        (tally-count_findings fs (count_severity s d) (count_severity-IsTotal s d h))

  -- For a report that names its image, a scan is returned. It keeps the adapter's findings in their
  -- order, each with a severity of the order; the number at a severity in its breakdown is that of the
  -- findings that have it, and these numbers add up to the affected count.
  pub score_report_breakdown :
      (report : ImageReport F) (c : Context) (image : String)
      → image_of F report ≡ some image
      → (r : Scored F) × (score_report F report c ≡ some r)
        × (r.findings ≡ map (known_severity F) (parse_report F report c))
        × All (λ f. contains severity_order f.severity ≡ true) r.findings
        × (sum (values r.severity_breakdown) ≡ r.affected_count)
        × ((s : String)
            → get_or (lookup s r.severity_breakdown) 0
              ≡ length (filter (λ f. s == f.severity) r.findings))
  unfolding score_report severity_breakdown
  score_report_breakdown report c image h =
      let fs = map (known_severity F) (parse_report F report c) in
      rw
        (
          tally-count_findings (parse_report F report c) empty_breakdown empty_breakdown-IsTotal,
          h,
          score_report,
        )
        (
          record {
            scan_type = "image";
            mode = "report";
            source = source_of F report;
            image = image;
            image_count = 1;
            context = c;
            affected_count = length (parse_report F report c);
            severity_breakdown = severity_breakdown F fs;
            findings = fs;
          },
          refl,
          refl,
          All-known (parse_report F report c),
          (severity_breakdown_counts F fs).0 ∙ length-map _ _,
          (severity_breakdown_counts F fs).1,
        )
