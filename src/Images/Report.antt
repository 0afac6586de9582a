-- ===== src/Images/Report.antt =====
-- control-plane/app/image_ingest.py: `score_report`, from a validated report to the scan that is
-- stored. What the Pydantic models accept stands in the types of the two adapters.
pub mod Laws
use kaaval.Base.{
  ℕ, ◌+◌, String, Bool, true, false, not, ◌&&◌, Option, none, some, List, [], ◌∷◌, map,
  if◌then◌else◌, contains, length, string_eq,
}
use kaaval.Base.Dict.{Dict, lookup, insert}
use kaaval.Floats.{Floats}
use kaaval.Scoring.{Context, severity_order}
use kaaval.Finding.{Finding}
use kaaval.Rbac.Diff.{empty_breakdown}
use kaaval.Images.Trivy
use kaaval.Images.Grype

-- `breakdown[severity] += 1`; `none` is the KeyError.
unfoldable pub bump : String → Dict String ℕ → Option (Dict String ℕ)
unfolding lookup insert
bump s d = elim (lookup s d) [ none ↦ none | some n ↦ some (insert s (n + 1) d) ]

module _ (F : Floats) where
  pub data ImageReport : Type 0 where
    trivy : Trivy.Report F → ImageReport
    grype : Grype.Report F → ImageReport

  pub record Scored : Type 0 where
    pub scan_type : String
    pub mode : String
    pub source : String
    pub image : String
    pub image_count : ℕ
    pub context : Context
    pub affected_count : ℕ
    pub severity_breakdown : Dict String ℕ
    pub findings : List (Finding F)

  -- `if finding["severity"] not in SEVERITY_ORDER: finding["severity"] = "UNKNOWN"`
  unfoldable pub known_severity : Finding F → Finding F
  unfolding contains
  known_severity f =
      if not (contains severity_order f.severity) then record f { severity = "UNKNOWN" } else f

  -- The loop: the breakdown that the findings leave, if no key is missing.
  unfoldable pub tally : List (Finding F) → Dict String ℕ → Option (Dict String ℕ)
  unfolding bump known_severity
  tally [] d = some d
  tally (f ∷ fs) d = elim (bump (known_severity f).severity d) [ none ↦ none | some e ↦ tally fs e ]

  unfoldable pub parse_report : ImageReport → Context → List (Finding F)
  unfolding Trivy.parse Grype.parse
  parse_report (ImageReport.trivy report) c = Trivy.parse F (some report) c
  parse_report (ImageReport.grype report) c = Grype.parse F (some report) c

  unfoldable pub source_of : ImageReport → String
  source_of (ImageReport.trivy report) = "trivy"
  source_of (ImageReport.grype report) = "grype"

  -- `none` is the KeyError on a report with no "ArtifactName", which TrivyReport rules out.
  unfoldable pub image_of : ImageReport → Option String
  unfolding Grype.image_name
  image_of (ImageReport.trivy report) = report.artifact_name
  image_of (ImageReport.grype report) = some (Grype.image_name report.target)

  unfoldable pub score_report : ImageReport → Context → Option Scored
  unfolding tally parse_report source_of image_of known_severity
  score_report report c =
      let findings = parse_report report c in
      elim (tally findings empty_breakdown) [
        | none ↦ none
        | some breakdown ↦ elim (image_of report) [
          | none ↦ none
          | some image ↦ some (record {
            scan_type = "image";
            mode = "report";
            source = source_of report;
            image = image;
            image_count = 1;
            context = c;
            affected_count = length findings;
            severity_breakdown = breakdown;
            findings = map known_severity findings;
          })
        ]
      ]
