-- ===== src/Examples/Reports.antt =====
-- The theorems on image reports and on the gate, on a report of two entries for one package.
use kaaval.Base.{
  ◌≡◌, refl, String, true, not, ◌||◌, some, none, [], ◌∷◌, map, any, all, All, filter, length,
  if◌then◌else◌, get_or, contains, ◌==◌, string_eq, pair_eq,
}
use kaaval.Base.Dict.{values, lookup}
use kaaval.Base.Text.{upper, truthy, show}
use kaaval.Finding.{Finding, bare_finding}
use kaaval.Scoring.{compute_contextual_score, severity_order}
use kaaval.Images.Trivy
use kaaval.Images.Grype
use kaaval.Images.Common.{DedupKey, max_score}
use kaaval.Images.Common.Laws.{image_key}
use kaaval.Images.Merge.Laws.{first_of, at_most_one}
use kaaval.Images.Trivy.Laws.{vulnerabilities, trivy_parse_dedup}
use kaaval.Images.Grype.Laws.{grype_parse_dedup}
use kaaval.Images.Report.{ImageReport, Scored, image_of, score_report, known_severity, parse_report}
use kaaval.Images.Report.Laws.{score_report_breakdown}
use kaaval.Rbac.Diff.Breakdown.{sum}
use kaaval.Cli.Gate.{Exit, severity_valid, run_image_scan}
use kaaval.Cli.Gate.Laws.{reaches}
use kaaval.Cli.Gate.Image.{run_image_scan_exits}
use kaaval.Examples.Fixed.{fixed, production}

abbrev openssl : Trivy.Vulnerability fixed
openssl = record {
  vulnerability_id = some "CVE-2023-0286";
  pkg_name = some "OpenSSL";
  installed_version = some "1.1.1n";
  fixed_version = some "1.1.1t";
  severity = some "high";
  title = none;
  description = none;
  references = [];
  published_date = none;
  cvss = ("nvd", some 740) ∷ ("ghsa", none) ∷ [];
}

abbrev unnamed : Trivy.Vulnerability fixed
unnamed = record openssl { pkg_name = some "" }

abbrev trivy_report : Trivy.Report fixed
trivy_report = record {
  artifact_name = some "app:1.0";
  results = (openssl ∷ unnamed ∷ []) ∷ (openssl ∷ []) ∷ [];
}

abbrev openssl_key : DedupKey
openssl_key = ("CVE-2023-0286", ("app:1.0", "openssl"))

trivy_parse_dedup_example :
    filter
      (λ f. openssl_key == image_key fixed f)
      (Trivy.parse fixed (some trivy_report) production)
    ≡ at_most_one (
        first_of
          (Trivy.entry fixed production "app:1.0")
          openssl_key
          (vulnerabilities fixed production trivy_report))
trivy_parse_dedup_example = trivy_parse_dedup fixed production trivy_report openssl_key

abbrev grype_match : Grype.Match fixed
grype_match = record {
  vulnerability_id = some "CVE-2023-0286";
  severity = some "High";
  cvss =
      record { version = some "2.0"; base_score = some 900 }
      ∷ record { version = some "3.1"; base_score = some 740 }
      ∷ [];
  fix_versions = "1.1.1t" ∷ [];
  description = none;
  urls = [];
  artifact_name = some "openssl";
  artifact_version = some "1.1.1n";
}

abbrev grype_report : Grype.Report fixed
grype_report = record {
  target = Grype.ScanTarget.name "app:1.0";
  matches = grype_match ∷ grype_match ∷ [];
}

grype_parse_dedup_example :
    filter
      (λ f. openssl_key == image_key fixed f)
      (Grype.parse fixed (some grype_report) production)
    ≡ at_most_one (
        first_of
          (Grype.entry fixed production (Grype.image_name grype_report.target))
          openssl_key
          grype_report.matches)
grype_parse_dedup_example = grype_parse_dedup fixed production grype_report openssl_key

highest : max_score fixed (740 ∷ 980 ∷ 810 ∷ []) ≡ some 980
unfolding max_score
highest = refl

abbrev pub report : ImageReport fixed
report = ImageReport.trivy trivy_report

pub named : image_of fixed report ≡ some "app:1.0"
unfolding image_of
named = refl

score_report_breakdown_example :
    (r : Scored fixed) × (score_report fixed report production ≡ some r)
    × (r.findings ≡ map (known_severity fixed) (parse_report fixed report production))
    × All (λ f. contains severity_order f.severity ≡ true) r.findings
    × (sum (values r.severity_breakdown) ≡ r.affected_count)
    × ((s : String)
        → get_or (lookup s r.severity_breakdown) 0
          ≡ length (filter (λ f. s == f.severity) r.findings))
score_report_breakdown_example = score_report_breakdown fixed report production "app:1.0" named

run_image_scan_exits_example : run_image_scan fixed report production none (some "high") ≡ (
    if severity_valid (some "high")
    then Exit.code (
        if any
          (reaches fixed none (some "high"))
          (map (known_severity fixed) (parse_report fixed report production))
        then 1
        else 0)
    else Exit.usage)
run_image_scan_exits_example =
    run_image_scan_exits fixed report production "app:1.0" none (some "high") named

abbrev high : Finding fixed
high = bare_finding fixed "HIGH" (compute_contextual_score fixed none "HIGH" production)

high_known : all (λ f. contains severity_order f.severity) (high ∷ []) ≡ true
unfolding all contains
high_known = refl

medium_known :
    (not (truthy (some "medium")) || contains severity_order (upper (show (some "medium")))) ≡ true
unfolding contains upper
medium_known = refl
