-- ===== src/Images/Trivy.antt =====
-- control-plane/app/trivy_adapter.py: findings from a report of `trivy image --format json`. The
-- reports are those that TrivyReport of image_ingest.py accepts: each key has the type named there.
pub mod Laws
use kaaval.Base.{
  String, ◌<>◌, Bool, true, false, ◌&&◌, Option, none, some, List, [], ◌∷◌, ◌++◌, map,
  if◌then◌else◌, get_or, take, flat_map, string_eq, pair_eq,
}
use kaaval.Base.Dict.{Dict, values}
use kaaval.Base.Sort.{sort}
use kaaval.Base.Text.{lower, show, truthy, or_none, or_text}
use kaaval.Base.Parsing.{take_chars}
use kaaval.Floats.{Floats}
use kaaval.Scoring.{Context, compute_contextual_score}
use kaaval.Finding.{Finding, Affected, bare_finding}
use kaaval.Remediation.Build.{with_remediation}
use kaaval.Rbac.Findings.{ranks_before}
use kaaval.Images.Common.{DedupKey, severity, max_score, known}
use kaaval.Images.Merge.{merge}

abbrev pub source_name : String
source_name = "trivy"

module _ (F : Floats) where
  -- An element of "Vulnerabilities". "CVSS" has a "V3Score" per vendor; `none` is an entry that is no
  -- dict, or whose score is no number.
  pub record Vulnerability : Type 0 where
    pub vulnerability_id : Option String
    pub pkg_name : Option String
    pub installed_version : Option String
    pub fixed_version : Option String
    pub severity : Option String
    pub title : Option String
    pub description : Option String
    pub references : List String
    pub published_date : Option String
    pub cvss : List (String × Option F.Float)

  -- "Results" as the lists of their "Vulnerabilities"; a missing "ArtifactName" is `none`.
  pub record Report : Type 0 where
    pub artifact_name : Option String
    pub results : List (List Vulnerability)

  unfoldable pub best_cvss_score : Vulnerability → Option F.Float
  unfolding max_score known values
  best_cvss_score v = max_score F (known (values v.cvss))

  unfoldable pub title : Vulnerability → String → String → String
  title v cve_id pkg_name = if truthy v.title then show v.title else cve_id <> ": " <> pkg_name

  unfoldable pub references : Vulnerability → List String
  unfolding take
  references v = take 3 v.references

  unfoldable pub finding : Context → String → Vulnerability → String → String → Finding F
  unfolding best_cvss_score title references severity take_chars with_remediation
      compute_contextual_score lower
  finding c image v cve_id pkg_name =
      let rank = severity v.severity in
      let cvss_score = best_cvss_score v in
      let bare = bare_finding F rank (compute_contextual_score F cvss_score rank c) in
      with_remediation F (record bare {
        cve_id = some cve_id;
        title = title v cve_id pkg_name;
        cvss_score = cvss_score;
        affected =
            record {
              component = lower pkg_name;
              version = v.installed_version;
              fixed = or_none v.fixed_version;
            }
            ∷ [];
        fixed_in = if truthy v.fixed_version then show v.fixed_version ∷ [] else [];
        description = take_chars 500 (or_text v.description "");
        references = references v;
        published_date = v.published_date;
        source = some source_name;
        image = some image;
      })

  -- The key and the finding of one entry; `none` for one that is malformed.
  unfoldable pub entry : Context → String → Vulnerability → Option (DedupKey × Finding F)
  unfolding finding lower
  entry c image v =
      let cve_id = show v.vulnerability_id in
      let pkg_name = show v.pkg_name in
      if truthy v.vulnerability_id && truthy v.pkg_name
      then some ((cve_id, (image, lower pkg_name)), finding c image v cve_id pkg_name)
      else none

  -- The loop over "Results".
  unfoldable pub merge_results :
      Context
      → String
      → List (List Vulnerability)
      → Dict DedupKey (Finding F)
      → Dict DedupKey (Finding F)
  unfolding merge entry
  merge_results c image [] merged = merged
  merge_results c image (vulnerabilities ∷ results) merged =
      merge_results c image results (merge (entry c image) vulnerabilities merged)

  -- `none` is a report that is empty or `None`.
  unfoldable pub parse : Option Report → Context → List (Finding F)
  unfolding merge_results values sort
  parse none c = []
  parse (some report) c =
      sort (ranks_before F)
        (values (merge_results c (get_or report.artifact_name "unknown") report.results []))
