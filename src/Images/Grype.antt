-- ===== src/Images/Grype.antt =====
-- control-plane/app/grype_adapter.py: findings from a report of `grype -o json`. The reports are
-- those that GrypeReport of image_ingest.py accepts: each key has the type named there.
pub mod Laws
use kaaval.Base.{
  String, ◌<>◌, Bool, true, false, not, ◌&&◌, Option, none, some, List, [], ◌∷◌, ◌++◌, map,
  if◌then◌else◌, get_or, take, head?, string_eq, pair_eq,
}
use kaaval.Base.Dict.{Dict, values}
use kaaval.Base.Sort.{sort}
use kaaval.Base.Text.{lower, show, is_text, truthy, or_text}
use kaaval.Base.Parsing.{take_chars, starts_with}
use kaaval.Floats.{Floats}
use kaaval.Scoring.{Context, compute_contextual_score}
use kaaval.Finding.{Finding, Affected, bare_finding}
use kaaval.Remediation.Build.{with_remediation}
use kaaval.Rbac.Findings.{ranks_before}
use kaaval.Images.Common.{DedupKey, severity, max_score, known}
use kaaval.Images.Merge.{merge}

abbrev pub source_name : String
source_name = "grype"

-- `source["target"]`: a dict, a string, or neither.
pub data ScanTarget : Type 0 where
  fields : (user_input image_id : Option String) → ScanTarget
  name : String → ScanTarget
  missing : ScanTarget

unfoldable pub image_name : ScanTarget → String
image_name (ScanTarget.fields user_input image_id) = or_text user_input (or_text image_id "unknown")
image_name (ScanTarget.name target) = target
image_name ScanTarget.missing = "unknown"

module _ (F : Floats) where
  -- An entry of "cvss" that is a dict; a score that is no number is `none`.
  pub record Cvss : Type 0 where
    pub version : Option String
    pub base_score : Option F.Float

  -- An element of "matches", with the parts of "vulnerability" and of "artifact" that are read.
  pub record Match : Type 0 where
    pub vulnerability_id : Option String
    pub severity : Option String
    pub cvss : List Cvss
    pub fix_versions : List String
    pub description : Option String
    pub urls : List String
    pub artifact_name : Option String
    pub artifact_version : Option String

  pub record Report : Type 0 where
    pub target : ScanTarget
    pub matches : List Match

  -- The scores that count: those of version 3, and those that name no version.
  unfoldable pub scores : List Cvss → List (Option F.Float)
  unfolding starts_with
  scores [] = []
  scores (x ∷ cvss) =
      let rest = scores cvss in
      let version = or_text x.version "" in
      if is_text version && not (starts_with version "3") then rest else x.base_score ∷ rest

  unfoldable pub best_cvss_score : List Cvss → Option F.Float
  unfolding max_score known scores
  best_cvss_score cvss = max_score F (known (scores cvss))

  unfoldable pub title : String → String → String
  title cve_id pkg_name = cve_id <> ": " <> pkg_name

  unfoldable pub references : Match → List String
  unfolding take
  references m = take 3 m.urls

  unfoldable pub finding : Context → String → Match → String → String → Finding F
  unfolding best_cvss_score title references severity take_chars with_remediation
      compute_contextual_score lower
  finding c image m cve_id pkg_name =
      let rank = severity m.severity in
      let cvss_score = best_cvss_score m.cvss in
      let fixed_version = head? m.fix_versions in
      let bare = bare_finding F rank (compute_contextual_score F cvss_score rank c) in
      with_remediation F (record bare {
        cve_id = some cve_id;
        title = title cve_id pkg_name;
        cvss_score = cvss_score;
        affected =
            record {
              component = lower pkg_name;
              version = m.artifact_version;
              fixed = fixed_version;
            }
            ∷ [];
        fixed_in = if truthy fixed_version then show fixed_version ∷ [] else [];
        description = take_chars 500 (or_text m.description "");
        references = references m;
        source = some source_name;
        image = some image;
      })

  -- The key and the finding of one match; `none` for one that is malformed.
  unfoldable pub entry : Context → String → Match → Option (DedupKey × Finding F)
  unfolding finding lower
  entry c image m =
      let cve_id = show m.vulnerability_id in
      let pkg_name = show m.artifact_name in
      if truthy m.vulnerability_id && truthy m.artifact_name
      then some ((cve_id, (image, lower pkg_name)), finding c image m cve_id pkg_name)
      else none

  -- `none` is a report that is empty or `None`.
  unfoldable pub parse : Option Report → Context → List (Finding F)
  unfolding merge entry values sort image_name
  parse none c = []
  parse (some report) c =
      sort (ranks_before F) (values (merge (entry c (image_name report.target)) report.matches []))
