-- ===== src/Cli/Sarif.antt =====
-- control-plane/app/cli.py: `_print_sarif` and `_print_junit`, up to the printing, over the rows of
-- Cli.Export.
pub mod Scores
pub mod Laws
pub mod Junit
use kaaval.Base.{
  ℕ, String, ◌<>◌, Bool, true, false, Option, none, some, List, [], ◌∷◌, map, length, nonempty,
  contains, ◌++◌, if◌then◌else◌, get_or, string_eq,
}
use kaaval.Base.Dict.{Dict, lookup, has_key, insert}
use kaaval.Base.Text.{show, truthy, or_text, title, spaced}
use kaaval.Floats.{Floats}
use kaaval.Scoring.{max_contextual_score}
use kaaval.Finding.{Finding}
use kaaval.Remediation.References.{Reference}
use kaaval.Cli.Export.{finding_target, image_package, Row, finding_rows}

-- `result["scan_type"]`
pub data ScanType : Type 0 where
  rbac image : ScanType

abbrev pub scan_name : ScanType → String
scan_name rbac = "rbac"
scan_name image = "image"

abbrev help_uri : ScanType → String
help_uri rbac = "https://github.com/kaaval/kaaval/blob/main/docs/rbac-rules.md"
help_uri image = "https://github.com/kaaval/kaaval/blob/main/docs/trivy-grype-integration.md"

-- An element of "rules", with the tags as a list.
pub record SarifRule : Type 0 where
  pub id : String
  pub description : String
  pub help_uri : String
  pub tags : List String
  pub security_severity : String

-- The quotient of floats, and `f"{x:.1f}"`.
pub record Formats (F : Floats) : Type 0 where
  pub divide : F.Float → F.Float → F.Float
  pub one_decimal : F.Float → String

-- "benchmark" and "id" of a reference
pub record CisRef : Type 0 where
  pub benchmark : String
  pub id : Option String

module _ (F : Floats) where
  -- `max(x, y)` and `min(x, y)`: the first one, unless the second is beyond it.
  abbrev pub max_of : F.Float → F.Float → F.Float
  max_of x y = if F.at_most y x then x else y

  abbrev min_of : F.Float → F.Float → F.Float
  min_of x y = if F.at_most x y then x else y

  -- `_contextual_score_to_security_severity`
  unfoldable pub to_security_severity : Formats F → F.Float → String
  unfolding max_contextual_score
  to_security_severity formats score =
      let scaled = formats.divide (F.times score (F.tenths 100)) (max_contextual_score F) in
      formats.one_decimal (min_of (F.tenths 100) (max_of (F.tenths 0) scaled))

  -- The body of the first loop: the best score of the rule so far, and its entry where there is none.
  unfoldable pub add_score : Row F → Dict String F.Float → Dict String F.Float
  unfolding lookup insert
  add_score row d =
      insert row.rule_id
        (max_of (get_or (lookup row.rule_id d) (F.tenths 0)) row.raw.contextual_score) d

  unfoldable pub max_scores : List (Row F) → Dict String F.Float → Dict String F.Float
  unfolding add_score
  max_scores [] d = d
  max_scores (row ∷ rows) d = max_scores rows (add_score row d)

  -- The ids of `rules_by_id`, in the order of their first rows.
  unfoldable pub add_rule : List String → Row F → List String
  unfolding contains
  add_rule ids row = if contains ids row.rule_id then ids else ids ++ row.rule_id ∷ []

  unfoldable pub rule_ids : List (Row F) → List String → List String
  unfolding add_rule
  rule_ids [] ids = ids
  rule_ids (row ∷ rows) ids = rule_ids rows (add_rule ids row)

  unfoldable pub sarif_rule : Formats F → ScanType → Dict String F.Float → String → SarifRule
  unfolding to_security_severity lookup title
  sarif_rule formats scan_type scores id = record {
    id = id;
    description = title (spaced id);
    help_uri = help_uri scan_type;
    tags = scan_name scan_type ∷ "security" ∷ [];
    security_severity = to_security_severity formats (get_or (lookup id scores) (F.tenths 0));
  }

  -- An element of "results", with its one location.
  pub record SarifResult : Type 0 where
    pub rule_id : String
    pub level : String
    pub message : String
    pub name : String
    pub fully_qualified_name : String
    pub contextual_score : F.Float
    pub severity : String
    pub cis_refs : List CisRef

  abbrev location_of : Finding F → String
  location_of f = or_text (finding_target F f).namespace "cluster-scoped"

  abbrev target_name : Finding F → String
  target_name f =
      let target = show (finding_target F f).kind <> ("/" <> show (finding_target F f).name) in
      if truthy f.image then target <> ("/" <> image_package F f) else target

  unfoldable pub sarif_result : Row F → SarifResult
  unfolding finding_target image_package
  sarif_result row = record {
    rule_id = row.rule_id;
    level = row.level;
    message = row.message;
    name = target_name row.raw;
    fully_qualified_name = location_of row.raw <> ("/" <> target_name row.raw);
    contextual_score = row.raw.contextual_score;
    severity = row.raw.severity;
    cis_refs = map (λ r. record { benchmark = r.benchmark; id = r.id }) row.refs;
  }

  pub record Sarif : Type 0 where
    pub rules : List SarifRule
    pub results : List SarifResult

  unfoldable pub print_sarif : Formats F → ScanType → List (Finding F) → Sarif
  unfolding max_scores rule_ids sarif_rule sarif_result finding_rows
  print_sarif formats scan_type fs =
      let rows = finding_rows F fs in
      record {
        rules = map (sarif_rule formats scan_type (max_scores rows [])) (rule_ids rows []);
        results = map sarif_result rows;
      }

  -- A testcase, with the message, the type and the text of its failure, if it failed.
  pub record TestCase : Type 0 where
    pub classname : String
    pub name : String
    pub failure : Option (String × String × String)

  pub record TestSuite : Type 0 where
    pub name : String
    pub tests : ℕ
    pub failures : ℕ
    pub cases : List TestCase

  unfoldable pub junit_case : ScanType → Row F → TestCase
  unfolding finding_target image_package
  junit_case scan_type row = record {
    classname = "kaaval." <> (scan_name scan_type <> ("." <> row.rule_id));
    name =
        if truthy row.raw.image
        then row.title
          <> (" [" <> (show row.raw.image <> (" " <> (image_package F row.raw <> "]"))))
        else row.title;
    failure = some (
      row.title,
      row.raw.severity,
      row.message
          <> ("\nvia "
              <> (show (finding_target F row.raw).kind
                  <> (" "
                      <> (show (finding_target F row.raw).name
                          <> (" (" <> (location_of row.raw <> ")")))))),
    );
  }

  abbrev clean_case : ScanType → TestCase
  clean_case scan_type = record {
    classname = "kaaval." <> scan_name scan_type;
    name = elim scan_type [
      | rbac ↦ "no RBAC misconfigurations found"
      | image ↦ "no image vulnerabilities found"
    ];
    failure = none;
  }

  unfoldable pub print_junit : ScanType → List (Finding F) → TestSuite
  unfolding junit_case finding_rows
  print_junit scan_type fs =
      let rows = finding_rows F fs in
      record {
        name = "kaaval." <> scan_name scan_type;
        tests = if nonempty rows then length rows else 1;
        failures = length rows;
        cases =
            if nonempty rows then map (junit_case scan_type) rows else clean_case scan_type ∷ [];
      }
