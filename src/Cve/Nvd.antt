-- ===== src/Cve/Nvd.antt =====
-- control-plane/app/cve_service.py: `_parse_nvd`, feeds in the format NVD JSON 2.0. A key that is there
-- has a value of its type.
use kaaval.Base.{
  ℕ, String, Bool, ◌||◌, Option, none, some, List, [], ◌∷◌, ◌<>◌, if◌then◌else◌, get_or, map,
  flat_map, ◌==◌, string_eq, option_eq,
}
use kaaval.Base.Text.{upper, is_text, truthy, or_text}
use kaaval.Base.Parsing.{take_chars, split_at}
use kaaval.Floats.{Floats}
use kaaval.Cve.Osv.{Component}
use kaaval.Cve.Entry.{RawLink, link_of, Entry, Python, parse_iso}

pub record Description : Type 0 where
  pub lang : Option String
  pub value : String

-- An element of "cpeMatch"; `vulnerable` is its truth value.
pub record CpeMatch : Type 0 where
  pub vulnerable : Bool
  pub criteria : Option String
  pub version_start_including : Option String
  pub version_end_excluding : Option String

pub record Node : Type 0 where
  pub cpe_match : List CpeMatch

pub record Configuration : Type 0 where
  pub nodes : List Node

module _ (F : Floats) where
  -- "cvssData" of a metric
  pub record CvssData : Type 0 where
    pub base_score : Option F.Float
    pub base_severity : Option String

  -- The value at "cve" of an element of "vulnerabilities".
  pub record NvdCve : Type 0 where
    pub id : Option String
    pub descriptions : List Description
    pub metrics_v31 : List CvssData
    pub metrics_v30 : List CvssData
    pub metrics_v2 : List CvssData
    pub configurations : List Configuration
    pub references : List RawLink
    pub published : Option String
    pub last_modified : Option String

-- The first description in English.
unfoldable pub english : List Description → String
english [] = ""
english (d ∷ ds) = let others = english ds in if d.lang == some "en" then d.value else others

-- `parts[4] if len(parts) > 4 else "unknown"`
abbrev fifth : List String → String
fifth (a ∷ b ∷ c ∷ d ∷ e ∷ parts) = e
fifth _ = "unknown"

unfoldable pub component_name : Option String → String
unfolding split_at
component_name criteria = fifth (split_at ":" (get_or criteria ""))

-- The component of one element of "cpeMatch".
unfoldable pub cpe_component : CpeMatch → Component
unfolding component_name
cpe_component cpe =
    let ver_start = get_or cpe.version_start_including "0" in
    record {
      component = component_name cpe.criteria;
      ecosystem = "NVD";
      ranges =
          if is_text ver_start || truthy cpe.version_end_excluding
          then record {
            kind = "SEMVER";
            introduced = or_text (some ver_start) "0";
            fixed = cpe.version_end_excluding;
          }
            ∷ []
          else [];
      versions = [];
    }

-- `if not cpe.get("vulnerable"): continue`
unfoldable pub cpe_components : CpeMatch → List Component
unfolding cpe_component
cpe_components cpe = if cpe.vulnerable then cpe_component cpe ∷ [] else []

-- The three loops over the configurations.
unfoldable pub affected_components : List Configuration → List Component
unfolding flat_map cpe_components
affected_components configurations =
    flat_map (λ config. flat_map (λ node. flat_map cpe_components node.cpe_match) config.nodes)
      configurations

module _ (F : Floats) where
  -- The metrics of the first of the three keys that has any.
  unfoldable pub first_metric : List (List (CvssData F)) → Option (CvssData F)
  first_metric [] = none
  first_metric ([] ∷ keys) = first_metric keys
  first_metric ((metric ∷ metrics) ∷ keys) = some metric

  abbrev score_of : Option (CvssData F) → Option F.Float
  score_of none = none
  score_of (some m) = m.base_score

  unfoldable pub severity_of : Option (CvssData F) → String
  unfolding upper
  severity_of none = "UNKNOWN"
  severity_of (some m) = upper (get_or m.base_severity "UNKNOWN")

  unfoldable pub nvd_entry : Python F → ℕ → NvdCve F → Entry F
  unfolding english affected_components first_metric severity_of parse_iso take_chars
  nvd_entry py feed_id cve =
      let cve_id = get_or cve.id "UNKNOWN" in
      let desc = english cve.descriptions in
      let metric = first_metric (cve.metrics_v31 ∷ cve.metrics_v30 ∷ cve.metrics_v2 ∷ []) in
      record {
        feed_id = feed_id;
        cve_id = cve_id;
        title = cve_id <> (": " <> take_chars 100 desc);
        description = take_chars 2000 desc;
        severity = severity_of metric;
        cvss_score = score_of metric;
        affected_components = affected_components cve.configurations;
        fixed_in = [];
        published_date = parse_iso F py cve.published;
        modified_date = parse_iso F py cve.last_modified;
        references = map link_of cve.references;
      }

  unfoldable pub parse_nvd : Python F → List (NvdCve F) → ℕ → List (Entry F)
  unfolding nvd_entry
  parse_nvd py vulnerabilities feed_id = map (nvd_entry py feed_id) vulnerabilities
