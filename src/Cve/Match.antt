-- ===== src/Cve/Match.antt =====
-- control-plane/app/cve_service.py: `_match_cves`, the CVE entries that hit a cluster's inventory.
-- A set of versions is the list of its elements, each once; the order in which Python walks through
-- the set of the candidates is the parameter `walk`.
pub mod Candidates
pub mod Reported
use kaaval.Base.{
  String, Bool, true, false, not, ◌&&◌, ◌||◌, Option, none, some, List, [], ◌∷◌, ◌++◌,
  if◌then◌else◌, get_or, nonempty, take, flat_map, any, contains, ◌==◌, string_eq,
}
use kaaval.Base.Dict.{Dict, has_key, insert, lookup}
use kaaval.Base.Sort.{sort}
use kaaval.Base.Text.{lower, is_text, or_text}
use kaaval.Base.Parsing.{take_chars, occurs_in, lstrip_char, split_at}
use kaaval.Floats.{Floats}
use kaaval.Scoring.{Context, compute_contextual_score}
use kaaval.Finding.{Finding, Affected, bare_finding}
use kaaval.Remediation.Build.{with_remediation}
use kaaval.Rbac.Findings.{ranks_before}
use kaaval.Cve.Version.{version_in_range}

-- An element of `addons`
pub record Addon : Type 0 where
  pub name : String
  pub version : String

-- An element of a component's "ranges": a missing key and `None` are `none`.
pub record KnownRange : Type 0 where
  pub introduced : Option String
  pub fixed : Option String

-- An element of `affected_components`
pub record AffectedComponent : Type 0 where
  pub component : String
  pub versions : List String
  pub ranges : List KnownRange
  pub fixed_in : Option String

module _ (F : Floats) where
  -- The columns of a CVEEntry that are read; the date stands as its ISO text.
  pub record CveEntry : Type 0 where
    pub cve_id : String
    pub title : String
    pub severity : String
    pub cvss_score : Option F.Float
    pub affected_components : List AffectedComponent
    pub fixed_in : List String
    pub description : Option String
    pub references : List String
    pub published_date : Option String

-- `s.add(v)`
unfoldable pub add_version : List String → String → List String
unfolding contains
add_version versions v = if contains versions v then versions else versions ++ v ∷ []

unfoldable pub add_versions : List String → List String → List String
unfolding add_version
add_versions versions [] = versions
add_versions versions (v ∷ vs) = add_versions (add_version versions v) vs

abbrev pub VersionsMap : Type 0
VersionsMap = Dict String (List String)

-- The version of the server, unless it is empty or unknown, and those of the nodes.
unfoldable pub kubernetes_versions : String → List String → List String
unfolding add_versions
kubernetes_versions server_version node_versions =
    add_versions
      (if is_text server_version && not (server_version == "unknown")
        then server_version ∷ []
        else [])
      node_versions

-- The round of the loop over the add-ons.
unfoldable pub add_addon : VersionsMap → Addon → VersionsMap
unfolding lookup insert add_version lower
add_addon m a =
    let name = lower a.name in
    let known = get_or (lookup name m) [] in
    insert name (if not (a.version == "unknown") then add_version known a.version else known) m

unfoldable pub add_addons : VersionsMap → List Addon → VersionsMap
unfolding add_addon
add_addons m [] = m
add_addons m (a ∷ addons) = add_addons (add_addon m a) addons

unfoldable pub versions_map : String → List String → List Addon → VersionsMap
unfolding add_addons kubernetes_versions
versions_map server_version node_versions addons =
    add_addons (("kubernetes", kubernetes_versions server_version node_versions) ∷ []) addons

-- `known_name == comp_name or comp_name in known_name or known_name in comp_name`
unfoldable pub same_component : String → String → Bool
unfolding occurs_in
same_component comp_name known_name =
    known_name == comp_name || (occurs_in comp_name known_name || occurs_in known_name comp_name)

unfoldable pub candidates_from : List String → String → VersionsMap → List String
unfolding same_component add_versions
candidates_from found comp_name [] = found
candidates_from found comp_name ((known_name, known) ∷ m) =
    candidates_from
      (if same_component comp_name known_name then add_versions found known else found) comp_name m

unfoldable pub candidate_versions : String → VersionsMap → List String
unfolding candidates_from
candidate_versions comp_name m = candidates_from [] comp_name m

-- `v.lstrip("v").split("-")[0] == ver`
unfoldable pub lists_version : String → String → Bool
unfolding lstrip_char split_at
lists_version ver v = elim (split_at "-" (lstrip_char "v" v)) [
  | [] ↦ false
  | part ∷ parts ↦ part == ver
]

-- The first range that holds the version.
unfoldable pub range_hit : String → List KnownRange → Option KnownRange
unfolding version_in_range
range_hit ver [] = none
range_hit ver (r ∷ ranges) =
    let rest = range_hit ver ranges in
    if version_in_range ver (some (get_or r.introduced "0")) r.fixed then some r else rest

abbrev hit : String → String → Option String → Affected
hit comp_name ver fixed = record { component = comp_name; version = some ver; fixed = fixed }

abbrev hit_of_range : String → String → Option KnownRange → List Affected
hit_of_range comp_name ver none = []
hit_of_range comp_name ver (some r) = hit comp_name ver r.fixed ∷ []

-- The match that one candidate version adds, if it is affected.
unfoldable pub version_matches : AffectedComponent → String → String → List Affected
unfolding lists_version range_hit
version_matches comp comp_name ver =
    if any (lists_version ver) comp.versions
    then hit comp_name ver comp.fixed_in ∷ []
    else hit_of_range comp_name ver (range_hit ver comp.ranges)

module _ (F : Floats) (walk : List String → List String) where
  unfoldable pub component_matches : VersionsMap → AffectedComponent → List Affected
  unfolding version_matches candidate_versions lower
  component_matches m comp =
      let comp_name = lower comp.component in
      if not (is_text comp_name)
      then []
      else flat_map (version_matches comp comp_name) (walk (candidate_versions comp_name m))

  unfoldable pub entry_matches : VersionsMap → CveEntry F → List Affected
  unfolding component_matches
  entry_matches m entry = flat_map (component_matches m) entry.affected_components

  unfoldable pub cve_finding : Context → CveEntry F → List Affected → Finding F
  unfolding with_remediation compute_contextual_score take take_chars
  cve_finding c entry affected_matches =
      let bare =
        bare_finding F entry.severity
          (compute_contextual_score F entry.cvss_score entry.severity c) in
      with_remediation F (record bare {
        cve_id = some entry.cve_id;
        title = entry.title;
        cvss_score = entry.cvss_score;
        affected = affected_matches;
        fixed_in = entry.fixed_in;
        description = take_chars 500 (or_text entry.description "");
        references = take 3 entry.references;
        published_date = entry.published_date;
      })

  unfoldable pub entry_findings : VersionsMap → Context → CveEntry F → List (Finding F)
  unfolding entry_matches cve_finding
  entry_findings m c entry =
      let affected_matches = entry_matches m entry in
      if nonempty affected_matches then cve_finding c entry affected_matches ∷ [] else []

  unfoldable pub match_cves :
      List (CveEntry F) → String → List String → List Addon → Context → List (Finding F)
  unfolding entry_findings versions_map sort
  match_cves entries server_version node_versions addons c =
      sort (ranks_before F)
        (flat_map (entry_findings (versions_map server_version node_versions addons) c) entries)
