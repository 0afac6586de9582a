-- ===== src/Cve/OsvFeed.antt =====
-- control-plane/app/cve_service.py: `_parse_osv`, feeds in the OSV format. A key that is there has a
-- value of its type.
use kaaval.Base.{
  ℕ, String, ◌&&◌, Option, none, some, List, [], ◌∷◌, if◌then◌else◌, get_or, is_some, map, ◌==◌,
  string_eq,
}
use kaaval.Base.Text.{upper}
use kaaval.Base.Parsing.{take_chars, starts_with}
use kaaval.Floats.{Floats}
use kaaval.Cve.Version.{cvss_to_severity}
use kaaval.Cve.Osv.{OsvAffected, Component, parse_osv_affected}
use kaaval.Cve.Entry.{RawLink, link_of, Entry, Python, parse_iso, base_score}

module _ (F : Floats) where
  -- The value at "cvss" in "database_specific".
  pub record DbCvss : Type 0 where
    pub score : Option F.Float
    pub severity : Option String

  -- An element of "vulns"; `severity_scores` holds the key "score" of each element of "severity".
  pub record Vuln : Type 0 where
    pub id : Option String
    pub aliases : List String
    pub db_cvss : Option DbCvss
    pub db_severity : Option String
    pub severity_scores : List (Option String)
    pub affected : List OsvAffected
    pub references : List RawLink
    pub summary : Option String
    pub details : Option String
    pub published : Option String
    pub modified : Option String

-- The first alias that names a CVE.
unfoldable pub cve_alias : String → List String → String
unfolding starts_with
cve_alias cve_id [] = cve_id
cve_alias cve_id (alias ∷ aliases) =
    let others = cve_alias cve_id aliases in if starts_with alias "CVE-" then alias else others

module _ (F : Floats) where
  -- The score and the severity in "database_specific".
  unfoldable pub db_rating : Vuln F → Option F.Float × String
  unfolding upper
  db_rating v = elim v.db_cvss [
    | some cvss ↦ (cvss.score, upper (get_or cvss.severity "UNKNOWN"))
    | none ↦ elim v.db_severity [
      | some severity ↦ (none, upper severity)
      | none ↦ (none, "UNKNOWN")
    ]
  ]

  -- The loop over "severity": a score is read while there is none.
  unfoldable pub read_scores : Python F → Option F.Float → List (Option String) → Option F.Float
  unfolding base_score
  read_scores py score [] = score
  read_scores py score (s ∷ scores) =
      read_scores py (if is_some score then score else base_score F py (get_or s "")) scores

  -- A severity that is unknown is read off the score, if there is one.
  unfoldable pub severity_from : String → Option F.Float → String
  unfolding cvss_to_severity
  severity_from severity score =
      if severity == "UNKNOWN" && is_some score then cvss_to_severity F score else severity

  unfoldable pub osv_entry : Python F → ℕ → Vuln F → List Component × List String → Entry F
  unfolding cve_alias db_rating read_scores severity_from parse_iso take_chars
  osv_entry py feed_id v (affected_components, fixed_versions) =
      let cve_id = cve_alias (get_or v.id "UNKNOWN") v.aliases in
      let (db_score, db_severity) = db_rating v in
      let cvss_score = read_scores py db_score v.severity_scores in
      record {
        feed_id = feed_id;
        cve_id = cve_id;
        title = take_chars 500 (get_or v.summary cve_id);
        description = take_chars 2000 (get_or v.details "");
        severity = severity_from db_severity cvss_score;
        cvss_score = cvss_score;
        affected_components = affected_components;
        fixed_in = py.in_set fixed_versions;
        published_date = parse_iso F py v.published;
        modified_date = parse_iso F py v.modified;
        references = map link_of v.references;
      }

  -- The entry before those of the records after it, unless either part raises.
  abbrev pub cons_entry : Option (Entry F) → Option (List (Entry F)) → Option (List (Entry F))
  cons_entry none es = none
  cons_entry (some e) none = none
  cons_entry (some e) (some es) = some (e ∷ es)

  -- `none` is the exception of `_parse_osv_affected`.
  unfoldable pub parse_vuln : Python F → ℕ → Vuln F → Option (Entry F)
  unfolding parse_osv_affected osv_entry
  parse_vuln py feed_id v = elim (parse_osv_affected v.affected) [
    | none ↦ none
    | some parsed ↦ some (osv_entry py feed_id v parsed)
  ]

  unfoldable pub parse_vulns : Python F → ℕ → List (Vuln F) → Option (List (Entry F))
  unfolding parse_vuln
  parse_vulns py feed_id [] = some []
  parse_vulns py feed_id (v ∷ vs) = cons_entry (parse_vuln py feed_id v) (parse_vulns py feed_id vs)

  -- `vulns` is the value at "vulns", and `single` the document itself, as a record of its own.
  unfoldable pub parse_osv :
      Python F → Option (List (Vuln F)) → Vuln F → ℕ → Option (List (Entry F))
  unfolding parse_vulns
  parse_osv py vulns single feed_id = elim (get_or vulns []) [
    | [] ↦ parse_vulns py feed_id (if is_some single.id then single ∷ [] else [])
    | v ∷ vs ↦ parse_vulns py feed_id (v ∷ vs)
  ]
