-- ===== src/Rbac/Diff.antt =====
-- control-plane/app/rbac_service.py: the severity breakdown and the diff of the two latest scans.
-- The query that loads them is SQLAlchemy's: what it returns, newest first, is the argument.
pub mod Breakdown
pub mod Exact
pub mod Keys
pub mod Partition
use kaaval.Base.{
  ℕ, ◌+◌, String, Bool, true, false, not, ◌&&◌, Option, none, some, List, [], ◌∷◌, if◌then◌else◌,
  get_or, Eq, ◌==◌, string_eq, option_eq, pair_eq,
}
use kaaval.Base.Dict.{Dict, lookup, has_key, insert, values}
use kaaval.Floats.{Floats}
use kaaval.Finding.{Finding}

-- `breakdown[sev] = breakdown.get(sev, 0) + 1`
unfoldable pub count_severity : String → Dict String ℕ → Dict String ℕ
unfolding lookup insert
count_severity s d = insert s (get_or (lookup s d) 0 + 1) d

abbrev pub empty_breakdown : Dict String ℕ
empty_breakdown = ("CRITICAL", 0) ∷ ("HIGH", 0) ∷ ("MEDIUM", 0) ∷ ("LOW", 0) ∷ ("UNKNOWN", 0) ∷ []

abbrev pub FindingKey : Type 0
FindingKey = Option String × (Option String × Option String)

module _ (F : Floats) where
  unfoldable pub count_findings : List (Finding F) → Dict String ℕ → Dict String ℕ
  unfolding count_severity
  count_findings [] d = d
  count_findings (f ∷ fs) d = count_findings fs (count_severity f.severity d)

  unfoldable pub severity_breakdown : List (Finding F) → Dict String ℕ
  unfolding count_findings
  severity_breakdown fs = count_findings fs empty_breakdown

  -- `finding.get("role") or finding.get("service_account") or {}`, and its name
  abbrev role_name : Finding F → Option String
  role_name f = elim f.role [
    | some r ↦ r.name
    | none ↦ elim f.service_account [ some t ↦ t.name | none ↦ none ]
  ]

  abbrev binding_name : Finding F → Option String
  binding_name f = elim f.binding [
    | some t ↦ t.name
    | none ↦ elim f.workload [ some t ↦ t.name | none ↦ none ]
  ]

  unfoldable pub finding_key : Finding F → FindingKey
  finding_key f = (f.rule_type, (role_name f, binding_name f))

  pub record Change : Type 0 where
    pub finding : Finding F
    pub previous_severity : String

  pub record Diff : Type 0 where
    pub added : List (Finding F)
    pub resolved : List (Finding F)
    pub severity_changed : List Change
    pub unchanged_count : ℕ

-- The dicts of findings, for any type of keys.
module _ (F : Floats) {K : Type 0} ⦃e : Eq K⦄ where
  -- `{key(f): f for f in fs}`
  unfoldable pub by_key :
      (Finding F → K) → List (Finding F) → Dict K (Finding F) → Dict K (Finding F)
  unfolding insert
  by_key key [] d = d
  by_key key (f ∷ fs) d = by_key key fs (insert (key f) f d)

  -- The findings whose key the other scan lacks.
  unfoldable pub missing_from : Dict K (Finding F) → Dict K (Finding F) → List (Finding F)
  unfolding has_key
  missing_from other [] = []
  missing_from other ((k, f) ∷ d) =
      let rest = missing_from other d in if has_key k other then rest else f ∷ rest

  unfoldable pub changed_from : Dict K (Finding F) → Dict K (Finding F) → List (Change F)
  unfolding lookup
  changed_from previous [] = []
  changed_from previous ((k, f) ∷ d) =
      let rest = changed_from previous d in
      elim (lookup k previous) [
        | none ↦ rest
        | some old ↦
            if f.severity == old.severity
            then rest
            else (record { finding = f; previous_severity = old.severity }) ∷ rest
      ]

  unfoldable pub count_unchanged : Dict K (Finding F) → Dict K (Finding F) → ℕ
  unfolding lookup
  count_unchanged previous [] = 0
  count_unchanged previous ((k, f) ∷ d) =
      let rest = count_unchanged previous d in
      elim (lookup k previous) [
        | none ↦ rest
        | some old ↦ if f.severity == old.severity then rest + 1 else rest
      ]

module _ (F : Floats) where
  unfoldable pub diff_scans : List (Finding F) → List (Finding F) → Diff F
  unfolding by_key finding_key missing_from changed_from count_unchanged
  diff_scans latest previous =
      let latest_by_key = by_key F (finding_key F) latest [] in
      let previous_by_key = by_key F (finding_key F) previous [] in
      record {
        added = missing_from F previous_by_key latest_by_key;
        resolved = missing_from F latest_by_key previous_by_key;
        severity_changed = changed_from F previous_by_key latest_by_key;
        unchanged_count = count_unchanged F previous_by_key latest_by_key;
      }

  -- At most two scans come from the query, each with its list of findings.
  unfoldable pub diff_latest_scans : List (List (Finding F)) → Diff F
  unfolding diff_scans
  diff_latest_scans (latest ∷ previous ∷ rest) = diff_scans latest previous
  diff_latest_scans _ = record {
    added = [];
    resolved = [];
    severity_changed = [];
    unchanged_count = 0;
  }
