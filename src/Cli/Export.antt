-- ===== src/Cli/Export.antt =====
-- control-plane/app/cli.py: the target that the exporters show for a finding, and the rows and scores
-- that they print.
pub mod Laws
use kaaval.Base.{
  String, ◌<>◌, Bool, true, false, not, ◌&&◌, ◌||◌, Option, none, some, List, [], ◌∷◌, map,
  if◌then◌else◌, get_or, head?, contains, ◌==◌, string_eq,
}
use kaaval.Base.Dict.{Dict, lookup}
use kaaval.Base.Text.{show, truthy, is_text, or_text, title, spaced}
use kaaval.Floats.{Floats}
use kaaval.Finding.{Finding, Target, Affected}
use kaaval.Remediation.References.{Reference}

abbrev pub workload_template_kinds : List String
workload_template_kinds =
    "Deployment" ∷ "StatefulSet" ∷ "DaemonSet" ∷ "ReplicaSet" ∷ "Job" ∷ "CronJob" ∷ []

-- The dict that `_finding_target` returns; `none` is `None` or a missing key.
pub record ExportTarget : Type 0 where
  pub kind : Option String
  pub name : Option String
  pub namespace : Option String
  pub api_version : Option String

-- `"apps/v1" if kind in ... else ("batch/v1" if kind in ... else "v1")`
unfoldable pub api_version_of : String → String
unfolding contains
api_version_of kind =
    if contains workload_template_kinds kind
    then "apps/v1"
    else if contains ("Job" ∷ "CronJob" ∷ []) kind
    then "batch/v1"
    else "v1"

unfoldable pub object_target : Target → ExportTarget
unfolding api_version_of
object_target t =
    let kind = get_or t.kind "ServiceAccount" in
    record {
      kind = some kind;
      name = t.name;
      namespace = t.namespace;
      api_version = some (api_version_of kind);
    }

abbrev no_target : Target
no_target = record { kind = none; name = none; namespace = none }

module _ (F : Floats) where
  unfoldable pub finding_target : Finding F → ExportTarget
  unfolding object_target
  finding_target f =
      if truthy f.image
      then record {
        kind = some "ContainerImage";
        name = f.image;
        namespace = none;
        api_version = none;
      }
      else elim f.binding [
        | some b ↦ record {
          kind = b.kind;
          name = b.name;
          namespace = b.namespace;
          api_version = some "rbac.authorization.k8s.io/v1";
        }
        | none ↦ object_target (get_or f.workload (get_or f.service_account no_target))
      ]

  -- `affected.get("version")` of the first affected component.
  unfoldable pub image_package : Finding F → String
  image_package f = elim (head? f.affected) [
    | none ↦ "unknown-package"
    | some a ↦
        let component = if is_text a.component then a.component else "unknown-package" in
        if truthy a.version then component <> "@" <> show a.version else component
  ]

  abbrev pub sarif_levels : Dict String String
  sarif_levels =
      ("CRITICAL", "error")
      ∷ ("HIGH", "error")
      ∷ ("MEDIUM", "warning")
      ∷ ("LOW", "note")
      ∷ ("UNKNOWN", "note")
      ∷ []

  -- A row that SARIF and JUnit share.
  pub record Row : Type 0 where
    pub rule_id : String
    pub level : String
    pub title : String
    pub message : String
    pub refs : List Reference
    pub raw : Finding F

  -- Each finding has a rule or a CVE, and its remediation.
  unfoldable pub finding_row : Finding F → Row
  unfolding lookup
  finding_row f = record {
    rule_id = or_text f.rule_type (get_or f.cve_id "");
    level = get_or (lookup f.severity sarif_levels) "note";
    title = f.title;
    message = elim f.remediation [ none ↦ "" | some r ↦ r.action ];
    refs = elim f.remediation [ none ↦ [] | some r ↦ r.benchmark_refs ];
    raw = f;
  }

  unfoldable pub finding_rows : List (Finding F) → List Row
  unfolding finding_row
  finding_rows fs = map finding_row fs
