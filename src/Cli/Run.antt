-- ===== src/Cli/Run.antt =====
-- control-plane/app/cli.py: `main` on `scan`, from the parsed arguments, with `_rbac_scan`,
-- `build_graph_from_cluster` and `_image_scan`, and `run_doctor`. What is read from files, standard
-- input or a cluster is an argument, and printing is left out.
pub mod Thresholds
pub mod Passes
use kaaval.Base.{
  ℕ, suc, String, Bool, true, false, not, ◌&&◌, Option, none, some, List, [], ◌∷◌, if◌then◌else◌,
  length, ltb, take, contains, string_eq,
}
use kaaval.Base.Text.{upper, truthy}
use kaaval.Http.{Outcome, returned, raised}
use kaaval.Floats.{Floats}
use kaaval.Scoring.{Context}
use kaaval.Finding.{Finding}
use kaaval.Rbac.Graph.{Graph}
use kaaval.Rbac.Findings.{evaluate_rbac_findings}
use kaaval.Images.Report.{ImageReport, Scored, score_report}
use kaaval.Limits.{Bytes, max_request_body_bytes}
use kaaval.Health.{healthy, degraded, error, DeepResult}
use kaaval.Cli.Gate.{Exit, code, usage, raises, severity_valid, apply_gate}
use kaaval.Cli.Manifests.{Doc, build_graph}
use kaaval.Cli.Context.{
  Numbers, Value, null, boolean, integer, real, text, Document, Loaded, load_context,
}

-- A step of a run: a value, or the end of the run.
pub data Step {ℓ} (A : Type ℓ) : Type ℓ where
  goes : A → Step A
  ends : Exit → Step A

infixl 1 ◌>>=◌
abbrev pub ◌>>=◌ {ℓ κ} : {A : Type ℓ} {B : Type κ} → Step A → (A → Step B) → Step B
goes x >>= k = k x
ends e >>= k = ends e

abbrev pub exit_of : Step Exit → Exit
exit_of (goes e) = e
exit_of (ends e) = e

-- The RBAC objects: those of the manifests, `none` where the path is missing or cannot be read, or those
-- of a cluster, if its credentials load.
pub data Source : Type 0 where
  manifests : Option (List Doc) → Source
  cluster : Bool → Outcome Graph → Source

abbrev pub check_severity : Option String → Step (Option String)
check_severity s = if severity_valid s then goes s else ends usage

-- build_graph_from_manifests, or build_graph_from_cluster
unfoldable pub graph_of : Source → Step Graph
unfolding build_graph
graph_of (manifests none) = ends usage
graph_of (manifests (some docs)) = goes (build_graph docs)
graph_of (cluster false fetched) = ends usage
graph_of (cluster true (raised e)) = ends usage
graph_of (cluster true (returned graph)) = goes graph

module _ (F : Floats) where
  -- What is scanned: an RBAC source, or the bytes of an image report.
  pub data Scan : Type 0 where
    rbac : Source → Scan
    image : Outcome Bytes → Scan

  -- "--fail-on-score" and "--fail-on-severity"
  pub record Args : Type 0 where
    pub fail_on_score : Option F.Float
    pub fail_on_severity : Option String

  -- What stands around a run: the value of KAAVAL_MAX_REQUEST_BODY_MB, and the report that the model of
  -- the source makes of the bytes, if it accepts them.
  pub record Surroundings : Type 0 where
    pub max_body_mb : Option String
    pub validate : Bytes → Option (ImageReport F)

  -- `not math.isfinite(x) or x < 0`
  unfoldable pub check_score : Numbers F → F.Float → Step (Option F.Float)
  check_score nums x =
      if nums.is_finite x && F.at_most (F.tenths 0) x then goes (some x) else ends usage

  -- `float(v)` of a value of the file, checked; the OverflowError of a large integer is not caught.
  unfoldable pub value_score : Numbers F → Value F → Step (Option F.Float)
  unfolding check_score
  value_score nums (boolean b) = check_score nums (F.tenths (if b then 10 else 0))
  value_score nums (integer n) = elim (nums.of_integer n) [
    | none ↦ ends (raises "OverflowError")
    | some x ↦ check_score nums x
  ]
  value_score nums (real x) = check_score nums x
  value_score nums (text s) = elim (nums.of_text s) [
    | none ↦ ends usage
    | some x ↦ check_score nums x
  ]
  value_score nums _ = ends usage

  -- The flag, or else the value of the file.
  unfoldable pub score_threshold :
      Numbers F → Option F.Float → Option (Value F) → Step (Option F.Float)
  unfolding check_score value_score
  score_threshold nums (some x) file = check_score nums x
  score_threshold nums none none = goes none
  score_threshold nums none (some v) = value_score nums v

  abbrev pub value_severity : Option (Value F) → Step (Option String)
  value_severity none = goes none
  value_severity (some (text s)) = check_severity (some s)
  value_severity (some _) = ends usage

  unfoldable pub severity_threshold : Option String → Option (Value F) → Step (Option String)
  unfolding severity_valid
  severity_threshold flag file = if truthy flag then check_severity flag else value_severity file

  abbrev read_report : Surroundings → ℕ → Outcome Bytes → Step (ImageReport F)
  read_report around limit (raised e) = ends usage
  read_report around limit (returned bytes) =
      if ltb limit (length (take (suc limit) bytes))
      then ends usage
      else elim (around.validate (take (suc limit) bytes)) [
        | none ↦ ends usage
        | some report ↦ goes report
      ]

  abbrev scored_findings : Option (Scored F) → Step (List (Finding F))
  scored_findings none = ends (raises "KeyError")
  scored_findings (some result) = goes result.findings

  -- _image_scan: the ValueError of the limit is caught with those of the report.
  unfoldable pub image_scan : Surroundings → Outcome Bytes → Context → Step (List (Finding F))
  unfolding max_request_body_bytes take score_report
  image_scan around bytes c = elim (max_request_body_bytes around.max_body_mb) [
    | raised e ↦ ends usage
    | returned limit ↦
        read_report around limit bytes >>= λ report. scored_findings (score_report F report c)
  ]

  unfoldable pub rbac_scan : Source → Context → Step (List (Finding F))
  unfolding graph_of evaluate_rbac_findings
  rbac_scan source c = do graph ← graph_of source; goes (evaluate_rbac_findings F graph c)

  abbrev pub scan_findings : Surroundings → Scan → Context → Step (List (Finding F))
  scan_findings around (rbac source) c = rbac_scan source c
  scan_findings around (image bytes) c = image_scan around bytes c

  abbrev loaded_or_usage : Option (Loaded F) → Step (Loaded F)
  loaded_or_usage none = ends usage
  loaded_or_usage (some loaded) = goes loaded

  unfoldable pub run_scan : Numbers F → Surroundings → Args → Option (Document F) → Scan → Exit
  unfolding load_context score_threshold severity_threshold image_scan rbac_scan apply_gate
  run_scan nums around args file scan = exit_of do
    loaded ← loaded_or_usage (load_context F file)
    score ← score_threshold nums args.fail_on_score loaded.fail_on_score
    severity ← severity_threshold args.fail_on_severity loaded.fail_on_severity
    findings ← scan_findings around scan loaded.context
    goes (apply_gate F findings score severity)

-- run_doctor
unfoldable pub run_doctor : DeepResult → Exit
run_doctor report = elim report.status [ healthy ↦ code 0 | degraded ↦ code 0 | error ↦ code 2 ]
