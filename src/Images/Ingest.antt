-- ===== src/Images/Ingest.antt =====
-- control-plane/app/routers/ingest.py: the import of an image report and the read of the latest one. The
-- table of IngestedScanResult is passed from call to call; a fresh id and the time are arguments.
pub mod Laws
use kaaval.Base.{
  ℕ, String, Bool, true, false, ◌&&◌, ◌||◌, Option, none, some, List, [], ◌∷◌, ◌++◌, if◌then◌else◌,
  ltb, filter, ◌==◌, nat_eq, string_eq,
}
use kaaval.Http.{Reply, sent, http_error}
use kaaval.Floats.{Floats}
use kaaval.Cve.Contexts.{Contexts, get_or_create_scan_context, context_to_dict}
use kaaval.Images.Report.{ImageReport, source_of, Scored, score_report}

module _ (F : Floats) where
  -- A row of IngestedScanResult, which `_response` sends.
  pub record Import : Type 0 where
    pub id : ℕ
    pub tenant_id : ℕ
    pub source : String
    pub scanned_at : ℕ
    pub result : Scored F

  pub record ImportTables : Type 0 where
    pub contexts : Contexts
    pub scans : List Import

  -- `_store`: the row that is sent, or `none` for the KeyError of score_report, which comes after the
  -- context is created and before the row is added.
  unfoldable pub store : ℕ → ℕ → ℕ → ImageReport F → ImportTables → Option Import × ImportTables
  unfolding get_or_create_scan_context score_report source_of
  store new_id now tenant_id report db =
      let (context, contexts) = get_or_create_scan_context tenant_id db.contexts in
      elim (score_report F report (context_to_dict context)) [
        | none ↦ (none, record { contexts = contexts; scans = db.scans })
        | some result ↦
            let scan : Import = record {
              id = new_id;
              tenant_id = tenant_id;
              source = source_of F report;
              scanned_at = now;
              result = result;
            } in
            (some scan, record { contexts = contexts; scans = db.scans ++ scan ∷ [] })
      ]

  -- `order_by(scanned_at.desc(), id.desc())`
  abbrev pub newer : Import → Import → Bool
  newer s t = ltb t.scanned_at s.scanned_at || (s.scanned_at == t.scanned_at && ltb t.id s.id)

  -- `.first()` of the rows in that order
  unfoldable pub latest_of : List Import → Option Import
  latest_of [] = none
  latest_of (s ∷ scans) =
      let rest = latest_of scans in
      elim rest [ none ↦ some s | some t ↦ some (if newer t s then t else s) ]

  abbrev pub is_from : Option String → Import → Bool
  is_from none s = true
  is_from (some source) s = s.source == source

  -- GET /ingest/scans/latest
  unfoldable pub latest_scan : ℕ → Option String → List Import → Reply Import
  unfolding latest_of filter
  latest_scan tenant_id source scans =
      elim (latest_of (filter (is_from source) (filter (λ s. s.tenant_id == tenant_id) scans))) [
        | none ↦
            http_error 404
              "No imported image scan for this tenant. POST /ingest/trivy or /ingest/grype first."
        | some s ↦ sent s
      ]
