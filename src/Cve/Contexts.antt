-- ===== src/Cve/Contexts.antt =====
-- The tenants' risk contexts: `get_or_create_scan_context` and `_context_to_dict` of
-- control-plane/app/cve_service.py, and the routes GET and PUT /cve/context of routers/cve.py. The
-- table ScanContext is a dict by tenant; the stamp `updated_at` is left out.
pub mod Laws
use kaaval.Base.{
  ℕ, String, Bool, true, false, not, ◌&&◌, Option, none, some, List, [], ◌∷◌, if◌then◌else◌, get_or,
  contains, ◌==◌, nat_eq, string_eq,
}
use kaaval.Base.Dict.{Dict, lookup, insert}
use kaaval.Http.{Reply, sent, http_error}
use kaaval.Scoring.{Context, valid_environments, valid_data_classifications, valid_exposures}

-- A row of ScanContext
pub record ScanContext : Type 0 where
  pub environment : String
  pub data_classification : String
  pub compliance_scope : List String
  pub exposure : String

abbrev pub Contexts : Type 0
Contexts = Dict ℕ ScanContext

-- The defaults of the columns.
abbrev pub default_context : ScanContext
default_context = record {
  environment = "production";
  data_classification = "internal";
  compliance_scope = [];
  exposure = "internal";
}

-- The row of the tenant, and the table with it.
unfoldable pub get_or_create_scan_context : ℕ → Contexts → ScanContext × Contexts
unfolding lookup insert
get_or_create_scan_context tenant_id db = elim (lookup tenant_id db) [
  | some context ↦ (context, db)
  | none ↦ (default_context, insert tenant_id default_context db)
]

-- `_context_to_dict`
abbrev pub context_to_dict : ScanContext → Context
context_to_dict c = record {
  environment = some (some c.environment);
  data_classification = some (some c.data_classification);
  compliance_scope = c.compliance_scope;
  exposure = some (some c.exposure);
}

-- The body of PUT /cve/context.
pub record ScanContextUpdate : Type 0 where
  pub environment : Option String
  pub data_classification : Option String
  pub compliance_scope : Option (List String)
  pub exposure : Option String

-- `value is not None and value not in valid`
unfoldable pub is_refused : Option String → List String → Bool
unfolding contains
is_refused none valid = false
is_refused (some value) valid = not (contains valid value)

-- The assignments of the fields that the body gives.
abbrev pub updated : ScanContextUpdate → ScanContext → ScanContext
updated body c = record {
  environment = get_or body.environment c.environment;
  data_classification = get_or body.data_classification c.data_classification;
  compliance_scope = get_or body.compliance_scope c.compliance_scope;
  exposure = get_or body.exposure c.exposure;
}

-- The rest of the route after its three guards.
unfoldable pub write_context : ScanContextUpdate → ℕ → Contexts → Reply ScanContext × Contexts
unfolding get_or_create_scan_context insert
write_context body tenant_id db =
    let (context, db') = get_or_create_scan_context tenant_id db in
    (sent (updated body context), insert tenant_id (updated body context) db')

unfoldable pub update_scan_context : ScanContextUpdate → ℕ → Contexts → Reply ScanContext × Contexts
unfolding is_refused write_context
update_scan_context body tenant_id db =
    if is_refused body.environment valid_environments
    then (http_error 400 "environment must be one of ['dev', 'production', 'staging']", db)
    else if is_refused body.data_classification valid_data_classifications
    then (
      http_error 400
          "data_classification must be one of ['financial', 'internal', 'phi', 'pii', 'public']",
      db,
    )
    else if is_refused body.exposure valid_exposures
    then (http_error 400 "exposure must be one of ['internal', 'internet-facing']", db)
    else write_context body tenant_id db

-- GET /cve/context
unfoldable pub get_scan_context : ℕ → Contexts → ScanContext × Contexts
unfolding get_or_create_scan_context
get_scan_context tenant_id db = get_or_create_scan_context tenant_id db
