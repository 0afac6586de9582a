-- ===== src/Health.antt =====
-- control-plane/app/health.py, and the route GET /health of main.py. What the database, Kubernetes and
-- the clock give is an argument; times are in seconds, and `iso` shows one.
pub mod Laws
use kaaval.Base.{
  ℕ, ◌+◌, ◌-◌, ◌*◌, ◌/◌, String, Bool, true, false, not, ◌&&◌, Option, none, some, List, [], ◌∷◌,
  ◌<>◌, if◌then◌else◌, length, ltb, leb, filter, any, get_or,
}
use kaaval.Base.Text.{decimal}
use kaaval.Http.{Outcome, returned, raised}
use kaaval.Cve.Feeds.{Feed}

-- HealthCheckResult
pub record Check : Type 0 where
  pub name : String
  pub passes : Bool
  pub required : Bool
  pub detail : String
  pub fix : Option String

abbrev pub feed_stale_after_hours : ℕ
feed_stale_after_hours = 48

abbrev db_fix : String
db_fix =
    "Start the bundled database: `cd deploy && docker compose up -d postgres` — or point DATABASE_URL at your PostgreSQL (see .env.example)."

-- From the URL without its passwords, and the class of the exception of `SELECT 1`.
unfoldable pub check_database : String → Option String → Check
check_database url none = record {
  name = "postgres";
  passes = true;
  required = true;
  detail = "reachable at " <> url;
  fix = none;
}
check_database url (some exception) = record {
  name = "postgres";
  passes = false;
  required = true;
  detail = "cannot connect to " <> (url <> (" (" <> (exception <> ")")));
  fix = some db_fix;
}

-- `[f.last_fetched for f in feeds if f.last_fetched]`
unfoldable pub fetched : List Feed → List ℕ
fetched [] = []
fetched (f ∷ feeds) =
    let rest = fetched feeds in elim f.last_fetched [ none ↦ rest | some t ↦ t ∷ rest ]

-- `max(t, *ts)`
unfoldable pub latest : ℕ → List ℕ → ℕ
latest t [] = t
latest t (u ∷ ts) = latest (if ltb t u then u else t) ts

abbrev feeds_check : Bool → String → Option String → Check
feeds_check passes detail fix = record {
  name = "cve-feeds";
  passes = passes;
  required = false;
  detail = detail;
  fix = fix;
}

module _ (iso : ℕ → String) where
  -- The branches on the age of the newest refresh.
  unfoldable pub check_age : ℕ → ℕ → ℕ → Check
  unfolding decimal
  check_age now count newest =
      if ltb (newest + feed_stale_after_hours * 3600) now
      then feeds_check false
          ("CVE data is stale — newest refresh "
            <> (iso newest <> ("Z (" <> (decimal ((now - newest) / 3600) <> "h ago)"))))
          (some
            "Trigger a refresh: POST /cve/feeds/refresh-all (admin token) and check the scheduler logs for repeated fetch failures.")
      else feeds_check true
          (decimal count <> (" feed(s) enabled, newest refresh " <> (iso newest <> "Z"))) none

  -- The branches on the times of the refreshes.
  unfoldable pub check_fetched : ℕ → ℕ → List ℕ → Check
  unfolding check_age latest decimal
  check_fetched now count [] =
      feeds_check false (decimal count <> " feed(s) registered but never refreshed") (
        some
          "Trigger a refresh: POST /cve/feeds/refresh-all (admin token) — or wait for the 24h scheduler.")
  check_fetched now count (t ∷ ts) = check_age now count (latest t ts)

  -- The rest of check_cve_feeds, from the enabled feeds.
  unfoldable pub check_enabled : ℕ → List Feed → Check
  unfolding check_fetched fetched
  check_enabled now [] = feeds_check false "no enabled CVE feeds registered" (
      some
        "Restart the control plane (default feeds are seeded on startup) or register one with POST /cve/feeds.")
  check_enabled now (f ∷ feeds) = check_fetched now (length (f ∷ feeds)) (fetched (f ∷ feeds))

  unfoldable pub check_cve_feeds : ℕ → List Feed → Check
  unfolding check_enabled filter
  check_cve_feeds now feeds = check_enabled now (filter (λ f. f.enabled) feeds)

-- What loading a Kubernetes configuration comes to: it loads, or ConfigException, or another exception,
-- which nothing catches.
pub data ConfigLoad : Type 0 where
  loads : ConfigLoad
  config_exception : ConfigLoad
  other_exception : String → ConfigLoad

abbrev kubernetes_check : Bool → String → Option String → Check
kubernetes_check passes detail fix = record {
  name = "kubernetes";
  passes = passes;
  required = false;
  detail = detail;
  fix = fix;
}

-- The second `try` of check_kubernetes: load_kube_config.
abbrev check_kubeconfig : ConfigLoad → Outcome Check
check_kubeconfig loads = returned (kubernetes_check true "local kubeconfig" none)
check_kubeconfig config_exception = returned (
    kubernetes_check false "no in-cluster ServiceAccount and no readable kubeconfig" (
      some
        "Set KUBECONFIG to a valid kubeconfig, or deploy in-cluster with a ServiceAccount (deploy/cronjob.yaml shows the minimal RBAC). Manifest scanning (`scan rbac --manifests`) works without cluster access."))
check_kubeconfig (other_exception e) = raised e

-- load_incluster_config, and then load_kube_config.
unfoldable pub check_kubernetes : ConfigLoad → ConfigLoad → Outcome Check
check_kubernetes loads kubeconfig =
    returned (kubernetes_check true "in-cluster ServiceAccount credentials" none)
check_kubernetes config_exception kubeconfig = check_kubeconfig kubeconfig
check_kubernetes (other_exception e) kubeconfig = raised e

pub data DeepStatus : Type 0 where
  healthy degraded error : DeepStatus

-- DeepCheckResult
pub record DeepResult : Type 0 where
  pub status : DeepStatus
  pub checks : List Check

-- The status of the checks.
unfoldable pub status_of : List Check → DeepStatus
unfolding any
status_of checks =
    if any (λ c. not c.passes && c.required) checks
    then error
    else if any (λ c. not c.passes) checks
    then degraded
    else healthy

-- What the deep checks meet: the connection (`none`, or the class of the exception), the query of the
-- feeds (or the class of the exception), and the two Kubernetes configurations.
pub record Surroundings : Type 0 where
  pub url : String
  pub connection : Option String
  pub feeds : Outcome (List Feed)
  pub in_cluster : ConfigLoad
  pub kubeconfig : ConfigLoad

module _ (iso : ℕ → String) where
  -- The check of the feeds after that of the database.
  unfoldable pub feeds_after : ℕ → Bool → Outcome (List Feed) → Check
  unfolding check_cve_feeds
  feeds_after now false feeds = feeds_check false "skipped — database unreachable" (some db_fix)
  feeds_after now true (returned feeds) = check_cve_feeds iso now feeds
  feeds_after now true (raised exception) =
      feeds_check false ("preflight query failed (" <> (exception <> ")")) (some db_fix)

  unfoldable pub deep_checks : ℕ → Surroundings → Outcome (List Check)
  unfolding check_database feeds_after check_kubernetes
  deep_checks now s =
      let database = check_database s.url s.connection in
      let feeds = feeds_after now database.passes s.feeds in
      elim (check_kubernetes s.in_cluster s.kubeconfig) [
        | returned kubernetes ↦ returned (database ∷ feeds ∷ kubernetes ∷ [])
        | raised e ↦ raised e
      ]

  abbrev result_of : List Check → DeepResult
  result_of checks = record { status = status_of checks; checks = checks }

  unfoldable pub run_deep_checks : ℕ → Surroundings → Outcome DeepResult
  unfolding deep_checks status_of
  run_deep_checks now s = elim (deep_checks now s) [
    | returned checks ↦ returned (result_of checks)
    | raised e ↦ raised e
  ]

  abbrev pub code_of : DeepStatus → ℕ
  code_of error = 503
  code_of degraded = 200
  code_of healthy = 200

  -- GET /health: the code, and the report of the deep checks; or an exception that the checks raise.
  unfoldable pub health : ℕ → Bool → Surroundings → Outcome (ℕ × Option DeepResult)
  unfolding run_deep_checks
  health now false s = returned (200, none)
  health now true s = elim (run_deep_checks now s) [
    | returned report ↦ returned (code_of report.status, some report)
    | raised e ↦ raised e
  ]
