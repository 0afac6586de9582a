-- ===== src/Examples/Runs.antt =====
-- A run of the scanner on manifests, the SARIF report of two findings, and a page of a table of
-- entries.
use kaaval.Base.{
  ◌≡◌, refl, ℕ, String, true, false, Option, none, some, List, [], ◌∷◌, All, any, map, arith,
  string_eq, nat_eq,
}
use kaaval.Base.Distinct.{Distinct}
use kaaval.Rbac.Graph.{Graph}
use kaaval.Rbac.Findings.{evaluate_rbac_findings}
use kaaval.Finding.{Finding, bare_finding}
use kaaval.Base.Sort.{insert, sort, IsOrder, sort-perm, sort-IsSorted}
use kaaval.Scoring.{
  base, base_tenths, env_weight, data_weight, compliance_weight, exposure_weight,
  compute_contextual_score,
}
use kaaval.Cli.Gate.{code}
use kaaval.Cli.Gate.Laws.{reaches}
use kaaval.Cli.Context.{Numbers, Document, fields, text, Loaded}
use kaaval.Cli.Run.{Args, Surroundings, Source, manifests, rbac, run_scan}
use kaaval.Cli.Run.Passes.{IsGated, run_scan_passes}
use kaaval.Cli.Sarif
use kaaval.Cli.Sarif.{Formats, print_sarif}
use kaaval.Cli.Sarif.Laws.{Declares, print_sarif-Declares}
use kaaval.Base.{flat_map}
use kaaval.Base.Text.{upper}
use kaaval.Rbac.Graph.{all_bindings}
use kaaval.Rbac.Automount.{evaluate_token_automount}
use kaaval.Cve.Entry.{Entry}
use kaaval.Cve.Feeds.{Tables}
use kaaval.Cve.Feeds.Browse.{
  Database, Filters, nulls_last, comes_before, IsArrangement, list_entries,
}
use kaaval.Cve.Feeds.Pages.{IsPageOf, list_entries_page}
use kaaval.Base.{pair_eq, option_eq, leb, ◌==◌, if◌then◌else◌}
use kaaval.Http.{sent, returned}
use kaaval.Rbac.Store.{Client, RbacTables}
use kaaval.Images.Ingest.{Import, ImportTables, store, latest_scan}
use kaaval.Images.Ingest.Laws.{latest_scan-store}
use kaaval.Examples.Cluster.{cluster}
use kaaval.Examples.Reports.{report, named}
use kaaval.Examples.Fixed.{fixed, fixed-IsOrdered, production}
use kaaval.Examples.Exports.{nightly, docs}
use kaaval.Examples.Feeds.{nvd_feed}

abbrev numbers : Numbers fixed
numbers = record { of_text = λ s. none; of_integer = λ n. none; is_finite = λ x. true }

abbrev around : Surroundings fixed
around = record { max_body_mb = none; validate = λ b. none }

abbrev args : Args fixed
args = record { fail_on_score = some 2000; fail_on_severity = none }

-- environment: dev, with a threshold on the severity
abbrev context_file : Document fixed
context_file = fields (("environment", text "dev") ∷ ("fail_on_severity", text "critical") ∷ [])

-- An account that mounts its token is a finding of LOW.
abbrev source : Source
source = manifests (some (record nightly { kind = some "ServiceAccount" } ∷ docs))

passed : run_scan fixed numbers around args (some context_file) (rbac source) ≡ code 0
unfolding run_scan upper flat_map all_bindings evaluate_token_automount insert base base_tenths
    env_weight data_weight compliance_weight exposure_weight
passed = refl

run_scan_passes_example :
    (loaded : Loaded fixed) × (graph : Graph) × (score : Option ℕ) × (severity : Option String)
    × IsGated fixed numbers around args (some context_file) source loaded graph score severity
    × (any (reaches fixed score severity) (evaluate_rbac_findings fixed graph loaded.context)
        ≡ false)
run_scan_passes_example =
    run_scan_passes fixed numbers around args (some context_file) source passed

abbrev finding_of : String → Finding fixed
finding_of severity =
    record (bare_finding fixed severity (compute_contextual_score fixed none severity production)) {
      rule_type = some "secret_access";
    }

abbrev formats : Formats fixed
formats = record { divide = λ x y. x; one_decimal = λ x. "score" }

abbrev two_findings : List (Finding fixed)
two_findings = finding_of "HIGH" ∷ finding_of "CRITICAL" ∷ []

print_sarif-Declares_example :
    Distinct (map (λ r. r.id) (print_sarif fixed formats Sarif.rbac two_findings).rules)
    × All
        (Declares fixed-IsOrdered formats two_findings
          (print_sarif fixed formats Sarif.rbac two_findings).rules)
        two_findings
print_sarif-Declares_example = print_sarif-Declares fixed-IsOrdered formats Sarif.rbac two_findings

-- Two days of the table.
abbrev day : String → ℕ
day d = if d == "2024-01-02" then 2 else 1

leb_trans : (x y z : ℕ) → leb x y ≡ true → leb y z ≡ true → leb x z ≡ true
leb_trans x y z h k = ground arith

abbrev database : Database
database = record { ilike = λ s pattern. true; no_earlier = λ c d. leb (day d) (day c) }

nulls_last_total :
    (c d : Option String)
    → nulls_last fixed database c d ≡ false
    → nulls_last fixed database d c ≡ true
nulls_last_total c none h = cc
nulls_last_total none (some d) h = refl
nulls_last_total (some c) (some d) h = ground arith

nulls_last_trans :
    (b c d : Option String)
    → nulls_last fixed database b c ≡ true
    → nulls_last fixed database c d ≡ true
    → nulls_last fixed database b d ≡ true
nulls_last_trans b c none h k = refl
nulls_last_trans b none (some d) h k = cc
nulls_last_trans none (some c) (some d) h k = cc
nulls_last_trans (some b) (some c) (some d) h k = leb_trans (day d) (day c) (day b) k h

dates : IsOrder (comes_before fixed database)
dates = record {
  total = λ a b. nulls_last_total a.published_date b.published_date;
  trans = λ a b c. nulls_last_trans a.published_date b.published_date c.published_date;
}

-- The database sorts the rows as they stand in the table.
stable : IsArrangement fixed database (sort (comes_before fixed database))
stable = record {
  same_rows = sort-perm (comes_before fixed database);
  by_date = sort-IsSorted (comes_before fixed database) dates;
}

abbrev entry_on : Option String → Entry fixed
entry_on date = record {
  feed_id = 7;
  cve_id = "CVE-2024-0001";
  title = "";
  description = "";
  severity = "HIGH";
  cvss_score = none;
  affected_components = [];
  fixed_in = [];
  published_date = date;
  modified_date = none;
  references = [];
}

abbrev three_entries : Tables fixed
three_entries = record {
  feeds = nvd_feed ∷ [];
  entries = entry_on none ∷ entry_on (some "2024-01-01") ∷ entry_on (some "2024-01-02") ∷ [];
}

abbrev high : Filters
high = record { severity = some "high"; feed_id = none; search = some "CVE" }

-- The second page of two entries: the one without a date.
list_entries_page_example :
    (passed : List (Entry fixed)) × (page : List (Entry fixed)) × (left : List (Entry fixed))
    × IsPageOf database high three_entries 2 2
        (list_entries fixed database (sort (comes_before fixed database)) high 2 2 three_entries)
        passed
        page
        left
list_entries_page_example =
    list_entries_page database (sort (comes_before fixed database)) stable high 2 2 three_entries

-- The cluster of the examples, scanned twice.
abbrev in_cluster : Client
in_cluster = record { authorized = true; fetched = returned cluster }

abbrev no_scans : RbacTables fixed
no_scans = record { contexts = []; scans = [] }

abbrev no_imports : ImportTables fixed
no_imports = record { contexts = []; scans = [] }

latest_scan-store_example :
    (s : Import fixed) × ((store fixed 1 100 5 report no_imports).0 ≡ some s)
    × (latest_scan fixed 5 none (store fixed 1 100 5 report no_imports).1.scans ≡ sent s)
    × (latest_scan fixed 6 none (store fixed 1 100 5 report no_imports).1.scans
        ≡ latest_scan fixed 6 none no_imports.scans)
latest_scan-store_example =
    latest_scan-store fixed 1 100 5 report no_imports "app:1.0" 6 none named tt refl
