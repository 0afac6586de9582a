-- ===== src/Lib.antt =====
-- Kaaval: a security scanner for Kubernetes. The development models the control plane's pure core, in
-- control-plane/app: the rules, the score and the adapters that turn a cluster's RBAC graph, its
-- inventory or an image report into ranked findings, and the gate that fails a pipeline on them.
--
-- The parts, and how they interact:
--   Base         what the program takes from Python: equality, lists, dicts in insertion order, the
--                stable sort, texts, slices and numbers.
--   Floats       floats, a parameter: literals with one decimal, products, rounding and the order.
--                IsArithmetic states the laws of the values that a score is made of.
--   Scoring      scoring.py: compute_contextual_score, from a severity or CVSS score and a context.
--   Remediation  remediation.py: its tables (References, Actions) and build_remediation (Build).
--   Finding      the finding, a dict in the source, with the keys of every kind of finding.
--   Rbac         rbac_service.py. Graph: the graph that K8sClient.get_rbac_graph_data and
--                build_graph_from_manifests return. Rules and Subjects: the predicates. Risks:
--                _evaluate_role_risks. Automount: _evaluate_token_automount. Findings:
--                evaluate_rbac_findings, loop by loop. Diff: _severity_breakdown, diff_latest_scans.
--                Store: scan_rbac, get_latest_rbac_scan and routers/rbac.py.
--   Effective    effective_access.py. Predicates: the four combinations. Privileged:
--                _build_privileged_namespaces. Subjects: subject_to_bindings and the flattened
--                rules. Combos: evaluate_combo_findings.
--   Images       trivy_adapter.py (Trivy), grype_adapter.py (Grype), their shared loop (Merge) and
--                helpers (Common), score_report of image_ingest.py (Report), and the import and the read
--                of routers/ingest.py (Ingest).
--   Cve          cve_service.py, with the routes of routers/cve.py. Version: _parse_semver,
--                _version_in_range, _cvss_to_severity. Osv: _parse_osv_affected. Entry: the rows that
--                the parsers build. Nvd, OsvFeed and JsonFeed: _parse_nvd, _parse_osv, _parse_json_feed
--                and _detect_and_parse. Match: _match_cves. Feeds: the tables of feeds and entries, from
--                add_feed to refresh_all_feeds, with the seeding of main.py; Browse has the reads of
--                them, and Steps the requests as a step relation. Contexts: the tenants' risk contexts. Addons: addon_detection.py and
--                detect_addons of both clients. Inventory: what a scan collects. Scans: scan_cluster,
--                scan_registered_cluster, scan_all_registered_clusters and the reads of their rows.
--                Pipeline: from a feed to a finding.
--   Cli          cli.py. Context: load_context, from the parsed file. Run: main on `scan`, from the
--                parsed arguments to the exit, with _rbac_scan, _image_scan and run_doctor. Gate:
--                _apply_gate, and the end of main on `scan image`. Export: _finding_target and
--                _finding_rows. Sarif: _print_sarif and _print_junit, up to the printing. PolicyReport:
--                _build_policy_reports. Manifests: build_graph_from_manifests, from the parsed documents.
--   Audit        audit_ingest.py: parse_audit_usage, line by line, over a decoder. Events: what a line
--                says, by the paths of its fields.
--   Http         the answers of a route, and the exceptions of a service.
--   Limits       request_limits.py: max_request_body_bytes, read_body_with_limit, limited_json_body.
--   Health       health.py: the three checks, run_deep_checks, and GET /health of main.py.
--   Auth         auth.py: passwords, tokens and API keys, with login, refresh and seed_admin_user of
--                main.py and audit of audit.py.
--   Examples     inputs to which the theorems are applied, with floats of two decimals.
-- Rbac, Effective, Images and Cve build findings by Scoring and Remediation; Cli gates them. The parsers
-- fill the table of Entry, which Feeds keeps and Scans matches; Health reads the rows of Feeds.
--
-- Conventions. A state that a loop assigns is passed from round to round, and the body of a loop is a
-- function of its own; every loop runs over a list, so that no fuel is needed. A dict lookup that may
-- fail and a value that may be `None` are Options. An exception is `none`, or a constructor of Exit.
-- A function that a section over Floats declares takes the floats as its first argument. A sort by
-- falling score is the stable insertion sort of Base.Sort under Rbac.Findings.ranks_before.
--
-- A table is the list of its rows, passed from call to call. UUIDs and times are numbers, and a message
-- leaves them out; a fresh UUID, the time and each response of a network or a database are arguments. A
-- read of the latest scans sorts their rows by time. The page of entries takes the arrangement of its
-- rows as an argument, as ORDER BY leaves open how a database orders rows of one date.
-- Regular expressions are run by the backtracking matcher of Base.Regex.
--
-- Bounds of the model. Letters of `lower`, `upper` and `title` are the ASCII ones. A missing key and
-- `None` are one value where every reader treats them alike. Sets are lists asked only for membership,
-- but in Cve.Match, where the order of a walk through a set is a parameter. A reference of a CVE
-- entry, which is only passed on, stands as a text, and so do dates. The key `resource_names` of a
-- rule, which no rule reads, is left out.
--
-- A kind or a name of a subject, a role or a binding that is there is a text, not `None`: the texts of
-- a finding would show "None" there. A key of a risk context may be missing, or there and `None`.
-- A key of a feed that is there has a value of its type, and a key of a JSON Feed, OSV or NVD document
-- that no parser reads is left out.
--
-- Not modelled: SQLAlchemy (a query's result is an argument or a table), FastAPI and Pydantic, HTTP and
-- the Kubernetes API, PyJWT and bcrypt (a parameter with the laws that PyJWT documents), the inlining of
-- JSON schemas, argparse and printing, PDF layout, the Go agent and cloud scanner, and the dashboard.
pub mod Base
pub mod Floats
pub mod Http
pub mod Limits
pub mod Health
pub mod Auth
pub mod Scoring
pub mod Remediation
pub mod Finding
pub mod Rbac
pub mod Effective
pub mod Images
pub mod Cve
pub mod Cli
pub mod Audit
pub mod Examples
