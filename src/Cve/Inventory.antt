-- ===== src/Cve/Inventory.antt =====
-- What a CVE scan of control-plane/app/cve_service.py collects: `_collect_cluster_inventory` in the
-- cluster, and the calls of RemoteK8sClient on a registered one. The Kubernetes API is a parameter: a
-- response is an argument.
use kaaval.Base.{
  ◌≡◌, refl, String, not, Option, none, some, List, [], ◌∷◌, ◌<>◌, if◌then◌else◌, get_or, filter,
  map, ◌==◌, string_eq,
}
use kaaval.Base.Text.{is_text, or_text, sorted_set}
use kaaval.Base.Regex.{digit}
use kaaval.Base.Parsing.{lstrip_char, split_at, occurs_in}
use kaaval.Http.{Outcome, returned, raised}
use kaaval.Cve.Match.{Addon}
use kaaval.Cve.Addons.{Workload, AddonFound, detect_addons_remote}

-- `re.sub(r"\D", "", s)`
unfoldable pub only_digits : String → String
only_digits String.[] = String.[]
only_digits (String.◌∷◌ c s) =
    let rest = only_digits s in if digit c then String.◌∷◌ c rest else rest

-- `s.lstrip("v").split("-")[0]`
unfoldable pub release_of : String → String
unfolding lstrip_char split_at
release_of s = elim (split_at "-" (lstrip_char "v" s)) [ [] ↦ "" | part ∷ parts ↦ part ]

-- What is read of the response to /version, and of VersionInfo.
pub record VersionInfo : Type 0 where
  pub git_version : Option String
  pub major : Option String
  pub minor : Option String

-- The release that the server names, or else its major and minor number.
unfoldable pub server_version : String → String → String → String
unfolding release_of only_digits
server_version git_version major minor =
    let release = release_of git_version in
    if is_text release then release else only_digits major <> ("." <> only_digits minor)

-- `data.get(key, default)` of a response to /version
abbrev pub remote_version : VersionInfo → String
remote_version info =
    server_version (get_or info.git_version "") (get_or info.major "0") (get_or info.minor "0")

-- `value or default` of a VersionInfo
abbrev pub cluster_version : VersionInfo → String
cluster_version info =
    server_version (or_text info.git_version "") (or_text info.major "0") (or_text info.minor "0")

-- The releases of the kubelets, without the empty ones.
unfoldable pub kubelet_versions : List (Option String) → List String
unfolding release_of filter
kubelet_versions versions = filter is_text (map (λ v. release_of (get_or v "")) versions)

-- `sorted(versions)`
unfoldable pub get_node_versions : List (Option String) → List String
unfolding kubelet_versions sorted_set
get_node_versions versions = sorted_set (kubelet_versions versions)

pub record Inventory : Type 0 where
  pub server_version : String
  pub node_versions : List String
  pub addons : List AddonFound

-- The responses of a registered cluster.
pub record Remote : Type 0 where
  pub version : Outcome VersionInfo
  pub nodes : Outcome (List (Option String))
  pub deployments : Option (List Workload)
  pub daemonsets : Option (List Workload)

-- The three awaits of scan_registered_cluster: the first that raises ends them.
unfoldable pub collect_remote : Remote → Outcome Inventory
unfolding server_version get_node_versions detect_addons_remote
collect_remote r = elim r.version [
  | raised e ↦ raised e
  | returned info ↦ (elim r.nodes [
    | raised e ↦ raised e
    | returned versions ↦ returned (record {
      server_version = remote_version info;
      node_versions = get_node_versions versions;
      addons = detect_addons_remote r.deployments r.daemonsets;
    })
  ])
]

-- What K8sClient gives: the version, the kubelets (`none` is the dict with an error), the add-ons.
pub record InCluster : Type 0 where
  pub version : Outcome VersionInfo
  pub nodes : Outcome (Option (List (Option String)))
  pub addons : Outcome (List AddonFound)

abbrev kubelets_of : Option (List (Option String)) → List String
kubelets_of none = []
kubelets_of (some versions) = kubelet_versions versions

abbrev addons_or_none : Outcome (List AddonFound) → List AddonFound
addons_or_none (raised e) = []
addons_or_none (returned addons) = addons

-- `_collect_cluster_inventory`: what was collected before a call raises is kept. The node versions are
-- the set `all_versions` without the server's, sorted, as scan_cluster takes them.
unfoldable pub collect_in_cluster : InCluster → Inventory
unfolding server_version kubelet_versions sorted_set filter
collect_in_cluster k = elim k.version [
  | raised e ↦ record { server_version = "unknown"; node_versions = []; addons = [] }
  | returned info ↦
      let server = cluster_version info in
      (elim k.nodes [
        | raised e ↦ record { server_version = server; node_versions = []; addons = [] }
        | returned nodes ↦ record {
          server_version = server;
          node_versions = sorted_set (filter (λ v. not (v == server)) (kubelets_of nodes));
          addons = addons_or_none k.addons;
        }
      ])
]

-- The keys of an add-on that `_match_cves` reads.
abbrev pub addon_of : AddonFound → Addon
addon_of a = record { name = a.name; version = a.version }

release_test : release_of "v1.29.3-gke.100" ≡ "1.29.3"
unfolding release_of occurs_in
release_test = refl
