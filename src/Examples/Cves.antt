-- ===== src/Examples/Cves.antt =====
-- The theorems on versions, OSV records and CVE entries, on the records of one CVE.
use kaaval.Base.{
  ◌≡◌, refl, String, true, false, not, ◌&&◌, ◌||◌, some, none, List, [], ◌∷◌, any, map, flat_map,
  All, contains, string_eq,
}
use kaaval.Base.Dict.{lookup, insert}
use kaaval.Base.Text.{lower, strip, is_text, truthy}
use kaaval.Base.Parsing.{lstrip_char, split_at, to_int, occurs_in}
use kaaval.Base.Member.{Member, here, there}
use kaaval.Cve.Version.{parse_semver, version_lt, lower_bound, version_in_range}
use kaaval.Cve.Version.Laws.{version_le, version_in_range_adjoin}
use kaaval.Cve.Osv.{OsvAffected, Component, parse_osv_affected}
use kaaval.Cve.Osv.Laws.{all_fixed, labels, parse_osv_affected_returns, parse_osv_affected_raises}
use kaaval.Cve.Match.{
  Addon, AffectedComponent, CveEntry, VersionsMap, versions_map, kubernetes_versions, add_version,
  add_versions, add_addon, add_addons, same_component, entry_matches, cve_finding, match_cves,
}
use kaaval.Cve.Match.Candidates.{IsCandidate}
use kaaval.Cve.Match.Reported.{is_affected, Hits, IsWalk, match_cves_complete, match_cves_sound}
use kaaval.Examples.Fixed.{fixed, production}

fixed_in_order :
    (not (truthy (some "1.29.4")) || version_le (parse_semver "1.28.9") (parse_semver "1.29.4"))
    ≡ true
unfolding parse_semver split_at lstrip_char strip to_int occurs_in version_lt
fixed_in_order = refl

starts_in_order : version_le (lower_bound (some "1.27.0")) (parse_semver "1.28.9") ≡ true
unfolding parse_semver split_at lstrip_char strip to_int occurs_in version_lt lower_bound
starts_in_order = refl

version_in_range_adjoin_example :
    ((version_in_range "v1.28.4" (some "1.27.0") (some "1.28.9")
        || version_in_range "v1.28.4" (some "1.28.9") (some "1.29.4"))
      ≡ version_in_range "v1.28.4" (some "1.27.0") (some "1.29.4"))
    × ((version_in_range "v1.28.4" (some "1.27.0") (some "1.28.9")
          && version_in_range "v1.28.4" (some "1.28.9") (some "1.29.4"))
        ≡ false)
version_in_range_adjoin_example =
    version_in_range_adjoin "v1.28.4" "1.28.9" (some "1.27.0") (some "1.29.4") refl starts_in_order
      fixed_in_order

abbrev kubelet : OsvAffected
kubelet = record {
  name = some "kubelet";
  ecosystem = some "kubernetes";
  ranges =
      record {
        kind = some "SEMVER";
        events =
            record { introduced = some "1.27.0"; fixed = none }
            ∷ record { introduced = none; fixed = some "1.27.8" }
            ∷ [];
      }
      ∷ [];
  versions = [];
}

abbrev listed : OsvAffected
listed = record {
  name = some "kube-proxy";
  ecosystem = none;
  ranges = [];
  versions = "1.27.1" ∷ [];
}

parse_osv_affected_returns_example :
    (cs : List Component) × (parse_osv_affected (kubelet ∷ listed ∷ [])
      ≡ some (cs, flat_map all_fixed (kubelet ∷ listed ∷ [])))
    × (map (λ c. (c.component, c.versions)) cs ≡ labels (kubelet ∷ listed ∷ []))
parse_osv_affected_returns_example = parse_osv_affected_returns kubelet (listed ∷ []) refl

parse_osv_affected_raises_example : parse_osv_affected (listed ∷ kubelet ∷ []) ≡ none
parse_osv_affected_raises_example = parse_osv_affected_raises listed (kubelet ∷ []) refl

abbrev ingress : AffectedComponent
ingress = record {
  component = "Ingress-Nginx";
  versions = [];
  ranges = record { introduced = some "1.9.0"; fixed = some "1.11.5" } ∷ [];
  fixed_in = none;
}

abbrev nightmare : CveEntry fixed
nightmare = record {
  cve_id = "CVE-2025-1974";
  title = "ingress-nginx admission controller RCE";
  severity = "CRITICAL";
  cvss_score = some 980;
  affected_components = ingress ∷ [];
  fixed_in = "1.11.5" ∷ [];
  description = none;
  references = [];
  published_date = none;
}

abbrev addons : List Addon
addons = record { name = "ingress-nginx"; version = "1.11.2" } ∷ []

abbrev inventory : VersionsMap
inventory = versions_map "1.30.1" [] addons

ingress_runs : IsCandidate (lower "Ingress-Nginx") inventory "1.11.2"
unfolding versions_map kubernetes_versions add_versions add_version add_addons add_addon lower
    lookup insert contains same_component
ingress_runs = ("ingress-nginx", "1.11.2" ∷ [], there (here refl), refl, here refl)

ingress_affected : is_affected ingress "1.11.2" ≡ true
unfolding any version_in_range version_lt lower_bound parse_semver split_at lstrip_char strip to_int
    occurs_in
ingress_affected = refl

ingress_named : is_text (lower "Ingress-Nginx") ≡ true
unfolding lower
ingress_named = refl

nightmare-Hits : Hits fixed inventory nightmare
nightmare-Hits = (ingress, "1.11.2", here refl, ingress_named, ingress_runs, ingress_affected)

-- The walk in the order of insertion.
abbrev pub in_order : List String → List String
in_order vs = vs

pub in_order-IsWalk : IsWalk in_order
in_order-IsWalk = record { meets = λ v vs m. m; only = λ v vs m. m }

match_cves_complete_example :
    Member
      (cve_finding fixed in_order production nightmare
        (entry_matches fixed in_order inventory nightmare))
      (match_cves fixed in_order (nightmare ∷ []) "1.30.1" [] addons production)
match_cves_complete_example =
    match_cves_complete fixed in_order in_order-IsWalk (nightmare ∷ []) "1.30.1" [] addons
      production nightmare (here refl) nightmare-Hits

match_cves_sound_example :
    All
      (λ f.
        (entry : CveEntry fixed) × Member entry (nightmare ∷ [])
        × Hits fixed inventory entry
        × (f
            ≡ cve_finding fixed in_order production entry
                (entry_matches fixed in_order inventory entry)))
      (match_cves fixed in_order (nightmare ∷ []) "1.30.1" [] addons production)
match_cves_sound_example =
    match_cves_sound fixed in_order in_order-IsWalk (nightmare ∷ []) "1.30.1" [] addons production
