-- ===== src/Cve/Match/Reported.antt =====
-- Which CVE entries `_match_cves` of control-plane/app/cve_service.py reports.
use kaaval.Base.{
  ◌≡◌, refl, sym, ◌∙◌, String, Bool, true, ◌||◌, Option, none, some, List, [], ◌∷◌, get_or, is_some,
  nonempty, Bool-cases, inl, inr, flat_map, any, All,
}
use kaaval.Base.Member.{
  Member, here, there, Member-flat_map, Member-of_flat_map, Member-sort, All-Member,
}
use kaaval.Base.Sort.{All-sort}
use kaaval.Base.Text.{lower, is_text}
use kaaval.Floats.{Floats}
use kaaval.Scoring.{Context}
use kaaval.Finding.{Finding}
use kaaval.Rbac.Findings.{ranks_before}
use kaaval.Cve.Version.{version_in_range}
use kaaval.Cve.Match.{
  Addon, KnownRange, AffectedComponent, CveEntry, VersionsMap, versions_map, lists_version,
  range_hit, version_matches, hit_of_range, component_matches, entry_matches, cve_finding,
  entry_findings, match_cves,
}
use kaaval.Cve.Match.Candidates.{IsCandidate, candidate_versions-cases}

-- The component names the version, or one of its ranges holds it.
abbrev pub is_affected : AffectedComponent → String → Bool
is_affected comp ver =
    any (lists_version ver) comp.versions
    || any (λ r. version_in_range ver (some (get_or r.introduced "0")) r.fixed) comp.ranges

is_some-range_hit :
    (ver : String) (ranges : List KnownRange)
    → is_some (range_hit ver ranges)
      ≡ any (λ r. version_in_range ver (some (get_or r.introduced "0")) r.fixed) ranges
unfolding range_hit any
is_some-range_hit ver [] = refl
is_some-range_hit ver (r ∷ ranges) =
    elim (Bool-cases (version_in_range ver (some (get_or r.introduced "0")) r.fixed)) [
      | inl h ↦ rw h refl
      | inr h ↦ rw h (is_some-range_hit ver ranges)
    ]

nonempty-hit_of_range :
    (comp_name ver : String) (o : Option KnownRange)
    → nonempty (hit_of_range comp_name ver o) ≡ is_some o
nonempty-hit_of_range comp_name ver none = refl
nonempty-hit_of_range comp_name ver (some r) = refl

nonempty-version_matches :
    (comp : AffectedComponent) (comp_name ver : String)
    → nonempty (version_matches comp comp_name ver) ≡ is_affected comp ver
unfolding version_matches
nonempty-version_matches comp comp_name ver =
    elim (Bool-cases (any (lists_version ver) comp.versions)) [
      | inl h ↦ rw h refl
      | inr h ↦ rw h (
          nonempty-hit_of_range comp_name ver (range_hit ver comp.ranges)
          ∙ is_some-range_hit ver comp.ranges)
    ]

head_Member {ℓ} : {A : Type ℓ} (xs : List A) → nonempty xs ≡ true → (a : A) × Member a xs
head_Member [] h = cc
head_Member (x ∷ xs) h = (x, here refl)

Member-nonempty {ℓ} : {A : Type ℓ} (a : A) (xs : List A) → Member a xs → nonempty xs ≡ true
Member-nonempty a [] m = elim m [ ]
Member-nonempty a (x ∷ xs) m = refl

only_one {ℓ} : {A : Type ℓ} (a b : A) → Member a (b ∷ []) → a ≡ b
only_one a b (here e) = e
only_one a b (there m) = elim m [ ]

nonempty-flat_map {ℓ κ} :
    {A : Type ℓ} {B : Type κ} (f : A → List B) (a : A) (xs : List A)
    → Member a xs
    → nonempty (f a) ≡ true
    → nonempty (flat_map f xs) ≡ true
nonempty-flat_map f a xs m h =
    let (b, k) = head_Member (f a) h in Member-nonempty b _ (Member-flat_map f a b xs m k)

nonempty_of_flat_map {ℓ κ} :
    {A : Type ℓ} {B : Type κ} (f : A → List B) (xs : List A)
    → nonempty (flat_map f xs) ≡ true
    → (a : A) × Member a xs × (nonempty (f a) ≡ true)
nonempty_of_flat_map f xs h =
    let (b, k) = head_Member (flat_map f xs) h in
    let (a, m, l) = Member-of_flat_map f b xs k in (a, m, Member-nonempty b (f a) l)

-- The entry has an affected component that is in the map with a version that is affected.
abbrev pub Hits : (F : Floats) → VersionsMap → CveEntry F → Type 0
Hits F m entry =
    (comp : AffectedComponent) × (ver : String) × Member comp entry.affected_components
    × (is_text (lower comp.component) ≡ true)
    × IsCandidate (lower comp.component) m ver
    × (is_affected comp ver ≡ true)

-- The walk through a set meets its elements, and nothing else.
pub record IsWalk (walk : List String → List String) : Type 0 where
  pub meets : (v : String) (vs : List String) → Member v vs → Member v (walk vs)
  pub only : (v : String) (vs : List String) → Member v (walk vs) → Member v vs

module _ (F : Floats) (walk : List String → List String) (w : IsWalk walk) where
  component_hit :
      (m : VersionsMap) (comp : AffectedComponent)
      → nonempty (component_matches F walk m comp) ≡ true
      → (is_text (lower comp.component) ≡ true)
        × (ver : String) × IsCandidate (lower comp.component) m ver
        × (is_affected comp ver ≡ true)
  unfolding component_matches
  component_hit m comp h = elim (Bool-cases (is_text (lower comp.component))) [
    | inl t ↦
        let name = lower comp.component in
        let (ver, k, a) = nonempty_of_flat_map (version_matches comp name) _ (rw t at h) in
        (
          t,
          ver,
          (candidate_versions-cases name m ver).1 (w.only ver _ k),
          sym (nonempty-version_matches comp name ver) ∙ a,
        )
    | inr t ↦ cc (rw t at h)
  ]

  reported_entry :
      (m : VersionsMap) (c : Context) (entry : CveEntry F) (f : Finding F)
      → Member f (entry_findings F walk m c entry)
      → (nonempty (entry_matches F walk m entry) ≡ true)
        × (f ≡ cve_finding F walk c entry (entry_matches F walk m entry))
  unfolding entry_findings
  reported_entry m c entry f k = elim (Bool-cases (nonempty (entry_matches F walk m entry))) [
    | inl h ↦ (h, only_one f _ (rw h at k))
    | inr h ↦ elim (rw h at k) [ ]
  ]

  entry_matches-Hits :
      (m : VersionsMap) (entry : CveEntry F)
      → (Hits F m entry → nonempty (entry_matches F walk m entry) ≡ true)
        × (nonempty (entry_matches F walk m entry) ≡ true → Hits F m entry)
  unfolding entry_matches component_matches
  entry_matches-Hits m entry = (
    λ (comp, ver, mc, t, c, a).
        let name = lower comp.component in
        let k = w.meets ver _ ((candidate_versions-cases name m ver).0 c) in
        nonempty-flat_map (component_matches F walk m) comp entry.affected_components mc (
          rw t (
            nonempty-flat_map (version_matches comp name) ver _ k
              (nonempty-version_matches comp name ver ∙ a))),
    λ h.
        let (comp, mc, k) =
          nonempty_of_flat_map (component_matches F walk m) entry.affected_components h in
        let (t, ver, c, a) = component_hit m comp k in (comp, ver, mc, t, c, a),
  )

  -- An entry with an affected component that the cluster runs at an affected version is reported, with
  -- all its matches.
  pub match_cves_complete :
      (entries : List (CveEntry F)) (server_version : String) (node_versions : List String)
      (addons : List Addon) (c : Context) (entry : CveEntry F)
      → Member entry entries
      → Hits F (versions_map server_version node_versions addons) entry
      → Member
          (cve_finding F walk c entry
            (entry_matches F walk (versions_map server_version node_versions addons) entry))
          (match_cves F walk entries server_version node_versions addons c)
  unfolding match_cves entry_findings
  match_cves_complete entries server_version node_versions addons c entry k h =
      let m = versions_map server_version node_versions addons in
      Member-sort (ranks_before F) _ _ (
        Member-flat_map (entry_findings F walk m c) entry _ entries k
          (rw ((entry_matches-Hits m entry).0 h) (here refl)))

  -- Every finding is that of an entry with an affected component that the cluster runs at an affected
  -- version.
  pub match_cves_sound :
      (entries : List (CveEntry F)) (server_version : String) (node_versions : List String)
      (addons : List Addon) (c : Context)
      → All
          (λ f.
            (entry : CveEntry F) × Member entry entries
            × Hits F (versions_map server_version node_versions addons) entry
            × (f
                ≡ cve_finding F walk c entry (
                    entry_matches F walk (versions_map server_version node_versions addons) entry)))
          (match_cves F walk entries server_version node_versions addons c)
  unfolding match_cves
  match_cves_sound entries server_version node_versions addons c =
      let m = versions_map server_version node_versions addons in
      All-sort (ranks_before F) _ (flat_map (entry_findings F walk m c) entries) (
        All-Member _ _ (λ f k.
          let (entry, l, e) = Member-of_flat_map (entry_findings F walk m c) f entries k in
          let (h, q) = reported_entry m c entry f e in
          (entry, l, (entry_matches-Hits m entry).1 h, q)))
