-- ===== src/Cve/Pipeline.antt =====
-- From a feed to a finding, through control-plane/app/cve_service.py: the parser, the refresh of the
-- feed, the query of the enabled feeds, and the match with what a cluster runs.
use kaaval.Base.{
  ◌≡◌, refl, sym, ap, ◌∙◌, ℕ, String, Bool, true, not, ◌&&◌, Option, some, some-injective, List, [],
  ◌∷◌, get_or, map, filter, flat_map, any, ◌==◌, nat_eq, Bool-cases, inl, inr,
}
use kaaval.Base.Member.{
  Member, here, there, Member-append_right, Member-map, Member-flat_map, Member-of_flat_map,
}
use kaaval.Base.Text.{lower, is_text}
use kaaval.Http.{returned}
use kaaval.Floats.{Floats}
use kaaval.Scoring.{Context}
use kaaval.Cve.Version.{version_in_range}
use kaaval.Cve.Entry.{Entry, Python, row_of, known_component, known_range}
use kaaval.Cve.Match.{VersionsMap, versions_map, cve_finding, entry_matches}
use kaaval.Cve.Match.Candidates.{IsCandidate}
use kaaval.Cve.Match.Reported.{is_affected, Hits, IsWalk, match_cves_complete}
use kaaval.Cve.Nvd.{
  CpeMatch, Configuration, NvdCve, component_name, cpe_component, cpe_components,
  affected_components, nvd_entry, parse_nvd,
}
use kaaval.Cve.JsonFeed.{OsvBlock, Document, detect_and_parse}
use kaaval.Cve.Feeds.{
  Feed, find_feed, update_feed, Tables, Fetch, parse_fetched, fetch_and_parse, store_entries,
  refresh_feed,
}
use kaaval.Cve.Feeds.Refresh.{find_feed-id}
use kaaval.Cve.Inventory.{Inventory, addon_of}
use kaaval.Cve.Scans.{enabled_entries, match_inventory}

-- The elements of "cpeMatch" of all nodes.
abbrev pub cpes_of : List Configuration → List CpeMatch
cpes_of configurations =
    flat_map (λ config. flat_map (λ node. node.cpe_match) config.nodes) configurations

cpe-affected :
    (cpe : CpeMatch) (configurations : List Configuration)
    → Member cpe (cpes_of configurations)
    → cpe.vulnerable ≡ true
    → Member (cpe_component cpe) (affected_components configurations)
unfolding affected_components cpe_components
cpe-affected cpe configurations m v =
    let (config, mc, k) = Member-of_flat_map _ cpe configurations m in
    let (node, mn, l) = Member-of_flat_map _ cpe config.nodes k in
    Member-flat_map _ config _ configurations mc (
      Member-flat_map _ node _ config.nodes mn
        (Member-flat_map cpe_components cpe _ node.cpe_match l (rw v (here refl))))

Member-filter {ℓ} :
    {A : Type ℓ} (p : A → Bool) (a : A) (xs : List A)
    → Member a xs
    → p a ≡ true
    → Member a (filter p xs)
unfolding filter
Member-filter p a [] m h = elim m [ ]
Member-filter p a (x ∷ xs) (here e) h = rw (ap p (sym e) ∙ h) (here e)
Member-filter p a (x ∷ xs) (there m) h = elim (Bool-cases (p x)) [
  | inl q ↦ rw q (there (Member-filter p a xs m h))
  | inr q ↦ rw q (Member-filter p a xs m h)
]

-- Whether a feed is enabled is left by a write that leaves the flag.
is_enabled : ℕ → List Feed → Bool
unfolding any
is_enabled k fs = any (λ (f : Feed). f.id == k && f.enabled) fs

enabled-found :
    (k : ℕ) (feed : Feed) (change : Feed → Feed) (fs : List Feed)
    → ((f : Feed) → (change f).id ≡ f.id)
    → ((f : Feed) → (change f).enabled ≡ f.enabled)
    → find_feed k fs ≡ some feed
    → feed.enabled ≡ true
    → any (λ (f : Feed). f.id == k && f.enabled) (update_feed k change fs) ≡ true
unfolding find_feed update_feed any
enabled-found k feed change [] i n h e = cc
enabled-found k feed change (f ∷ fs) i n h e = elim (Bool-cases (f.id == k)) [
  | inl q ↦
      let found : f ≡ feed = some-injective f feed (rw q at h) in
      rw (q, i f, n f, q) (rw (ap (λ (g : Feed). g.enabled) found ∙ e) refl)
  | inr q ↦ rw (q, q) (enabled-found k feed change fs i n (rw q at h) e)
]

-- The range of a vulnerable element, as the match reads it.
cpe-is_affected :
    (cpe : CpeMatch) (ver : String)
    → is_text (get_or cpe.version_start_including "0") ≡ true
    → version_in_range ver (some (get_or cpe.version_start_including "0")) cpe.version_end_excluding
      ≡ true
    → is_affected (known_component (cpe_component cpe)) ver ≡ true
unfolding cpe_component known_component known_range any
cpe-is_affected cpe ver start holds = rw (start, holds) refl

module _ (F : Floats) (py : Python F) (walk : List String → List String) (w : IsWalk walk) where
  nvd-Hits :
      (k : ℕ) (cve : NvdCve F) (cpe : CpeMatch) (m : VersionsMap) (ver : String)
      → Member cpe (cpes_of cve.configurations)
      → cpe.vulnerable ≡ true
      → is_text (lower (component_name cpe.criteria)) ≡ true
      → IsCandidate (lower (component_name cpe.criteria)) m ver
      → is_text (get_or cpe.version_start_including "0") ≡ true
      → version_in_range ver
          (some (get_or cpe.version_start_including "0"))
          cpe.version_end_excluding
        ≡ true
      → Hits F m (row_of F (nvd_entry F py k cve))
  unfolding row_of nvd_entry known_component cpe_component
  nvd-Hits k cve cpe m ver mc v named runs start holds = (
    known_component (cpe_component cpe),
    ver,
    Member-map known_component _ _ (cpe-affected cpe cve.configurations mc v),
    named,
    runs,
    cpe-is_affected cpe ver start holds,
  )

  parsed-Member :
      (k : ℕ) (cve : NvdCve F) (cves : List (NvdCve F))
      → Member cve cves
      → Member (nvd_entry F py k cve) (parse_nvd F py cves k)
  unfolding parse_nvd
  parsed-Member k cve cves m = Member-map (nvd_entry F py k) cve cves m

  nvd_entry-feed_id : (k : ℕ) (cve : NvdCve F) → (nvd_entry F py k cve).feed_id ≡ k
  unfolding nvd_entry
  nvd_entry-feed_id k cve = refl

  module _ (loads : String → Option OsvBlock) (fetch : Fetch F) where
    -- The entries of an enabled feed are read by the scans that follow its refresh.
    refreshed-enabled :
        (now k : ℕ) (db : Tables F) (feed : Feed) (es : List (Entry F)) (e : Entry F)
        → find_feed k db.feeds ≡ some feed
        → feed.enabled ≡ true
        → fetch_and_parse F py loads fetch feed ≡ returned es
        → Member e es
        → e.feed_id ≡ k
        → Member e (enabled_entries F (refresh_feed F py loads fetch now k db).1)
    unfolding refresh_feed store_entries enabled_entries
    refreshed-enabled now k db feed es e found on fetched m own =
        rw (found, refresh_feed, fetched)
          (Member-filter _ e _
            (Member-append_right e (filter (λ x. not (x.feed_id == k)) db.entries) es m)
            (rw own (enabled-found k feed _ db.feeds (λ f. refl) (λ f. refl) found on)))

    fetched_nvd :
        (feed : Feed) (doc : Document F) (cves : List (NvdCve F))
        → fetch feed ≡ returned doc
        → doc.vulnerabilities ≡ some cves
        → fetch_and_parse F py loads fetch feed ≡ returned (parse_nvd F py cves feed.id)
    unfolding fetch_and_parse parse_fetched detect_and_parse
    fetched_nvd feed doc cves f v = rw (f, parse_fetched, v) refl

    -- A CVE of an NVD feed with a vulnerable element whose component a cluster runs, at a version from
    -- "versionStartIncluding" up to "versionEndExcluding", is among the findings of a scan that follows
    -- the refresh of the enabled feed.
    pub nvd_refresh-reported :
        (now k : ℕ) (db : Tables F) (feed : Feed) (doc : Document F) (cves : List (NvdCve F))
        (cve : NvdCve F) (cpe : CpeMatch) (inventory : Inventory) (c : Context) (ver : String)
        → find_feed k db.feeds ≡ some feed
        → feed.enabled ≡ true
        → fetch feed ≡ returned doc
        → doc.vulnerabilities ≡ some cves
        → Member cve cves
        → Member cpe (cpes_of cve.configurations)
        → cpe.vulnerable ≡ true
        → is_text (lower (component_name cpe.criteria)) ≡ true
        → IsCandidate
            (lower (component_name cpe.criteria))
            (versions_map inventory.server_version inventory.node_versions
              (map addon_of inventory.addons))
            ver
        → is_text (get_or cpe.version_start_including "0") ≡ true
        → version_in_range ver
            (some (get_or cpe.version_start_including "0"))
            cpe.version_end_excluding
          ≡ true
        → Member
            (cve_finding F walk c (row_of F (nvd_entry F py feed.id cve)) (
              entry_matches F walk
                (versions_map inventory.server_version inventory.node_versions
                  (map addon_of inventory.addons))
                (row_of F (nvd_entry F py feed.id cve))))
            (match_inventory F walk (refresh_feed F py loads fetch now k db).1 inventory c)
    unfolding match_inventory
    nvd_refresh-reported now k db feed doc cves cve cpe inventory c ver found on fetched doc_nvd
          in_feed in_cve v named runs start holds =
        match_cves_complete F walk w _ inventory.server_version inventory.node_versions
          (map addon_of inventory.addons) c _
          (Member-map (row_of F) _ _ (
            refreshed-enabled now k db feed _ (nvd_entry F py feed.id cve) found on
              (fetched_nvd feed doc cves fetched doc_nvd) (parsed-Member feed.id cve cves in_feed)
              (nvd_entry-feed_id feed.id cve ∙ find_feed-id k feed db.feeds found)))
          (nvd-Hits feed.id cve cpe _ ver in_cve v named runs start holds)
