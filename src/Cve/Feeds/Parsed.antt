-- ===== src/Cve/Feeds/Parsed.antt =====
-- The parsers of control-plane/app/cve_service.py put the id of the feed on every entry.
use kaaval.Base.{
  ◌≡◌, refl, subst, ℕ, String, ◌&&◌, ◌||◌, Option, none, some, List, [], ◌∷◌, All, is_some,
  if◌then◌else◌, get_or, Bool-cases, Option-cases, inl, inr,
}
use kaaval.Http.{Outcome, returned, raised, returned-injective}
use kaaval.Floats.{Floats}
use kaaval.Cve.Entry.{Entry, Python}
use kaaval.Cve.Osv.{parse_osv_affected}
use kaaval.Cve.Nvd.{NvdCve, nvd_entry, parse_nvd}
use kaaval.Cve.OsvFeed.{Vuln, osv_entry, cons_entry, parse_vuln, parse_vulns, parse_osv}
use kaaval.Cve.JsonFeed.{
  OsvBlock, Item, extract_osv, embedded_affected, item_entry, parse_item, parse_json_feed, Document,
  detect_and_parse,
}
use kaaval.Cve.Feeds.{Feed, Fetch, outcome_of, parse_fetched, fetch_and_parse}

module _ (F : Floats) (k : ℕ) where
  -- Every entry of a result is of the feed.
  abbrev OfFeed : Option (List (Entry F)) → Type 0
  OfFeed none = Unit
  OfFeed (some es) = All (λ e. e.feed_id ≡ k) es

  abbrev OneOfFeed : Option (Entry F) → Type 0
  OneOfFeed none = Unit
  OneOfFeed (some e) = e.feed_id ≡ k

  cons_entry-OfFeed :
      (e : Option (Entry F)) (es : Option (List (Entry F)))
      → OneOfFeed e
      → OfFeed es
      → OfFeed (cons_entry F e es)
  cons_entry-OfFeed none es h hs = tt
  cons_entry-OfFeed (some e) none h hs = tt
  cons_entry-OfFeed (some e) (some es) h hs = (h, hs)

  parse_nvd-OfFeed :
      (py : Python F) (cves : List (NvdCve F)) → OfFeed (some (parse_nvd F py cves k))
  unfolding parse_nvd nvd_entry
  parse_nvd-OfFeed py [] = tt
  parse_nvd-OfFeed py (c ∷ cves) = (refl, parse_nvd-OfFeed py cves)

  parse_vuln-OfFeed : (py : Python F) (v : Vuln F) → OneOfFeed (parse_vuln F py k v)
  unfolding parse_vuln osv_entry
  parse_vuln-OfFeed py v = elim (Option-cases (parse_osv_affected v.affected)) [
    | inl e ↦ rw (e, OneOfFeed) tt
    | inr (parsed, e) ↦ rw (e, OneOfFeed) refl
  ]

  parse_vulns-OfFeed : (py : Python F) (vs : List (Vuln F)) → OfFeed (parse_vulns F py k vs)
  unfolding parse_vulns
  parse_vulns-OfFeed py [] = tt
  parse_vulns-OfFeed py (v ∷ vs) =
      cons_entry-OfFeed (parse_vuln F py k v) (parse_vulns F py k vs) (parse_vuln-OfFeed py v)
        (parse_vulns-OfFeed py vs)

  parse_osv-OfFeed :
      (py : Python F) (vulns : Option (List (Vuln F))) (single : Vuln F)
      → OfFeed (parse_osv F py vulns single k)
  unfolding parse_osv
  parse_osv-OfFeed py vulns single = go (get_or vulns [])
    where
      go :
          (vs : List (Vuln F))
          → OfFeed (elim vs [
            | [] ↦ parse_vulns F py k (if is_some single.id then single ∷ [] else [])
            | v ∷ vs ↦ parse_vulns F py k (v ∷ vs)
          ])
      go [] = parse_vulns-OfFeed py (if is_some single.id then single ∷ [] else [])
      go (v ∷ vs) = parse_vulns-OfFeed py (v ∷ vs)

  parse_item-OfFeed :
      (py : Python F) (loads : String → Option OsvBlock) (item : Item)
      → OneOfFeed (parse_item F py loads k item)
  unfolding parse_item item_entry
  parse_item-OfFeed py loads item =
      elim (Option-cases (
        embedded_affected
          (extract_osv loads (get_or item.content_text (get_or item.content_html ""))))) [
            | inl e ↦ rw (e, OneOfFeed) tt
            | inr (parsed, e) ↦ rw (e, OneOfFeed) refl
          ]

  parse_json_feed-OfFeed :
      (py : Python F) (loads : String → Option OsvBlock) (items : List Item)
      → OfFeed (parse_json_feed F py loads items k)
  unfolding parse_json_feed
  parse_json_feed-OfFeed py loads [] = tt
  parse_json_feed-OfFeed py loads (item ∷ items) =
      cons_entry-OfFeed (parse_item F py loads k item) (parse_json_feed F py loads items k)
        (parse_item-OfFeed py loads item) (parse_json_feed-OfFeed py loads items)

  outcome_of-own :
      (o : Option (List (Entry F))) (es : List (Entry F))
      → OfFeed o
      → outcome_of F o ≡ returned es
      → All (λ e. e.feed_id ≡ k) es
  outcome_of-own none es own q = cc
  outcome_of-own (some entries) es own q =
      subst (All (λ e. e.feed_id ≡ k)) (returned-injective entries es q) own

  detect_and_parse-OfFeed :
      (py : Python F) (loads : String → Option OsvBlock) (doc : Document F)
      → OfFeed (detect_and_parse F py loads doc k)
  unfolding detect_and_parse
  detect_and_parse-OfFeed py loads doc = elim (Option-cases doc.vulnerabilities) [
    | inr (cves, e) ↦ rw e (parse_nvd-OfFeed py cves)
    | inl e ↦
        rw e
          (elim (Bool-cases (
            is_some doc.vulns
            || (is_some doc.single.id && (doc.has_affected && doc.has_references)))) [
              | inl h ↦ rw h (parse_osv-OfFeed py doc.vulns doc.single)
              | inr h ↦ rw h (elim (Option-cases doc.items) [
                | inl q ↦ rw q tt
                | inr (items, q) ↦ rw q (parse_json_feed-OfFeed py loads items)
              ])
            ])
  ]

module _ {F : Floats} (py : Python F) (loads : String → Option OsvBlock) (fetch : Fetch F) where
  -- The entries of a fetch that succeeds.
  pub fetch_and_parse-own :
      (feed : Feed) (es : List (Entry F))
      → fetch_and_parse F py loads fetch feed ≡ returned es
      → All (λ e. e.feed_id ≡ feed.id) es
  unfolding fetch_and_parse parse_fetched
  fetch_and_parse-own feed es h = go (fetch feed) h
    where
      go :
          (o : Outcome (Document F))
          → parse_fetched F py loads feed.id o ≡ returned es
          → All (λ e. e.feed_id ≡ feed.id) es
      go (raised e) q = cc
      go (returned doc) q =
          outcome_of-own F feed.id (detect_and_parse F py loads doc feed.id) es
            (detect_and_parse-OfFeed F feed.id py loads doc) q
