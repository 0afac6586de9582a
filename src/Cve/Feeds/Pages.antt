-- ===== src/Cve/Feeds/Pages.antt =====
-- A page of GET /cve/entries of control-plane/app/routers/cve.py.
use kaaval.Base.{
  filter-true, ◌≡◌, refl, sym, ap, ◌∙◌, ℕ, zero, suc, ◌≤◌, String, Bool, true, ◌&&◌, ◌||◌, Option,
  none, some, List, [], ◌∷◌, ◌++◌, map, filter, take, drop, take-drop, length, ◌==◌, nat_eq,
  string_eq, ◌<>◌, Option-cases, inl, inr, ◌⊎◌, arith,
}
use kaaval.Base.Text.{upper}
use kaaval.Base.Sort.{IsSorted}
use kaaval.Floats.{Floats}
use kaaval.Cve.Entry.{Entry}
use kaaval.Cve.Feeds.{Feed, Tables}
use kaaval.Cve.Feeds.Browse.{
  Database, Filters, given, EntryPage, view, in_enabled_feed, filter_severity, filter_feed,
  filter_search, matching, comes_before, IsArrangement, list_entries,
}
use mathlib.Core.List.{Perm}

filter-filter {ℓ} :
    {A : Type ℓ} (p q : A → Bool) (xs : List A)
    → filter p (filter q xs) ≡ filter (λ x. q x && p x) xs
unfolding filter
filter-filter p q [] = refl
filter-filter p q (x ∷ xs) = ground (arith, filter-filter p q xs)

-- The first `n` of a list are as many as `n`, or the whole list.
length-take {ℓ} :
    {A : Type ℓ} (n : ℕ) (xs : List A)
    → (length (take n xs) ≡ n) ⊎ ((length (take n xs) ≤ n) × (drop n xs ≡ []))
unfolding take drop
length-take zero xs = inl refl
length-take (suc n) [] = inr (omega arith, refl)
length-take (suc n) (x ∷ xs) = elim (length-take n xs) [
  | inl q ↦ inl (ap suc q)
  | inr (h, q) ↦ inr (omega arith, q)
]

module _ {F : Floats} (pg : Database) where
  -- Whether one entry, by itself, passes every filter that is given.
  abbrev has_severity : Option String → Entry F → Bool
  has_severity none e = true
  has_severity (some s) e = e.severity == upper s

  abbrev of_feed : Option ℕ → Entry F → Bool
  of_feed none e = true
  of_feed (some id) e = e.feed_id == id

  abbrev mentions : Option String → Entry F → Bool
  mentions none e = true
  mentions (some s) e =
      pg.ilike e.cve_id ("%" <> (s <> "%")) || pg.ilike e.title ("%" <> (s <> "%"))

  abbrev pub wanted : Filters → List Feed → Entry F → Bool
  wanted filters feeds e =
      in_enabled_feed F feeds e
      && (has_severity (given filters.severity) e
          && (of_feed filters.feed_id e && mentions (given filters.search) e))

  filter_severity-eq :
      (s : Option String) (es : List (Entry F))
      → filter_severity F s es ≡ filter (has_severity (given s)) es
  unfolding filter_severity
  filter_severity-eq s es = elim (Option-cases (given s)) [
    | inl q ↦ rw (q, filter_severity) (sym (filter-true es))
    | inr (t, q) ↦ rw (q, filter_severity) refl
  ]

  filter_feed-eq :
      (id : Option ℕ) (es : List (Entry F)) → filter_feed F id es ≡ filter (of_feed id) es
  unfolding filter_feed
  filter_feed-eq none es = sym (filter-true es)
  filter_feed-eq (some id) es = refl

  filter_search-eq :
      (s : Option String) (es : List (Entry F))
      → filter_search F pg s es ≡ filter (mentions (given s)) es
  unfolding filter_search
  filter_search-eq s es = elim (Option-cases (given s)) [
    | inl q ↦ rw (q, filter_search) (sym (filter-true es))
    | inr (t, q) ↦ rw (q, filter_search) refl
  ]

  -- The chain of filters is one test of each entry.
  pub matching-eq :
      (filters : Filters) (db : Tables F)
      → matching F pg filters db ≡ filter (wanted filters db.feeds) db.entries
  unfolding matching
  matching-eq filters db =
      rw
        (
          filter_severity-eq, filter_feed-eq, filter_search-eq, filter-filter, filter-filter,
          filter-filter,
        )
        refl

  -- What a reply with this offset and limit says of a table: some rows are passed over, the page shows
  -- the next ones, and the others are left.
  pub record IsPageOf (filters : Filters) (db : Tables F) (limit offset : ℕ) (reply : EntryPage F)
      (passed page left : List (Entry F)) : Type 0 where
    pub all_rows : Perm (passed ++ (page ++ left)) (filter (wanted filters db.feeds) db.entries)
    pub by_date : IsSorted (comes_before F pg) (passed ++ (page ++ left))
    pub shown : reply.entries ≡ map (view F) page
    pub counted : reply.total ≡ length (filter (wanted filters db.feeds) db.entries)
    pub passed_offset : (length passed ≡ offset) ⊎ ((length passed ≤ offset) × (page ++ left ≡ []))
    pub page_limit : (length page ≡ limit) ⊎ ((length page ≤ limit) × (left ≡ []))

  -- A reply of GET /cve/entries, however the database arranges rows of one date for this query: the rows
  -- of enabled feeds that pass every filter, each by itself, stand by falling date, those without a date
  -- last. As many as the offset are passed over, or all of them if they are fewer. The page shows as
  -- many of the next ones as the limit, or all that are left. The total is the number of all the rows.
  pub list_entries_page :
      (arrange : List (Entry F) → List (Entry F))
      → IsArrangement F pg arrange
      → (filters : Filters) (limit offset : ℕ) (db : Tables F)
      → (passed : List (Entry F)) × (page : List (Entry F)) × (left : List (Entry F)) × IsPageOf
          filters db limit offset
          (list_entries F pg arrange filters limit offset db)
          passed
          page
          left
  unfolding list_entries
  list_entries_page arrange o filters limit offset db =
      let rows = arrange (matching F pg filters db) in
      let rest = drop offset rows in
      let whole : take offset rows ++ (take limit rest ++ drop limit rest) ≡ rows =
        ap (λ r. take offset rows ++ r) (take-drop limit rest) ∙ take-drop offset rows in
      (
        take offset rows,
        take limit rest,
        drop limit rest,
        record {
          all_rows = rw (whole, sym (matching-eq filters db)) (o.same_rows _);
          by_date = rw whole (o.by_date _);
          shown = refl;
          counted = ap length (matching-eq filters db);
          passed_offset = rw (take-drop limit rest) (length-take offset rows);
          page_limit = length-take limit rest;
        },
      )
