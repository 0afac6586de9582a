-- ===== src/Cve/Feeds/Invariant.antt =====
-- What holds of the tables of feeds and entries in control-plane/app between two requests, and the
-- lemmas on the writes to the tables.
use kaaval.Base.{
  ◌≡◌, refl, ap, ℕ, String, true, false, not, none, List, [], ◌∷◌, ◌++◌, length, filter,
  filter-append, contains, is_some, All, ◌==◌, nat_eq, nat_beq_iff, string_eq, Bool-cases, inl, inr,
  arith, eq_iff,
}
use kaaval.Base.Distinct.{Distinct}
use kaaval.Floats.{Floats}
use kaaval.Cve.Entry.{Entry}
use kaaval.Cve.Feeds.{Feed, find_feed, find_by_name, update_feed, Tables}

abbrev pub ids : List Feed → List ℕ
ids [] = []
ids (f ∷ feeds) = f.id ∷ ids feeds

abbrev pub names : List Feed → List String
names [] = []
names (f ∷ feeds) = f.name ∷ names feeds

pub ids-append : (fs gs : List Feed) → ids (fs ++ gs) ≡ ids fs ++ ids gs
ids-append [] gs = refl
ids-append (f ∷ fs) gs = ap (◌∷◌ f.id) (ids-append fs gs)

pub names-append : (fs gs : List Feed) → names (fs ++ gs) ≡ names fs ++ names gs
names-append [] gs = refl
names-append (f ∷ fs) gs = ap (◌∷◌ f.name) (names-append fs gs)

-- A name that is not found is not there.
pub find_by_name-none :
    (name : String) (fs : List Feed)
    → find_by_name name fs ≡ none
    → contains (names fs) name ≡ false
unfolding find_by_name contains
find_by_name-none name [] h = refl
find_by_name-none name (f ∷ fs) h =
    ground (arith, eq_iff f.name name, eq_iff name f.name, find_by_name-none name fs)

pub is_some-find_feed : (id : ℕ) (fs : List Feed) → is_some (find_feed id fs) ≡ contains (ids fs) id
unfolding find_feed contains
is_some-find_feed id [] = refl
is_some-find_feed id (f ∷ fs) = ground (arith, is_some-find_feed id fs)

-- A write that keeps the id and the name of a row.
pub record KeepsName (change : Feed → Feed) : Type 0 where
  pub id : (f : Feed) → (change f).id ≡ f.id
  pub name : (f : Feed) → (change f).name ≡ f.name

module _ (k : ℕ) (change : Feed → Feed) (keeps : KeepsName change) where
  pub ids-update_feed : (fs : List Feed) → ids (update_feed k change fs) ≡ ids fs
  unfolding update_feed
  ids-update_feed [] = refl
  ids-update_feed (f ∷ fs) = ground (arith, keeps.id f, ids-update_feed fs)

  pub names-update_feed : (fs : List Feed) → names (update_feed k change fs) ≡ names fs
  unfolding update_feed
  names-update_feed [] = refl
  names-update_feed (f ∷ fs) = ground (arith, keeps.name f, names-update_feed fs)

-- The rows that stay when the row with an id is deleted.
abbrev pub without : ℕ → List Feed → List Feed
without k fs = filter (λ f. not (f.id == k)) fs

pub contains-ids-without :
    (j k : ℕ) (fs : List Feed)
    → (j == k) ≡ false
    → contains (ids (without k fs)) j ≡ contains (ids fs) j
unfolding filter contains
contains-ids-without j k [] h = refl
contains-ids-without j k (f ∷ fs) h = ground (arith, contains-ids-without j k fs h)

contains-ids-without_le :
    (j k : ℕ) (fs : List Feed)
    → contains (ids fs) j ≡ false
    → contains (ids (without k fs)) j ≡ false
unfolding filter contains
contains-ids-without_le j k [] h = refl
contains-ids-without_le j k (f ∷ fs) h = ground (arith, contains-ids-without_le j k fs)

contains-names-without :
    (name : String) (k : ℕ) (fs : List Feed)
    → contains (names fs) name ≡ false
    → contains (names (without k fs)) name ≡ false
unfolding filter contains
contains-names-without name k [] h = refl
contains-names-without name k (f ∷ fs) h = ground (arith, contains-names-without name k fs)

pub Distinct-ids-without :
    (k : ℕ) (fs : List Feed) → Distinct (ids fs) → Distinct (ids (without k fs))
unfolding filter
Distinct-ids-without k [] u = tt
Distinct-ids-without k (f ∷ fs) (fresh, u) = elim (Bool-cases (f.id == k)) [
  | inl e ↦ rw e (Distinct-ids-without k fs u)
  | inr e ↦ rw e (contains-ids-without_le f.id k fs fresh, Distinct-ids-without k fs u)
]

pub Distinct-names-without :
    (k : ℕ) (fs : List Feed) → Distinct (names fs) → Distinct (names (without k fs))
unfolding filter
Distinct-names-without k [] u = tt
Distinct-names-without k (f ∷ fs) (fresh, u) = elim (Bool-cases (f.id == k)) [
  | inl e ↦ rw e (Distinct-names-without k fs u)
  | inr e ↦ rw e (contains-names-without f.name k fs fresh, Distinct-names-without k fs u)
]

module _ {F : Floats} where
  -- The entries of a feed, and those of the other feeds.
  unfoldable pub entries_of : ℕ → List (Entry F) → List (Entry F)
  unfolding filter
  entries_of id es = filter (λ e. e.feed_id == id) es

  abbrev pub others : ℕ → List (Entry F) → List (Entry F)
  others id es = filter (λ e. not (e.feed_id == id)) es

  pub entries_of-append :
      (id : ℕ) (es fs : List (Entry F))
      → entries_of id (es ++ fs) ≡ entries_of id es ++ entries_of id fs
  unfolding entries_of
  entries_of-append id es fs = filter-append (λ e. e.feed_id == id) es fs

  pub entries_of-others_self : (k : ℕ) (es : List (Entry F)) → entries_of k (others k es) ≡ []
  unfolding entries_of
  entries_of-others_self k [] = refl
  entries_of-others_self k (e ∷ es) = ground (arith, entries_of-others_self k es)

  pub entries_of-others :
      (j k : ℕ) (es : List (Entry F))
      → (j == k) ≡ false
      → entries_of j (others k es) ≡ entries_of j es
  unfolding entries_of
  entries_of-others j k [] h = refl
  entries_of-others j k (e ∷ es) h = ground (arith, entries_of-others j k es h)

  pub entries_of-own :
      (k : ℕ) (es : List (Entry F)) → All (λ e. e.feed_id ≡ k) es → entries_of k es ≡ es
  unfolding entries_of
  entries_of-own k [] h = refl
  entries_of-own k (e ∷ es) (h, hs) = ground (arith, entries_of-own k es hs)

  pub entries_of-foreign :
      (j k : ℕ) (es : List (Entry F))
      → (j == k) ≡ false
      → All (λ e. e.feed_id ≡ k) es
      → entries_of j es ≡ []
  unfolding entries_of
  entries_of-foreign j k [] h hs = refl
  entries_of-foreign j k (e ∷ es) h (g, gs) = ground (arith, entries_of-foreign j k es h gs)

  -- Entries of known feeds only leave none for an unknown one.
  pub entries_of-unknown :
      (k : ℕ) (known : List ℕ) (es : List (Entry F))
      → contains known k ≡ false
      → All (λ e. contains known e.feed_id ≡ true) es
      → entries_of k es ≡ []
  unfolding entries_of
  entries_of-unknown k known [] h hs = refl
  entries_of-unknown k known (e ∷ es) h (g, gs) = elim (Bool-cases (e.feed_id == k)) [
    | inl q ↦ cc (ap (contains known) ((nat_beq_iff e.feed_id k).0 q))
    | inr q ↦ rw q (entries_of-unknown k known es h gs)
  ]

  -- The tables between two requests: ids and names are unique, every entry belongs to a feed, and every
  -- feed counts its entries.
  pub record IsConsistent (db : Tables F) : Type 0 where
    pub distinct_ids : Distinct (ids db.feeds)
    pub distinct_names : Distinct (names db.feeds)
    pub owned : All (λ e. contains (ids db.feeds) e.feed_id ≡ true) db.entries
    pub counted : All (λ f. f.entry_count ≡ length (entries_of f.id db.entries)) db.feeds
