-- ===== src/Cve/Osv/Laws.antt =====
-- When `_parse_osv_affected` of control-plane/app/cve_service.py returns, and what it keeps.
use kaaval.Base.{
  ◌≡◌, refl, sym, ap, ◌∙◌, String, Bool, true, false, ◌||◌, Option, none, some, List, [], ◌∷◌, ◌++◌,
  map, get_or, nonempty, flat_map, inl, inr, Option-cases, or-false,
}
use mathlib.Core.List.{append-nil, append_assoc}
use kaaval.Cve.Osv.{
  Event, OsvRange, OsvAffected, Range, Component, Introduced, Progress, read_event, read_events,
  read_ranges, open_range, read_affected, parse_osv_affected, reset, component_of,
}

-- The versions of the "fixed" events, in order.
abbrev pub fixed_of : List Event → List String
fixed_of [] = []
fixed_of (e ∷ events) =
    let rest = fixed_of events in elim e.fixed [ none ↦ rest | some v ↦ v ∷ rest ]

abbrev pub all_fixed : OsvAffected → List String
all_fixed a = flat_map (λ r. fixed_of r.events) a.ranges

-- `introduced` has been assigned.
abbrev pub is_bound : Introduced → Bool
is_bound Introduced.unbound = false
is_bound (Introduced.bound o) = true

introduced_bound :
    (o : Option String) (i : Introduced)
    → is_bound i ≡ true
    → is_bound (elim o [ none ↦ i | some version ↦ Introduced.bound (some version) ]) ≡ true
introduced_bound none i h = h
introduced_bound (some v) i h = refl

read_event-bound :
    (k : Option String) (e : Event) (p : Progress)
    → is_bound p.introduced ≡ true
    → is_bound (read_event k e p).introduced ≡ true
unfolding read_event
read_event-bound k e p h = elim (Option-cases e.fixed) [
  | inl q ↦ rw (q, read_event) (introduced_bound e.introduced p.introduced h)
  | inr (v, q) ↦ rw (q, read_event) (introduced_bound e.introduced p.introduced h)
]

read_event-fixed :
    (k : Option String) (e : Event) (events : List Event) (p : Progress)
    → (read_event k e p).fixed_versions ++ fixed_of events
      ≡ p.fixed_versions ++ fixed_of (e ∷ events)
unfolding read_event
read_event-fixed k e events p = elim (Option-cases e.fixed) [
  | inl q ↦ rw (q, read_event) refl
  | inr (v, q) ↦ rw (q, read_event) (append_assoc p.fixed_versions (v ∷ []) (fixed_of events))
]

read_events-law :
    (k : Option String) (events : List Event) (p : Progress)
    → (is_bound p.introduced ≡ true → is_bound (read_events k events p).introduced ≡ true)
      × ((read_events k events p).fixed_versions ≡ p.fixed_versions ++ fixed_of events)
unfolding read_events
read_events-law k [] p = (λ h. h, sym (append-nil _))
read_events-law k (e ∷ events) p =
    let (b, f) = read_events-law k events (read_event k e p) in
    (λ h. b (read_event-bound k e p h), f ∙ read_event-fixed k e events p)

read_ranges-fixed :
    (ranges : List OsvRange) (p : Progress)
    → (read_ranges ranges p).fixed_versions
      ≡ p.fixed_versions ++ flat_map (λ r. fixed_of r.events) ranges
unfolding read_ranges flat_map
read_ranges-fixed [] p = sym (append-nil _)
read_ranges-fixed (r ∷ ranges) p =
    read_ranges-fixed ranges (read_events r.kind r.events (reset p))
    ∙ ap (λ vs. vs ++ flat_map (λ r. fixed_of r.events) ranges)
        (read_events-law r.kind r.events (reset p)).1
    ∙ append_assoc p.fixed_versions (fixed_of r.events) (flat_map (λ r. fixed_of r.events) ranges)

read_ranges-bound :
    (ranges : List OsvRange) (p : Progress)
    → (is_bound p.introduced || nonempty ranges) ≡ true
    → is_bound (read_ranges ranges p).introduced ≡ true
unfolding read_ranges
read_ranges-bound [] p h = rw or-false at h
read_ranges-bound (r ∷ ranges) p h =
    read_ranges-bound ranges (read_events r.kind r.events (reset p))
      (rw ((read_events-law r.kind r.events (reset p)).0 refl) refl)

open_range-bound :
    (ranges : List Range) (i : Introduced)
    → is_bound i ≡ true
    → (rs : List Range) × (open_range ranges i ≡ some rs)
unfolding open_range
open_range-bound (r ∷ ranges) i h = (r ∷ ranges, refl)
open_range-bound [] Introduced.unbound h = cc
open_range-bound [] (Introduced.bound none) h = ([], refl)
open_range-bound [] (Introduced.bound (some v)) h = (_, refl)

-- Each component has the name and the versions of its package.
abbrev pub labels : List OsvAffected → List (String × List String)
labels affected = map (λ a. (get_or a.name "", a.versions)) affected

abbrev start : Introduced → List String → Progress
start i fs = record { introduced = i; ranges = []; fixed_versions = fs }

-- What the loop returns: a component per package, and the fixed versions added to those so far.
abbrev pub Returns : List OsvAffected → Introduced → List String → Type 0
Returns affected i fs =
    (cs : List Component) × (read_affected affected i fs
      ≡ some (cs, fs ++ flat_map all_fixed affected))
    × (map (λ c. (c.component, c.versions)) cs ≡ labels affected)

step-Returns :
    (a : OsvAffected) (affected : List OsvAffected) (i : Introduced) (fs : List String)
    → is_bound (read_ranges a.ranges (start i fs)).introduced ≡ true
    → Returns affected
        (read_ranges a.ranges (start i fs)).introduced
        (read_ranges a.ranges (start i fs)).fixed_versions
    → Returns (a ∷ affected) i fs
unfolding read_affected flat_map
step-Returns a affected i fs b (cs, e, l) =
    let p = read_ranges a.ranges (start i fs) in
    let (rs, o) = open_range-bound p.ranges p.introduced b in
    let added : p.fixed_versions ++ flat_map all_fixed affected
        ≡ fs ++ (all_fixed a ++ flat_map all_fixed affected) =
      ap (λ vs. vs ++ flat_map all_fixed affected) (read_ranges-fixed a.ranges (start i fs))
      ∙ append_assoc fs (all_fixed a) (flat_map all_fixed affected) in
    (
      component_of a rs ∷ cs,
      rw (o, e) (ap (λ vs. some (component_of a rs ∷ cs, vs)) added),
      ap (λ ls. (get_or a.name "", a.versions) ∷ ls) l,
    )

bound-Returns :
    (affected : List OsvAffected) (i : Introduced) (fs : List String)
    → is_bound i ≡ true
    → Returns affected i fs
unfolding read_affected flat_map
bound-Returns [] i fs h = ([], ap (λ vs. some ([], vs)) (sym (append-nil fs)), refl)
bound-Returns (a ∷ affected) i fs h =
    let b = read_ranges-bound a.ranges (start i fs) (rw h refl) in
    step-Returns a affected i fs b (bound-Returns affected _ _ b)

unbound-open :
    (ranges : List OsvRange)
    → nonempty ranges ≡ false
    → open_range
        (read_ranges ranges (start Introduced.unbound [])).ranges
        (read_ranges ranges (start Introduced.unbound [])).introduced
      ≡ none
unfolding read_ranges open_range
unbound-open [] h = refl
unbound-open (r ∷ ranges) h = cc

-- A record whose first package has a range is parsed: into a component per package, with its name and
-- versions, and the versions of all "fixed" events in their order.
pub parse_osv_affected_returns :
    (a : OsvAffected) (affected : List OsvAffected)
    → nonempty a.ranges ≡ true
    → (cs : List Component) × (parse_osv_affected (a ∷ affected)
        ≡ some (cs, flat_map all_fixed (a ∷ affected)))
      × (map (λ c. (c.component, c.versions)) cs ≡ labels (a ∷ affected))
unfolding parse_osv_affected
parse_osv_affected_returns a affected h =
    let b = read_ranges-bound a.ranges (start Introduced.unbound []) h in
    step-Returns a affected Introduced.unbound [] b (bound-Returns affected _ _ b)

-- A record whose first package has no range is not parsed, whatever its other packages are: the local
-- variable `introduced` is read before any range has assigned it.
pub parse_osv_affected_raises :
    (a : OsvAffected) (affected : List OsvAffected)
    → nonempty a.ranges ≡ false
    → parse_osv_affected (a ∷ affected) ≡ none
unfolding parse_osv_affected
parse_osv_affected_raises a affected h = rw (unbound-open a.ranges h, read_affected) refl
