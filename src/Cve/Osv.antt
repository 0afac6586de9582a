-- ===== src/Cve/Osv.antt =====
-- control-plane/app/cve_service.py: `_parse_osv_affected`, the affected components of an OSV record.
pub mod Laws
use kaaval.Base.{
  String, Bool, true, false, not, ◌&&◌, Option, none, some, List, [], ◌∷◌, ◌++◌, if◌then◌else◌,
  get_or, nonempty,
}
use kaaval.Base.Text.{is_text, or_text}

-- An element of "events": the value at each of the two keys that it has.
pub record Event : Type 0 where
  pub introduced : Option String
  pub fixed : Option String

-- An element of "ranges"
pub record OsvRange : Type 0 where
  pub kind : Option String
  pub events : List Event

-- An element of "affected"; a missing key is `none`, or `[]`.
pub record OsvAffected : Type 0 where
  pub name : Option String
  pub ecosystem : Option String
  pub ranges : List OsvRange
  pub versions : List String

pub record Range : Type 0 where
  pub kind : String
  pub introduced : String
  pub fixed : Option String

pub record Component : Type 0 where
  pub component : String
  pub ecosystem : String
  pub ranges : List Range
  pub versions : List String

-- The local variable `introduced`: not assigned yet, or `None`, or a text. It keeps its value from one
-- affected package to the next.
pub data Introduced : Type 0 where
  unbound : Introduced
  bound : Option String → Introduced

-- The values that the loops assign: `introduced`, `ranges` and `fixed_versions`.
pub record Progress : Type 0 where
  pub introduced : Introduced
  pub ranges : List Range
  pub fixed_versions : List String

abbrev value_of : Introduced → Option String
value_of Introduced.unbound = none
value_of (Introduced.bound o) = o

-- The value after `if "introduced" in event`.
abbrev introduced_by : Event → Introduced → Introduced
introduced_by e i = elim e.introduced [ none ↦ i | some version ↦ Introduced.bound (some version) ]

unfoldable pub read_event : Option String → Event → Progress → Progress
read_event kind e p =
    let introduced = introduced_by e p.introduced in
    elim e.fixed [
      | none ↦ record {
        introduced = introduced;
        ranges = p.ranges;
        fixed_versions = p.fixed_versions;
      }
      | some fixed ↦ record {
        introduced = introduced;
        ranges =
            p.ranges
            ++ record {
              kind = get_or kind "SEMVER";
              introduced = or_text (value_of introduced) "0";
              fixed = some fixed;
            }
              ∷ [];
        fixed_versions = p.fixed_versions ++ fixed ∷ [];
      }
    ]

unfoldable pub read_events : Option String → List Event → Progress → Progress
unfolding read_event
read_events kind [] p = p
read_events kind (e ∷ events) p = read_events kind events (read_event kind e p)

-- `introduced = None` at the head of each range.
abbrev reset : Progress → Progress
reset p = record {
  introduced = Introduced.bound none;
  ranges = p.ranges;
  fixed_versions = p.fixed_versions;
}

unfoldable pub read_ranges : List OsvRange → Progress → Progress
unfolding read_events
read_ranges [] p = p
read_ranges (r ∷ ranges) p = read_ranges ranges (read_events r.kind r.events (reset p))

-- `if not ranges and introduced`, and what it appends: `none` is the UnboundLocalError.
unfoldable pub open_range : List Range → Introduced → Option (List Range)
open_range (r ∷ ranges) introduced = some (r ∷ ranges)
open_range [] Introduced.unbound = none
open_range [] (Introduced.bound none) = some []
open_range [] (Introduced.bound (some version)) = some (
    if is_text version
    then record { kind = "SEMVER"; introduced = version; fixed = none } ∷ []
    else [])

abbrev component_of : OsvAffected → List Range → Component
component_of a ranges = record {
  component = get_or a.name "";
  ecosystem = get_or a.ecosystem "";
  ranges = ranges;
  versions = a.versions;
}

-- The component of a package before those of the packages after it.
abbrev joined :
    OsvAffected
    → Option (List Range)
    → Option (List Component × List String)
    → Option (List Component × List String)
joined a none rest = none
joined a (some ranges) none = none
joined a (some ranges) (some (cs, fs)) = some (component_of a ranges ∷ cs, fs)

-- The loop over "affected", from `introduced` and `fixed_versions`.
unfoldable pub read_affected :
    List OsvAffected → Introduced → List String → Option (List Component × List String)
unfolding read_ranges open_range
read_affected [] introduced fixed_versions = some ([], fixed_versions)
read_affected (a ∷ affected) introduced fixed_versions =
    let start : Progress = record {
      introduced = introduced;
      ranges = [];
      fixed_versions = fixed_versions;
    } in
    let p = read_ranges a.ranges start in
    joined a (open_range p.ranges p.introduced)
      (read_affected affected p.introduced p.fixed_versions)

unfoldable pub parse_osv_affected : List OsvAffected → Option (List Component × List String)
unfolding read_affected
parse_osv_affected affected = read_affected affected Introduced.unbound []
