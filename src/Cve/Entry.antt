-- ===== src/Cve/Entry.antt =====
-- The rows of CVEEntry in control-plane/app/models.py, which the parsers of cve_service.py build, and
-- the helpers that the parsers share.
use kaaval.Base.{ℕ, String, Option, none, some, List, [], ◌∷◌, if◌then◌else◌, get_or, map}
use kaaval.Base.Text.{is_text}
use kaaval.Base.Regex.{one, many, open_group, close_group, at_end, digit, this, find_group}
use kaaval.Floats.{Floats}
use kaaval.Cve.Osv.{Component, Range}
use kaaval.Cve.Match.{AffectedComponent, KnownRange, CveEntry}

-- An element of "references"
pub record Link : Type 0 where
  pub url : String
  pub kind : String

-- The keys of a reference in a feed.
pub record RawLink : Type 0 where
  pub url : Option String
  pub kind : Option String

-- `{"url": r.get("url", ""), "type": r.get("type", "WEB")}`
abbrev pub link_of : RawLink → Link
link_of r = record { url = get_or r.url ""; kind = get_or r.kind "WEB" }

-- A stored component as `_match_cves` reads it.
unfoldable pub known_range : Range → KnownRange
known_range r = record { introduced = some r.introduced; fixed = r.fixed }

unfoldable pub known_component : Component → AffectedComponent
unfolding known_range
known_component c = record {
  component = c.component;
  versions = c.versions;
  ranges = map known_range c.ranges;
  fixed_in = none;
}

module _ (F : Floats) where
  pub record Entry : Type 0 where
    pub feed_id : ℕ
    pub cve_id : String
    pub title : String
    pub description : String
    pub severity : String
    pub cvss_score : Option F.Float
    pub affected_components : List Component
    pub fixed_in : List String
    pub published_date : Option String
    pub modified_date : Option String
    pub references : List Link

  -- What the parsers take from Python: `float` of a text, `datetime.fromisoformat` as the ISO text of
  -- its result, and the order of `list(set(xs))`.
  pub record Python : Type 0 where
    pub to_float : String → Option F.Float
    pub from_iso : String → Option String
    pub in_set : List String → List String

  -- `_parse_iso`
  unfoldable pub parse_iso : Python → Option String → Option String
  parse_iso py none = none
  parse_iso py (some date) = if is_text date then py.from_iso date else none

  -- `re.search(r"(\d+\.\d+)$", s)`, and `float` of the group
  unfoldable pub base_score : Python → String → Option F.Float
  unfolding find_group
  base_score py score_str =
      elim (find_group
        (open_group
          ∷ one digit
          ∷ many digit
          ∷ one (this ".")
          ∷ one digit
          ∷ many digit
          ∷ close_group
          ∷ at_end
          ∷ [])
        score_str) [ none ↦ none | some number ↦ py.to_float number ]

  -- The columns of a row that `_match_cves` reads.
  unfoldable pub row_of : Entry → CveEntry F
  unfolding known_component
  row_of e = record {
    cve_id = e.cve_id;
    title = e.title;
    severity = e.severity;
    cvss_score = e.cvss_score;
    affected_components = map known_component e.affected_components;
    fixed_in = e.fixed_in;
    description = some e.description;
    references = map (λ r. r.url) e.references;
    published_date = e.published_date;
  }
