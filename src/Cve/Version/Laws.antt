-- ===== src/Cve/Version/Laws.antt =====
-- The ranges of control-plane/app/cve_service.py are half-open intervals of versions.
use kaaval.Base.{
  ◌≡◌, refl, sym, ap, ◌∙◌, String, Bool, true, false, not, ◌&&◌, ◌||◌, Option, some, arith,
  Bool-cases, inl, inr, ◌==◌, string_eq, option_eq, eq_iff,
}
use kaaval.Base.Text.{show, truthy, is_text, strip}
use kaaval.Base.Parsing.{lstrip_char, split_at, to_int, occurs_in}
use kaaval.Cve.Version.{Version, parse_semver, version_lt, lower_bound, version_in_range}

-- `v <= w`
abbrev pub version_le : Version → Version → Bool
version_le v w = not (version_lt w v)

version_le_trans :
    (u v w : Version) → version_le u v ≡ true → version_le v w ≡ true → version_le u w ≡ true
unfolding version_lt
version_le_trans (a, (b, c)) (d, (e, f)) (g, (h, i)) p q = ground arith

version_lt-le_trans :
    (u v w : Version) → version_lt u v ≡ true → version_le v w ≡ true → version_lt u w ≡ true
unfolding version_lt
version_lt-le_trans (a, (b, c)) (d, (e, f)) (g, (h, i)) p q = ground arith

-- A version is in a range exactly if it is not below the lower bound and, where there is an upper
-- bound, below that.
pub version_in_range_interval :
    (version : String) (introduced fixed : Option String)
    → version_in_range version introduced fixed ≡ (
        version_le (lower_bound introduced) (parse_semver version)
        && (not (truthy fixed) || version_lt (parse_semver version) (parse_semver (show fixed))))
unfolding version_in_range
version_in_range_interval version introduced fixed = ground arith

parse_semver-zero : parse_semver "0" ≡ (0, (0, 0))
unfolding parse_semver split_at lstrip_char strip to_int occurs_in
parse_semver-zero = refl

lower_bound-parse_semver : (m : String) → is_text m ≡ true → lower_bound (some m) ≡ parse_semver m
unfolding lower_bound
lower_bound-parse_semver m h = elim (Bool-cases (some m == some "0")) [
  | inl q ↦ rw (h, q) (sym (ap parse_semver ((eq_iff m "0").0 q) ∙ parse_semver-zero))
  | inr q ↦ rw (h, q) refl
]

-- Three bounds a, b and c, of which c may be missing, that do not fall.
adjoin :
    (v a b c : Version) (bounded : Bool)
    → version_le a b ≡ true
    → (not bounded || version_le b c) ≡ true
    → (((version_le a v && version_lt v b) || (version_le b v && (not bounded || version_lt v c)))
        ≡ (version_le a v && (not bounded || version_lt v c)))
      × (((version_le a v && version_lt v b) && (version_le b v && (not bounded || version_lt v c)))
          ≡ false)
adjoin v a b c bounded p q = ground (arith, version_le_trans a b v p, version_lt-le_trans v b c)

-- Two ranges that adjoin, the first ending at the version at which the second starts, hold a version
-- exactly if the range from the first's start to the second's end holds it, and never both.
pub version_in_range_adjoin :
    (version middle : String) (introduced fixed : Option String)
    → is_text middle ≡ true
    → version_le (lower_bound introduced) (parse_semver middle) ≡ true
    → (not (truthy fixed) || version_le (parse_semver middle) (parse_semver (show fixed))) ≡ true
    → ((version_in_range version introduced (some middle)
          || version_in_range version (some middle) fixed)
        ≡ version_in_range version introduced fixed)
      × ((version_in_range version introduced (some middle)
            && version_in_range version (some middle) fixed)
          ≡ false)
version_in_range_adjoin version middle introduced fixed t p q =
    rw
      (
        version_in_range_interval version introduced (some middle),
        version_in_range_interval version (some middle) fixed,
        version_in_range_interval version introduced fixed,
        lower_bound-parse_semver middle t,
        t,
      )
      (adjoin (parse_semver version) (lower_bound introduced) (parse_semver middle)
        (parse_semver (show fixed)) (truthy fixed) p q)
