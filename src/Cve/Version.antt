-- ===== src/Cve/Version.antt =====
-- control-plane/app/cve_service.py: versions and their ranges.
pub mod Laws
pub mod Severity
use kaaval.Base.{
  ℕ, String, Bool, true, false, not, ◌&&◌, ◌||◌, Option, none, some, List, [], ◌∷◌, if◌then◌else◌,
  ltb, leb, nat_beq, ◌==◌, string_eq, option_eq,
}
use kaaval.Base.Text.{show, truthy, strip}
use kaaval.Base.Parsing.{lstrip_char, split_at, to_int}
use kaaval.Floats.{Floats}

-- (major, minor, patch)
abbrev pub Version : Type 0
Version = ℕ × (ℕ × ℕ)

-- `int(parts[i]) if len(parts) > i else 0`
abbrev part : List String → Option ℕ
part [] = some 0
part (s ∷ parts) = to_int s

abbrev rest_of : List String → List String
rest_of [] = []
rest_of (s ∷ parts) = parts

-- The tuple, if every part is a number.
abbrev triple : Option ℕ → Option ℕ → Option ℕ → Version
triple (some major) (some minor) (some patch) = (major, (minor, patch))
triple _ _ _ = (0, (0, 0))

unfoldable pub parse_semver : String → Version
unfolding split_at lstrip_char strip to_int
parse_semver v =
    let parts = split_at ".-+" (strip (lstrip_char "v" v)) in
    triple (part parts) (part (rest_of parts)) (part (rest_of (rest_of parts)))

-- `v < w` on tuples
unfoldable pub version_lt : Version → Version → Bool
version_lt (a, (b, c)) (d, (e, f)) =
    ltb a d || (nat_beq a d && (ltb b e || (nat_beq b e && ltb c f)))

-- `parse_semver(introduced) if introduced and introduced != "0" else (0, 0, 0)`
unfoldable pub lower_bound : Option String → Version
unfolding parse_semver
lower_bound introduced =
    if truthy introduced && not (introduced == some "0")
    then parse_semver (show introduced)
    else (0, (0, 0))

unfoldable pub version_in_range : String → Option String → Option String → Bool
unfolding version_lt lower_bound parse_semver
version_in_range version introduced fixed =
    if version_lt (parse_semver version) (lower_bound introduced)
    then false
    else if truthy fixed
    then (if not (version_lt (parse_semver version) (parse_semver (show fixed)))
        then false
        else true)
    else true

module _ (F : Floats) where
  -- `score >= n`
  abbrev at_least : F.Float → ℕ → Bool
  at_least score n = F.at_most (F.tenths n) score

  unfoldable pub cvss_to_severity : Option F.Float → String
  cvss_to_severity none = "UNKNOWN"
  cvss_to_severity (some score) =
      if at_least score 90
      then "CRITICAL"
      else if at_least score 70
      then "HIGH"
      else if at_least score 40
      then "MEDIUM"
      else "LOW"
