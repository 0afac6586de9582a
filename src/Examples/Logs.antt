-- ===== src/Examples/Logs.antt =====
-- The audit theorem on three lines, of which one does not decode.
use kaaval.Base.{
  ◌≡◌, String, none, List, [], ◌∷◌, any, filter, length, contains, string_eq, pair_eq,
  if◌then◌else◌, ◌==◌,
}
use kaaval.Base.Dict.{list_at}
use kaaval.Audit.{Json, Fields, Decoded, Line, Use, Progress, get_field, parse_audit_usage}
use kaaval.Audit.Events.{content, is_nested, is_use, is_bad}
use kaaval.Audit.Laws.{parse_audit_usage_gathers}
use kaaval.Base.{refl, true, false, ◌⊎◌}
use kaaval.Base.Text.{strip}
use kaaval.Http.{returned, raised}

-- A decoder that knows one line.
abbrev loads : String → Decoded
loads s =
    if s == "exec"
    then Decoded.decoded (
        Json.object (
          Fields.field "user"
            (Json.object (Fields.field "username" (Json.text "alice") Fields.empty))
            (Fields.field "verb" (Json.text "create") (
              Fields.field "objectRef"
                (Json.object (
                  Fields.field "resource" (Json.text "pods")
                    (Fields.field "subresource" (Json.text "exec") Fields.empty)))
                Fields.empty))))
    else Decoded.malformed

abbrev lines : List Line
lines = Line.text " exec\n" ∷ Line.bytes none ∷ Line.text "{" ∷ []

parse_audit_usage_gathers_example :
    ((any (λ l. is_nested (content loads l)) lines ≡ true)
      × (parse_audit_usage loads lines ≡ raised "RecursionError"))
    ⊎ ((any (λ l. is_nested (content loads l)) lines ≡ false)
        × (p : Progress) × (parse_audit_usage loads lines ≡ returned p)
        × ((k : String) (u : Use)
            → contains (list_at k p.usage) u ≡ any (λ l. is_use k u (content loads l)) lines)
        × (p.skipped ≡ length (filter (λ l. is_bad (content loads l)) lines)))
parse_audit_usage_gathers_example = parse_audit_usage_gathers loads lines

use_test : any (λ l. is_use "alice" ("create", ("pods/exec", "")) (content loads l)) lines ≡ true
unfolding strip get_field any
use_test = refl

bad_test : length (filter (λ l. is_bad (content loads l)) lines) ≡ 2
unfolding strip get_field filter
bad_test = refl

-- A line that is nested too deep ends the batch, whatever stands before it.
parse_audit_usage_raises :
    parse_audit_usage (λ s. Decoded.too_deep) (Line.missing ∷ Line.text "[[[" ∷ [])
    ≡ raised "RecursionError"
unfolding parse_audit_usage strip
parse_audit_usage_raises = refl
