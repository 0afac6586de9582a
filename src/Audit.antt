-- ===== src/Audit.antt =====
-- control-plane/app/audit_ingest.py: the usage of each subject from the lines of an audit log. The
-- decoding of UTF-8 and of JSON is a parameter. `json.loads` may also raise RecursionError, on a
-- deeply nested line, which no `except` catches.
pub mod Events
pub mod Values
pub mod Reads
pub mod Laws
use kaaval.Base.{
  ℕ, ◌+◌, String, ◌<>◌, Bool, true, false, not, ◌&&◌, Option, none, some, List, [], ◌∷◌, ◌++◌,
  if◌then◌else◌, get_or, Eq, ◌==◌, contains, string_eq, pair_eq,
}
use kaaval.Base.Dict.{Dict, lookup, insert}
use kaaval.Base.Text.{is_text, strip}
use kaaval.Http.{Outcome, returned, raised}

mutual
  -- A decoded value. A flag, a number or a list counts here only by its truth value.
  pub data Json : Type 0 where
    null : Json
    text : String → Json
    other : Bool → Json
    object : Fields → Json

  pub data Fields : Type 0 where
    empty : Fields
    field : String → Json → Fields → Fields

-- `d.get(key)`; a missing key is `None`, and so is a null.
unfoldable pub get_field : String → Fields → Json
get_field key Fields.empty = Json.null
get_field key (Fields.field k v d) = if key == k then v else get_field key d

-- A line: `None`, a text, or bytes, which are a text if they are UTF-8.
pub data Line : Type 0 where
  missing : Line
  text : String → Line
  bytes : Option String → Line

-- (verb, resource, namespace)
abbrev pub Use : Type 0
Use = String × (String × String)

-- What `json.loads` comes to: a value, an error that is caught, or RecursionError.
pub data Decoded : Type 0 where
  decoded : Json → Decoded
  malformed : Decoded
  too_deep : Decoded

-- What a line comes to: it is left out, or left out and counted, or a use of a subject, or its
-- exception ends the batch.
pub data Reading : Type 0 where
  ignored : Reading
  skipped : Reading
  used : String → Use → Reading
  aborted : Reading

-- `value` if it is a text that is not empty.
abbrev pub full_text : Json → Option String
full_text (Json.text s) = if is_text s then some s else none
full_text _ = none

-- `event.get("objectRef") or {}`, and `{}` for what is no dict.
abbrev pub ref_fields : Json → Fields
ref_fields (Json.object d) = d
ref_fields _ = Fields.empty

-- `object_ref.get("namespace") or ""`, if it is a text.
abbrev pub namespace_of : Json → Option String
namespace_of Json.null = some ""
namespace_of (Json.text s) = some s
namespace_of (Json.other true) = none
namespace_of (Json.other false) = some ""
namespace_of (Json.object Fields.empty) = some ""
namespace_of (Json.object (Fields.field k v d)) = none

-- The resource with its subresource, if that is missing or a text.
abbrev pub with_subresource : String → Json → Option String
with_subresource resource Json.null = some resource
with_subresource resource (Json.text s) =
    some (if is_text s then resource <> "/" <> s else resource)
with_subresource resource _ = none

abbrev pub use_of : String → String → Option String → Option String → Reading
use_of subject verb (some namespace) (some resource) =
    Reading.used subject (verb, (resource, namespace))
use_of subject verb _ _ = Reading.skipped

-- From the resource on: `None` is a request for no resource.
unfoldable pub read_resource : String → String → Fields → Json → Reading
unfolding get_field
read_resource subject verb ref Json.null = Reading.ignored
read_resource subject verb ref (Json.text s) =
    if is_text s
    then use_of subject verb (namespace_of (get_field "namespace" ref))
        (with_subresource s (get_field "subresource" ref))
    else Reading.skipped
read_resource subject verb ref _ = Reading.skipped

abbrev pub read_verb : Fields → Option String → Option String → Reading
read_verb event (some subject) (some verb) =
    let ref = ref_fields (get_field "objectRef" event) in
    read_resource subject verb ref (get_field "resource" ref)
read_verb event _ _ = Reading.skipped

abbrev pub read_user : Fields → Json → Reading
read_user event (Json.object user) =
    read_verb event (full_text (get_field "username" user)) (full_text (get_field "verb" event))
read_user event _ = Reading.skipped

unfoldable pub read_event : Decoded → Reading
unfolding read_resource get_field
read_event Decoded.malformed = Reading.skipped
read_event Decoded.too_deep = Reading.aborted
read_event (Decoded.decoded (Json.object event)) = read_user event (get_field "user" event)
read_event (Decoded.decoded _) = Reading.skipped

module _ (loads : String → Decoded) where
  abbrev pub read_text : String → Reading
  read_text s = if is_text (strip s) then read_event (loads (strip s)) else Reading.ignored

  unfoldable pub read_line : Line → Reading
  unfolding read_event strip
  read_line Line.missing = Reading.ignored
  read_line (Line.text s) = read_text s
  read_line (Line.bytes none) = Reading.skipped
  read_line (Line.bytes (some s)) = read_text s

-- `usage.setdefault(subject, set()).add(use)`, for any type of subjects and of uses.
module _ {K A : Type 0} ⦃e : Eq K⦄ ⦃f : Eq A⦄ where
  unfoldable pub add_use : K → A → Dict K (List A) → Dict K (List A)
  unfolding lookup insert contains
  add_use subject u usage =
      let uses = get_or (lookup subject usage) [] in
      insert subject (if contains uses u then uses else uses ++ u ∷ []) usage

-- `usage` and `skipped`
pub record Progress : Type 0 where
  pub usage : Dict String (List Use)
  pub skipped : ℕ

unfoldable pub step : Reading → Progress → Progress
unfolding add_use
step Reading.ignored p = p
step Reading.skipped p = record { usage = p.usage; skipped = p.skipped + 1 }
step Reading.aborted p = p
step (Reading.used subject u) p = record { usage = add_use subject u p.usage; skipped = p.skipped }

abbrev pub aborts : Reading → Bool
aborts Reading.aborted = true
aborts _ = false

module _ (loads : String → Decoded) where
  -- The loop over the lines, which an exception ends.
  unfoldable pub read_lines : List Line → Progress → Outcome Progress
  unfolding step read_line
  read_lines [] p = returned p
  read_lines (l ∷ lines) p =
      let rest = read_lines lines (step (read_line loads l) p) in
      if aborts (read_line loads l) then raised "RecursionError" else rest

  unfoldable pub parse_audit_usage : List Line → Outcome Progress
  unfolding read_lines
  parse_audit_usage lines = read_lines lines (record { usage = []; skipped = 0 })
