-- ===== src/Audit/Events.antt =====
-- What a line of an audit log says, by the paths of its fields, for audit_ingest.py of
-- control-plane/app.
use kaaval.Base.{
  String, Bool, true, false, not, ◌&&◌, ◌||◌, none, some, List, [], ◌∷◌, ◌<>◌, if◌then◌else◌, ◌==◌,
  string_eq, pair_eq,
}
use kaaval.Base.Text.{is_text, strip}
use kaaval.Audit.{Json, Fields, Decoded, Line, Use, Reading, get_field}

-- The value at a path of keys, and null where there is none.
abbrev pub at_path : List String → Json → Json
at_path [] j = j
at_path (key ∷ path) (Json.object d) = at_path path (get_field key d)
at_path (key ∷ path) _ = Json.null

-- The value is this text, which is not empty.
abbrev pub is_full : String → Json → Bool
is_full s (Json.text t) = s == t && is_text t
is_full s _ = false

abbrev pub has_full : Json → Bool
has_full (Json.text t) = is_text t
has_full _ = false

abbrev pub is_null : Json → Bool
is_null Json.null = true
is_null _ = false

-- The namespace of a reference: "" for null and for what is false.
abbrev pub is_namespace : String → Json → Bool
is_namespace n Json.null = n == ""
is_namespace n (Json.text t) = n == t
is_namespace n (Json.other b) = not b && n == ""
is_namespace n (Json.object Fields.empty) = n == ""
is_namespace n (Json.object (Fields.field k v d)) = false

abbrev pub has_namespace : Json → Bool
has_namespace Json.null = true
has_namespace (Json.text t) = true
has_namespace (Json.other b) = not b
has_namespace (Json.object Fields.empty) = true
has_namespace (Json.object (Fields.field k v d)) = false

-- The subresource of a reference: null or a text.
abbrev pub has_subresource : Json → Bool
has_subresource Json.null = true
has_subresource (Json.text t) = true
has_subresource _ = false

-- `resource/subresource`, or the resource alone
abbrev pub is_resource : String → Json → Json → Bool
is_resource r (Json.text t) Json.null = is_text t && r == t
is_resource r (Json.text t) (Json.text s) =
    is_text t && r == (if is_text s then t <> "/" <> s else t)
is_resource r _ _ = false

abbrev pub username : Json → Json
username = at_path ("user" ∷ "username" ∷ [])

abbrev pub verb_of : Json → Json
verb_of = at_path ("verb" ∷ [])

abbrev pub resource_of : Json → Json
resource_of = at_path ("objectRef" ∷ "resource" ∷ [])

abbrev pub subresource_of : Json → Json
subresource_of = at_path ("objectRef" ∷ "subresource" ∷ [])

abbrev pub ref_namespace : Json → Json
ref_namespace = at_path ("objectRef" ∷ "namespace" ∷ [])

-- The event is a request of the subject: its user name, its verb, and the resource, the subresource and
-- the namespace of its object are these.
abbrev pub is_request : String → Use → Json → Bool
is_request subject (verb, (resource, namespace)) event =
    is_full subject (username event)
    && (is_full verb (verb_of event)
        && (is_resource resource (resource_of event) (subresource_of event)
            && is_namespace namespace (ref_namespace event)))

-- The event has a user name and a verb, but no resource: a request for a URL.
abbrev pub is_url_request : Json → Bool
is_url_request event =
    has_full (username event) && (has_full (verb_of event) && is_null (resource_of event))

-- The event is a request of some subject.
abbrev pub is_some_request : Json → Bool
is_some_request event =
    has_full (username event)
    && (has_full (verb_of event)
        && (has_full (resource_of event)
            && (has_subresource (subresource_of event) && has_namespace (ref_namespace event))))

-- What a line holds: nothing, or what cannot be read, or a value, or more nesting than Python takes.
pub data Content : Type 0 where
  blank : Content
  broken : Content
  event : Json → Content
  nested : Content

abbrev pub content_of : Decoded → Content
content_of (Decoded.decoded j) = Content.event j
content_of Decoded.malformed = Content.broken
content_of Decoded.too_deep = Content.nested

abbrev pub content : (String → Decoded) → Line → Content
content loads Line.missing = Content.blank
content loads (Line.text s) =
    if is_text (strip s) then content_of (loads (strip s)) else Content.blank
content loads (Line.bytes none) = Content.broken
content loads (Line.bytes (some s)) =
    if is_text (strip s) then content_of (loads (strip s)) else Content.blank

abbrev pub is_nested : Content → Bool
is_nested Content.nested = true
is_nested _ = false

abbrev pub is_use : String → Use → Content → Bool
is_use k u (Content.event j) = is_request k u j
is_use k u _ = false

-- The line is one of those that the counter counts.
abbrev pub is_bad : Content → Bool
is_bad Content.broken = true
is_bad (Content.event j) = not (is_some_request j || is_url_request j)
is_bad _ = false

-- The line is a use of the subject.
abbrev pub records : String → Use → Reading → Bool
records k u (Reading.used j v) = k == j && u == v
records k u _ = false

abbrev pub is_skipped : Reading → Bool
is_skipped Reading.skipped = true
is_skipped _ = false
