-- ===== src/Audit/Reads.antt =====
-- `parse_audit_usage` of control-plane/app/audit_ingest.py, on one line.
use kaaval.Base.{
  ◌≡◌, refl, sym, String, Bool, true, false, not, ◌&&◌, ◌||◌, Option, none, some, [], ◌∷◌,
  Bool-cases, inl, inr, ◌==◌, string_eq, pair_eq,
}
use kaaval.Base.Text.{is_text, strip}
use kaaval.Audit.{
  Json, Fields, Decoded, Line, Use, Reading, aborts, get_field, full_text, ref_fields, use_of,
  read_resource, read_verb, read_user, read_event, read_text, read_line,
}
use kaaval.Audit.Events.{
  at_path, is_full, has_full, is_null, is_namespace, has_namespace, has_subresource, is_resource,
  Content, content, content_of, is_nested, is_use, is_bad, records, is_skipped,
}
use kaaval.Audit.Values.{
  and-false, at_path-key, dead, has_full-eq, has_namespace-eq, has_subresource-eq, is_full-eq,
  is_namespace-eq, is_resource-empty, is_resource-eq, option_is, present,
}

use_of-skipped :
    (s w : String) (n r : Option String)
    → is_skipped (use_of s w n r) ≡ not (present r && present n)
use_of-skipped s w none none = refl
use_of-skipped s w none (some r) = refl
use_of-skipped s w (some n) none = refl
use_of-skipped s w (some n) (some r) = refl

module _ (k v r n : String) where
  use_of-records :
      (s w : String) (ns res : Option String)
      → records k (v, (r, n)) (use_of s w ns res)
        ≡ (k == s && (v == w && (option_is r res && option_is n ns)))
  use_of-records s w none none = dead (k == s) (v == w)
  use_of-records s w none (some t) = rw (and-false (r == t)) (dead (k == s) (v == w))
  use_of-records s w (some m) none = dead (k == s) (v == w)
  use_of-records s w (some m) (some t) = refl

  read_resource-records :
      (s w : String) (ref : Fields) (res : Json)
      → records k (v, (r, n)) (read_resource s w ref res) ≡ (
          k == s
          && (v == w
              && (is_resource r res (get_field "subresource" ref)
                  && is_namespace n (get_field "namespace" ref))))
  unfolding read_resource
  read_resource-records s w ref Json.null = dead (k == s) (v == w)
  read_resource-records s w ref (Json.text t) = elim (Bool-cases (is_text t)) [
    | inl h ↦
        rw (h, is_resource-eq r t (get_field "subresource" ref) h, is_namespace-eq)
          (use_of-records s w _ _)
    | inr h ↦ rw (h, is_resource-empty r t (get_field "subresource" ref) h) (dead (k == s) (v == w))
  ]
  read_resource-records s w ref (Json.other b) = dead (k == s) (v == w)
  read_resource-records s w ref (Json.object d) = dead (k == s) (v == w)

  read_verb-records :
      (event : Fields) (os ov : Option String)
      → records k (v, (r, n)) (read_verb event os ov) ≡ (
          option_is k os
          && (option_is v ov
              && (is_resource r
                    (get_field "resource" (ref_fields (get_field "objectRef" event)))
                    (get_field "subresource" (ref_fields (get_field "objectRef" event)))
                  && is_namespace n
                      (get_field "namespace" (ref_fields (get_field "objectRef" event))))))
  read_verb-records event none ov = refl
  read_verb-records event (some s) none = sym (and-false (k == s))
  read_verb-records event (some s) (some w) = read_resource-records s w _ _

  read_user-records :
      (event : Fields) (user : Json)
      → records k (v, (r, n)) (read_user event user) ≡ (
          is_full k (at_path ("username" ∷ []) user)
          && (is_full v (get_field "verb" event)
              && (is_resource r
                    (at_path ("resource" ∷ []) (get_field "objectRef" event))
                    (at_path ("subresource" ∷ []) (get_field "objectRef" event))
                  && is_namespace n (at_path ("namespace" ∷ []) (get_field "objectRef" event)))))
  unfolding get_field
  read_user-records event Json.null = refl
  read_user-records event (Json.text s) = refl
  read_user-records event (Json.other b) = refl
  read_user-records event (Json.object user) =
      rw (at_path-key, at_path-key, at_path-key, at_path-key, is_full-eq, is_full-eq)
        (read_verb-records event (full_text (get_field "username" user))
          (full_text (get_field "verb" event)))

  read_event-records :
      (d : Decoded) → records k (v, (r, n)) (read_event d) ≡ is_use k (v, (r, n)) (content_of d)
  unfolding read_event
  read_event-records Decoded.malformed = refl
  read_event-records Decoded.too_deep = refl
  read_event-records (Decoded.decoded Json.null) = refl
  read_event-records (Decoded.decoded (Json.text s)) = refl
  read_event-records (Decoded.decoded (Json.other b)) = refl
  read_event-records (Decoded.decoded (Json.object event)) =
      read_user-records event (get_field "user" event)

-- The same cases, for the lines that are counted.
excluded : (a : Bool) → not (a || false) ≡ not a
excluded true = refl
excluded false = refl

read_resource-skipped :
    (s w : String) (ref : Fields) (res : Json)
    → is_skipped (read_resource s w ref res)
      ≡ not (
          (has_full res
            && (has_subresource (get_field "subresource" ref)
                && has_namespace (get_field "namespace" ref)))
          || is_null res)
unfolding read_resource
read_resource-skipped s w ref Json.null = refl
read_resource-skipped s w ref (Json.text t) = elim (Bool-cases (is_text t)) [
  | inl h ↦
      rw (h, excluded, has_subresource-eq t (get_field "subresource" ref), has_namespace-eq)
        (use_of-skipped s w _ _)
  | inr h ↦ rw h refl
]
read_resource-skipped s w ref (Json.other b) = refl
read_resource-skipped s w ref (Json.object d) = refl

read_verb-skipped :
    (event : Fields) (os ov : Option String) (res sub ns : Json)
    → get_field "resource" (ref_fields (get_field "objectRef" event)) ≡ res
    → get_field "subresource" (ref_fields (get_field "objectRef" event)) ≡ sub
    → get_field "namespace" (ref_fields (get_field "objectRef" event)) ≡ ns
    → is_skipped (read_verb event os ov)
      ≡ not (
          (present os
            && (present ov && (has_full res && (has_subresource sub && has_namespace ns))))
          || (present os && (present ov && is_null res)))
read_verb-skipped event none ov res sub ns p q o = refl
read_verb-skipped event (some s) none res sub ns p q o = refl
read_verb-skipped event (some s) (some w) res sub ns p q o =
    rw (sym p, sym q, sym o) (read_resource-skipped s w _ _)

read_user-skipped :
    (event : Fields) (user : Json)
    → is_skipped (read_user event user)
      ≡ not (
          (has_full (at_path ("username" ∷ []) user)
            && (has_full (get_field "verb" event)
                && (has_full (at_path ("resource" ∷ []) (get_field "objectRef" event))
                    && (has_subresource (at_path ("subresource" ∷ []) (get_field "objectRef" event))
                        && has_namespace
                            (at_path ("namespace" ∷ []) (get_field "objectRef" event))))))
          || (has_full (at_path ("username" ∷ []) user)
              && (has_full (get_field "verb" event)
                  && is_null (at_path ("resource" ∷ []) (get_field "objectRef" event)))))
unfolding get_field
read_user-skipped event Json.null = refl
read_user-skipped event (Json.text s) = refl
read_user-skipped event (Json.other b) = refl
read_user-skipped event (Json.object user) =
    rw (has_full-eq (get_field "username" user), has_full-eq (get_field "verb" event))
      (read_verb-skipped event (full_text (get_field "username" user))
        (full_text (get_field "verb" event)) _ _ _
        (sym (at_path-key "resource" (get_field "objectRef" event)))
        (sym (at_path-key "subresource" (get_field "objectRef" event)))
        (sym (at_path-key "namespace" (get_field "objectRef" event))))

read_event-skipped : (d : Decoded) → is_skipped (read_event d) ≡ is_bad (content_of d)
unfolding read_event
read_event-skipped Decoded.malformed = refl
read_event-skipped Decoded.too_deep = refl
read_event-skipped (Decoded.decoded Json.null) = refl
read_event-skipped (Decoded.decoded (Json.text s)) = refl
read_event-skipped (Decoded.decoded (Json.other b)) = refl
read_event-skipped (Decoded.decoded (Json.object event)) =
    read_user-skipped event (get_field "user" event)

use_of-goes_on : (s w : String) (n r : Option String) → aborts (use_of s w n r) ≡ false
use_of-goes_on s w none none = refl
use_of-goes_on s w none (some r) = refl
use_of-goes_on s w (some n) none = refl
use_of-goes_on s w (some n) (some r) = refl

read_resource-goes_on :
    (s w : String) (ref : Fields) (res : Json) → aborts (read_resource s w ref res) ≡ false
unfolding read_resource
read_resource-goes_on s w ref Json.null = refl
read_resource-goes_on s w ref (Json.text t) = elim (Bool-cases (is_text t)) [
  | inl h ↦ rw h (use_of-goes_on s w _ _)
  | inr h ↦ rw h refl
]
read_resource-goes_on s w ref (Json.other b) = refl
read_resource-goes_on s w ref (Json.object d) = refl

read_verb-goes_on :
    (event : Fields) (os ov : Option String) → aborts (read_verb event os ov) ≡ false
read_verb-goes_on event none ov = refl
read_verb-goes_on event (some s) none = refl
read_verb-goes_on event (some s) (some w) = read_resource-goes_on s w _ _

read_user-goes_on : (event : Fields) (user : Json) → aborts (read_user event user) ≡ false
read_user-goes_on event Json.null = refl
read_user-goes_on event (Json.text s) = refl
read_user-goes_on event (Json.other b) = refl
read_user-goes_on event (Json.object user) = read_verb-goes_on event _ _

read_event-aborts : (d : Decoded) → aborts (read_event d) ≡ is_nested (content_of d)
unfolding read_event
read_event-aborts Decoded.malformed = refl
read_event-aborts Decoded.too_deep = refl
read_event-aborts (Decoded.decoded Json.null) = refl
read_event-aborts (Decoded.decoded (Json.text s)) = refl
read_event-aborts (Decoded.decoded (Json.other b)) = refl
read_event-aborts (Decoded.decoded (Json.object event)) =
    read_user-goes_on event (get_field "user" event)

-- What a line comes to is what it holds: one case of `f` for each case of the content.
module _ (loads : String → Decoded) (f : Reading → Bool) (g : Content → Bool)
    (same : (d : Decoded) → f (read_event d) ≡ g (content_of d))
    (no_line : f Reading.ignored ≡ g Content.blank)
    (no_text : f Reading.skipped ≡ g Content.broken) where
  read_text-content : (s : String) → f (read_text loads s) ≡ g (content loads (Line.text s))
  read_text-content s = elim (Bool-cases (is_text (strip s))) [
    | inl h ↦ rw h (same (loads (strip s)))
    | inr h ↦ rw h no_line
  ]

  read_line-content : (l : Line) → f (read_line loads l) ≡ g (content loads l)
  unfolding read_line
  read_line-content Line.missing = no_line
  read_line-content (Line.text s) = read_text-content s
  read_line-content (Line.bytes none) = no_text
  read_line-content (Line.bytes (some s)) = read_text-content s

module _ (loads : String → Decoded) where
  pub read_line-records :
      (k : String) (u : Use) (l : Line)
      → records k u (read_line loads l) ≡ is_use k u (content loads l)
  read_line-records k (v, (r, n)) =
      read_line-content loads (records k (v, (r, n))) (is_use k (v, (r, n)))
        (read_event-records k v r n) refl refl

  pub read_line-skipped : (l : Line) → is_skipped (read_line loads l) ≡ is_bad (content loads l)
  read_line-skipped = read_line-content loads is_skipped is_bad read_event-skipped refl refl

  pub read_line-aborts : (l : Line) → aborts (read_line loads l) ≡ is_nested (content loads l)
  read_line-aborts = read_line-content loads aborts is_nested read_event-aborts refl refl
