-- ===== src/Audit/Values.antt =====
-- What `parse_audit_usage` of control-plane/app/audit_ingest.py reads from the values of an event.
use kaaval.Base.{
  ◌≡◌, refl, sym, String, Bool, true, false, ◌&&◌, Option, none, some, [], ◌∷◌, Bool-cases, inl,
  inr, ◌==◌, string_eq, pair_eq, arith,
}
use kaaval.Base.Text.{is_text}
use kaaval.Audit.{Json, Fields, get_field, full_text, ref_fields, namespace_of, with_subresource}
use kaaval.Audit.Events.{
  at_path, is_full, has_full, is_namespace, has_namespace, has_subresource, is_resource,
}

abbrev pub option_is : String → Option String → Bool
option_is s none = false
option_is s (some t) = s == t

abbrev pub present : Option String → Bool
present none = false
present (some t) = true

pub and-false : (b : Bool) → (b && false) ≡ false
and-false true = refl
and-false false = refl

-- A conjunction of three, of which the last is false.
pub dead : (a b : Bool) → false ≡ (a && (b && false))
dead true b = sym (and-false b)
dead false b = refl

pub at_path-key : (key : String) (j : Json) → at_path (key ∷ []) j ≡ get_field key (ref_fields j)
unfolding get_field
at_path-key key Json.null = refl
at_path-key key (Json.text s) = refl
at_path-key key (Json.other b) = refl
at_path-key key (Json.object d) = refl

pub is_full-eq : (s : String) (j : Json) → is_full s j ≡ option_is s (full_text j)
is_full-eq s Json.null = refl
is_full-eq s (Json.text t) = elim (Bool-cases (is_text t)) [
  | inl h ↦ rw h (ground arith)
  | inr h ↦ rw h (and-false (s == t))
]
is_full-eq s (Json.other b) = refl
is_full-eq s (Json.object d) = refl

pub has_full-eq : (j : Json) → has_full j ≡ present (full_text j)
has_full-eq Json.null = refl
has_full-eq (Json.text t) = elim (Bool-cases (is_text t)) [ inl h ↦ rw h refl | inr h ↦ rw h refl ]
has_full-eq (Json.other b) = refl
has_full-eq (Json.object d) = refl

pub is_namespace-eq : (n : String) (j : Json) → is_namespace n j ≡ option_is n (namespace_of j)
is_namespace-eq n Json.null = refl
is_namespace-eq n (Json.text t) = refl
is_namespace-eq n (Json.other true) = refl
is_namespace-eq n (Json.other false) = refl
is_namespace-eq n (Json.object Fields.empty) = refl
is_namespace-eq n (Json.object (Fields.field k v d)) = refl

pub has_namespace-eq : (j : Json) → has_namespace j ≡ present (namespace_of j)
has_namespace-eq Json.null = refl
has_namespace-eq (Json.text t) = refl
has_namespace-eq (Json.other true) = refl
has_namespace-eq (Json.other false) = refl
has_namespace-eq (Json.object Fields.empty) = refl
has_namespace-eq (Json.object (Fields.field k v d)) = refl

pub is_resource-eq :
    (r t : String) (j : Json)
    → is_text t ≡ true
    → is_resource r (Json.text t) j ≡ option_is r (with_subresource t j)
is_resource-eq r t Json.null h = rw h refl
is_resource-eq r t (Json.text s) h = rw h refl
is_resource-eq r t (Json.other b) h = refl
is_resource-eq r t (Json.object d) h = refl

pub is_resource-empty :
    (r t : String) (j : Json) → is_text t ≡ false → is_resource r (Json.text t) j ≡ false
is_resource-empty r t Json.null h = rw h refl
is_resource-empty r t (Json.text s) h = rw h refl
is_resource-empty r t (Json.other b) h = refl
is_resource-empty r t (Json.object d) h = refl

pub has_subresource-eq :
    (t : String) (j : Json) → has_subresource j ≡ present (with_subresource t j)
has_subresource-eq t Json.null = refl
has_subresource-eq t (Json.text s) = refl
has_subresource-eq t (Json.other b) = refl
has_subresource-eq t (Json.object d) = refl
