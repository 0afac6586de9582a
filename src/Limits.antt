-- ===== src/Limits.antt =====
-- control-plane/app/request_limits.py: the limit on the size of a request's body. The environment
-- variable, the header and the chunks of the stream are arguments; bytes are numbers.
pub mod Laws
use kaaval.Base.{
  ℕ, ◌+◌, ◌*◌, ◌/◌, String, Bool, true, false, not, Option, none, some, List, [], ◌∷◌, ◌++◌, ◌<>◌,
  if◌then◌else◌, length, ltb, leb, nat_beq, get_or, ◌⊎◌, inl, inr,
}
use kaaval.Base.Text.{decimal}
use kaaval.Base.Parsing.{to_signed_int}
use kaaval.Http.{Reply, sent, http_error, Outcome, returned, raised}

abbrev pub default_max_request_body_mb : ℕ
default_max_request_body_mb = 20

abbrev positive_megabytes : Option (Bool × ℕ) → Outcome ℕ
positive_megabytes none = raised "invalid literal for int()"
positive_megabytes (some (true, n)) = raised "KAAVAL_MAX_REQUEST_BODY_MB must be a positive integer"
positive_megabytes (some (false, n)) =
    if leb n 0
    then raised "KAAVAL_MAX_REQUEST_BODY_MB must be a positive integer"
    else returned (n * 1024 * 1024)

-- From the value of KAAVAL_MAX_REQUEST_BODY_MB, if it is set.
unfoldable pub max_request_body_bytes : Option String → Outcome ℕ
unfolding to_signed_int
max_request_body_bytes none = positive_megabytes (some (false, default_max_request_body_mb))
max_request_body_bytes (some value) = positive_megabytes (to_signed_int value)

abbrev pub Bytes : Type 0
Bytes = List ℕ

unfoldable pub too_large {ℓ} : {A : Type ℓ} → ℕ → Reply A
unfolding decimal
too_large limit = http_error 413 (
    "Request body exceeds the "
    <> (decimal (limit / (1024 * 1024)) <> " MB limit (KAAVAL_MAX_REQUEST_BODY_MB)."))

-- What the header says: nothing that stands in the way of reading, or the error to raise. A minus sign
-- before a zero leaves zero.
unfoldable pub check_content_length : ℕ → Option (Bool × ℕ) → Option (Reply Bytes)
unfolding too_large
check_content_length limit none = some (http_error 400 "Invalid Content-Length header.")
check_content_length limit (some (minus, n)) =
    if minus
    then (if ltb 0 n then some (http_error 400 "Invalid Content-Length header.") else none)
    else if ltb limit n
    then some (too_large limit)
    else none

-- The loop over the stream: the reply, and the chunks that were not read.
unfoldable pub read_chunks : ℕ → Bytes → List Bytes → Reply Bytes × List Bytes
unfolding too_large
read_chunks limit body [] = (sent body, [])
read_chunks limit body (chunk ∷ chunks) =
    let rest = read_chunks limit (body ++ chunk) chunks in
    if ltb limit (length body + length chunk) then (too_large limit, chunks) else rest

unfoldable pub read_body_with_limit : Option String → List Bytes → ℕ → Reply Bytes × List Bytes
unfolding to_signed_int check_content_length read_chunks
read_body_with_limit none chunks limit = read_chunks limit [] chunks
read_body_with_limit (some content_length) chunks limit =
    let body = read_chunks limit [] chunks in
    elim (check_content_length limit (to_signed_int content_length)) [
      | some error ↦ (error, chunks)
      | none ↦ body
    ]

-- What the dependency of limited_json_body gives: a model, the errors of the validation, or the error
-- of the read. The validation is Pydantic's, an argument.
pub data Parsed (M : Type 0) : Type 0 where
  model : M → Parsed M
  invalid : List (List String) → Parsed M
  refused : ℕ → String → Parsed M
  crashed : String → Parsed M

-- `("body", *error["loc"])` for every error.
unfoldable pub in_body : List (List String) → List (List String)
in_body [] = []
in_body (loc ∷ locs) = ("body" ∷ loc) ∷ in_body locs

module _ {M : Type 0} (validate : Bytes → M ⊎ List (List String)) where
  unfoldable pub parse_body : Reply Bytes → Parsed M
  unfolding in_body
  parse_body (http_error code detail) = refused code detail
  parse_body (sent raw) = elim (validate raw) [
    | inl m ↦ model m
    | inr locs ↦ invalid (in_body locs)
  ]

  unfoldable pub limited_json_body : Option String → Option String → List Bytes → Parsed M
  unfolding max_request_body_bytes read_body_with_limit parse_body
  limited_json_body env content_length chunks = elim (max_request_body_bytes env) [
    | raised e ↦ crashed e
    | returned limit ↦ parse_body (read_body_with_limit content_length chunks limit).0
  ]
