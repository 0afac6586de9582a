-- ===== src/Limits/Laws.antt =====
-- What the size limit of control-plane/app/request_limits.py lets through.
use kaaval.Base.{
  ◌≡◌, refl, ap, subst, ◌∙◌, ℕ, ◌+◌, ◌≤◌, ◌<◌, String, false, Option, none, some, List, [], ◌∷◌,
  ◌++◌, append-nil, if◌then◌else◌, length, length-append, ltb, Bool-cases, inl, inr, arith,
}
use kaaval.Base.Parsing.{to_signed_int}
use kaaval.Http.{sent}
use kaaval.Limits.{Bytes, too_large, check_content_length, read_chunks, read_body_with_limit}
use mathlib.Core.List.{append_assoc}
use native.Mathlib.Nat.{add_assoc, zero-add}

-- The bytes of the chunks, one after another.
abbrev pub joined : List Bytes → Bytes
joined [] = []
joined (chunk ∷ chunks) = chunk ++ joined chunks

read_chunks-eq :
    (limit : ℕ) (body : Bytes) (chunks : List Bytes)
    → length body ≤ limit
    → (read_chunks limit body chunks).0 ≡ (
        if ltb limit (length body + length (joined chunks))
        then too_large limit
        else sent (body ++ joined chunks))
unfolding read_chunks
read_chunks-eq limit body [] h = rw append-nil (ground arith)
read_chunks-eq limit body (chunk ∷ chunks) h =
    elim (Bool-cases (ltb limit (length body + length chunk))) [
      | inl e ↦ rw (e, length-append) (ground arith)
      | inr e ↦
          rw (e, length-append)
            (read_chunks-eq limit (body ++ chunk) chunks (rw length-append (ground arith))
              ∙ rw (length-append, append_assoc, add_assoc) refl)
    ]

-- A header that is missing, or that announces no more than the limit.
abbrev pub Passes : ℕ → Option String → Type 0
Passes limit none = Unit
Passes limit (some content_length) =
    (n : ℕ) × (to_signed_int content_length ≡ some (false, n)) × (n ≤ limit)

passed-read_chunks :
    (content_length : Option String) (chunks : List Bytes) (limit : ℕ)
    → Passes limit content_length
    → read_body_with_limit content_length chunks limit ≡ read_chunks limit [] chunks
unfolding read_body_with_limit check_content_length
passed-read_chunks none chunks limit h = refl
passed-read_chunks (some content_length) chunks limit (n, e, h) =
    let fits : ltb limit n ≡ false = ground arith in
    rw (e, read_body_with_limit, check_content_length, fits) refl

-- A body is read exactly as it was streamed if it has at most as many bytes as the limit, however it is
-- split into chunks, and is else refused with a 413; a header that announces less changes nothing.
pub read_body_with_limit-eq :
    (content_length : Option String) (chunks : List Bytes) (limit : ℕ)
    → Passes limit content_length
    → (read_body_with_limit content_length chunks limit).0
      ≡ (if ltb limit (length (joined chunks)) then too_large limit else sent (joined chunks))
read_body_with_limit-eq content_length chunks limit h =
    ap (λ r. r.0) (passed-read_chunks content_length chunks limit h)
    ∙ subst
        (λ n.
          (read_chunks limit [] chunks).0
          ≡ (if ltb limit n then too_large limit else sent (joined chunks)))
        (zero-add (length (joined chunks))) (read_chunks-eq limit [] chunks (omega arith))

-- The chunks that were read: all but the last fit into the limit with what was there before.
read_chunks_stops :
    (limit : ℕ) (body : Bytes) (chunks : List Bytes)
    → length body ≤ limit
    → limit < length body + length (joined chunks)
    → (before : List Bytes) × (last : Bytes) × (chunks
        ≡ before ++ last ∷ (read_chunks limit body chunks).1)
      × (length body + length (joined before) ≤ limit)
      × (limit < length body + length (joined before) + length last)
unfolding read_chunks
read_chunks_stops limit body [] h k = absurd (omega arith)
read_chunks_stops limit body (chunk ∷ chunks) h k =
    elim (Bool-cases (ltb limit (length body + length chunk))) [
      | inl e ↦ ([], chunk, rw e refl, omega arith, ground arith)
      | inr e ↦
          let (before, last, p, q, r) =
            read_chunks_stops limit (body ++ chunk) chunks (rw length-append (ground arith))
              (rw length-append (omega (arith, k, length-append chunk (joined chunks)))) in
          (
            chunk ∷ before,
            last,
            rw e (ap (◌∷◌ chunk) p),
            omega (arith, q, length-append body chunk, length-append chunk (joined before)),
            omega (arith, r, length-append body chunk, length-append chunk (joined before)),
          )
    ]

-- A body that is too long is refused at the first chunk with which it exceeds the limit: what was held
-- before that chunk fits into the limit, and the chunks after it are not read.
pub read_body_with_limit_stops :
    (content_length : Option String) (chunks : List Bytes) (limit : ℕ)
    → Passes limit content_length
    → limit < length (joined chunks)
    → (before : List Bytes) × (last : Bytes) × (chunks
        ≡ before ++ last ∷ (read_body_with_limit content_length chunks limit).1)
      × (length (joined before) ≤ limit)
      × (limit < length (joined before) + length last)
read_body_with_limit_stops content_length chunks limit h k =
    rw (passed-read_chunks content_length chunks limit h) (
      let (before, last, p, q, r) = read_chunks_stops limit [] chunks (omega arith) (omega arith) in
      (before, last, p, omega arith, omega arith))
