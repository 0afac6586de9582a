-- ===== src/Audit/Laws.antt =====
-- What `parse_audit_usage` of control-plane/app/audit_ingest.py gathers from the lines.
use kaaval.Base.{
  ◌+◌, ◌≡◌, refl, sym, ap, ◌∙◌, String, true, false, ◌&&◌, ◌||◌, List, [], ◌∷◌, ◌++◌, arith,
  if◌then◌else◌, Bool-cases, inl, inr, ◌⊎◌, any, filter, length, Eq, ◌==◌, contains,
  contains-append, or-false, or_assoc, string_eq, pair_eq,
}
use kaaval.Base.Dict.{Dict, lookup, list_at, lookup-insert}
use kaaval.Audit.{
  Decoded, Line, Use, Reading, Progress, read_line, add_use, step, read_lines, parse_audit_usage,
}
use kaaval.Audit.Events.{content, is_nested, is_use, is_bad, records, is_skipped}
use kaaval.Audit.Reads.{read_line-records, read_line-skipped, read_line-aborts}
use kaaval.Http.{returned, raised}

module _ {A : Type 0} ⦃f : Eq A⦄ where
  contains-single : (a b : A) → contains (b ∷ []) a ≡ (a == b)
  unfolding contains
  contains-single a b = or-false (a == b)

  absorbed :
      (uses : List A) (a b : A)
      → contains uses b ≡ true
      → contains uses a ≡ (contains uses a || a == b)
  absorbed uses a b h = elim (Bool-cases (a == b)) [
    | inl q ↦
        let here_too : contains uses a ≡ true = ap (contains uses) ((f.beq_iff a b).0 q) ∙ h in
        rw here_too refl
    | inr q ↦ rw q (sym (or-false (contains uses a)))
  ]

  contains-add :
      (uses : List A) (a b : A)
      → contains (if contains uses b then uses else uses ++ b ∷ []) a ≡ (contains uses a || a == b)
  contains-add uses a b = elim (Bool-cases (contains uses b)) [
    | inl h ↦ rw h (absorbed uses a b h)
    | inr h ↦
        rw h
          (contains-append uses (b ∷ []) a ∙ ap (λ c. contains uses a || c) (contains-single a b))
  ]

module _ {K A : Type 0} ⦃e : Eq K⦄ ⦃f : Eq A⦄ where
  pub contains-add_use :
      (k j : K) (a b : A) (usage : Dict K (List A))
      → contains (list_at k (add_use j b usage)) a
        ≡ (contains (list_at k usage) a || (k == j && a == b))
  unfolding add_use
  contains-add_use k j a b usage = elim (Bool-cases (k == j)) [
    | inl h ↦
        rw (h, lookup-insert, h)
          (contains-add (list_at j usage) a b
            ∙ ap (λ i. contains (list_at i usage) a || a == b) (sym ((e.beq_iff k j).0 h)))
    | inr h ↦ rw (h, lookup-insert, h) (sym (or-false (contains (list_at k usage) a)))
  ]

-- What the dict holds for the subject after a line.
step-records :
    (k : String) (u : Use) (r : Reading) (p : Progress)
    → contains (list_at k (step r p).usage) u ≡ (contains (list_at k p.usage) u || records k u r)
unfolding step
step-records k u Reading.ignored p = sym (or-false _)
step-records k u Reading.skipped p = sym (or-false _)
step-records k u Reading.aborted p = sym (or-false _)
step-records k u (Reading.used j v) p = contains-add_use k j u v p.usage

step-skipped :
    (r : Reading) (p : Progress) → (step r p).skipped ≡ (if is_skipped r then 1 else 0) + p.skipped
unfolding step
step-skipped Reading.ignored p = omega arith
step-skipped Reading.skipped p = omega arith
step-skipped Reading.aborted p = omega arith
step-skipped (Reading.used j v) p = omega arith

module _ (loads : String → Decoded) where
  -- From some progress on, the lines add their uses to it and their number of bad lines.
  pub record Gathers (lines : List Line) (p q : Progress) : Type 0 where
    pub uses :
        (k : String) (u : Use)
        → contains (list_at k q.usage) u
          ≡ (contains (list_at k p.usage) u || any (λ l. is_use k u (content loads l)) lines)
    pub bad : q.skipped ≡ length (filter (λ l. is_bad (content loads l)) lines) + p.skipped

  Gathers-cons :
      (l : Line) (lines : List Line) (p q : Progress)
      → Gathers lines (step (read_line loads l) p) q
      → Gathers (l ∷ lines) p q
  unfolding filter any
  Gathers-cons l lines p q g = record {
    uses = λ k u.
        g.uses k u
        ∙ ap (λ b. b || any (λ l. is_use k u (content loads l)) lines)
            (step-records k u (read_line loads l) p
              ∙ ap (λ b. contains (list_at k p.usage) u || b) (read_line-records loads k u l))
        ∙ or_assoc (contains (list_at k p.usage) u) (is_use k u (content loads l))
            (any (λ l. is_use k u (content loads l)) lines);
    bad = ground (arith, g.bad, step-skipped (read_line loads l) p, read_line-skipped loads l);
  }

  read_lines-raises :
      (lines : List Line) (p : Progress)
      → any (λ l. is_nested (content loads l)) lines ≡ true
      → read_lines loads lines p ≡ raised "RecursionError"
  unfolding read_lines any
  read_lines-raises [] p h = cc
  read_lines-raises (l ∷ lines) p h = elim (Bool-cases (is_nested (content loads l))) [
    | inl q ↦ rw (read_line-aborts loads l, q) refl
    | inr q ↦ rw (read_line-aborts loads l, q) (read_lines-raises lines _ (rw q at h))
  ]

  read_lines-returns :
      (lines : List Line) (p : Progress)
      → any (λ l. is_nested (content loads l)) lines ≡ false
      → (q : Progress) × (read_lines loads lines p ≡ returned q) × Gathers lines p q
  unfolding read_lines any filter
  read_lines-returns [] p h =
      (p, refl, record { uses = λ k u. sym (or-false _); bad = omega arith })
  read_lines-returns (l ∷ lines) p h = elim (Bool-cases (is_nested (content loads l))) [
    | inl q ↦ cc (rw q at h)
    | inr q ↦
        let rest = read_lines-returns lines (step (read_line loads l) p) (rw q at h) in
        (rest.0, rw (read_line-aborts loads l, q) rest.1, Gathers-cons l lines p rest.0 rest.2)
  ]

  -- If some line is nested deeper than the decoder takes, the batch raises RecursionError. Otherwise it
  -- returns: a use (verb, resource, namespace) is in a subject's set exactly if some line decodes to an
  -- event with that user name, that verb, and an object of that resource and namespace. The counter is
  -- the number of the lines that do not decode, or decode to an event which is neither such a request
  -- of some subject nor a request for a URL.
  pub parse_audit_usage_gathers :
      (lines : List Line)
      → ((any (λ l. is_nested (content loads l)) lines ≡ true)
          × (parse_audit_usage loads lines ≡ raised "RecursionError"))
        ⊎ ((any (λ l. is_nested (content loads l)) lines ≡ false)
            × (p : Progress) × (parse_audit_usage loads lines ≡ returned p)
            × ((k : String) (u : Use)
                → contains (list_at k p.usage) u ≡ any (λ l. is_use k u (content loads l)) lines)
            × (p.skipped ≡ length (filter (λ l. is_bad (content loads l)) lines)))
  unfolding parse_audit_usage lookup contains
  parse_audit_usage_gathers lines =
      elim (Bool-cases (any (λ l. is_nested (content loads l)) lines)) [
        | inl h ↦ inl (h, read_lines-raises lines (record { usage = []; skipped = 0 }) h)
        | inr h ↦
            let (p, q, g) = read_lines-returns lines (record { usage = []; skipped = 0 }) h in
            inr (h, p, q, g.uses, omega (arith, g.bad))
      ]
