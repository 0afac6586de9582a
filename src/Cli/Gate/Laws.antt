-- ===== src/Cli/Gate/Laws.antt =====
-- When the gate of control-plane/app/cli.py fails.
use kaaval.Base.{
  ℕ, suc, ◌≡◌, refl, sym, ap, ◌∙◌, String, Bool, true, false, not, ◌&&◌, ◌||◌, Option, none, some,
  List, [], ◌∷◌, ◌++◌, if◌then◌else◌, leb, nonempty, is_some, get_or, filter, any, all, contains,
  ◌==◌, string_eq, Bool-cases, inl, inr, any_or, any_and, any-false,
}
use kaaval.Base.Text.{upper, truthy, show}
use kaaval.Floats.{Floats}
use kaaval.Scoring.{severity_order}
use kaaval.Finding.{Finding}
use kaaval.Cli.Gate.{Exit, index, score_breaches, add_breach, severity_breaches, apply_gate}

is_some-suc : (o : Option ℕ) → is_some (elim o [ none ↦ none | some n ↦ some (suc n) ]) ≡ is_some o
is_some-suc none = refl
is_some-suc (some n) = refl

is_some-index : (xs : List String) (x : String) → is_some (index xs x) ≡ contains xs x
unfolding index contains
is_some-index [] x = refl
is_some-index (y ∷ ys) x = elim (Bool-cases (x == y)) [
  | inl h ↦ rw h refl
  | inr h ↦ rw h (is_some-suc (index ys x) ∙ is_some-index ys x)
]

get_or-some : (o : Option ℕ) → is_some o ≡ true → o ≡ some (get_or o 0)
get_or-some none h = cc
get_or-some (some n) h = refl

-- The place of a severity in the order, from 0 for UNKNOWN to 4 for CRITICAL.
abbrev pub rank_of : String → ℕ
rank_of s = get_or (index severity_order s) 0

index-rank_of :
    (s : String) → contains severity_order s ≡ true → index severity_order s ≡ some (rank_of s)
index-rank_of s h = get_or-some (index severity_order s) (is_some-index severity_order s ∙ h)

pub and_parts : (a b : Bool) → (a && b) ≡ true → (a ≡ true) × (b ≡ true)
and_parts true b h = (refl, h)
and_parts false b h = cc

nonempty-append {ℓ} :
    {A : Type ℓ} (xs ys : List A) → nonempty (xs ++ ys) ≡ (nonempty xs || nonempty ys)
nonempty-append [] ys = refl
nonempty-append (x ∷ xs) ys = refl

module _ (F : Floats) where
  abbrev pub reaches_score : Option F.Float → Finding F → Bool
  reaches_score none f = false
  reaches_score (some threshold) f = F.at_most threshold f.contextual_score

  nonempty-filter :
      (p : Finding F → Bool) (fs : List (Finding F)) → nonempty (filter p fs) ≡ any p fs
  unfolding filter any
  nonempty-filter p [] = refl
  nonempty-filter p (f ∷ fs) = elim (Bool-cases (p f)) [
    | inl h ↦ rw h refl
    | inr h ↦ rw h (nonempty-filter p fs)
  ]

  -- The finding's score is at least the threshold, or its severity is.
  abbrev pub reaches : Option F.Float → Option String → Finding F → Bool
  reaches score severity f =
      reaches_score score f
      || (truthy severity && leb (rank_of (upper (show severity))) (rank_of f.severity))

  abbrev at_rank : String → Finding F → Bool
  at_rank threshold f = leb (rank_of threshold) (rank_of f.severity)

  any-reaches :
      (score : Option F.Float) (severity : Option String) (fs : List (Finding F))
      → any (reaches score severity) fs ≡ (
          any (reaches_score score) fs
          || (truthy severity && any (at_rank (upper (show severity))) fs))
  any-reaches score severity fs =
      any_or (reaches_score score) (λ f. truthy severity && at_rank (upper (show severity)) f) fs
      ∙ ap (λ b. any (reaches_score score) fs || b)
          (any_and (truthy severity) (at_rank (upper (show severity))) fs)

  add_breach-some :
      (rank : ℕ) (f : Finding F) (o : Option ℕ) (n : ℕ) (rest : Option (List (Finding F)))
      (bs : List (Finding F)) (b : Bool)
      → o ≡ some n
      → rest ≡ some bs
      → nonempty bs ≡ b
      → (cs : List (Finding F)) × (add_breach F rank f o rest ≡ some cs)
        × (nonempty cs ≡ (leb rank n || b))
  add_breach-some rank f o n rest bs b p q r = elim (Bool-cases (leb rank n)) [
    | inl h ↦ (f ∷ bs, rw (p, q, h) refl, rw h refl)
    | inr h ↦ (bs, rw (p, q, h) refl, rw h r)
  ]

  severity_breaches-some :
      (rank : ℕ) (fs : List (Finding F))
      → all (λ f. contains severity_order f.severity) fs ≡ true
      → (bs : List (Finding F)) × (severity_breaches F rank fs ≡ some bs)
        × (nonempty bs ≡ any (λ f. leb rank (rank_of f.severity)) fs)
  unfolding severity_breaches all any
  severity_breaches-some rank [] h = ([], refl, refl)
  severity_breaches-some rank (f ∷ fs) h =
      let (known, others) = and_parts (contains severity_order f.severity) _ h in
      let (bs, e, b) = severity_breaches-some rank fs others in
      add_breach-some rank f (index severity_order f.severity) (rank_of f.severity)
        (severity_breaches F rank fs) bs _ (index-rank_of f.severity known) e b

  nonempty-score_breaches :
      (score : Option F.Float) (fs : List (Finding F))
      → nonempty (score_breaches F score fs) ≡ any (reaches_score score) fs
  unfolding score_breaches
  nonempty-score_breaches none fs = sym (any-false fs)
  nonempty-score_breaches (some t) fs = nonempty-filter _ fs

  -- On findings whose severities are all in the order, and with no severity threshold or one that is in
  -- the order when it is upper-cased, the gate exits with 1 if some finding reaches a threshold that is
  -- set, by its score or by its severity, and else with 0.
  pub apply_gate-reaches :
      (fs : List (Finding F)) (score : Option F.Float) (severity : Option String)
      → all (λ f. contains severity_order f.severity) fs ≡ true
      → (not (truthy severity) || contains severity_order (upper (show severity))) ≡ true
      → apply_gate F fs score severity
        ≡ Exit.code (if any (reaches score severity) fs then 1 else 0)
  unfolding apply_gate
  apply_gate-reaches fs score severity h k = elim (Bool-cases (truthy severity)) [
    | inl t ↦
        let threshold = upper (show severity) in
        let known : contains severity_order threshold ≡ true = rw t at k in
        let (bs, e, b) = severity_breaches-some (rank_of threshold) fs h in
        rw (any-reaches score severity fs, t, index-rank_of threshold known, e)
          (ap (λ v. Exit.code (if v then 1 else 0))
            (nonempty-append (score_breaches F score fs) bs
              ∙ rw (nonempty-score_breaches score fs, b) refl))
    | inr t ↦
        rw (any-reaches score severity fs, t)
          (ap (λ v. Exit.code (if v then 1 else 0))
            (nonempty-append (score_breaches F score fs) []
              ∙ rw (nonempty-score_breaches score fs) refl))
  ]
