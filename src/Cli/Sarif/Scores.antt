-- ===== src/Cli/Sarif/Scores.antt =====
-- The highest scores of the rules in `_print_sarif` of control-plane/app/cli.py.
use kaaval.Base.{
  ◌≡◌, refl, sym, subst, ap, ◌∙◌, String, true, List, [], ◌∷◌, if◌then◌else◌, get_or, ◌==◌, ==-refl,
  string_eq, Bool-cases, ◌⊎◌, inl, inr,
}
use kaaval.Base.Dict.{Dict, lookup, lookup-insert}
use kaaval.Base.Member.{Member, here, there}
use kaaval.Floats.{Floats, IsOrdered}
use kaaval.Cli.Export.{Row}
use kaaval.Cli.Sarif.{max_of, add_score, max_scores}

module _ (F : Floats) where
  -- The score of a rule so far.
  abbrev pub best : String → Dict String F.Float → F.Float
  best id d = get_or (lookup id d) (F.tenths 0)

  -- The score of a rule is what it was, or that of one of its rows.
  abbrev pub IsAttained : String → List (Row F) → F.Float → F.Float → Type 0
  IsAttained id rows old m =
      (m ≡ old)
      ⊎ ((row : Row F) × Member row rows × (row.rule_id ≡ id) × (row.raw.contextual_score ≡ m))

  pub best-nil : (id : String) → best id [] ≡ F.tenths 0
  unfolding lookup
  best-nil id = refl

module _ {F : Floats} (o : IsOrdered F) where
  max_of-left : (x y : F.Float) → F.at_most x (max_of F x y) ≡ true
  max_of-left x y = elim (Bool-cases (F.at_most y x)) [
    | inl h ↦ rw h (o.refl_at_most x)
    | inr h ↦ rw h (o.total y x h)
  ]

  max_of-right : (x y : F.Float) → F.at_most y (max_of F x y) ≡ true
  max_of-right x y = elim (Bool-cases (F.at_most y x)) [
    | inl h ↦ rw h h
    | inr h ↦ rw h (o.refl_at_most y)
  ]

  best-add_score :
      (id : String) (row : Row F) (d : Dict String F.Float)
      → best F id (add_score F row d) ≡ (
          if id == row.rule_id
          then max_of F (best F row.rule_id d) row.raw.contextual_score
          else best F id d)
  unfolding add_score
  best-add_score id row d = elim (Bool-cases (id == row.rule_id)) [
    | inl h ↦ rw (lookup-insert, h) refl
    | inr h ↦ rw (lookup-insert, h) refl
  ]

  best-add_score_grows :
      (id : String) (row : Row F) (d : Dict String F.Float)
      → F.at_most (best F id d) (best F id (add_score F row d)) ≡ true
  best-add_score_grows id row d = elim (Bool-cases (id == row.rule_id)) [
    | inl h ↦
        rw (best-add_score id row d, h)
          (subst
            (λ k. F.at_most (best F id d) (max_of F (best F k d) row.raw.contextual_score) ≡ true)
            ((string_eq.beq_iff id row.rule_id).0 h)
            (max_of-left (best F id d) row.raw.contextual_score))
    | inr h ↦ rw (best-add_score id row d, h) (o.refl_at_most (best F id d))
  ]

  best-max_scores_grows :
      (id : String) (rows : List (Row F)) (d : Dict String F.Float)
      → F.at_most (best F id d) (best F id (max_scores F rows d)) ≡ true
  unfolding max_scores
  best-max_scores_grows id [] d = o.refl_at_most (best F id d)
  best-max_scores_grows id (row ∷ rows) d =
      o.trans (best F id d) (best F id (add_score F row d)) _ (best-add_score_grows id row d)
        (best-max_scores_grows id rows (add_score F row d))

  best-add_score_own :
      (row : Row F) (d : Dict String F.Float)
      → F.at_most row.raw.contextual_score (best F row.rule_id (add_score F row d)) ≡ true
  best-add_score_own row d =
      rw (best-add_score row.rule_id row d, ==-refl row.rule_id)
        (max_of-right (best F row.rule_id d) row.raw.contextual_score)

  -- The score of a rule is at least that of each of its rows.
  pub best-max_scores_bound :
      (row : Row F) (rows : List (Row F)) (d : Dict String F.Float)
      → Member row rows
      → F.at_most row.raw.contextual_score (best F row.rule_id (max_scores F rows d)) ≡ true
  unfolding max_scores
  best-max_scores_bound row [] d m = elim m [ ]
  best-max_scores_bound row (first ∷ rows) d (there m) =
      best-max_scores_bound row rows (add_score F first d) m
  best-max_scores_bound row (first ∷ rows) d (here e) =
      subst
        (λ r.
          F.at_most r.raw.contextual_score (best F r.rule_id (max_scores F (first ∷ rows) d))
          ≡ true)
        (sym e)
        (o.trans first.raw.contextual_score (best F first.rule_id (add_score F first d)) _
          (best-add_score_own first d)
          (best-max_scores_grows first.rule_id rows (add_score F first d)))

  max_of-cases : (x y : F.Float) → (max_of F x y ≡ x) ⊎ (max_of F x y ≡ y)
  max_of-cases x y = elim (Bool-cases (F.at_most y x)) [
    | inl h ↦ inl (rw h refl)
    | inr h ↦ inr (rw h refl)
  ]

  best-add_score_cases :
      (id : String) (row : Row F) (d : Dict String F.Float)
      → (best F id (add_score F row d) ≡ best F id d)
        ⊎ ((row.rule_id ≡ id) × (row.raw.contextual_score ≡ best F id (add_score F row d)))
  best-add_score_cases id row d = elim (Bool-cases (id == row.rule_id)) [
    | inr h ↦ inl (rw (best-add_score id row d, h) refl)
    | inl h ↦
        let same : id ≡ row.rule_id = (string_eq.beq_iff id row.rule_id).0 h in
        elim (max_of-cases (best F row.rule_id d) row.raw.contextual_score) [
          | inl e ↦ inl (rw (best-add_score id row d, h) (e ∙ ap (λ k. best F k d) (sym same)))
          | inr e ↦ inr (sym same, rw (best-add_score id row d, h) (sym e))
        ]
  ]

  pub best-max_scores-IsAttained :
      (id : String) (rows : List (Row F)) (d : Dict String F.Float)
      → IsAttained F id rows (best F id d) (best F id (max_scores F rows d))
  unfolding max_scores
  best-max_scores-IsAttained id [] d = inl refl
  best-max_scores-IsAttained id (row ∷ rows) d =
      elim (best-max_scores-IsAttained id rows (add_score F row d)) [
        | inr (r, m, i, e) ↦ inr (r, there m, i, e)
        | inl later ↦ elim (best-add_score_cases id row d) [
          | inl now ↦ inl (later ∙ now)
          | inr (i, e) ↦ inr (row, here refl, i, e ∙ sym later)
        ]
      ]
