-- ===== src/Cli/Sarif/Laws.antt =====
-- The rules and the results of the SARIF report of control-plane/app/cli.py.
use kaaval.Base.{
  ◌≡◌, refl, sym, subst, ap, ◌∙◌, String, true, List, [], ◌∷◌, map, All, contains, ◌==◌, string_eq,
  Bool-cases, ◌⊎◌, inl, inr,
}
use kaaval.Base.Dict.{Dict}
use kaaval.Base.Distinct.{Distinct, Distinct-snoc}
use kaaval.Base.Member.{
  Member, here, there, All-Member, Member-append_left, Member-append_right, Member-map,
  Member-of_map,
}
use kaaval.Floats.{Floats, IsOrdered}
use kaaval.Finding.{Finding}
use kaaval.Cli.Export.{Row, finding_row, finding_rows}
use kaaval.Cli.Sarif.Scores.{best, best-nil, best-max_scores_bound, best-max_scores-IsAttained}
use kaaval.Cli.Sarif.{
  ScanType, Formats, SarifRule, to_security_severity, max_scores, add_rule, rule_ids, sarif_rule,
  print_sarif,
}

Member-of_contains : (id : String) (ids : List String) → contains ids id ≡ true → Member id ids
unfolding contains
Member-of_contains id [] h = cc
Member-of_contains id (x ∷ ids) h = elim (Bool-cases (id == x)) [
  | inl e ↦ here ((string_eq.beq_iff id x).0 e)
  | inr e ↦ there (Member-of_contains id ids (rw e at h))
]

module _ {F : Floats} where
  rule_ids-Distinct :
      (rows : List (Row F)) (ids : List String) → Distinct ids → Distinct (rule_ids F rows ids)
  unfolding rule_ids add_rule
  rule_ids-Distinct [] ids u = u
  rule_ids-Distinct (row ∷ rows) ids u = elim (Bool-cases (contains ids row.rule_id)) [
    | inl h ↦ rw h (rule_ids-Distinct rows ids u)
    | inr h ↦ rw h (rule_ids-Distinct rows _ (Distinct-snoc ids row.rule_id u h))
  ]

  Member-add_rule : (row : Row F) (ids : List String) → Member row.rule_id (add_rule F ids row)
  unfolding add_rule
  Member-add_rule row ids = elim (Bool-cases (contains ids row.rule_id)) [
    | inl h ↦ rw h (Member-of_contains row.rule_id ids h)
    | inr h ↦ rw h (Member-append_right row.rule_id ids _ (here refl))
  ]

  -- An id that was there stays.
  Member-rule_ids_old :
      (id : String) (rows : List (Row F)) (ids : List String)
      → Member id ids
      → Member id (rule_ids F rows ids)
  unfolding rule_ids add_rule
  Member-rule_ids_old id [] ids m = m
  Member-rule_ids_old id (row ∷ rows) ids m = elim (Bool-cases (contains ids row.rule_id)) [
    | inl h ↦ rw h (Member-rule_ids_old id rows ids m)
    | inr h ↦ rw h (Member-rule_ids_old id rows _ (Member-append_left id ids _ m))
  ]

  Member-rule_ids :
      (row : Row F) (rows : List (Row F)) (ids : List String)
      → Member row rows
      → Member row.rule_id (rule_ids F rows ids)
  unfolding rule_ids add_rule
  Member-rule_ids row [] ids m = elim m [ ]
  Member-rule_ids row (first ∷ rows) ids (there m) = Member-rule_ids row rows _ m
  Member-rule_ids row (first ∷ rows) ids (here e) =
      subst (λ r. Member r.rule_id (rule_ids F rows (add_rule F ids first))) (sym e)
        (Member-rule_ids_old first.rule_id rows _ (Member-add_rule first ids))

ids-sarif_rule :
    {F : Floats} (formats : Formats F) (scan_type : ScanType) (scores : Dict String F.Float)
    (ids : List String)
    → map (λ r. r.id) (map (sarif_rule F formats scan_type scores) ids) ≡ ids
unfolding sarif_rule
ids-sarif_rule formats scan_type scores [] = refl
ids-sarif_rule formats scan_type scores (id ∷ ids) =
    ap (◌∷◌ id) (ids-sarif_rule formats scan_type scores ids)

module _ {F : Floats} (o : IsOrdered F) where
  -- A rule that is declared for a finding: under the finding's rule or CVE, with the severity of a score
  -- that is at least the finding's, and is zero or that of some finding of the rule.
  pub record Declares (formats : Formats F) (fs : List (Finding F)) (rules : List SarifRule)
      (f : Finding F) : Type 0 where
    pub rule : SarifRule
    pub declared : Member rule rules
    pub has_id : rule.id ≡ (finding_row F f).rule_id
    pub score : F.Float
    pub has_severity : rule.security_severity ≡ to_security_severity F formats score
    pub bound : F.at_most f.contextual_score score ≡ true
    pub attained :
        (score ≡ F.tenths 0)
        ⊎ ((g : Finding F) × Member g fs
            × ((finding_row F g).rule_id ≡ rule.id)
            × (g.contextual_score ≡ score))

  rule-Declares :
      (formats : Formats F) (scan_type : ScanType) (fs : List (Finding F)) (f : Finding F)
      → Member f fs
      → Declares formats fs (print_sarif F formats scan_type fs).rules f
  unfolding print_sarif sarif_rule finding_rows finding_row
  rule-Declares formats scan_type fs f m =
      let rows = finding_rows F fs in
      let row = finding_row F f in
      let placed : Member row rows = Member-map (finding_row F) f fs m in
      let scores = max_scores F rows [] in
      record {
        rule = sarif_rule F formats scan_type scores row.rule_id;
        declared =
            Member-map (sarif_rule F formats scan_type scores) row.rule_id _
              (Member-rule_ids row rows [] placed);
        has_id = refl;
        score = best F row.rule_id scores;
        has_severity = refl;
        bound = best-max_scores_bound o row rows [] placed;
        attained = elim (best-max_scores-IsAttained o row.rule_id rows []) [
          | inl e ↦ inl (e ∙ best-nil F row.rule_id)
          | inr (r, k, i, e) ↦
              let (g, l, q) = Member-of_map (finding_row F) r fs k in
              inr (
                g,
                l,
                sym (ap (λ u. u.rule_id) q) ∙ i,
                sym (ap (λ u. u.raw.contextual_score) q) ∙ e,
              )
        ];
      }

  -- No two rules of a SARIF report have the same id, and every finding has its rule, whose severity is
  -- that of the highest score of its findings, or of zero.
  pub print_sarif-Declares :
      (formats : Formats F) (scan_type : ScanType) (fs : List (Finding F))
      → Distinct (map (λ r. r.id) (print_sarif F formats scan_type fs).rules)
        × All (Declares formats fs (print_sarif F formats scan_type fs).rules) fs
  unfolding print_sarif
  print_sarif-Declares formats scan_type fs = (
    rw ids-sarif_rule (rule_ids-Distinct (finding_rows F fs) [] tt),
    All-Member _ fs (rule-Declares formats scan_type fs),
  )
