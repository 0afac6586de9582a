-- ===== src/Rbac/Findings/Origin.antt =====
-- Where the findings of `evaluate_rbac_findings` in control-plane/app/rbac_service.py come from, and
-- that none is lost.
use kaaval.Base.{
  ◌≡◌, refl, Bool, true, false, Option, none, some, map, ◌⊎◌, inl, inr, Bool-cases, All, All-append,
  filter, flat_map, pair_eq, option_eq, string_eq, string_eq,
}
use kaaval.Base.Dict.{lookup}
use kaaval.Base.Sort.{IsSorted, IsOrder, All-sort, sort-IsSorted, filter-sort}
use kaaval.Base.Member.{
  Member, Member-append_left, Member-append_right, All-Member, Member-map, Member-of_map,
  Member-flat_map, Member-of_flat_map, Member-sort,
}
use kaaval.Floats.{Floats, IsOrdered}
use kaaval.Scoring.{Context}
use kaaval.Finding.{Finding}
use kaaval.Rbac.Graph.{Role, Binding, Graph, role_key, all_bindings}
use kaaval.Rbac.Risks.{Risk}
use kaaval.Rbac.Automount.{AutomountRisk, evaluate_token_automount}
use kaaval.Rbac.Findings.{
  role_index, is_skipped, binding_risks, resolved_risks, risks_of, binding_finding,
  automount_finding, ranks_before, binding_findings, collect_findings, evaluate_rbac_findings,
}

-- The role that a binding resolves to, with what the loop asks of the binding.
pub record Exposes (g : Graph) (b : Binding) (role : Role) (risk : Risk) : Type 0 where
  pub bound : Member b (all_bindings g)
  pub resolved : lookup (role_key b) (role_index g) ≡ some role
  pub kept : is_skipped b ≡ false
  pub flagged : Member risk (binding_risks b role.rules)

resolved_risks_cases :
    (b : Binding) (o : Option Role) (risk : Risk)
    → Member risk (resolved_risks b o)
    → (role : Role) × (o ≡ some role)
      × (is_skipped b ≡ false)
      × Member risk (binding_risks b role.rules)
unfolding resolved_risks
resolved_risks_cases b none risk m = elim m [ ]
resolved_risks_cases b (some role) risk m = elim (Bool-cases (is_skipped b)) [
  | inl h ↦ elim (rw h at m) [ ]
  | inr h ↦ (role, refl, h, rw h at m)
]

resolved_risks-kept :
    (b : Binding) (role : Role)
    → is_skipped b ≡ false
    → resolved_risks b (some role) ≡ binding_risks b role.rules
unfolding resolved_risks
resolved_risks-kept b role h = rw h

module _ (F : Floats) (g : Graph) (c : Context) where
  -- A finding is that of a binding, its role and one of their risks, or that of an automount risk.
  abbrev pub HasOrigin : Finding F → Type 0
  HasOrigin f =
      ((b : Binding) × (role : Role) × (risk : Risk) × Exposes g b role risk
        × (f ≡ binding_finding F c b risk))
      ⊎ ((risk : AutomountRisk) × Member risk (evaluate_token_automount g)
          × (f ≡ automount_finding F c risk))

  binding_origin :
      (f : Finding F)
      → Member f (flat_map (binding_findings F c (role_index g)) (all_bindings g))
      → HasOrigin f
  unfolding binding_findings risks_of
  binding_origin f m =
      let (b, bound, k) =
        Member-of_flat_map (binding_findings F c (role_index g)) f (all_bindings g) m in
      let (risk, l, e) = Member-of_map (binding_finding F c b) f (risks_of (role_index g) b) k in
      let (role, resolved, kept, flagged) =
        resolved_risks_cases b (lookup (role_key b) (role_index g)) risk l in
      inl (
        b,
        role,
        risk,
        record { bound = bound; resolved = resolved; kept = kept; flagged = flagged },
        e,
      )

  automount_origin :
      (f : Finding F)
      → Member f (map (automount_finding F c) (evaluate_token_automount g))
      → HasOrigin f
  automount_origin f m =
      let (risk, k, e) = Member-of_map (automount_finding F c) f (evaluate_token_automount g) m in
      inr (risk, k, e)

  -- Every finding has an origin: a binding of the graph that resolves to a role and is not skipped,
  -- with one of their risks, or one of the automount risks.
  pub evaluate_rbac_findings_sound : All HasOrigin (evaluate_rbac_findings F g c)
  unfolding evaluate_rbac_findings collect_findings
  evaluate_rbac_findings_sound = All-sort (ranks_before F) HasOrigin (collect_findings F g c) (
      All-append HasOrigin (flat_map (binding_findings F c (role_index g)) (all_bindings g)) _
        (All-Member HasOrigin _ binding_origin) (All-Member HasOrigin _ automount_origin))

  -- Every risk of a binding of the graph that resolves to a role and is not skipped is reported.
  pub binding_risk_reported :
      (b : Binding) (role : Role) (risk : Risk)
      → Exposes g b role risk
      → Member (binding_finding F c b risk) (evaluate_rbac_findings F g c)
  unfolding evaluate_rbac_findings collect_findings binding_findings risks_of
  binding_risk_reported b role risk x = Member-sort (ranks_before F) _ (collect_findings F g c) (
      Member-append_left _ _ _ (
        Member-flat_map (binding_findings F c (role_index g)) b _ (all_bindings g) x.bound (
          Member-map (binding_finding F c b) risk (risks_of (role_index g) b)
            (rw (x.resolved, resolved_risks-kept b role x.kept) x.flagged))))

  -- Every automount risk of the graph is reported.
  pub automount_risk_reported :
      (risk : AutomountRisk)
      → Member risk (evaluate_token_automount g)
      → Member (automount_finding F c risk) (evaluate_rbac_findings F g c)
  unfolding evaluate_rbac_findings collect_findings
  automount_risk_reported risk m = Member-sort (ranks_before F) _ (collect_findings F g c) (
      Member-append_right _ (flat_map (binding_findings F c (role_index g)) (all_bindings g)) _
        (Member-map (automount_finding F c) risk _ m))

module _ (F : Floats) (o : IsOrdered F) where
  pub ranks_before-IsOrder : IsOrder (ranks_before F)
  ranks_before-IsOrder = record {
    total = λ f h. o.total h.contextual_score f.contextual_score;
    trans = λ f h k p q. o.trans k.contextual_score h.contextual_score f.contextual_score q p;
  }

  -- The findings stand by falling score.
  pub evaluate_rbac_findings_ranked :
      (g : Graph) (c : Context) → IsSorted (ranks_before F) (evaluate_rbac_findings F g c)
  unfolding evaluate_rbac_findings
  evaluate_rbac_findings_ranked g c =
      sort-IsSorted (ranks_before F) ranks_before-IsOrder (collect_findings F g c)

module _ (F : Floats) where
  -- Findings of one score stand in the order in which they were found: any test that holds only of
  -- findings that rank alike picks the same list before the sort and after it.
  pub evaluate_rbac_findings_stable :
      (g : Graph) (c : Context) (p : Finding F → Bool)
      → ((f h : Finding F) → p f ≡ true → p h ≡ true → ranks_before F f h ≡ true)
      → filter p (evaluate_rbac_findings F g c) ≡ filter p (collect_findings F g c)
  unfolding evaluate_rbac_findings
  evaluate_rbac_findings_stable g c p alike =
      filter-sort (ranks_before F) p (collect_findings F g c) alike
