-- ===== src/Rbac/Risks/Severity.antt =====
-- The severities that control-plane/app/rbac_service.py gives to the flags of a role.
use kaaval.Base.{
  ◌≡◌, refl, String, Bool, true, false, not, ◌||◌, List, [], ◌∷◌, all, all-append, or-true,
  and-true, contains, string_eq,
}
use kaaval.Scoring.{severity_order}
use kaaval.Rbac.Graph.{Rule}
use kaaval.Rbac.Risks.{Risk, flag, evaluate_role_risks}

all-flag : (p : Risk → Bool) (b : Bool) (r : Risk) → all p (flag b r) ≡ (not b || p r)
unfolding all
all-flag p true r = and-true (p r)
all-flag p false r = refl

-- The severity of the risk is one of these.
abbrev pub severity_in : List String → Risk → Bool
severity_in severities r = contains severities r.severity

-- Every flag of a namespaced role is MEDIUM, and every flag of a cluster role MEDIUM or HIGH.
pub evaluate_role_risks_severity :
    (rules : List Rule)
    → (all (severity_in ("MEDIUM" ∷ [])) (evaluate_role_risks rules false) ≡ true)
      × (all (severity_in ("MEDIUM" ∷ "HIGH" ∷ [])) (evaluate_role_risks rules true) ≡ true)
unfolding evaluate_role_risks contains
evaluate_role_risks_severity rules =
    (simp (all-append, all-flag, or-true), simp (all-append, all-flag, or-true))

pub evaluate_role_risks-known :
    (rules : List Rule) (cluster_scoped : Bool)
    → all (severity_in severity_order) (evaluate_role_risks rules cluster_scoped) ≡ true
unfolding evaluate_role_risks contains
evaluate_role_risks-known rules true = simp (all-append, all-flag, or-true)
evaluate_role_risks-known rules false = simp (all-append, all-flag, or-true)
