-- ===== src/Effective/Predicates/Laws.antt =====
-- The predicates of control-plane/app/effective_access.py on rules that come from several roles.
use kaaval.Base.{◌≡◌, ◌&&◌, ◌||◌, List, ◌++◌, arith, is_some, any-append}
use kaaval.Rbac.Graph.{Rule}
use kaaval.Effective.Predicates.{
  can_create_roles, can_escalate, combo_role_escalation, can_create_bindings, can_bind,
  combo_bind_escalation, can_impersonate, impersonation_grant, can_create_pods,
}

pub can_create_roles-append :
    (xs ys : List Rule) → can_create_roles (xs ++ ys) ≡ (can_create_roles xs || can_create_roles ys)
unfolding can_create_roles
can_create_roles-append xs ys = any-append _ xs ys

pub can_escalate-append :
    (xs ys : List Rule) → can_escalate (xs ++ ys) ≡ (can_escalate xs || can_escalate ys)
unfolding can_escalate
can_escalate-append xs ys = any-append _ xs ys

can_create_bindings-append :
    (xs ys : List Rule)
    → can_create_bindings (xs ++ ys) ≡ (can_create_bindings xs || can_create_bindings ys)
unfolding can_create_bindings
can_create_bindings-append xs ys = any-append _ xs ys

can_bind-append : (xs ys : List Rule) → can_bind (xs ++ ys) ≡ (can_bind xs || can_bind ys)
unfolding can_bind
can_bind-append xs ys = any-append _ xs ys

can_impersonate-append :
    (xs ys : List Rule) → can_impersonate (xs ++ ys) ≡ (can_impersonate xs || can_impersonate ys)
unfolding can_impersonate
can_impersonate-append xs ys = any-append _ xs ys

can_create_pods-append :
    (xs ys : List Rule) → can_create_pods (xs ++ ys) ≡ (can_create_pods xs || can_create_pods ys)
unfolding can_create_pods
can_create_pods-append xs ys = any-append _ xs ys

-- A combination is found exactly if each half is granted by one side or the other, so by different
-- roles too; a single grant, exactly if one side holds it.
pub combos-append :
    (xs ys : List Rule)
    → (is_some (combo_role_escalation (xs ++ ys))
        ≡ ((can_create_roles xs || can_create_roles ys) && (can_escalate xs || can_escalate ys)))
      × (is_some (combo_bind_escalation (xs ++ ys))
          ≡ ((can_create_bindings xs || can_create_bindings ys) && (can_bind xs || can_bind ys)))
      × (is_some (impersonation_grant (xs ++ ys)) ≡ (can_impersonate xs || can_impersonate ys))
unfolding combo_role_escalation combo_bind_escalation impersonation_grant
combos-append xs ys = (
  ground (arith, can_create_roles-append xs ys, can_escalate-append xs ys),
  ground (arith, can_create_bindings-append xs ys, can_bind-append xs ys),
  ground (arith, can_impersonate-append xs ys),
)
