-- ===== src/Rbac/Automount.antt =====
-- control-plane/app/rbac_service.py: `_evaluate_token_automount` (CIS 5.1.6).
pub mod Laws
use kaaval.Base.{
  String, ◌<>◌, Bool, true, false, not, Option, none, some, List, [], ◌∷◌, ◌++◌, if◌then◌else◌,
  get_or, flat_map, ◌==◌, string_eq, option_eq, pair_eq,
}
use kaaval.Base.Dict.{Dict, lookup, insert}
use kaaval.Base.Text.{show, or_text}
use kaaval.Rbac.Graph.{Automount, ServiceAccount, Pod, Graph}
use kaaval.Finding.{Target}

pub record AutomountRisk : Type 0 where
  pub severity : String
  pub detail : String
  pub service_account : Target
  pub workload : Option Target

-- `value is not False`
abbrev pub effective_automount : Automount → Bool
effective_automount (some false) = false
effective_automount _ = true

-- `value is True`
abbrev pub is_true : Automount → Bool
is_true (some true) = true
is_true _ = false

-- `value is False`, of the entry of a dict
abbrev pub is_false : Option Automount → Bool
is_false (some (some false)) = true
is_false _ = false

abbrev pub AccountKey : Type 0
AccountKey = Option String × Option String

-- `sa_automount`
unfoldable pub account_index :
    List ServiceAccount → Dict AccountKey Automount → Dict AccountKey Automount
unfolding insert
account_index [] d = d
account_index (sa ∷ accounts) d =
    account_index accounts (insert (sa.namespace, sa.name) sa.automount d)

abbrev account_detail : ServiceAccount → String
account_detail sa =
    "ServiceAccount '"
    <> show sa.name
    <> "' in namespace '"
    <> show sa.namespace
    <> "' "
    <> (if is_true sa.automount
        then "sets automountServiceAccountToken: true"
        else "does not set automountServiceAccountToken (Kubernetes defaults it to true)")
    <> "; every pod using it automounts an API token whether or not the workload needs one."

-- The body of the first loop.
unfoldable pub account_risks : ServiceAccount → List AutomountRisk
account_risks sa =
    if effective_automount sa.automount
    then (record {
      severity = if sa.name == some "default" then "MEDIUM" else "LOW";
      detail = account_detail sa;
      service_account = record { kind = none; name = sa.name; namespace = sa.namespace };
      workload = none;
    })
      ∷ []
    else []

abbrev pub account_name : Pod → String
account_name p = or_text p.service_account_name "default"

abbrev pod_detail : Pod → String
pod_detail p =
    get_or p.kind "Pod"
    <> " '"
    <> show p.name
    <> "' in namespace '"
    <> show p.namespace
    <> "' sets automountServiceAccountToken: true, overriding ServiceAccount '"
    <> account_name p
    <> "' which explicitly disables it (pod spec wins over the SA)."

-- The body of the second loop.
unfoldable pub pod_risks : Dict AccountKey Automount → Pod → List AutomountRisk
unfolding lookup
pod_risks index p =
    if not (is_true p.automount)
    then []
    else if is_false (lookup (p.namespace, some (account_name p)) index)
    then (record {
      severity = "MEDIUM";
      detail = pod_detail p;
      service_account = record {
        kind = none;
        name = some (account_name p);
        namespace = p.namespace;
      };
      workload =
          some
            (record { kind = some (get_or p.kind "Pod"); name = p.name; namespace = p.namespace });
    })
      ∷ []
    else []

unfoldable pub evaluate_token_automount : Graph → List AutomountRisk
unfolding account_index account_risks pod_risks
evaluate_token_automount g =
    flat_map account_risks g.service_accounts
    ++ flat_map (pod_risks (account_index g.service_accounts [])) g.pods
