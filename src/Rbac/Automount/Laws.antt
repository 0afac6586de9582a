-- ===== src/Rbac/Automount/Laws.antt =====
-- Each token that control-plane/app/rbac_service.py finds automounted is reported once: at the
-- service account, or at the pods that override it.
use kaaval.Base.{
  ◌≡◌, refl, ap, ◌∙◌, false, not, ◌&&◌, some, List, [], ◌∷◌, arith, nonempty, All, ◌==◌, string_eq,
  option_eq, pair_eq,
}
use kaaval.Base.Dict.{Dict, lookup, insert, lookup-insert, lookup-insert_self}
use kaaval.Base.Member.{Member, here, there}
use kaaval.Rbac.Graph.{Automount, ServiceAccount, Pod}
use kaaval.Rbac.Automount.{
  AccountKey, is_true, account_index, account_risks, account_name, pod_risks,
}

abbrev pub account_key : ServiceAccount → AccountKey
account_key sa = (sa.namespace, sa.name)

-- The key of the service account that a pod runs as.
abbrev pub pod_account_key : Pod → AccountKey
pod_account_key p = (p.namespace, some (account_name p))

abbrev Differs : AccountKey → ServiceAccount → Type 0
Differs k sa = (k == account_key sa) ≡ false

-- No two service accounts of the graph have one name and namespace.
abbrev pub DistinctAccounts : List ServiceAccount → Type 0
DistinctAccounts [] = Unit
DistinctAccounts (sa ∷ accounts) =
    All (Differs (account_key sa)) accounts × DistinctAccounts accounts

lookup-account_index_other :
    (k : AccountKey) (accounts : List ServiceAccount) (d : Dict AccountKey Automount)
    → All (Differs k) accounts
    → lookup k (account_index accounts d) ≡ lookup k d
unfolding account_index
lookup-account_index_other k [] d h = refl
lookup-account_index_other k (sa ∷ accounts) d (h, hs) =
    lookup-account_index_other k accounts (insert (account_key sa) sa.automount d) hs
    ∙ (lookup-insert k (account_key sa) sa.automount d ∙ rw h)

lookup-account_index :
    (sa : ServiceAccount) (accounts : List ServiceAccount) (d : Dict AccountKey Automount)
    → DistinctAccounts accounts
    → Member sa accounts
    → lookup (account_key sa) (account_index accounts d) ≡ some sa.automount
unfolding account_index
lookup-account_index sa [] d u m = elim m [ ]
lookup-account_index sa (x ∷ accounts) d (h, u) (here e) = rw e (
    lookup-account_index_other (account_key x) accounts (insert (account_key x) x.automount d) h
    ∙ lookup-insert_self (account_key x) x.automount d)
lookup-account_index sa (x ∷ accounts) d (h, u) (there m) =
    lookup-account_index sa accounts (insert (account_key x) x.automount d) u m

-- A pod that turns automounting on is reported exactly if its service account is not: an account
-- that opted out is reported at the pod, any other at the account alone. No pod that leaves it off
-- or unset is reported.
pub pod_risks_once :
    (accounts : List ServiceAccount) (sa : ServiceAccount) (p : Pod)
    → DistinctAccounts accounts
    → Member sa accounts
    → pod_account_key p ≡ account_key sa
    → nonempty (pod_risks (account_index accounts []) p)
      ≡ (is_true p.automount && not (nonempty (account_risks sa)))
unfolding pod_risks account_risks
pod_risks_once accounts sa p u m e = ground (
  arith,
  ap (λ k. lookup k (account_index accounts [])) e,
  lookup-account_index sa accounts [] u m,
)
