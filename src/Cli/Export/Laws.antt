-- ===== src/Cli/Export/Laws.antt =====
-- The API version that the exporters of control-plane/app/cli.py give a workload.
use mathlib.Core.Option.{some-injective, none-ne-some}
use kaaval.Base.{
  ◌≡◌, refl, String, Bool, true, false, ◌||◌, some, [], ◌∷◌, if◌then◌else◌, contains,
  contains-append, eq_iff, sym, ◌∙◌, ◌==◌, string_eq, Bool-cases, Option-cases, inl, inr, ◌≢◌,
  get_or,
}
use kaaval.Base.Text.{truthy}
use kaaval.Floats.{Floats}
use kaaval.Finding.{Finding, Target}
use kaaval.Cli.Export.{
  workload_template_kinds, api_version_of, object_target, finding_target, no_target,
}

or_false_right : (a b : Bool) → (a || b) ≡ false → b ≡ false
or_false_right false b h = h
or_false_right true b h = cc

-- The kinds that would get batch/v1 stand at the end of the list that is asked first.
job_kinds-template :
    (kind : String)
    → contains workload_template_kinds kind ≡ false
    → contains ("Job" ∷ "CronJob" ∷ []) kind ≡ false
job_kinds-template kind h =
    let jobs = "Job" ∷ "CronJob" ∷ [] in
    let others = "Deployment" ∷ "StatefulSet" ∷ "DaemonSet" ∷ "ReplicaSet" ∷ [] in
    or_false_right (contains others kind) (contains jobs kind)
      (sym (contains-append others jobs kind) ∙ h)

differs : (a b : String) → (a == b) ≡ false → some a ≢ some b
differs a b h e = let same : (a == b) ≡ true = (eq_iff a b).1 (some-injective a b e) in cc

-- The versions that the chain gives.
abbrev pub version_by : Bool → Bool → String
version_by is_template is_job =
    if is_template then "apps/v1" else if is_job then "batch/v1" else "v1"

version_by-not_batch :
    (t j : Bool) → (t ≡ false → j ≡ false) → some (version_by t j) ≢ some "batch/v1"
version_by-not_batch true j h e = differs "apps/v1" "batch/v1" refl e
version_by-not_batch false true h e = cc (h refl)
version_by-not_batch false false h e = differs "v1" "batch/v1" refl e

object_target-not_batch : (t : Target) → (object_target t).api_version ≢ some "batch/v1"
unfolding object_target api_version_of
object_target-not_batch t =
    version_by-not_batch (contains workload_template_kinds (get_or t.kind "ServiceAccount"))
      (contains ("Job" ∷ "CronJob" ∷ []) (get_or t.kind "ServiceAccount"))
      (job_kinds-template (get_or t.kind "ServiceAccount"))

module _ (F : Floats) where
  -- No finding has a target of API version batch/v1: the kinds Job and CronJob are template kinds as
  -- well, and those get apps/v1 first.
  pub finding_target_never_batch :
      (f : Finding F) → (finding_target F f).api_version ≢ some "batch/v1"
  unfolding finding_target
  finding_target_never_batch f = elim (Bool-cases (truthy f.image)) [
    | inl h ↦ rw h (λ e. none-ne-some _ e)
    | inr h ↦ elim (Option-cases f.binding) [
      | inl q ↦
          rw (h, q, finding_target)
            (object_target-not_batch (get_or f.workload (get_or f.service_account no_target)))
      | inr (b, q) ↦
          rw (h, q, finding_target) (differs "rbac.authorization.k8s.io/v1" "batch/v1" refl)
    ]
  ]
