-- ===== src/Cli/Run/Passes.antt =====
-- When `kaaval scan rbac` of control-plane/app/cli.py passes.
use kaaval.Base.{
  ◌≡◌, refl, sym, subst, ◌∙◌, String, true, false, Option, none, some, string_eq, if◌then◌else◌,
  any, inl, inr, ◌⊎◌, Bool-cases, Option-cases,
}
use kaaval.Base.Text.{truthy}
use kaaval.Http.{returned, raised}
use kaaval.Floats.{Floats}
use kaaval.Rbac.Graph.{Graph}
use kaaval.Rbac.Findings.{evaluate_rbac_findings}
use kaaval.Rbac.Findings.Severities.{evaluate_rbac_findings-known}
use kaaval.Cli.Gate.{code, usage, severity_valid}
use kaaval.Cli.Gate.Laws.{reaches, apply_gate-reaches}
use kaaval.Cli.Gate.Image.{severity_valid-known}
use kaaval.Cli.Context.{
  Numbers, Value, null, boolean, integer, real, text, sequence, mapping, Document, Loaded,
  load_context,
}
use kaaval.Cli.Context.Laws.{IsValidContext, load_context-IsValidContext}
use kaaval.Cli.Run.{
  goes, Source, manifests, cluster, rbac, Args, Surroundings, score_threshold, check_severity,
  value_severity, severity_threshold, graph_of, rbac_scan, run_scan,
}
use kaaval.Cli.Run.Thresholds.{
  Honest, IsFinite, IsSeverity, Overrides, Usable, check_severity-Usable, goes-injective,
  score_threshold-Honest, score_threshold-IsFinite, severity_valid-IsSeverity, unbreached,
  usage-fails,
}

graph_of-Honest : (source : Source) → Honest (graph_of source)
unfolding graph_of
graph_of-Honest (manifests none) = inr (usage, refl, usage-fails)
graph_of-Honest (manifests (some docs)) = inl (_, refl)
graph_of-Honest (cluster false fetched) = inr (usage, refl, usage-fails)
graph_of-Honest (cluster true (raised e)) = inr (usage, refl, usage-fails)
graph_of-Honest (cluster true (returned graph)) = inl (graph, refl)

module _ (F : Floats) where
  value_severity-Usable : (v : Option (Value F)) → Usable (value_severity F v)
  unfolding severity_valid
  value_severity-Usable none = inl (none, refl, refl)
  value_severity-Usable (some null) = inr refl
  value_severity-Usable (some (boolean b)) = inr refl
  value_severity-Usable (some (integer n)) = inr refl
  value_severity-Usable (some (real x)) = inr refl
  value_severity-Usable (some (text s)) = check_severity-Usable (some s)
  value_severity-Usable (some (sequence vs)) = inr refl
  value_severity-Usable (some mapping) = inr refl

  severity_threshold-Usable :
      (flag : Option String) (file : Option (Value F)) → Usable (severity_threshold F flag file)
  unfolding severity_threshold
  severity_threshold-Usable flag file = elim (Bool-cases (truthy flag)) [
    | inl h ↦ rw h (check_severity-Usable flag)
    | inr h ↦ rw h (value_severity-Usable file)
  ]

  module _ (nums : Numbers F) (around : Surroundings F) (args : Args F) (file : Option (Document F))
      (source : Source) where
    severity_flag :
        (v : Option (Value F)) (s : Option String)
        → severity_threshold F args.fail_on_severity v ≡ goes s
        → (truthy args.fail_on_severity ≡ false) ⊎ (s ≡ args.fail_on_severity)
    unfolding severity_threshold
    severity_flag v s h = elim (Bool-cases (truthy args.fail_on_severity)) [
      | inr t ↦ inl t
      | inl t ↦ inr (elim (check_severity-Usable args.fail_on_severity) [
        | inl (u, q, k) ↦ elim (Bool-cases (severity_valid args.fail_on_severity)) [
          | inl valid ↦
              sym (goes-injective args.fail_on_severity s (rw (t, check_severity, valid) at h))
          | inr invalid ↦ cc (rw (t, check_severity, invalid) at h)
        ]
        | inr q ↦ cc (rw t at h, q)
      ])
    ]

    -- The run reaches its gate: with a valid context, with thresholds that are valid and that the flags
    -- override, and with a graph of the source.
    pub record IsGated (loaded : Loaded F) (graph : Graph) (score : Option F.Float)
        (severity : Option String) : Type 0 where
      pub has_context : load_context F file ≡ some loaded
      pub has_score : score_threshold F nums args.fail_on_score loaded.fail_on_score ≡ goes score
      pub has_severity :
          severity_threshold F args.fail_on_severity loaded.fail_on_severity ≡ goes severity
      pub has_graph : graph_of source ≡ goes graph
      pub valid_context : IsValidContext loaded.context
      pub finite_score : IsFinite F nums score
      pub flag_score : Overrides F args.fail_on_score score
      pub valid_severity : IsSeverity severity
      pub flag_severity :
          (truthy args.fail_on_severity ≡ false) ⊎ (severity ≡ args.fail_on_severity)

    severity_valid-goes :
        (v : Option (Value F)) (s : Option String)
        → severity_threshold F args.fail_on_severity v ≡ goes s
        → severity_valid s ≡ true
    severity_valid-goes v s h = elim (severity_threshold-Usable args.fail_on_severity v) [
      | inl (t, q, k) ↦ subst (λ u. severity_valid u ≡ true) (goes-injective t s (sym q ∙ h)) k
      | inr q ↦ cc
    ]

    run_scan_exits :
        (loaded : Loaded F) (graph : Graph) (score : Option F.Float) (severity : Option String)
        → IsGated loaded graph score severity
        → run_scan F nums around args file (rbac source)
          ≡ code (
              if any (reaches F score severity) (evaluate_rbac_findings F graph loaded.context)
              then 1
              else 0)
    unfolding run_scan rbac_scan
    run_scan_exits loaded graph score severity r =
        rw (r.has_context, r.has_score, r.has_severity, r.has_graph)
          (apply_gate-reaches F _ score severity
            (evaluate_rbac_findings-known F graph loaded.context)
            (severity_valid-known severity
              (severity_valid-goes loaded.fail_on_severity severity r.has_severity)))

    -- A run over an RBAC source that exits with 0 has read a context whose environment, data classification
    -- and exposure are among the valid ones, a score threshold that is finite and not negative, if any, a
    -- severity threshold that is LOW, MEDIUM, HIGH or CRITICAL in any case, if any, and a graph from its
    -- source. Flags that are given are the thresholds. No finding of that graph in that context reaches a
    -- threshold.
    pub run_scan_passes :
        run_scan F nums around args file (rbac source) ≡ code 0
        → (loaded : Loaded F) × (graph : Graph) × (score : Option F.Float) × (severity : Option
            String)
          × IsGated loaded graph score severity
          × (any (reaches F score severity) (evaluate_rbac_findings F graph loaded.context) ≡ false)
    unfolding run_scan rbac_scan
    run_scan_passes h = elim (Option-cases (load_context F file)) [
      | inl q ↦ elim (usage-fails (rw q at h)) [ ]
      | inr (loaded, q) ↦
          elim (score_threshold-Honest F nums args.fail_on_score loaded.fail_on_score) [
            | inr (e, p, n) ↦ elim (n (rw (q, p) at h)) [ ]
            | inl (score, p) ↦
                elim (severity_threshold-Usable args.fail_on_severity loaded.fail_on_severity) [
                  | inr r ↦ elim (usage-fails (rw (q, p, r) at h)) [ ]
                  | inl (severity, r, v) ↦ elim (graph_of-Honest source) [
                    | inr (e, g, n) ↦ elim (n (rw (q, p, r, g) at h)) [ ]
                    | inl (graph, g) ↦
                        let thresholds =
                          score_threshold-IsFinite F nums args.fail_on_score loaded.fail_on_score
                            score p in
                        let gated : IsGated loaded graph score severity = record {
                          has_context = q;
                          has_score = p;
                          has_severity = r;
                          has_graph = g;
                          valid_context = load_context-IsValidContext F file loaded q;
                          finite_score = thresholds.0;
                          flag_score = thresholds.1;
                          valid_severity = severity_valid-IsSeverity severity v;
                          flag_severity = severity_flag loaded.fail_on_severity severity r;
                        } in
                        (
                          loaded,
                          graph,
                          score,
                          severity,
                          gated,
                          unbreached _ (sym (run_scan_exits loaded graph score severity gated) ∙ h),
                        )
                  ]
                ]
          ]
    ]
