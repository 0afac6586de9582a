-- ===== src/Examples/Diffs.antt =====
-- The diff of two scans, on small lists of findings.
use kaaval.Base.{◌≡◌, ◌+◌, String, none, List, [], ◌∷◌, length, string_eq, option_eq, pair_eq}
use kaaval.Finding.{Finding, bare_finding}
use kaaval.Scoring.{compute_contextual_score}
use kaaval.Rbac.Diff.{by_key, finding_key, diff_scans}
use kaaval.Rbac.Diff.Exact.{find_at, last_at, missing_at, changed_at, change_key, diff_scans_exact}
use kaaval.Examples.Fixed.{fixed, production}

abbrev of_severity : String → Finding fixed
of_severity severity =
    bare_finding fixed severity (compute_contextual_score fixed none severity production)

abbrev latest : List (Finding fixed)
latest = of_severity "MEDIUM" ∷ of_severity "CRITICAL" ∷ []

abbrev previous : List (Finding fixed)
previous = of_severity "MEDIUM" ∷ of_severity "HIGH" ∷ []

diff_scans_exact_example :
    let d = diff_scans fixed latest previous in
    let k = finding_key fixed (of_severity "HIGH") in
    let now = last_at fixed (finding_key fixed) k latest in
    let old = last_at fixed (finding_key fixed) k previous in
    (find_at (finding_key fixed) k d.added ≡ missing_at fixed (finding_key fixed) now old)
    × (find_at (finding_key fixed) k d.resolved ≡ missing_at fixed (finding_key fixed) old now)
    × (find_at (change_key fixed) k d.severity_changed
        ≡ changed_at fixed (finding_key fixed) now old)
    × (length d.added + (length d.severity_changed + d.unchanged_count)
        ≡ length (by_key fixed (finding_key fixed) latest []))
    × (length d.resolved + (length d.severity_changed + d.unchanged_count)
        ≡ length (by_key fixed (finding_key fixed) previous []))
diff_scans_exact_example =
    diff_scans_exact fixed (finding_key fixed (of_severity "HIGH")) latest previous
