-- ===== src/Cve/Version/Severity.antt =====
-- The severity bands of control-plane/app/cve_service.py follow the order of the scores.
use kaaval.Base.{◌≤◌, ◌≡◌, refl, String, Bool, true, false, some, arith, if◌then◌else◌}
use kaaval.Floats.{Floats, IsOrdered}
use kaaval.Cve.Version.{at_least, cvss_to_severity}
use kaaval.Cli.Gate.{index}
use kaaval.Cli.Gate.Laws.{rank_of}

abbrev band : Bool → Bool → Bool → String
band p q r = if p then "CRITICAL" else if q then "HIGH" else if r then "MEDIUM" else "LOW"

band_mono :
    (p q r p' q' r' : Bool)
    → (p ≡ true → p' ≡ true)
    → (q ≡ true → q' ≡ true)
    → (r ≡ true → r' ≡ true)
    → rank_of (band p q r) ≤ rank_of (band p' q' r')
unfolding index
band_mono true q r true q' r' hp hq hr = omega arith
band_mono true q r false q' r' hp hq hr = cc (hp refl)
band_mono false true r true q' r' hp hq hr = omega arith
band_mono false true r false true r' hp hq hr = omega arith
band_mono false true r false false r' hp hq hr = cc (hq refl)
band_mono false false true true q' r' hp hq hr = omega arith
band_mono false false true false true r' hp hq hr = omega arith
band_mono false false true false false true hp hq hr = omega arith
band_mono false false true false false false hp hq hr = cc (hr refl)
band_mono false false false true q' r' hp hq hr = omega arith
band_mono false false false false true r' hp hq hr = omega arith
band_mono false false false false false true hp hq hr = omega arith
band_mono false false false false false false hp hq hr = omega arith

module _ (F : Floats) (o : IsOrdered F) where
  -- A score that is at least another has a severity that stands at least as high in the order of the
  -- severities.
  pub cvss_to_severity_mono :
      (low high : F.Float)
      → F.at_most low high ≡ true
      → rank_of (cvss_to_severity F (some low)) ≤ rank_of (cvss_to_severity F (some high))
  unfolding cvss_to_severity
  cvss_to_severity_mono low high h =
      band_mono (at_least F low 90) (at_least F low 70) (at_least F low 40) (at_least F high 90)
        (at_least F high 70) (at_least F high 40) (λ k. o.trans (F.tenths 90) low high k h)
        (λ k. o.trans (F.tenths 70) low high k h) (λ k. o.trans (F.tenths 40) low high k h)
