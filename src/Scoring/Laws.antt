-- ===== src/Scoring/Laws.antt =====
-- Bounds of the score of control-plane/app/scoring.py, for any floats with the
-- arithmetic laws.
use kaaval.Base.Dict.{lookup}
use kaaval.Base.{Option, some, ℕ, ◌≤◌, ◌≡◌, String, true, none, arith, string_eq}
use kaaval.Floats.{Floats, IsArithmetic}
use kaaval.Scoring.{
  Context, environment_of, data_class_of, exposure_of, env_weights, data_class_weights,
  exposure_weights, weigh, env_weight, data_weight, compliance_weight, exposure_weight, base_tenths,
  max_contextual_score, base, compute_contextual_score,
}

weigh-environment : (v : Option String) → weigh v env_weights ≤ 15
unfolding weigh lookup
weigh-environment none = omega arith
weigh-environment (some v) = ground arith

weigh-classification : (v : Option String) → weigh v data_class_weights ≤ 15
unfolding weigh lookup
weigh-classification none = omega arith
weigh-classification (some v) = ground arith

weigh-exposure : (v : Option String) → weigh v exposure_weights ≤ 14
unfolding weigh lookup
weigh-exposure none = omega arith
weigh-exposure (some v) = ground arith

env_weight-le : (c : Context) → env_weight c ≤ 15
unfolding env_weight
env_weight-le c = weigh-environment (environment_of c)

data_weight-le : (c : Context) → data_weight c ≤ 15
unfolding data_weight
data_weight-le c = weigh-classification (data_class_of c)

compliance_weight-le : (c : Context) → compliance_weight c ≤ 13
unfolding compliance_weight
compliance_weight-le c = ground arith

exposure_weight-le : (c : Context) → exposure_weight c ≤ 14
unfolding exposure_weight
exposure_weight-le c = weigh-exposure (exposure_of c)

base_tenths-le : (severity : String) → base_tenths severity ≤ 95
unfolding base_tenths
base_tenths-le severity = ground arith

module _ (F : Floats) (A : IsArithmetic F) where
  open F use {Float, tenths, times, round2, at_most}

  abbrev Pos : Float → Type 0
  Pos x = at_most (tenths 0) x ≡ true

  tenths-Pos : (n : ℕ) → Pos (tenths n)
  tenths-Pos n = A.tenths_mono 0 n (omega arith)

  -- One more factor on both sides.
  step :
      (x y : Float) (m n : ℕ)
      → Pos x
      → at_most x y ≡ true
      → m ≤ n
      → at_most (times x (tenths m)) (times y (tenths n)) ≡ true
  step x y m n px h k =
      A.times_mono x y (tenths m) (tenths n) px h (tenths-Pos m) (A.tenths_mono m n k)

  step-Pos : (x : Float) (m : ℕ) → Pos x → Pos (times x (tenths m))
  step-Pos x m px = A.times_pos x (tenths m) px (tenths-Pos m)

  chain :
      (x y : Float) (a b c d a' b' c' d' : ℕ)
      → Pos x
      → at_most x y ≡ true
      → a ≤ a'
      → b ≤ b'
      → c ≤ c'
      → d ≤ d'
      → at_most
          (times (times (times (times x (tenths a)) (tenths b)) (tenths c)) (tenths d))
          (times (times (times (times y (tenths a')) (tenths b')) (tenths c')) (tenths d'))
        ≡ true
  chain x y a b c d a' b' c' d' px h ha hb hc hd =
      step _ _ d d' (step-Pos _ c (step-Pos _ b (step-Pos x a px)))
        (step _ _ c c' (step-Pos _ b (step-Pos x a px))
          (step _ _ b b' (step-Pos x a px) (step x y a a' px h ha) hb) hc)
        hd

  -- A finding scored by its severity band, whatever the texts of severity and context, scores at
  -- least zero and at most `max_contextual_score`, rounded.
  pub compute_contextual_score_bounds :
      (severity : String) (c : Context)
      → (at_most (round2 (tenths 0)) (compute_contextual_score F none severity c).0 ≡ true)
        × (at_most (compute_contextual_score F none severity c).0 (round2 (max_contextual_score F))
            ≡ true)
  unfolding compute_contextual_score max_contextual_score base
  compute_contextual_score_bounds severity c = (
    A.round2_mono _ _ (
        step-Pos _ _
          (step-Pos _ _ (step-Pos _ _ (step-Pos _ _ (tenths-Pos (base_tenths severity)))))),
    A.round2_mono _ _ (
        chain _ _ _ _ _ _ 15 15 13 14 (tenths-Pos _) (A.tenths_mono _ 95 (base_tenths-le severity))
          (env_weight-le c) (data_weight-le c) (compliance_weight-le c) (exposure_weight-le c)),
  )

  -- The weights that the factors show, multiplied in their order and rounded, are the score of a
  -- finding scored by its severity band: nothing else goes into it.
  pub score_factors_explain :
      (severity : String) (c : Context)
      → let (score, factors) = compute_contextual_score F none severity c in
        score
        ≡ round2 (
            times
              (times
                (times
                  (times factors.base_severity.weight factors.environment.weight)
                  factors.data_classification.weight)
                factors.compliance_scope.weight)
              factors.exposure.weight)
  unfolding compute_contextual_score base
  score_factors_explain severity c = rw A.round2-tenths
