-- ===== src/Scoring.antt =====
-- control-plane/app/scoring.py: the contextual risk score and its factors.
-- The weights stand in tenths, as the source's literals have one decimal.
pub mod Laws
use kaaval.Base.{
  ℕ, String, Option, none, some, List, [], ◌∷◌, if◌then◌else◌, get_or, nonempty, string_eq,
}
use kaaval.Base.Dict.{Dict, lookup, values}
use kaaval.Floats.{Floats}
use Prim.Native.Nat.{max}

abbrev pub severity_base : Dict String ℕ
severity_base =
    ("CRITICAL", 95) ∷ ("HIGH", 75) ∷ ("MEDIUM", 55) ∷ ("LOW", 25) ∷ ("UNKNOWN", 10) ∷ []

abbrev pub env_weights : Dict String ℕ
env_weights = ("production", 15) ∷ ("staging", 12) ∷ ("dev", 5) ∷ []

abbrev pub data_class_weights : Dict String ℕ
data_class_weights =
    ("pii", 15) ∷ ("financial", 15) ∷ ("phi", 15) ∷ ("internal", 10) ∷ ("public", 8) ∷ []

abbrev pub exposure_weights : Dict String ℕ
exposure_weights = ("internet-facing", 14) ∷ ("internal", 10) ∷ []

-- `max(d.values())` of a table of weights
max_value : List ℕ → ℕ
max_value [] = 0
max_value (n ∷ ns) = max n (max_value ns)

abbrev pub valid_environments : List String
valid_environments = "production" ∷ "staging" ∷ "dev" ∷ []

abbrev pub valid_data_classifications : List String
valid_data_classifications = "pii" ∷ "financial" ∷ "phi" ∷ "internal" ∷ "public" ∷ []

abbrev pub valid_exposures : List String
valid_exposures = "internet-facing" ∷ "internal" ∷ []

abbrev pub severity_order : List String
severity_order = "UNKNOWN" ∷ "LOW" ∷ "MEDIUM" ∷ "HIGH" ∷ "CRITICAL" ∷ []

-- The risk context. `none` is a missing key, and `some none` a key whose value is `None`, as of a
-- column that is NULL; a scope that is missing, `None` or empty is `[]`.
pub record Context : Type 0 where
  pub environment : Option (Option String)
  pub data_classification : Option (Option String)
  pub compliance_scope : List String
  pub exposure : Option (Option String)

abbrev pub environment_of : Context → Option String
environment_of c = get_or c.environment (some "production")

abbrev pub data_class_of : Context → Option String
data_class_of c = get_or c.data_classification (some "internal")

abbrev pub exposure_of : Context → Option String
exposure_of c = get_or c.exposure (some "internal")

-- `table.get(value, 1.0)`; `None` is in no table.
unfoldable pub weigh : Option String → Dict String ℕ → ℕ
unfolding lookup
weigh none table = 10
weigh (some value) table = get_or (lookup value table) 10

unfoldable pub env_weight : Context → ℕ
unfolding weigh
env_weight c = weigh (environment_of c) env_weights

unfoldable pub data_weight : Context → ℕ
unfolding weigh
data_weight c = weigh (data_class_of c) data_class_weights

unfoldable pub compliance_weight : Context → ℕ
compliance_weight c = if nonempty c.compliance_scope then 13 else 10

unfoldable pub exposure_weight : Context → ℕ
unfolding weigh
exposure_weight c = weigh (exposure_of c) exposure_weights

unfoldable pub base_tenths : String → ℕ
unfolding lookup
base_tenths severity = get_or (lookup severity severity_base) 10

-- One multiplier that was applied: the value that chose it, and the weight.
pub record Factor (V W : Type 0) : Type 0 where
  pub value : V
  pub weight : W

module _ (F : Floats) where
  open F use {Float, tenths, times, round2}

  pub record Factors : Type 0 where
    pub base_severity : Factor String Float
    pub raw_score : Option Float
    pub environment : Factor (Option String) Float
    pub data_classification : Factor (Option String) Float
    pub compliance_scope : Factor (List String) Float
    pub exposure : Factor (Option String) Float

  unfoldable pub max_contextual_score : Float
  unfolding max_value values
  max_contextual_score =
      times
        (times
          (times
            (times (tenths (max_value (values severity_base)))
              (tenths (max_value (values env_weights))))
            (tenths (max_value (values data_class_weights))))
          (tenths 13))
        (tenths (max_value (values exposure_weights)))

  unfoldable pub base : Option Float → String → Float
  base none severity = tenths (base_tenths severity)
  base (some raw) severity = raw

  -- The product before it is rounded.
  unfoldable pub product : Option Float → String → Context → Float
  product raw severity c =
      times
        (times (times (times (base raw severity) (tenths (env_weight c))) (tenths (data_weight c)))
          (tenths (compliance_weight c)))
        (tenths (exposure_weight c))

  unfoldable pub score_factors : Option Float → String → Context → Factors
  score_factors raw severity c = record {
    base_severity = record { value = severity; weight = round2 (base raw severity) };
    raw_score = raw;
    environment = record { value = environment_of c; weight = tenths (env_weight c) };
    data_classification = record { value = data_class_of c; weight = tenths (data_weight c) };
    compliance_scope = record { value = c.compliance_scope; weight = tenths (compliance_weight c) };
    exposure = record { value = exposure_of c; weight = tenths (exposure_weight c) };
  }

  unfoldable pub compute_contextual_score : Option Float → String → Context → Float × Factors
  unfolding product score_factors
  compute_contextual_score raw severity c =
      (round2 (product raw severity c), score_factors raw severity c)
