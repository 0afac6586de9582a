-- ===== src/Cli/Run/Thresholds.antt =====
-- The thresholds of `kaaval scan` of control-plane/app/cli.py: what they are if the run goes on.
use kaaval.Base.{
  ◌≡◌, ◌≢◌, refl, arith, sym, subst, String, Bool, true, false, ◌&&◌, Option, none, some, [], ◌∷◌,
  contains, string_eq, if◌then◌else◌, inl, inr, ◌⊎◌, Bool-cases, Option-cases,
}
use kaaval.Base.Text.{upper}
use kaaval.Floats.{Floats}
use kaaval.Cli.Gate.{Exit, code, usage, raises, severity_valid}
use kaaval.Cli.Gate.Laws.{and_parts}
use kaaval.Cli.Context.{Numbers, Value, null, boolean, integer, real, text, sequence, mapping}
use kaaval.Cli.Run.{Step, goes, ends, check_score, value_score, score_threshold, check_severity}

-- A step that does not end the run in a success: it goes on, or ends with another exit.
abbrev pub Honest {ℓ} : {A : Type ℓ} → Step A → Type ℓ
Honest {A = A} s = ((a : A) × (s ≡ goes a)) ⊎ ((e : Exit) × (s ≡ ends e) × (e ≢ code 0))

pub goes-injective {ℓ} : {A : Type ℓ} (a b : A) → goes a ≡ goes b → a ≡ b
goes-injective a b h = cc

pub usage-fails : usage ≢ code 0
usage-fails h = cc

pub raises-fails : (e : String) → raises e ≢ code 0
raises-fails e h = cc

pub unbreached : (b : Bool) → code (if b then 1 else 0) ≡ code 0 → b ≡ false
unbreached true h = ground arith
unbreached false h = refl

module _ (F : Floats) (nums : Numbers F) where
  pub check_score-Honest : (x : F.Float) → Honest (check_score F nums x)
  unfolding check_score
  check_score-Honest x = elim (Bool-cases (nums.is_finite x && F.at_most (F.tenths 0) x)) [
    | inl h ↦ inl (some x, rw h refl)
    | inr h ↦ inr (usage, rw h refl, usage-fails)
  ]

  pub value_score-Honest : (v : Value F) → Honest (value_score F nums v)
  unfolding value_score
  value_score-Honest null = inr (usage, refl, usage-fails)
  value_score-Honest (boolean b) = check_score-Honest (F.tenths (if b then 10 else 0))
  value_score-Honest (integer n) = elim (Option-cases (nums.of_integer n)) [
    | inl q ↦ inr (raises "OverflowError", rw (q, value_score) refl, raises-fails "OverflowError")
    | inr (x, q) ↦ rw (q, value_score) (check_score-Honest x)
  ]
  value_score-Honest (real x) = check_score-Honest x
  value_score-Honest (text s) = elim (Option-cases (nums.of_text s)) [
    | inl q ↦ inr (usage, rw (q, value_score) refl, usage-fails)
    | inr (x, q) ↦ rw (q, value_score) (check_score-Honest x)
  ]
  value_score-Honest (sequence vs) = inr (usage, refl, usage-fails)
  value_score-Honest mapping = inr (usage, refl, usage-fails)

  pub score_threshold-Honest :
      (flag : Option F.Float) (file : Option (Value F)) → Honest (score_threshold F nums flag file)
  unfolding score_threshold
  score_threshold-Honest (some x) file = check_score-Honest x
  score_threshold-Honest none none = inl (none, refl)
  score_threshold-Honest none (some v) = value_score-Honest v

-- A score threshold is finite and not negative, if there is one.
abbrev pub IsFinite : (F : Floats) → Numbers F → Option F.Float → Type 0
IsFinite F nums none = Unit
IsFinite F nums (some x) = (nums.is_finite x ≡ true) × (F.at_most (F.tenths 0) x ≡ true)

-- A flag that is given is the threshold.
abbrev pub Overrides : (F : Floats) → Option F.Float → Option F.Float → Type 0
Overrides F none score = Unit
Overrides F (some x) score = score ≡ some x

-- A severity threshold is one of the four, in any case, if there is one.
abbrev pub IsSeverity : Option String → Type 0
IsSeverity none = Unit
IsSeverity (some s) = contains ("LOW" ∷ "MEDIUM" ∷ "HIGH" ∷ "CRITICAL" ∷ []) (upper s) ≡ true

module _ (F : Floats) (nums : Numbers F) where
  pub check_score-IsFinite :
      (x : F.Float) (score : Option F.Float)
      → check_score F nums x ≡ goes score
      → IsFinite F nums score × (score ≡ some x)
  unfolding check_score
  check_score-IsFinite x score h =
      elim (Bool-cases (nums.is_finite x && F.at_most (F.tenths 0) x)) [
        | inl k ↦
            let same : some x ≡ score = goes-injective (some x) score (rw k at h) in
            (subst (IsFinite F nums) same (and_parts (nums.is_finite x) _ k), sym same)
        | inr k ↦ cc (rw k at h)
      ]

  pub value_score-IsFinite :
      (v : Value F) (score : Option F.Float)
      → value_score F nums v ≡ goes score
      → IsFinite F nums score
  unfolding value_score
  value_score-IsFinite null score h = cc
  value_score-IsFinite (boolean b) score h = (check_score-IsFinite _ score h).0
  value_score-IsFinite (integer n) score h = elim (Option-cases (nums.of_integer n)) [
    | inl q ↦ cc (rw (value_score, q) at h)
    | inr (x, q) ↦ (check_score-IsFinite x score (rw (value_score, q) at h)).0
  ]
  value_score-IsFinite (real x) score h = (check_score-IsFinite x score h).0
  value_score-IsFinite (text s) score h = elim (Option-cases (nums.of_text s)) [
    | inl q ↦ cc (rw (value_score, q) at h)
    | inr (x, q) ↦ (check_score-IsFinite x score (rw (value_score, q) at h)).0
  ]
  value_score-IsFinite (sequence vs) score h = cc
  value_score-IsFinite mapping score h = cc

  pub score_threshold-IsFinite :
      (flag : Option F.Float) (file : Option (Value F)) (score : Option F.Float)
      → score_threshold F nums flag file ≡ goes score
      → IsFinite F nums score × Overrides F flag score
  unfolding score_threshold
  score_threshold-IsFinite (some x) file score h = check_score-IsFinite x score h
  score_threshold-IsFinite none none score h =
      (subst (IsFinite F nums) (goes-injective none score h) tt, tt)
  score_threshold-IsFinite none (some v) score h = (value_score-IsFinite v score h, tt)

pub severity_valid-IsSeverity : (s : Option String) → severity_valid s ≡ true → IsSeverity s
unfolding severity_valid
severity_valid-IsSeverity none h = tt
severity_valid-IsSeverity (some s) h = h

-- What is known of a severity threshold: it is one of the order, or the run ends as a usage error.
abbrev pub Usable : Step (Option String) → Type 0
Usable step =
    ((s : Option String) × (step ≡ goes s) × (severity_valid s ≡ true)) ⊎ (step ≡ ends usage)

pub check_severity-Usable : (s : Option String) → Usable (check_severity s)
check_severity-Usable s = elim (Bool-cases (severity_valid s)) [
  | inl h ↦ inl (s, rw h refl, h)
  | inr h ↦ inr (rw h refl)
]
