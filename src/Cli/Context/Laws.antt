-- ===== src/Cli/Context/Laws.antt =====
-- What `load_context` of control-plane/app/cli.py takes from a context file.
use kaaval.Base.{
  ◌≡◌, refl, subst, sym, ap, ◌∙◌, String, true, Option, none, some, some-injective, List, [], ◌∷◌,
  map, contains, string_eq, inl, inr, ◌⊎◌, Bool-cases, Option-cases,
}
use kaaval.Base.Dict.{Dict, lookup}
use kaaval.Floats.{Floats}
use kaaval.Scoring.{Context, valid_environments, valid_data_classifications, valid_exposures}
use kaaval.Cli.Context.{
  ◌>>=◌, Document, Value, null, boolean, integer, real, text, sequence, mapping, fields, valid_text,
  all_texts, valid_scope, get_value, Loaded, document_fields, read_context, load_context,
}

all_texts-eq :
    (vs : List (Option String)) (ss : List String) → all_texts vs ≡ some ss → vs ≡ map some ss
unfolding all_texts
all_texts-eq [] ss h = ap (map some) (some-injective [] ss h)
all_texts-eq (none ∷ vs) ss h = cc
all_texts-eq (some s ∷ vs) ss h = elim (Option-cases (all_texts vs)) [
  | inl q ↦ cc (rw q at h)
  | inr (ts, q) ↦
      ap (◌∷◌ (some s)) (all_texts-eq vs ts q)
      ∙ ap (map some) (some-injective (s ∷ ts) ss (rw q at h))
]

bind-some {ℓ κ} :
    {A : Type ℓ} {B : Type κ} (o : Option A) (k : A → Option B) (b : B)
    → (o >>= k) ≡ some b
    → (a : A) × (o ≡ some a) × (k a ≡ some b)
bind-some none k b h = cc
bind-some (some a) k b h = (a, refl, h)

module _ (F : Floats) where
  -- A text of the context is the default where the file lacks its key, and else the valid text that
  -- stands there.
  abbrev pub IsTaken : Option (Value F) → String → List String → String → Type 0
  IsTaken found default valid s =
      ((found ≡ none) × (s ≡ default)) ⊎ ((found ≡ some (text s)) × (contains valid s ≡ true))

  valid_text-IsTaken :
      (default : String) (valid : List String) (found : Option (Value F)) (s : String)
      → valid_text F default valid found ≡ some s
      → IsTaken found default valid s
  unfolding valid_text
  valid_text-IsTaken default valid none s h = inl (refl, sym (some-injective default s h))
  valid_text-IsTaken default valid (some (text t)) s h = elim (Bool-cases (contains valid t)) [
    | inl k ↦ let same : t ≡ s = some-injective t s (rw k at h) in inr (rw same refl, rw same at k)
    | inr k ↦ cc (rw k at h)
  ]
  valid_text-IsTaken default valid (some null) s h = cc
  valid_text-IsTaken default valid (some (boolean b)) s h = cc
  valid_text-IsTaken default valid (some (integer n)) s h = cc
  valid_text-IsTaken default valid (some (real x)) s h = cc
  valid_text-IsTaken default valid (some (sequence vs)) s h = cc
  valid_text-IsTaken default valid (some mapping) s h = cc

  abbrev pub IsScope : Option (Value F) → List String → Type 0
  IsScope found scope = ((found ≡ none) × (scope ≡ [])) ⊎ (found ≡ some (sequence (map some scope)))

  valid_scope-IsScope :
      (found : Option (Value F)) (scope : List String)
      → valid_scope F found ≡ some scope
      → IsScope found scope
  unfolding valid_scope
  valid_scope-IsScope none scope h = inl (refl, sym (some-injective [] scope h))
  valid_scope-IsScope (some (sequence vs)) scope h =
      inr (ap (λ us. some (sequence us)) (all_texts-eq vs scope h))
  valid_scope-IsScope (some null) scope h = cc
  valid_scope-IsScope (some (boolean b)) scope h = cc
  valid_scope-IsScope (some (integer n)) scope h = cc
  valid_scope-IsScope (some (real x)) scope h = cc
  valid_scope-IsScope (some (text t)) scope h = cc
  valid_scope-IsScope (some mapping) scope h = cc

  -- Every field of the context is taken from the file or is the default, and the thresholds are those
  -- of the file.
  pub record IsRead (fs : Dict String (Value F)) (loaded : Loaded F) : Type 0 where
    pub environment : String
    pub has_environment : loaded.context.environment ≡ some (some environment)
    pub takes_environment :
        IsTaken (lookup "environment" fs) "production" valid_environments environment
    pub classification : String
    pub has_classification : loaded.context.data_classification ≡ some (some classification)
    pub takes_classification :
        IsTaken
          (lookup "data_classification" fs)
          "internal"
          valid_data_classifications
          classification
    pub exposure : String
    pub has_exposure : loaded.context.exposure ≡ some (some exposure)
    pub takes_exposure : IsTaken (lookup "exposure" fs) "internal" valid_exposures exposure
    pub takes_scope : IsScope (lookup "compliance_scope" fs) loaded.context.compliance_scope
    pub takes_score : loaded.fail_on_score ≡ get_value F "fail_on_score" fs
    pub takes_severity : loaded.fail_on_severity ≡ get_value F "fail_on_severity" fs

  -- A context file that is a mapping and is not refused gives, for each of the environment, the data
  -- classification and the exposure, the default where the key is missing, and else the text that stands
  -- there, which is a valid one; for the compliance scope the empty list or the list of texts that stands
  -- there; and the thresholds of the file.
  pub load_context_reads :
      (fs : Dict String (Value F)) (loaded : Loaded F)
      → load_context F (some (fields fs)) ≡ some loaded
      → IsRead fs loaded
  unfolding load_context document_fields read_context
  load_context_reads fs loaded h =
      let (environment, e, h₁) = bind-some _ _ loaded h in
      let (classification, d, h₂) = bind-some _ _ loaded h₁ in
      let (exposure, x, h₃) = bind-some _ _ loaded h₂ in
      let (scope, c, h₄) = bind-some _ _ loaded h₃ in
      subst (IsRead fs) (some-injective _ loaded h₄) (record {
        environment = environment;
        has_environment = refl;
        takes_environment = valid_text-IsTaken "production" valid_environments _ environment e;
        classification = classification;
        has_classification = refl;
        takes_classification =
            valid_text-IsTaken "internal" valid_data_classifications _ classification d;
        exposure = exposure;
        has_exposure = refl;
        takes_exposure = valid_text-IsTaken "internal" valid_exposures _ exposure x;
        takes_scope = valid_scope-IsScope _ scope c;
        takes_score = refl;
        takes_severity = refl;
      })

-- The texts of a context that is used are there, and are among those that the score has weights for.
pub record IsValidContext (c : Context) : Type 0 where
  pub environment : String
  pub has_environment : c.environment ≡ some (some environment)
  pub valid_environment : contains valid_environments environment ≡ true
  pub classification : String
  pub has_classification : c.data_classification ≡ some (some classification)
  pub valid_classification : contains valid_data_classifications classification ≡ true
  pub exposure : String
  pub has_exposure : c.exposure ≡ some (some exposure)
  pub valid_exposure : contains valid_exposures exposure ≡ true

module _ (F : Floats) where
  taken-valid :
      (found : Option (Value F)) (default : String) (valid : List String) (s : String)
      → contains valid default ≡ true
      → IsTaken F found default valid s
      → contains valid s ≡ true
  taken-valid found default valid s h (inl (q, e)) = rw e h
  taken-valid found default valid s h (inr (q, e)) = e

  -- Whatever the file, a context that load_context gives is valid.
  pub load_context-IsValidContext :
      (file : Option (Document F)) (loaded : Loaded F)
      → load_context F file ≡ some loaded
      → IsValidContext loaded.context
  unfolding load_context contains
  load_context-IsValidContext none loaded h =
      subst (λ l. IsValidContext l.context) (some-injective _ loaded h)
        (record {
          environment = "production";
          has_environment = refl;
          valid_environment = refl;
          classification = "internal";
          has_classification = refl;
          valid_classification = refl;
          exposure = "internal";
          has_exposure = refl;
          valid_exposure = refl;
        })
  load_context-IsValidContext (some doc) loaded h =
      let (fs, q, k) = bind-some (document_fields F doc) (read_context F) loaded h in
      let r : IsRead F fs loaded = load_context_reads F fs loaded k in
      record {
        environment = r.environment;
        has_environment = r.has_environment;
        valid_environment =
            taken-valid _ "production" valid_environments r.environment refl r.takes_environment;
        classification = r.classification;
        has_classification = r.has_classification;
        valid_classification =
            taken-valid _ "internal" valid_data_classifications r.classification refl
              r.takes_classification;
        exposure = r.exposure;
        has_exposure = r.has_exposure;
        valid_exposure = taken-valid _ "internal" valid_exposures r.exposure refl r.takes_exposure;
      }
