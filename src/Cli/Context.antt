-- ===== src/Cli/Context.antt =====
-- control-plane/app/cli.py: `load_context`. Reading the file and parsing YAML are not modelled: the
-- document is an argument. A key that is not a text is left out, since no key that is read is like it.

pub mod Laws
use kaaval.Base.{
  ℕ, String, Bool, true, false, not, ◌&&◌, Option, none, some, List, [], ◌∷◌, if◌then◌else◌,
  nonempty, nat_beq, contains, string_eq,
}
use kaaval.Base.Dict.{Dict, lookup}
use kaaval.Base.Text.{is_text}
use kaaval.Floats.{Floats}
use kaaval.Scoring.{Context, valid_environments, valid_data_classifications, valid_exposures}

infixl 1 ◌>>=◌
abbrev pub ◌>>=◌ {ℓ κ} : {A : Type ℓ} {B : Type κ} → Option A → (A → Option B) → Option B
none >>= k = none
some x >>= k = k x

-- A float as YAML and Python read it: of a text and of an integer, with its sign, and `math.isfinite`.
-- `none` is the ValueError of a text, and the OverflowError of an integer.
pub record Numbers (F : Floats) : Type 0 where
  pub of_text : String → Option F.Float
  pub of_integer : Bool × ℕ → Option F.Float
  pub is_finite : F.Float → Bool

unfoldable pub all_texts : List (Option String) → Option (List String)
all_texts [] = some []
all_texts (none ∷ vs) = none
all_texts (some s ∷ vs) =
    let rest = all_texts vs in elim rest [ none ↦ none | some ss ↦ some (s ∷ ss) ]

module _ (F : Floats) where
  -- What `yaml.safe_load` gives for a value. Of an element of a sequence only the text is read; `none` is
  -- an element that is none. Of a mapping nothing is read but that it is one.
  pub data Value : Type 0 where
    null : Value
    boolean : Bool → Value
    integer : Bool × ℕ → Value
    real : F.Float → Value
    text : String → Value
    sequence : List (Option String) → Value
    mapping : Value

  -- What comes of reading the file: no text or no YAML, a mapping, or another document.
  pub data Document : Type 0 where
    unreadable : Document
    fields : Dict String Value → Document
    other : Value → Document

  -- `bool(v)` of a document that is no mapping with keys
  unfoldable pub is_truthy : Value → Bool
  is_truthy null = false
  is_truthy (boolean b) = b
  is_truthy (integer (minus, n)) = not (nat_beq n 0)
  is_truthy (real x) = not (F.at_most x (F.tenths 0) && F.at_most (F.tenths 0) x)
  is_truthy (text s) = is_text s
  is_truthy (sequence vs) = nonempty vs
  is_truthy mapping = false

  -- `yaml.safe_load(...) or {}`, if it is a mapping then
  unfoldable pub document_fields : Document → Option (Dict String Value)
  unfolding is_truthy
  document_fields unreadable = none
  document_fields (fields fs) = some fs
  document_fields (other v) = if is_truthy v then none else some []

  -- `isinstance(v, str) and v in valid`, with the default where the key is missing
  unfoldable pub valid_text : String → List String → Option Value → Option String
  unfolding contains
  valid_text default valid none = some default
  valid_text default valid (some (text s)) = if contains valid s then some s else none
  valid_text default valid (some _) = none

  unfoldable pub valid_scope : Option Value → Option (List String)
  unfolding all_texts
  valid_scope none = some []
  valid_scope (some (sequence vs)) = all_texts vs
  valid_scope (some _) = none

  abbrev not_null : Value → Option Value
  not_null null = none
  not_null v = some v

  -- `data.get(key)`: a null is `None`.
  unfoldable pub get_value : String → Dict String Value → Option Value
  unfolding lookup
  get_value key fs = elim (lookup key fs) [ none ↦ none | some v ↦ not_null v ]

  -- The context, with the thresholds that stand beside it.
  pub record Loaded : Type 0 where
    pub context : Context
    pub fail_on_score : Option Value
    pub fail_on_severity : Option Value

  abbrev pub default_loaded : Loaded
  default_loaded = record {
    context = record {
      environment = some (some "production");
      data_classification = some (some "internal");
      compliance_scope = [];
      exposure = some (some "internal");
    };
    fail_on_score = none;
    fail_on_severity = none;
  }

  -- From the fields of the file; `none` is `_fail_usage`.
  unfoldable pub read_context : Dict String Value → Option Loaded
  unfolding valid_text valid_scope get_value lookup
  read_context fs = do
    environment ← valid_text "production" valid_environments (lookup "environment" fs)
    data_classification ←
        valid_text "internal" valid_data_classifications (lookup "data_classification" fs)
    exposure ← valid_text "internal" valid_exposures (lookup "exposure" fs)
    compliance_scope ← valid_scope (lookup "compliance_scope" fs)
    some (record {
      context = record {
        environment = some (some environment);
        data_classification = some (some data_classification);
        compliance_scope = compliance_scope;
        exposure = some (some exposure);
      };
      fail_on_score = get_value "fail_on_score" fs;
      fail_on_severity = get_value "fail_on_severity" fs;
    })

  -- No path, or the document at the path.
  unfoldable pub load_context : Option Document → Option Loaded
  unfolding document_fields read_context
  load_context none = some default_loaded
  load_context (some doc) = do fs ← document_fields doc; read_context fs
