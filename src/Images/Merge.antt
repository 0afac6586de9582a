-- ===== src/Images/Merge.antt =====
-- The loop that trivy_adapter.py and grype_adapter.py of control-plane/app share: `merged` keeps the
-- first record of each key.
pub mod Laws
use kaaval.Base.{Bool, true, false, Option, none, some, List, [], ◌∷◌, if◌then◌else◌, Eq}
use kaaval.Base.Dict.{Dict, has_key, insert}

module _ {ℓ κ} {K : Type ℓ} {V : Type κ} ⦃e : Eq K⦄ where
  -- The rest of a round, from the key and the record of the entry: `none` is a malformed entry.
  unfoldable pub keep_first : Option (K × V) → Dict K V → Dict K V
  unfolding has_key insert
  keep_first none merged = merged
  keep_first (some (k, v)) merged = if has_key k merged then merged else insert k v merged

  unfoldable pub merge {μ} : {A : Type μ} → (A → Option (K × V)) → List A → Dict K V → Dict K V
  unfolding keep_first
  merge entry [] merged = merged
  merge entry (a ∷ entries) merged = merge entry entries (keep_first (entry a) merged)
