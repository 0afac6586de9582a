-- ===== src/Images/Common.antt =====
-- What trivy_adapter.py and grype_adapter.py of control-plane/app define alike.
pub mod Laws
use kaaval.Base.{String, ◌<>◌, Bool, true, false, Option, none, some, List, [], ◌∷◌, if◌then◌else◌}
use kaaval.Base.Text.{upper, show, truthy}
use kaaval.Floats.{Floats}
use kaaval.Finding.{Finding}

-- `dedup_key`: CVE, image, component.
abbrev pub DedupKey : Type 0
DedupKey = String × (String × String)

-- `_severity`
unfoldable pub severity : Option String → String
severity raw = if truthy raw then upper (show raw) else "UNKNOWN"

module _ (F : Floats) where
  -- `max(scores)`: a later score takes the place of one that it exceeds.
  max_from : F.Float → List F.Float → F.Float
  max_from best [] = best
  max_from best (score ∷ scores) = max_from (if F.at_most score best then best else score) scores

  -- `max(scores) if scores else None`
  unfoldable pub max_score : List F.Float → Option F.Float
  unfolding max_from
  max_score [] = none
  max_score (score ∷ scores) = some (max_from score scores)

-- The values that are there.
unfoldable pub known {ℓ} : {A : Type ℓ} → List (Option A) → List A
known [] = []
known (none ∷ xs) = known xs
known (some x ∷ xs) = x ∷ known xs
