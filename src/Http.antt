-- ===== src/Http.antt =====
-- What a route of control-plane/app returns: a value, or the HTTPException that it raises; and what a
-- call of the services returns, or the text of the exception that it raises.
use kaaval.Base.{ℕ, String, ◌≡◌, refl, inl, inr, ◌⊎◌}

pub data Reply {ℓ} (A : Type ℓ) : Type ℓ where
  sent : A → Reply A
  http_error : ℕ → String → Reply A

pub data Outcome {ℓ} (A : Type ℓ) : Type ℓ where
  returned : A → Outcome A
  raised : String → Outcome A

pub returned-injective {ℓ} : {A : Type ℓ} (a b : A) → returned a ≡ returned b → a ≡ b
returned-injective a b h = cc

pub Outcome-cases {ℓ} :
    {A : Type ℓ} (o : Outcome A) → ((e : String) × (o ≡ raised e)) ⊎ ((a : A) × (o ≡ returned a))
Outcome-cases (raised e) = inl (e, refl)
Outcome-cases (returned a) = inr (a, refl)
