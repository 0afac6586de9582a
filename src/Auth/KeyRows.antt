-- ===== src/Auth/KeyRows.antt =====
-- The rows of API keys that get_user_by_api_key of control-plane/app/auth.py reads.
use kaaval.Base.{
  ◌≡◌, refl, ap, subst, ℕ, String, Bool, true, false, none, some, List, [], ◌∷◌, ◌++◌, All,
  some-injective, ltb, ◌==◌, string_eq, option_eq, Bool-cases, inl, inr,
}
use kaaval.Base.Text.{text_length}
use kaaval.Base.Parsing.{take_chars}
use kaaval.Auth.{Crypto, ApiKey, find_key, stamp_key, verify_password}

-- The first key with the prefix stands in front of the rest of the rows, and the stamp writes to it alone.
pub find_key-cases :
    (prefix : String) (k : ApiKey) (keys : List ApiKey)
    → find_key prefix keys ≡ some k
    → (before : List ApiKey) × (after : List ApiKey) × (keys ≡ before ++ k ∷ after)
      × All (λ j. (j.prefix == prefix) ≡ false) before
      × ((k.prefix == prefix) ≡ true)
unfolding find_key
find_key-cases prefix k [] h = cc
find_key-cases prefix k (j ∷ keys) h = elim (Bool-cases (j.prefix == prefix)) [
  | inl e ↦
      let same : j ≡ k = some-injective j k (rw e at h) in
      ([], keys, ap (λ i. i ∷ keys) same, tt, subst (λ i. (i.prefix == prefix) ≡ true) same e)
  | inr e ↦
      let (before, after, q, others, own) = find_key-cases prefix k keys (rw e at h) in
      (j ∷ before, after, ap (◌∷◌ j) q, (e, others), own)
]

pub stamp_key-split :
    (now : ℕ) (prefix : String) (k : ApiKey) (before after : List ApiKey)
    → All (λ j. (j.prefix == prefix) ≡ false) before
    → (k.prefix == prefix) ≡ true
    → stamp_key now prefix (before ++ k ∷ after)
      ≡ before ++ record k { last_used_at = some now } ∷ after
unfolding stamp_key
stamp_key-split now prefix k [] after others own = rw own refl
stamp_key-split now prefix k (j ∷ before) after (differs, others) own =
    rw differs (ap (◌∷◌ j) (stamp_key-split now prefix k before after others own))

-- The rows are those before the first key with the prefix of the text, that key, whose hash the text
-- verifies or not, and the rows after it.
pub record HasKey (crypto : Crypto) (x_api_key : String) (keys : List ApiKey) (verdict : Bool)
    : Type 0 where
  pub before : List ApiKey
  pub key : ApiKey
  pub after : List ApiKey
  pub rows : keys ≡ before ++ key ∷ after
  pub others : All (λ j. (j.prefix == take_chars 7 x_api_key) ≡ false) before
  pub own : (key.prefix == take_chars 7 x_api_key) ≡ true
  pub verified : verify_password crypto x_api_key key.key_hash ≡ verdict

-- Why a text opens no key: it is too short, or no key has its prefix, or the first one that has does not
-- verify it.
pub data IsRefused (crypto : Crypto) (x_api_key : String) (keys : List ApiKey) : Type 0 where
  short : ltb (text_length x_api_key) 8 ≡ true → IsRefused crypto x_api_key keys
  unknown :
      All (λ j. (j.prefix == take_chars 7 x_api_key) ≡ false) keys → IsRefused crypto x_api_key keys
  wrong : HasKey crypto x_api_key keys false → IsRefused crypto x_api_key keys

pub find_key-none :
    (prefix : String) (keys : List ApiKey)
    → find_key prefix keys ≡ none
    → All (λ j. (j.prefix == prefix) ≡ false) keys
unfolding find_key
find_key-none prefix [] h = tt
find_key-none prefix (j ∷ keys) h = elim (Bool-cases (j.prefix == prefix)) [
  | inl e ↦ cc (rw e at h)
  | inr e ↦ (e, find_key-none prefix keys (rw e at h))
]
