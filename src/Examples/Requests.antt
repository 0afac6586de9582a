-- ===== src/Examples/Requests.antt =====
-- Requests: a body in chunks, the health of a deployment, a session, and a tenant's risk context.
use kaaval.Base.{
  ◌≡◌, ◌≢◌, refl, ℕ, ◌+◌, ◌*◌, ◌++◌, ◌<◌, ◌≤◌, String, true, false, Option, none, some, List, [],
  ◌∷◌, if◌then◌else◌, length, ltb, any, contains, ◌&&◌, ◌==◌, nat_eq, nat_beq, string_eq, eq_iff,
  ==-refl, Bool-cases, inl, inr, arith, ◌⊎◌,
}
use kaaval.Base.Dict.{lookup}
use kaaval.Base.Parsing.{to_signed_int}
use kaaval.Http.{sent, http_error}
use kaaval.Limits.{Bytes, too_large, read_body_with_limit}
use kaaval.Limits.Laws.{joined, read_body_with_limit-eq}
use kaaval.Health.{check_cve_feeds}
use kaaval.Health.Laws.{is_fresh, passes-check_cve_feeds}
use kaaval.Auth.{
  Claims, Crypto, User, ApiKey, Keys, find_user, find_user_by_id, verify_password,
  create_access_token, create_refresh_token, get_user_from_token, get_user_by_api_key, issue, login,
  refresh,
}
use kaaval.Auth.Laws.{IsSigned, login_session, tokens_separate, get_user_by_api_key_sound}
use kaaval.Auth.KeyRows.{HasKey, IsRefused}
use kaaval.Cve.Contexts.{
  ScanContext, ScanContextUpdate, updated, update_scan_context, write_context, is_refused,
  get_or_create_scan_context, get_scan_context,
}
use kaaval.Cve.Contexts.Laws.{AllValid, update_scan_context-AllValid, update_scan_context-reads}
use kaaval.Base.{false}
use kaaval.Base.Text.{text_length}
use kaaval.Examples.Feeds.{nvd_feed}

abbrev chunks : List Bytes
chunks = (1 ∷ 2 ∷ []) ∷ (3 ∷ 4 ∷ []) ∷ (5 ∷ []) ∷ []

three_announced : to_signed_int "3" ≡ some (false, 3)
unfolding to_signed_int
three_announced = refl

read_body_with_limit-eq_example :
    (read_body_with_limit (some "3") chunks 5).0
    ≡ (if ltb 5 (length (joined chunks)) then too_large 5 else sent (joined chunks))
read_body_with_limit-eq_example =
    read_body_with_limit-eq (some "3") chunks 5 (3, three_announced, omega arith)

abbrev plain : ℕ → String
plain t = "2026-01-01T00:00:00"

passes-check_cve_feeds_example :
    (check_cve_feeds plain 1000 (nvd_feed ∷ [])).passes
    ≡ any (λ f. f.enabled && is_fresh 1000 f) (nvd_feed ∷ [])
passes-check_cve_feeds_example = passes-check_cve_feeds plain 1000 (nvd_feed ∷ [])

abbrev alice : User
alice = record {
  id = 4;
  tenant_id = 1;
  username = "alice";
  password_hash = "secret";
  role = "admin";
}

abbrev claims_under : ℕ → String → String × Claims → Option Claims
claims_under now key (signed_by, c) =
    if key == signed_by then (if ltb now c.exp then some c else none) else none

-- Tokens that carry their key and their claims, and hashes that are the password itself.
abbrev open_crypto : Crypto
open_crypto = record {
  Token = String × Claims;
  encode = λ key c. (key, c);
  decode = claims_under;
  bytes = λ s. [];
  checkpw = λ password hashed. some true;
  hashpw = λ password. "hash";
}

claims_under-valid :
    (now : ℕ) (key : String) (c : Claims) → now < c.exp → claims_under now key (key, c) ≡ some c
claims_under-valid now key c h =
    let soon : ltb now c.exp ≡ true = ground arith in rw (==-refl key, soon) refl

claims_under-expired :
    (now : ℕ) (key : String) (c : Claims) → c.exp ≤ now → claims_under now key (key, c) ≡ none
claims_under-expired now key c h =
    let late : ltb now c.exp ≡ false = ground arith in rw (==-refl key, late) refl

claims_under-other :
    (now : ℕ) (key signed_by : String) (c : Claims)
    → key ≢ signed_by
    → claims_under now key (signed_by, c) ≡ none
claims_under-other now key signed_by c h = elim (Bool-cases (key == signed_by)) [
  | inl e ↦ absurd (h ((eq_iff key signed_by).0 e))
  | inr e ↦ rw e refl
]

open_crypto-IsSigned : IsSigned open_crypto
open_crypto-IsSigned = record {
  valid = claims_under-valid;
  expired = claims_under-expired;
  other_key = claims_under-other;
}

abbrev two_keys : Keys
two_keys = record { secret = "a"; refresh_secret = "b" }

a-ne-b : two_keys.secret ≢ two_keys.refresh_secret
a-ne-b h = cc ((eq_iff "a" "b").1 h)

alice_found : find_user "alice" (alice ∷ []) ≡ some alice
unfolding find_user
alice_found = refl

alice_logs_in :
    (login open_crypto two_keys 1000 true "alice" "secret" (alice ∷ []) []).0
    ≡ sent (issue open_crypto two_keys 1000 "alice")
unfolding login find_user verify_password
alice_logs_in = refl

login_session_example :
    (user : User) × (find_user "alice" (alice ∷ []) ≡ some user)
    × (verify_password open_crypto "secret" user.password_hash ≡ true)
    × (get_user_from_token open_crypto "a" 1500
          (create_access_token open_crypto "a" 1000 "alice")
          (alice ∷ [])
        ≡ some user)
    × (refresh open_crypto two_keys 90000
          (create_refresh_token open_crypto "b" 1000 "alice")
          (alice ∷ [])
        ≡ sent (issue open_crypto two_keys 90000 "alice"))
login_session_example =
    login_session open_crypto open_crypto-IsSigned two_keys 1000 true "alice" "secret" (alice ∷ [])
      [] (issue open_crypto two_keys 1000 "alice") 1500 90000 refl alice_logs_in (omega arith)
      (omega arith)

tokens_separate_example :
    (refresh open_crypto two_keys 1500
        (create_access_token open_crypto "a" 1000 "alice")
        (alice ∷ [])
      ≡ http_error 401 "Invalid or expired refresh token")
    × (get_user_from_token open_crypto "a" 1500
          (create_refresh_token open_crypto "b" 1000 "alice")
          (alice ∷ [])
        ≡ (if two_keys.secret == two_keys.refresh_secret && ltb 1500 (1000 + 7 * 86400)
            then find_user "alice" (alice ∷ [])
            else none))
tokens_separate_example =
    tokens_separate open_crypto open_crypto-IsSigned two_keys 1000 1500 "alice" (alice ∷ [])

abbrev ci_key : ApiKey
ci_key = record { user_id = 4; prefix = "abcdefg"; key_hash = "hash"; last_used_at = none }

get_user_by_api_key_sound_example :
    (IsRefused open_crypto "abcdefgh" (ci_key ∷ [])
      × (get_user_by_api_key open_crypto 1000 (some "abcdefgh") (alice ∷ []) (ci_key ∷ [])
          ≡ (none, ci_key ∷ [])))
    ⊎ ((ltb (text_length "abcdefgh") 8 ≡ false)
        × (u : HasKey open_crypto "abcdefgh" (ci_key ∷ []) true) × (get_user_by_api_key open_crypto
              1000
              (some "abcdefgh")
              (alice ∷ [])
              (ci_key ∷ [])
            ≡ (
              find_user_by_id u.key.user_id (alice ∷ []),
              u.before ++ record u.key { last_used_at = some 1000 } ∷ u.after,
            )))
get_user_by_api_key_sound_example =
    get_user_by_api_key_sound open_crypto 1000 "abcdefgh" (alice ∷ []) (ci_key ∷ [])

abbrev staging : ScanContextUpdate
staging = record {
  environment = some "staging";
  data_classification = none;
  compliance_scope = none;
  exposure = none;
}

update_scan_context-AllValid_example : AllValid (update_scan_context staging 1 []).1
update_scan_context-AllValid_example = update_scan_context-AllValid staging 1 [] tt

abbrev staged : ScanContext
staged = record {
  environment = "staging";
  data_classification = "internal";
  compliance_scope = [];
  exposure = "internal";
}

staging_accepted : (update_scan_context staging 1 []).0 ≡ sent staged
unfolding update_scan_context is_refused contains write_context get_or_create_scan_context lookup
staging_accepted = refl

update_scan_context-reads_example :
    (staged ≡ updated staging (get_scan_context 1 []).0)
    × ((get_scan_context 2 (update_scan_context staging 1 []).1).0
        ≡ (if nat_beq 2 1 then staged else (get_scan_context 2 []).0))
update_scan_context-reads_example = update_scan_context-reads staging 1 2 [] staged staging_accepted
