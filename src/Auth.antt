-- ===== src/Auth.antt =====
-- control-plane/app/auth.py, the routes under /auth and `seed_admin_user` of main.py, and `audit` of
-- audit.py. The tables of users, API keys and audit events are lists of rows; PyJWT and bcrypt are a
-- parameter; times are in seconds.
pub mod KeyRows
pub mod Laws
use kaaval.Base.{
  ℕ, ◌+◌, ◌*◌, String, Bool, true, false, not, ◌&&◌, ◌||◌, Option, none, some, List, [], ◌∷◌, ◌++◌,
  if◌then◌else◌, take, ltb, get_or, ◌==◌, string_eq, nat_eq, option_eq,
}
use kaaval.Base.Text.{is_text, truthy, text_length}
use kaaval.Base.Parsing.{take_chars}
use kaaval.Http.{Reply, sent, http_error}

-- The claims that the program puts into a token and reads.
pub record Claims : Type 0 where
  pub sub : Option String
  pub kind : Option String
  pub exp : ℕ

-- PyJWT and bcrypt.
pub record Crypto : Type 1 where
  -- the text of a token
  pub Token : Type 0
  -- `jwt.encode(claims, key)`
  pub encode : String → Claims → Token
  -- `jwt.decode(token, key)` at a time; `none` is a PyJWTError
  pub decode : ℕ → String → Token → Option Claims
  -- `s.encode()`
  pub bytes : String → List ℕ
  -- `bcrypt.checkpw`; `none` is the ValueError
  pub checkpw : List ℕ → List ℕ → Option Bool
  -- `bcrypt.hashpw(password, bcrypt.gensalt()).decode()`
  pub hashpw : List ℕ → String

abbrev pub access_token_expire_minutes : ℕ
access_token_expire_minutes = 15

abbrev pub refresh_token_expire_days : ℕ
refresh_token_expire_days = 7

abbrev pub bcrypt_max : ℕ
bcrypt_max = 72

-- A row of User
pub record User : Type 0 where
  pub id : ℕ
  pub tenant_id : ℕ
  pub username : String
  pub password_hash : String
  pub role : String

-- A row of APIKey
pub record ApiKey : Type 0 where
  pub user_id : ℕ
  pub prefix : String
  pub key_hash : String
  pub last_used_at : Option ℕ

-- `db.query(User).filter(User.username == username).first()`
unfoldable pub find_user : String → List User → Option User
find_user username [] = none
find_user username (u ∷ users) = if u.username == username then some u else find_user username users

unfoldable pub find_user_by_id : ℕ → List User → Option User
find_user_by_id id [] = none
find_user_by_id id (u ∷ users) = if u.id == id then some u else find_user_by_id id users

-- The first key with a prefix, between the rows before it and those after it.
unfoldable pub find_key : String → List ApiKey → Option ApiKey
find_key prefix [] = none
find_key prefix (k ∷ keys) = if k.prefix == prefix then some k else find_key prefix keys

-- `api_key_record.last_used_at = now` of the first key with a prefix.
unfoldable pub stamp_key : ℕ → String → List ApiKey → List ApiKey
stamp_key now prefix [] = []
stamp_key now prefix (k ∷ keys) =
    let rest = stamp_key now prefix keys in
    if k.prefix == prefix then record k { last_used_at = some now } ∷ keys else k ∷ rest

module _ (crypto : Crypto) where
  unfoldable pub verify_password : String → String → Bool
  unfolding take
  verify_password plain_password hashed_password =
      elim (crypto.checkpw (take bcrypt_max (crypto.bytes plain_password))
        (crypto.bytes hashed_password)) [ none ↦ false | some b ↦ b ]

  unfoldable pub get_password_hash : String → String
  unfolding take
  get_password_hash password = crypto.hashpw (take bcrypt_max (crypto.bytes password))

  unfoldable pub create_access_token : String → ℕ → String → crypto.Token
  create_access_token key now username = crypto.encode key (record {
    sub = some username;
    kind = some "access";
    exp = now + access_token_expire_minutes * 60;
  })

  unfoldable pub create_refresh_token : String → ℕ → String → crypto.Token
  create_refresh_token key now username = crypto.encode key (record {
    sub = some username;
    kind = some "refresh";
    exp = now + refresh_token_expire_days * 86400;
  })

  abbrev pub refresh_subject : Option Claims → Option String
  refresh_subject none = none
  refresh_subject (some claims) = if claims.kind == some "refresh" then claims.sub else none

  unfoldable pub decode_refresh_token : String → ℕ → crypto.Token → Option String
  decode_refresh_token key now token = refresh_subject (crypto.decode now key token)

  abbrev pub subject : Option Claims → Option String
  subject none = none
  subject (some claims) = claims.sub

  abbrev pub user_named : Option String → List User → Option User
  user_named none users = none
  user_named (some username) users = find_user username users

  unfoldable pub get_user_from_token : String → ℕ → crypto.Token → List User → Option User
  unfolding find_user
  get_user_from_token key now token users = user_named (subject (crypto.decode now key token)) users

  -- The user of a key that is found and verified, and the table with the time of its use.
  abbrev pub key_user :
      ℕ → String → Option ApiKey → List User → List ApiKey → Option User × List ApiKey
  key_user now x_api_key none users keys = (none, keys)
  key_user now x_api_key (some record_of) users keys =
      if verify_password x_api_key record_of.key_hash
      then (find_user_by_id record_of.user_id users, stamp_key now record_of.prefix keys)
      else (none, keys)

  unfoldable pub get_user_by_api_key :
      ℕ → Option String → List User → List ApiKey → Option User × List ApiKey
  unfolding find_key stamp_key find_user_by_id verify_password take_chars text_length
  get_user_by_api_key now none users keys = (none, keys)
  get_user_by_api_key now (some x_api_key) users keys =
      if ltb (text_length x_api_key) 8
      then (none, keys)
      else key_user now x_api_key (find_key (take_chars 7 x_api_key) keys) users keys

-- `token_user or api_key_user`
unfoldable pub get_current_active_user : Option User → Option User → Reply User
get_current_active_user (some user) api_key_user = sent user
get_current_active_user none (some user) = sent user
get_current_active_user none none = http_error 401 "Not authenticated"

unfoldable pub get_current_user : Option User → Reply User
get_current_user (some user) = sent user
get_current_user none = http_error 401 "Could not validate credentials"

-- A row of AuditLog
pub record AuditEvent : Type 0 where
  pub tenant_id : ℕ
  pub actor : String
  pub action : String
  pub resource_type : String
  pub outcome : String

-- `audit` by a user, or by a name with the default tenant; a write that fails is only logged.
abbrev pub audit : Bool → AuditEvent → List AuditEvent → List AuditEvent
audit written event log = if written then log ++ event ∷ [] else log

abbrev pub default_tenant : ℕ
default_tenant = 0

pub record Tokens (crypto : Crypto) : Type 0 where
  pub access_token : crypto.Token
  pub refresh_token : crypto.Token

-- SECRET_KEY and REFRESH_SECRET_KEY
pub record Keys : Type 0 where
  pub secret : String
  pub refresh_secret : String

module _ (crypto : Crypto) (keys : Keys) where
  abbrev pub issue : ℕ → String → Tokens crypto
  issue now username = record {
    access_token = create_access_token crypto keys.secret now username;
    refresh_token = create_refresh_token crypto keys.refresh_secret now username;
  }

  abbrev pub login_failure : String → AuditEvent
  login_failure username = record {
    tenant_id = default_tenant;
    actor = username;
    action = "auth.login_failure";
    resource_type = "auth";
    outcome = "failure";
  }

  abbrev pub login_success : User → AuditEvent
  login_success u = record {
    tenant_id = u.tenant_id;
    actor = u.username;
    action = "auth.login_success";
    resource_type = "auth";
    outcome = "success";
  }

  abbrev pub refuse_login :
      Bool → String → List AuditEvent → Reply (Tokens crypto) × List AuditEvent
  refuse_login written username log =
      (http_error 401 "Incorrect username or password", audit written (login_failure username) log)

  -- POST /auth/token; `written` says whether the audit event can be written.
  unfoldable pub login :
      ℕ
      → Bool
      → String
      → String
      → List User
      → List AuditEvent
      → Reply (Tokens crypto) × List AuditEvent
  unfolding find_user verify_password create_access_token create_refresh_token
  login now written username password users log = elim (find_user username users) [
    | none ↦ refuse_login written username log
    | some user ↦
        (if verify_password crypto password user.password_hash
          then (sent (issue now user.username), audit written (login_success user) log)
          else refuse_login written username log)
  ]

  abbrev pub refresh_user : ℕ → Option User → Reply (Tokens crypto)
  refresh_user now none = http_error 401 "User not found"
  refresh_user now (some user) = sent (issue now user.username)

  -- `if not username`, and the rest of the route.
  abbrev pub refresh_subject_of : ℕ → Option String → List User → Reply (Tokens crypto)
  refresh_subject_of now none users = http_error 401 "Invalid or expired refresh token"
  refresh_subject_of now (some username) users =
      if is_text username
      then refresh_user now (find_user username users)
      else http_error 401 "Invalid or expired refresh token"

  -- POST /auth/refresh
  unfoldable pub refresh : ℕ → crypto.Token → List User → Reply (Tokens crypto)
  unfolding decode_refresh_token find_user create_access_token create_refresh_token
  refresh now token users =
      refresh_subject_of now (decode_refresh_token crypto keys.refresh_secret now token) users

  abbrev pub admin_user : ℕ → String → User
  admin_user new_id password = record {
    id = new_id;
    tenant_id = default_tenant;
    username = "admin";
    password_hash = get_password_hash crypto password;
    role = "admin";
  }

  -- `seed_admin_user`, with the password of the environment or a generated one; the message, and the
  -- password if it was generated.
  unfoldable pub seed_admin_user :
      ℕ → Option String → String → List User → (String × Option String) × List User
  unfolding find_user get_password_hash
  seed_admin_user new_id env generated users = elim (find_user "admin" users) [
    | some user ↦ (("Admin already exists", none), users)
    | none ↦ (
      ("Admin created", if truthy env then none else some (get_or env generated)),
      users ++ admin_user new_id (get_or env generated) ∷ [],
    )
  ]
