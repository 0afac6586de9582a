-- ===== src/Auth/Laws.antt =====
-- What the tokens of control-plane/app/auth.py and the routes of main.py are good for.
use kaaval.Base.{
  ◌≡◌, ◌≢◌, refl, sym, ap, subst, ◌∙◌, ℕ, ◌+◌, ◌*◌, ◌<◌, ◌≤◌, String, Bool, true, false, none, some,
  List, [], ◌∷◌, ◌++◌, ◌&&◌, if◌then◌else◌, ltb, ◌==◌, string_eq, option_eq, eq_iff, Bool-cases,
  Option-cases, inl, inr, ◌⊎◌, arith,
}
use kaaval.Base.Text.{is_text, text_length}
use kaaval.Base.Parsing.{take_chars}
use kaaval.Http.{sent, http_error}
use kaaval.Auth.{
  Claims, Crypto, User, ApiKey, find_user, find_key, find_user_by_id, stamp_key, verify_password,
  create_access_token, create_refresh_token, refresh_subject, decode_refresh_token, subject,
  user_named, get_user_from_token, get_user_by_api_key, Keys, Tokens, issue, login, refresh,
  refresh_subject_of, AuditEvent,
}
use kaaval.Auth.KeyRows.{
  HasKey, IsRefused, short, unknown, wrong, find_key-none, find_key-cases, stamp_key-split,
}

-- What PyJWT documents: a token gives its claims back under the key that signed it until it expires,
-- and an error after that and under every other key.
pub record IsSigned (crypto : Crypto) : Type 0 where
  pub valid :
      (now : ℕ) (key : String) (c : Claims)
      → now < c.exp
      → crypto.decode now key (crypto.encode key c) ≡ some c
  pub expired :
      (now : ℕ) (key : String) (c : Claims)
      → c.exp ≤ now
      → crypto.decode now key (crypto.encode key c) ≡ none
  pub other_key :
      (now : ℕ) (key signed_by : String) (c : Claims)
      → key ≢ signed_by
      → crypto.decode now key (crypto.encode signed_by c) ≡ none

find_user-username :
    (username : String) (u : User) (users : List User)
    → find_user username users ≡ some u
    → u.username ≡ username
unfolding find_user
find_user-username username u [] h = cc
find_user-username username u (v ∷ users) h = elim (Bool-cases (v.username == username)) [
  | inl e ↦ cc ((eq_iff v.username username).0 e, rw e at h)
  | inr e ↦ find_user-username username u users (rw e at h)
]

module _ (crypto : Crypto) (signed : IsSigned crypto) where
  -- An access token stands for its user for 15 minutes, and for nobody after that.
  pub get_user_from_token-access :
      (key : String) (issued now : ℕ) (username : String) (users : List User)
      → get_user_from_token crypto key now (create_access_token crypto key issued username) users
        ≡ (if ltb now (issued + 15 * 60) then find_user username users else none)
  unfolding get_user_from_token create_access_token
  get_user_from_token-access key issued now username users =
      elim (Bool-cases (ltb now (issued + 15 * 60))) [
        | inl e ↦ rw e (
            ap (λ o. user_named crypto (subject crypto o) users)
              (signed.valid now key _ (ground arith)))
        | inr e ↦ rw e (
            ap (λ o. user_named crypto (subject crypto o) users)
              (signed.expired now key _ (ground arith)))
      ]

  access_subject :
      (key signed_by : String) (issued now : ℕ) (username : String)
      → refresh_subject crypto
          (crypto.decode now key (create_access_token crypto signed_by issued username))
        ≡ none
  unfolding create_access_token
  access_subject key signed_by issued now username = elim (Bool-cases (key == signed_by)) [
    | inr e ↦
        ap (refresh_subject crypto)
          (signed.other_key now key signed_by _ (λ same. ground (arith, eq_iff key signed_by)))
    | inl e ↦
        subst
          (λ k.
            refresh_subject crypto
              (crypto.decode now k (create_access_token crypto signed_by issued username))
            ≡ none)
          (sym ((eq_iff key signed_by).0 e))
          (elim (Bool-cases (ltb now (issued + 15 * 60))) [
            | inl v ↦ ap (refresh_subject crypto) (signed.valid now signed_by _ (ground arith))
            | inr v ↦ ap (refresh_subject crypto) (signed.expired now signed_by _ (ground arith))
          ])
  ]

  abbrev refresh_claims : ℕ → String → Claims
  refresh_claims issued username = record {
    sub = some username;
    kind = some "refresh";
    exp = issued + 7 * 86400;
  }

  -- A refresh token read as an access token, under the key that signed it and under any other one.
  refresh_as_access :
      (key signed_by : String) (issued now : ℕ) (username : String) (users : List User)
      → get_user_from_token crypto key now
          (create_refresh_token crypto signed_by issued username)
          users
        ≡ (if key == signed_by && ltb now (issued + 7 * 86400)
            then find_user username users
            else none)
  unfolding get_user_from_token create_refresh_token
  refresh_as_access key signed_by issued now username users = elim (Bool-cases (key == signed_by)) [
    | inr e ↦ rw e (
        ap (λ o. user_named crypto (subject crypto o) users)
          (signed.other_key now key signed_by (refresh_claims issued username)
            (λ same. ground (arith, eq_iff key signed_by))))
    | inl e ↦
        let same : key ≡ signed_by = (eq_iff key signed_by).0 e in
        elim (Bool-cases (ltb now (issued + 7 * 86400))) [
          | inl v ↦
              rw (e, v)
                (ap (λ o. user_named crypto (subject crypto o) users)
                  (ap
                      (λ k.
                        crypto.decode now k
                          (crypto.encode signed_by (refresh_claims issued username)))
                      same
                    ∙ signed.valid now signed_by (refresh_claims issued username) (ground arith)))
          | inr v ↦
              rw (e, v)
                (ap (λ o. user_named crypto (subject crypto o) users)
                  (ap
                      (λ k.
                        crypto.decode now k
                          (crypto.encode signed_by (refresh_claims issued username)))
                      same
                    ∙ signed.expired now signed_by (refresh_claims issued username) (ground arith)))
        ]
  ]

  -- Whichever keys are set, equal or not, an access token refreshes no session. A refresh token
  -- authenticates nobody if the two keys differ, and if they are equal it passes for an access token of
  -- its user for 7 days.
  pub tokens_separate :
      (keys : Keys) (issued now : ℕ) (username : String) (users : List User)
      → (refresh crypto keys now (create_access_token crypto keys.secret issued username) users
          ≡ http_error 401 "Invalid or expired refresh token")
        × (get_user_from_token crypto keys.secret now
              (create_refresh_token crypto keys.refresh_secret issued username)
              users
            ≡ (if keys.secret == keys.refresh_secret && ltb now (issued + 7 * 86400)
                then find_user username users
                else none))
  unfolding refresh decode_refresh_token
  tokens_separate keys issued now username users = (
    ap (λ o. refresh_subject_of crypto keys now o users)
        (access_subject keys.refresh_secret keys.secret issued now username),
    refresh_as_access keys.secret keys.refresh_secret issued now username users,
  )

  login_unknown :
      (keys : Keys) (issued : ℕ) (written : Bool) (username password : String) (users : List User)
      (log : List AuditEvent)
      → find_user username users ≡ none
      → (login crypto keys issued written username password users log).0
        ≡ http_error 401 "Incorrect username or password"
  unfolding login
  login_unknown keys issued written username password users log q = rw (q, login) refl

  login_verified :
      (keys : Keys) (issued : ℕ) (written : Bool) (username password : String) (users : List User)
      (log : List AuditEvent) (tokens : Tokens crypto) (user : User)
      → find_user username users ≡ some user
      → (login crypto keys issued written username password users log).0 ≡ sent tokens
      → (verify_password crypto password user.password_hash ≡ true)
        × (tokens ≡ issue crypto keys issued user.username)
  unfolding login
  login_verified keys issued written username password users log tokens user q h =
      elim (Bool-cases (verify_password crypto password user.password_hash)) [
        | inl e ↦ (e, cc (rw (q, login, e) at h))
        | inr e ↦ cc (rw (q, login, e) at h)
      ]

  in_time : (now issued : ℕ) → now < issued + 15 * 60 → ltb now (issued + 15 * 60) ≡ true
  in_time now issued h = ground arith

  refresh-own :
      (keys : Keys) (issued now : ℕ) (username : String) (user : User) (users : List User)
      → now < issued + 7 * 86400
      → is_text username ≡ true
      → find_user username users ≡ some user
      → refresh crypto keys now
          (create_refresh_token crypto keys.refresh_secret issued username)
          users
        ≡ sent (issue crypto keys now username)
  unfolding refresh decode_refresh_token create_refresh_token
  refresh-own keys issued now username user users days named q =
      ap (λ o. refresh_subject_of crypto keys now (refresh_subject crypto o) users)
        (signed.valid now keys.refresh_secret _ days)
      ∙ rw (named, q)
          (ap (λ name. sent (issue crypto keys now name))
            (find_user-username username user users q))

  -- A login that succeeds is by the stored password of a user of that name. Its access token then stands
  -- for that user for 15 minutes, and its refresh token gives new tokens of that user for 7 days.
  pub login_session :
      (keys : Keys) (issued : ℕ) (written : Bool) (username password : String) (users : List User)
      (log : List AuditEvent) (tokens : Tokens crypto) (now later : ℕ)
      → is_text username ≡ true
      → (login crypto keys issued written username password users log).0 ≡ sent tokens
      → now < issued + 15 * 60
      → later < issued + 7 * 86400
      → (user : User) × (find_user username users ≡ some user)
        × (verify_password crypto password user.password_hash ≡ true)
        × (get_user_from_token crypto keys.secret now tokens.access_token users ≡ some user)
        × (refresh crypto keys later tokens.refresh_token users
            ≡ sent (issue crypto keys later username))
  login_session keys issued written username password users log tokens now later named h soon days =
      elim (Option-cases (find_user username users)) [
        | inl q ↦ cc (login_unknown keys issued written username password users log q, h)
        | inr (user, q) ↦
            let (checked, e) =
              login_verified keys issued written username password users log tokens user q h in
            let own : tokens ≡ issue crypto keys issued username =
              e ∙ ap (issue crypto keys issued) (find_user-username username user users q) in
            (
              user,
              q,
              checked,
              rw own (
                  get_user_from_token-access keys.secret issued now username users
                  ∙ rw (in_time now issued soon) q),
              rw own (refresh-own keys issued later username user users days named q),
            )
      ]

-- A request with an API key authenticates nobody and writes nothing if its text has less than eight
-- characters, or no key has the prefix of the text, or the text does not verify the hash of the first key
-- that has. Otherwise the user of that key, if there still is one, is authenticated, and the time of use of
-- that key alone is written, in its row, with all rows in their places.
pub get_user_by_api_key_sound :
    (crypto : Crypto) (now : ℕ) (x_api_key : String) (users : List User) (keys : List ApiKey)
    → (IsRefused crypto x_api_key keys
        × (get_user_by_api_key crypto now (some x_api_key) users keys ≡ (none, keys)))
      ⊎ ((ltb (text_length x_api_key) 8 ≡ false)
          × (u : HasKey crypto x_api_key keys true) × (get_user_by_api_key crypto now
                (some x_api_key)
                users
                keys
              ≡ (
                find_user_by_id u.key.user_id users,
                u.before ++ record u.key { last_used_at = some now } ∷ u.after,
              )))
unfolding get_user_by_api_key
get_user_by_api_key_sound crypto now x users keys = elim (Bool-cases (ltb (text_length x) 8)) [
  | inl h ↦ inl (short h, rw h refl)
  | inr long ↦ (elim (Option-cases (find_key (take_chars 7 x) keys)) [
    | inl e ↦ inl (unknown (find_key-none _ keys e), rw (long, e) refl)
    | inr (k, e) ↦
        let (before, after, q, others, own) = find_key-cases (take_chars 7 x) k keys e in
        let found : (v : Bool) → verify_password crypto x k.key_hash ≡ v → HasKey crypto x keys v =
          λ v h. record {
            before = before;
            key = k;
            after = after;
            rows = q;
            others = others;
            own = own;
            verified = h;
          } in
        (elim (Bool-cases (verify_password crypto x k.key_hash)) [
          | inr v ↦ inl (wrong (found false v), rw (long, e, v) refl)
          | inl v ↦
              let named : k.prefix ≡ take_chars 7 x = (eq_iff k.prefix (take_chars 7 x)).0 own in
              let stamped : stamp_key now k.prefix keys
                  ≡ before ++ record k { last_used_at = some now } ∷ after =
                ap (λ p. stamp_key now p keys) named
                ∙ (ap (stamp_key now (take_chars 7 x)) q
                    ∙ stamp_key-split now (take_chars 7 x) k before after others own) in
              inr (
                long,
                found true v,
                rw (long, e, v) (ap (λ rows. (find_user_by_id k.user_id users, rows)) stamped),
              )
        ])
  ])
]
