-- ===== src/Auth/Webauthn.antt =====
-- src/modules/auth/webauthn/webauthn.service.ts: passkeys. The challenges that the library draws and
-- the ids that the database generates are arguments; the library's checks are a parameter.
pub mod Once
mod Tests
use Prim.Native.String
use nest_nexus.Prelude.{
  ℕ, String, false, not, Option, none, some, List, [], ◌∷◌, ◌==◌, string_eq, if◌then◌else◌, is_some,
  truthy,
}
use nest_nexus.Exec.{
  unauthorized, not_found, conflict, Result, Exec, pure, lift, require, unless, ◌>>=◌, ◌>>◌,
}
use nest_nexus.Prisma.{Prisma}
use nest_nexus.Schema.{User, WebauthnCredential, CacheValue, challenge, signup, App, user_created}
use nest_nexus.Store.{
  users, webauthn_credentials, find_unique, create, update, upsert, delete, emit,
}
use nest_nexus.Cache.{CacheManager, cache_get, cache_set, cache_del}
use nest_nexus.Env.{Env}
use nest_nexus.Auth.Service.{new_user}

pub record Passkey : Type 0 where
  pub id : String
  pub public_key : String
  pub counter : ℕ
  pub transports : List String

-- @simplewebauthn/server: a response with the challenge, the origin and the relying party that are
-- expected gives the credential, or the new counter of a known one; none is an answer that is not
-- verified, and the library may throw.
pub record Ceremony : Type 0 where
  pub verify_registration : String → String → String → String → Result (Option Passkey)
  pub verify_authentication : String → String → String → String → Passkey → Result (Option ℕ)

pub record CreationOptions : Type 0 where
  pub rp_name : String
  pub rp_id : String
  pub user_name : String
  pub exclude_credentials : List (String × List String)
  pub challenge : String

pub record RequestOptions : Type 0 where
  pub rp_id : String
  pub allow_credentials : List (String × List String)
  pub challenge : String

abbrev pub challenge_ttl_ms : ℕ
challenge_ttl_ms = 300000

abbrev pub register_key : String → String
register_key user_id = String.◌++◌ "webauthn:register:" user_id

abbrev pub login_key : String → String
login_key email = String.◌++◌ "webauthn:login:" email

abbrev pub signup_key : String → String
signup_key email = String.◌++◌ "webauthn:signup:" email

-- A challenge that is there and not empty.
abbrev pub challenge_of : Option CacheValue → Option String
challenge_of (some (challenge c)) = if truthy (some c) then some c else none
challenge_of _ = none

abbrev pub signup_of : Option CacheValue → Option (String × String)
signup_of (some (signup c display_name)) = some (c, display_name)
signup_of _ = none

abbrev pub listed_credential : Option WebauthnCredential → List (String × List String)
listed_credential none = []
listed_credential (some cred) = (cred.credential_id, cred.transports) ∷ []

abbrev pub as_passkey : WebauthnCredential → Passkey
as_passkey cred = record {
  id = cred.credential_id;
  public_key = cred.public_key;
  counter = cred.counter;
  transports = cred.transports;
}

abbrev pub credential_row : String → String → Passkey → WebauthnCredential
credential_row id user_id key = record {
  id = id;
  user_id = user_id;
  credential_id = key.id;
  public_key = key.public_key;
  counter = key.counter;
  transports = key.transports;
}

abbrev pub replaced_by : Passkey → WebauthnCredential → WebauthnCredential
replaced_by key cred = record cred {
  credential_id = key.id;
  public_key = key.public_key;
  counter = key.counter;
  transports = key.transports;
}

-- An account that has a passkey and no password.
abbrev pub passkey_user : String → String → String → ℕ → User
passkey_user id email display_name now = record (new_user id email display_name now) {
  has_password = false;
}

abbrev pub with_owner :
    Option User → Option WebauthnCredential → Option (String × WebauthnCredential)
with_owner none owned = none
with_owner (some user) none = none
with_owner (some user) (some cred) = some (user.id, cred)

module _ ⦃prisma : Prisma⦄ ⦃env : Env⦄ where
  -- The stored credential of a user, `user?.webauthnCredential`.
  abbrev pub credential_of : Option User → Exec App (Option WebauthnCredential)
  credential_of none = pure none
  credential_of (some user) = find_unique webauthn_credentials (λ c. c.user_id == user.id)

  abbrev creation_options : String → List (String × List String) → String → CreationOptions
  creation_options user_name excluded drawn = record {
    rp_name = env.config.webauthn_rp_name;
    rp_id = env.config.webauthn_rp_id;
    user_name = user_name;
    exclude_credentials = excluded;
    challenge = drawn;
  }

  abbrev reject_taken : String → Exec App (Unit {0})
  reject_taken email = do
    existing ← find_unique users (λ u. u.email == email)
    unless (not (is_some existing)) (conflict "An account with this email address already exists.")

  unfoldable pub delete_credential : String → Exec App (Unit {0})
  delete_credential user_id = do
    credential ← find_unique webauthn_credentials (λ c. c.user_id == user_id)
    require credential (not_found "No passkey registered for this account.")
    delete webauthn_credentials (λ c. c.user_id == user_id)

  module _ ⦃cache : CacheManager⦄ where
    unfoldable pub register_options : String → String → String → ℕ → Exec App CreationOptions
    register_options user_id email drawn now = do
      existing ← find_unique webauthn_credentials (λ c. c.user_id == user_id)
      cache_set (register_key user_id) (challenge drawn) (some challenge_ttl_ms) now
      pure (creation_options email (listed_credential existing) drawn)

    unfoldable pub login_options : String → String → ℕ → Exec App RequestOptions
    login_options email drawn now = do
      found ← find_unique users (λ u. u.email == env.to_lower_case email)
      cred ← credential_of found
      cache_set (login_key (env.to_lower_case email)) (challenge drawn) (some challenge_ttl_ms) now
      pure (record {
        rp_id = env.config.webauthn_rp_id;
        allow_credentials = listed_credential cred;
        challenge = drawn;
      })

    unfoldable pub signup_options : String → String → String → ℕ → Exec App CreationOptions
    signup_options email display_name drawn now = do
      reject_taken (env.to_lower_case email)
      cache_set (signup_key (env.to_lower_case email)) (signup drawn display_name)
          (some challenge_ttl_ms) now
      pure (creation_options (env.to_lower_case email) [] drawn)

    module _ ⦃ceremony : Ceremony⦄ where
      unfoldable pub register_verify : String → String → String → ℕ → Exec App (Unit {0})
      register_verify user_id response id now = do
        cached ← cache_get (register_key user_id) now
        expected ←
            require (challenge_of cached)
              (unauthorized "Registration challenge expired or not found.")
        verified ← lift (
            ceremony.verify_registration response expected env.config.client_origin
              env.config.webauthn_rp_id)
        key ← require verified (unauthorized "WebAuthn registration verification failed.")
        upsert webauthn_credentials (λ c. c.user_id == user_id) (credential_row id user_id key)
            (replaced_by key)
        cache_del (register_key user_id)

      unfoldable pub login_verify : String → String → ℕ → Exec App String
      login_verify email response now = do
        cached ← cache_get (login_key (env.to_lower_case email)) now
        expected ←
            require (challenge_of cached) (unauthorized "Login challenge expired or not found.")
        found ← find_unique users (λ u. u.email == env.to_lower_case email)
        owned ← credential_of found
        (user_id, cred) ←
            require (with_owner found owned)
              (unauthorized "No passkey registered for this account.")
        verified ← lift (
            ceremony.verify_authentication response expected env.config.client_origin
              env.config.webauthn_rp_id (as_passkey cred))
        new_counter ← require verified (unauthorized "WebAuthn login verification failed.")
        update webauthn_credentials (λ c. c.id == cred.id) (λ c. record c { counter = new_counter })
        cache_del (login_key (env.to_lower_case email))
        pure user_id

      unfoldable pub signup_verify : String → String → String → String → ℕ → Exec App String
      signup_verify email response user_id id now = do
        cached ← cache_get (signup_key (env.to_lower_case email)) now
        (expected, display_name) ←
            require (signup_of cached) (unauthorized "Signup challenge expired or not found.")
        reject_taken (env.to_lower_case email)
        verified ← lift (
            ceremony.verify_registration response expected env.config.client_origin
              env.config.webauthn_rp_id)
        key ← require verified (unauthorized "WebAuthn signup verification failed.")
        create users (passkey_user user_id (env.to_lower_case email) display_name now)
        create webauthn_credentials (credential_row id user_id key)
        emit (user_created user_id)
        cache_del (signup_key (env.to_lower_case email))
        pure user_id
