-- ===== src/Auth/Service.antt =====
-- src/modules/auth/auth.service.ts: registration, password sign-in with its lock, sign-in through an
-- OAuth provider, and the tokens that follow. The passing of the update of `lastLoginAt`, which the
-- code does not await, is a task in the background.
pub mod Login
pub mod Lockout
pub mod Logout
pub mod Register
pub mod Tests
use Prim.Native.String
use nest_nexus.Prelude.{
  ℕ, ◌+◌, String, Bool, true, false, not, ◌&&◌, Option, none, some, List, [], ◌∷◌, ◌==◌, string_eq,
  nat_eq, if◌then◌else◌, or_else, is_some, leb, truthy,
}
use nest_nexus.Exec.{
  Exception, prisma_known, conflict, unauthorized, forbidden, not_found, too_many_requests, Exec,
  pure, throw, catch, require, unless, ◌>>=◌, ◌>>◌,
}
use nest_nexus.Prisma.{Prisma}
use nest_nexus.Enums.{user_role}
use nest_nexus.Schema.{
  User, OauthProvider, UserOutput, to_user_output, CacheValue, failures, App, user_created,
  record_login,
}
use nest_nexus.Store.{users, oauth_providers, find_unique, create, update, upsert, emit, start}
use nest_nexus.Cache.{CacheManager, cache_get, cache_set, cache_del}
use nest_nexus.Env.{Env}
use nest_nexus.Duration.{parse_expiry_date}
use nest_nexus.Auth.Token.{
  FreshToken, RefreshOptions, Rotation, generate_pending_two_factor_token, generate_access_token,
  generate_refresh_token, rotate_refresh_token, revoke_all_tokens,
}

pub record RegisterInput : Type 0 where
  pub email : String
  pub password : String
  pub display_name : String

pub record LoginInput : Type 0 where
  pub email : String
  pub password : String

pub record OauthProfile : Type 0 where
  pub provider : String
  pub provider_id : String
  pub email : Option String
  pub display_name : String
  pub avatar : Option String

-- `AuthOutput` with the refresh token beside it, which is "" while the second factor is pending.
pub record Session : Type 0 where
  pub access_token : String
  pub user : Option UserOutput
  pub is_two_factor_pending : Bool
  pub access_token_expires_at : ℕ
  pub refresh_token : String

abbrev pub login_max_failures : ℕ
login_max_failures = 10

abbrev pub login_lockout_ttl_ms : ℕ
login_lockout_ttl_ms = 900000

abbrev pub login_fail_key : String → String → String
login_fail_key ip email = String.◌++◌ "login:fail:" (String.◌++◌ ip (String.◌++◌ ":" email))

abbrev pub dummy_hash : String
dummy_hash = "$2b$12$LlxSWCRB6GdBk9m4LPHIAeOELn5X7YV5l1Kp6Kgv4H9ZfXhVLMnaX"

-- `Number(value) || 0`
abbrev pub as_failures : Option CacheValue → ℕ
as_failures (some (failures n)) = n
as_failures _ = 0

-- A row with the column defaults of the schema.
abbrev pub new_user : String → String → String → ℕ → User
new_user id email display_name now = record {
  id = id;
  email = email;
  display_name = display_name;
  password = none;
  is_email_verified = false;
  email_verification_token = none;
  email_verification_expires = none;
  roles = user_role ∷ [];
  is_active = true;
  last_login_at = some now;
  last_login_ip = none;
  two_factor_secret = none;
  is_two_factor_enabled = false;
  two_factor_backup_codes = [];
  magic_link_token_hash = none;
  magic_link_expires_at = none;
  has_password = true;
  avatar_url = none;
  created_at = now;
  updated_at = now;
}

abbrev pub password_hash_of : Option User → String
password_hash_of none = dummy_hash
password_hash_of (some user) = or_else user.password dummy_hash

abbrev pub no_options : Option String → RefreshOptions
no_options user_agent = record { existing_family = none; device_id = none; user_agent = user_agent }

module _ ⦃prisma : Prisma⦄ ⦃env : Env⦄ where
  abbrev pub build_pending_two_factor_response : User → ℕ → Exec App Session
  build_pending_two_factor_response user now = pure (record {
    access_token = generate_pending_two_factor_token user now;
    user = none;
    is_two_factor_pending = true;
    access_token_expires_at = now + 300000;
    refresh_token = "";
  })

  unfoldable pub build_auth_response : User → Option String → FreshToken → ℕ → Exec App Session
  build_auth_response user user_agent fresh now = do
    refresh_token ← generate_refresh_token user.id (no_options user_agent) fresh now
    pure (record {
      access_token = generate_access_token user now;
      user = some (to_user_output user);
      is_two_factor_pending = false;
      access_token_expires_at =
          parse_expiry_date now (or_else env.config.jwt_expires_in "15m") 900000;
      refresh_token = refresh_token;
    })

  -- Two-factor users get a pending token in place of a session.
  abbrev pub respond : User → Option String → FreshToken → ℕ → Exec App Session
  respond user user_agent fresh now =
      if user.is_two_factor_enabled
      then build_pending_two_factor_response user now
      else build_auth_response user user_agent fresh now

  unfoldable pub register :
      RegisterInput → Option String → String → FreshToken → ℕ → Exec App Session
  register dto user_agent id fresh now = do
    let email = env.to_lower_case dto.email
    existing ← find_unique users (λ u. u.email == email)
    unless (not (is_some existing)) (conflict "An account with this email address already exists.")
    let user = record (new_user id email dto.display_name now) {
      password = some (env.bcrypt_hash dto.password);
    }
    create users user
    emit (user_created id)
    build_auth_response user user_agent fresh now

  -- A wrong password, or no such user, is one more failure.
  abbrev checked_user : String → ℕ → Option User → Bool → ⦃cache : CacheManager⦄ → ℕ → Exec App User
  checked_user fail_key fail_count none valid now = do
    cache_set fail_key (failures (fail_count + 1)) (some login_lockout_ttl_ms) now
    throw (unauthorized "Invalid email or password.")
  checked_user fail_key fail_count (some user) true now = pure user
  checked_user fail_key fail_count (some user) false now = do
    cache_set fail_key (failures (fail_count + 1)) (some login_lockout_ttl_ms) now
    throw (unauthorized "Invalid email or password.")

  -- After the password.
  admit :
      ⦃cache : CacheManager⦄
      → String
      → User
      → Option String
      → Option String
      → FreshToken
      → ℕ
      → Exec App Session
  admit fail_key user ip_address user_agent fresh now = do
    cache_del fail_key
    unless user.is_active (unauthorized "Invalid email or password.")
    start (record_login user.id now ip_address)
    respond user user_agent fresh now

  unfoldable pub login :
      ⦃cache : CacheManager⦄
      → LoginInput
      → Option String
      → Option String
      → FreshToken
      → ℕ
      → Exec App Session
  unfolding admit
  login dto ip_address user_agent fresh now = do
    let email = env.to_lower_case dto.email
    let fail_key = login_fail_key (or_else ip_address "unknown") email
    cached ← cache_get fail_key now
    let fail_count = as_failures cached
    unless (not (leb login_max_failures fail_count)) (
        too_many_requests
          "Account temporarily locked due to too many failed login attempts. Please try again in 15 minutes.")
    found ← find_unique users (λ u. u.email == email)
    let valid = env.bcrypt_compare dto.password (password_hash_of found)
    user ← checked_user fail_key fail_count found valid now
    admit fail_key user ip_address user_agent fresh now

  abbrev pub active_or_none : Option User → Option User
  active_or_none none = none
  active_or_none (some user) = if user.is_active then some user else none

  unfoldable pub issue_tokens : String → Option String → FreshToken → ℕ → Exec App Session
  issue_tokens user_id user_agent fresh now = do
    found ← find_unique users (λ u. u.id == user_id)
    user ← require (active_or_none found) (not_found "User not found or inactive.")
    build_auth_response user user_agent fresh now

  unfoldable pub logout : String → Exec App (Unit {0})
  logout user_id = revoke_all_tokens user_id

  unfoldable pub refresh : String → FreshToken → ℕ → Exec App Session
  refresh raw_refresh_token fresh now = do
    rotation ← rotate_refresh_token raw_refresh_token fresh now
    pure (record {
      access_token = rotation.access_token;
      user = none;
      is_two_factor_pending = false;
      access_token_expires_at =
          parse_expiry_date now (or_else env.config.jwt_expires_in "15m") 900000;
      refresh_token = rotation.refresh_token;
    })
