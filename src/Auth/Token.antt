-- ===== src/Auth/Token.antt =====
-- src/modules/auth/token.service.ts: access tokens, and refresh tokens that rotate within a family.
-- Random values and the time are arguments; the pruning that the code does not await is a task in the
-- background, `prune`. The children hold the sessions by device, and proofs.
pub mod Families
pub mod Reuse
pub mod Devices
mod Tests
use text.Mathlib.Text.{find?}
use nest_nexus.Prelude.{
  ℕ, ◌-◌, String, Bool, true, false, not, ◌&&◌, ◌||◌, Option, none, some, List, [], ◌∷◌, map, ◌==◌,
  string_eq, if◌then◌else◌, or_else, is_some, is_nil, find, ltb, truthy,
}
use nest_nexus.Exec.{unauthorized, Exec, pure, throw, require, ◌>>=◌, ◌>>◌}
use nest_nexus.Prisma.{Prisma, OrderBy}
use nest_nexus.Schema.{User, RefreshToken, App, Background, prune_expired_tokens}
use nest_nexus.Store.{
  users, refresh_tokens, find_unique, find_first, find_take, find_page, create, update, delete_many,
  start,
}
use nest_nexus.Env.{JwtPayload, RefreshTokenPayload, Env}
use nest_nexus.Duration.{parse_expiry_date}

-- The random values of one call of `generateRefreshToken`, with the id that the database makes.
pub record FreshToken : Type 0 where
  pub id : String
  pub jti : String
  pub family : String
  pub device_id : String

pub record RefreshOptions : Type 0 where
  pub existing_family : Option String
  pub device_id : Option String
  pub user_agent : Option String

pub record Rotation : Type 0 where
  pub access_token : String
  pub refresh_token : String
  pub user_id : String

pub record CookieOptions : Type 0 where
  pub http_only : Bool
  pub secure : Bool
  pub same_site : String
  pub path : String
  pub max_age : ℕ

-- `/text/.test(userAgent)`
abbrev contains : String → String → Bool
contains user_agent text = is_some (find? user_agent text)

device_name : String → String
device_name user_agent =
    if contains user_agent "iPhone" || contains user_agent "iPad"
    then "iOS Device"
    else if contains user_agent "Android"
    then "Android Device"
    else if contains user_agent "Windows"
    then "Windows Device"
    else if contains user_agent "Mac"
    then "Mac Device"
    else if contains user_agent "Linux"
    then "Linux Device"
    else "Unknown Device"

unfoldable pub parse_device_name : Option String → String
unfolding device_name
parse_device_name user_agent =
    if truthy user_agent then device_name (or_else user_agent "") else "Unknown Device"

abbrev pub in_family : String → String → RefreshToken → Bool
in_family user_id family t = t.user_id == user_id && t.family == family

abbrev pub is_stale : String → ℕ → RefreshToken → Bool
is_stale user_id now t = t.user_id == user_id && (ltb t.expires_at now || t.is_revoked)

abbrev pub revoked : RefreshToken → RefreshToken
revoked t = record t { is_revoked = true }

module _ ⦃prisma : Prisma⦄ ⦃env : Env⦄ where
  unfoldable pub generate_pending_two_factor_token : User → ℕ → String
  generate_pending_two_factor_token user now =
      env.sign_access
        (record {
          sub = user.id;
          email = user.email;
          roles = [];
          scope = some "two_factor_pending";
        })
        env.config.jwt_secret (some "5m") now

  unfoldable pub generate_access_token : User → ℕ → String
  generate_access_token user now =
      env.sign_access
        (record { sub = user.id; email = user.email; roles = user.roles; scope = none })
        env.config.jwt_secret env.config.jwt_expires_in now

  abbrev pub hash_refresh_token : String → String
  hash_refresh_token raw_token = env.sha256_hex raw_token

  abbrev pub parse_refresh_expiry : ℕ → ℕ
  parse_refresh_expiry now =
      parse_expiry_date now (or_else env.config.jwt_refresh_expires_in "7d") 604800000

  unfoldable pub get_refresh_token_cookie_options : ℕ → CookieOptions
  get_refresh_token_cookie_options now = record {
    http_only = true;
    secure = env.config.node_env == "production";
    same_site = "strict";
    path = "/api/v1/auth";
    max_age = parse_refresh_expiry now - now;
  }

  abbrev pub refresh_payload : String → RefreshOptions → FreshToken → RefreshTokenPayload
  refresh_payload user_id options fresh = record {
    sub = user_id;
    jti = fresh.jti;
    family = or_else options.existing_family fresh.family;
  }

  abbrev pub sign_refresh_token : RefreshTokenPayload → ℕ → String
  sign_refresh_token payload now =
      env.sign_refresh payload env.config.jwt_refresh_secret env.config.jwt_refresh_expires_in now

  -- The row of a new token.
  abbrev pub new_token : String → RefreshOptions → FreshToken → ℕ → RefreshToken
  new_token user_id options fresh now = record {
    id = fresh.id;
    user_id = user_id;
    token_hash =
        hash_refresh_token (sign_refresh_token (refresh_payload user_id options fresh) now);
    expires_at = parse_refresh_expiry now;
    is_revoked = false;
    jti = fresh.jti;
    family = or_else options.existing_family fresh.family;
    device_id = some (or_else options.device_id fresh.device_id);
    device_name = some (parse_device_name options.user_agent);
    user_agent = options.user_agent;
    last_used_at = some now;
    created_at = now;
  }

  unfoldable pub generate_refresh_token : String → RefreshOptions → FreshToken → ℕ → Exec App String
  generate_refresh_token user_id options fresh now = do
    create refresh_tokens (new_token user_id options fresh now)
    start (prune_expired_tokens user_id)
    pure (sign_refresh_token (refresh_payload user_id options fresh) now)

  unfoldable pub revoke_all_tokens : String → Exec App (Unit {0})
  revoke_all_tokens user_id = delete_many refresh_tokens (λ t. t.user_id == user_id) >> pure tt

  unfoldable pub revoke_token_family : String → String → Exec App (Unit {0})
  revoke_token_family user_id family =
      delete_many refresh_tokens (in_family user_id family) >> pure tt

  unfoldable pub prune : String → ℕ → Exec App (Unit {0})
  prune user_id now = delete_many refresh_tokens (is_stale user_id now) >> pure tt

  abbrev active_user : Option User → Bool
  active_user none = false
  active_user (some user) = user.is_active

  -- A token that is not among those of its family was used before.
  abbrev reject_unknown : RefreshTokenPayload → List RefreshToken → Exec App RefreshToken
  reject_unknown payload family_tokens = do
    if is_nil family_tokens then pure tt else revoke_token_family payload.sub payload.family
    throw (unauthorized "Refresh token has already been used. Please log in again.")

  -- The token of the family that the request brought, if it may still be used.
  abbrev matched_token :
      RefreshTokenPayload → List RefreshToken → Option RefreshToken → Exec App RefreshToken
  matched_token payload family_tokens none = reject_unknown payload family_tokens
  matched_token payload family_tokens (some token) =
      if token.is_revoked
      then (revoke_token_family payload.sub payload.family
          >> throw (
              unauthorized
                "Refresh token has been revoked. All sessions have been terminated for security."))
      else pure token

  abbrev pub kept_options : RefreshTokenPayload → RefreshToken → RefreshOptions
  kept_options payload token = record {
    existing_family = some payload.family;
    device_id = token.device_id;
    user_agent = token.user_agent;
  }

  -- The end of the rotation: the old token is revoked and a new one of its family is stored.
  replace_token : RefreshTokenPayload → User → RefreshToken → FreshToken → ℕ → Exec App Rotation
  unfolding generate_refresh_token generate_access_token
  replace_token payload user token fresh now = do
    update refresh_tokens (λ t. t.id == token.id) revoked
    new_refresh_token ← generate_refresh_token user.id (kept_options payload token) fresh now
    pure (record {
      access_token = generate_access_token user now;
      refresh_token = new_refresh_token;
      user_id = user.id;
    })

  unfoldable pub rotate_refresh_token : String → FreshToken → ℕ → Exec App Rotation
  unfolding revoke_token_family replace_token
  rotate_refresh_token raw_token fresh now = do
    payload ←
        require (env.verify_refresh raw_token env.config.jwt_refresh_secret now)
          (unauthorized "Invalid or expired refresh token.")
    found ← find_unique users (λ u. u.id == payload.sub)
    user ←
        require (if active_user found then found else none)
          (unauthorized "User not found or inactive.")
    family_tokens ← find_take refresh_tokens (in_family payload.sub payload.family) 50
    token ←
        matched_token payload family_tokens
          (find (λ t. t.token_hash == hash_refresh_token raw_token) family_tokens)
    replace_token payload user token fresh now
