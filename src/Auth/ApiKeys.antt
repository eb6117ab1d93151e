-- ===== src/Auth/ApiKeys.antt =====
-- src/modules/auth/api-key/api-key.service.ts: keys for programs. The raw key that the code draws at
-- random and the id that the database makes are arguments.
pub mod Revoked
use nest_nexus.Prelude.{
  ℕ, String, Bool, ◌&&◌, Option, none, some, List, ◌==◌, string_eq, if◌then◌else◌, is_some,
}
use nest_nexus.Exec.{unauthorized, not_found, Exec, pure, require, ◌>>=◌, ◌>>◌}
use nest_nexus.Prisma.{Prisma}
use nest_nexus.Schema.{ApiKey, App, api_key_created, api_key_revoked}
use nest_nexus.Store.{api_keys, find_unique, find_first, create, update, emit}
use nest_nexus.Env.{Env}

pub record ValidatedApiKey : Type 0 where
  pub id : String
  pub user_id : String
  pub scopes : List String

abbrev pub usable : Option ApiKey → Option ApiKey
usable none = none
usable (some key) = if is_some key.revoked_at then none else some key

module _ ⦃prisma : Prisma⦄ ⦃env : Env⦄ where
  unfoldable pub create_key : String → List String → String → String → Exec App String
  create_key user_id scopes raw_key id = do
    create api_keys (record {
      id = id;
      user_id = user_id;
      key_hash = env.sha256_hex raw_key;
      scopes = scopes;
      revoked_at = none;
      last_used_at = none;
    })
    emit (api_key_created user_id)
    pure raw_key

  unfoldable pub validate_key : String → ℕ → Exec App ValidatedApiKey
  validate_key raw_key now = do
    found ← find_unique api_keys (λ k. k.key_hash == env.sha256_hex raw_key)
    key ← require (usable found) (unauthorized "Invalid or revoked API key.")
    update api_keys (λ k. k.id == key.id) (λ k. record k { last_used_at = some now })
    pure (record { id = key.id; user_id = key.user_id; scopes = key.scopes })

  unfoldable pub revoke_key : String → String → ℕ → Exec App (Unit {0})
  revoke_key id user_id now = do
    found ← find_first api_keys (λ k. k.id == id && k.user_id == user_id)
    require found (not_found "API key not found.")
    update api_keys (λ k. k.id == id) (λ k. record k { revoked_at = some now })
    emit (api_key_revoked user_id id)
