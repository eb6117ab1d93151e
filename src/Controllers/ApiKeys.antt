-- ===== src/Controllers/ApiKeys.antt =====
-- src/modules/auth/api-key/api-key.controller.ts
use nest_nexus.Prelude.{ℕ, String, Option, List, [], or_else}
use nest_nexus.Exec.{Exec, pure, ◌>>=◌, ◌>>◌}
use nest_nexus.Prisma.{Prisma}
use nest_nexus.Env.{JwtPayload, Env}
use nest_nexus.Auth.ApiKeys.{create_key, revoke_key}
use nest_nexus.Http.{
  Drawn, Body, empty, api_key, Exchange, on_app, current_user, Decorators, undecorated,
}

-- The scopes of CreateApiKeyInput, and the id of the path.
pub data Route : Type 0 where
  post_key : Option (List String) → Route
  delete_key : String → Route

unfoldable pub decorators : Route → Decorators
decorators (post_key scopes) = undecorated
decorators (delete_key id) = undecorated

module _ ⦃prisma : Prisma⦄ ⦃env : Env⦄ {Byte : Type 0} where
  unfoldable pub run : Route → Option JwtPayload → Drawn Byte → ℕ → Exec Exchange Body
  run (post_key scopes) found drawn now = do
    user ← current_user found
    raw_key ← on_app (create_key user.sub (or_else scopes []) drawn.text drawn.id)
    pure (api_key raw_key)
  run (delete_key id) found drawn now = do
    user ← current_user found
    on_app (revoke_key id user.sub now)
    pure empty
