-- ===== src/Controllers/Auth.antt =====
-- src/modules/auth/auth.controller.ts
use nest_nexus.Prelude.{ℕ, String, true, Option, none, some, truthy, if◌then◌else◌}
use nest_nexus.Exec.{unauthorized, Exec, pure, require, ◌>>=◌, ◌>>◌}
use nest_nexus.Prisma.{Prisma, OrderBy}
use nest_nexus.Env.{JwtPayload, Env}
use nest_nexus.Cache.{CacheManager}
use nest_nexus.Auth.Service
use nest_nexus.Auth.Service.{RegisterInput, LoginInput}
use nest_nexus.Auth.Token.Devices.{
  list_device_sessions, revoke_device_session, get_current_device_id,
}
use nest_nexus.Http.{
  Request, Drawn, clear_cookie, auth_output, Body, empty, auth, payload, sessions, Exchange, on_app,
  change_cookie, set_refresh_cookie, current_user, Decorators, undecorated,
}

pub data Route : Type 0 where
  post_register : RegisterInput → Route
  post_login : LoginInput → Route
  post_refresh post_logout get_me get_sessions : Route
  delete_session : String → Route

unfoldable pub decorators : Route → Decorators
decorators (post_register dto) = record undecorated { is_public = true }
decorators (post_login dto) = record undecorated { is_public = true }
decorators post_refresh = record undecorated { is_public = true }
decorators post_logout = undecorated
decorators get_me = undecorated
decorators get_sessions = undecorated
decorators (delete_session device_id) = undecorated

module _ ⦃prisma : Prisma⦄ ⦃env : Env⦄ where
  abbrev logout : JwtPayload → Exec Exchange Body
  logout user = do
    on_app (Service.logout user.sub)
    change_cookie (clear_cookie "refresh_token" "/api/v1/auth")
    pure empty

  abbrev list_sessions : ⦃order : OrderBy⦄ → JwtPayload → Request → ℕ → Exec Exchange Body
  list_sessions user req now = do
    current_device_id ← on_app (get_current_device_id user.sub req.refresh_cookie)
    found ← on_app (list_device_sessions user.sub current_device_id now)
    pure (sessions found)

  abbrev revoke_session : JwtPayload → String → Exec Exchange Body
  revoke_session user device_id = on_app (revoke_device_session user.sub device_id) >> pure empty

module _ ⦃prisma : Prisma⦄ ⦃env : Env⦄ {Byte : Type 0} where
  unfoldable pub register : RegisterInput → Request → Drawn Byte → ℕ → Exec Exchange Body
  register dto req drawn now = do
    session ← on_app (Service.register dto req.user_agent drawn.id drawn.token now)
    set_refresh_cookie session.refresh_token now
    pure (auth (auth_output session))

  unfoldable pub login :
      ⦃cache : CacheManager⦄ → LoginInput → Request → Drawn Byte → ℕ → Exec Exchange Body
  login dto req drawn now = do
    session ← on_app (Service.login dto req.ip req.user_agent drawn.token now)
    if truthy (some session.refresh_token)
        then set_refresh_cookie session.refresh_token now
        else pure tt
    pure (auth (auth_output session))

  unfoldable pub refresh : Request → Drawn Byte → ℕ → Exec Exchange Body
  refresh req drawn now = do
    raw_token ←
        require (if truthy req.refresh_cookie then req.refresh_cookie else none)
          (unauthorized "No refresh token found.")
    session ← on_app (Service.refresh raw_token drawn.token now)
    set_refresh_cookie session.refresh_token now
    pure (auth (auth_output session))

  unfoldable pub run :
      ⦃cache : CacheManager⦄
      → ⦃order : OrderBy⦄ → Route
      → Option JwtPayload
      → Request
      → Drawn Byte
      → ℕ
      → Exec Exchange Body
  run (post_register dto) found req drawn now = register dto req drawn now
  run (post_login dto) found req drawn now = login dto req drawn now
  run post_refresh found req drawn now = refresh req drawn now
  run post_logout found req drawn now = current_user found >>= logout
  run get_me found req drawn now = do user ← current_user found; pure (payload user)
  run get_sessions found req drawn now = do user ← current_user found; list_sessions user req now
  run (delete_session device_id) found req drawn now = do
    user ← current_user found
    revoke_session user device_id
