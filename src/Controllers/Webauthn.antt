-- ===== src/Controllers/Webauthn.antt =====
-- src/modules/auth/webauthn/webauthn.controller.ts
use nest_nexus.Prelude.{ℕ, String, true, Option}
use nest_nexus.Exec.{Exec, pure, ◌>>=◌, ◌>>◌}
use nest_nexus.Prisma.{Prisma}
use nest_nexus.Env.{JwtPayload, Env}
use nest_nexus.Cache.{CacheManager}
use nest_nexus.Auth.Service.{issue_tokens}
use nest_nexus.Auth.Webauthn
use nest_nexus.Auth.Webauthn.{Ceremony}
use nest_nexus.Http.{
  Request, Drawn, auth_output, Body, empty, auth, creation_options, request_options, message,
  Exchange, on_app, set_refresh_cookie, current_user, Decorators, undecorated,
}

-- The responses of the browser, as texts, behind the e-mail where the route takes one.
pub data Route : Type 0 where
  post_register_options delete_credential : Route
  post_register_verify post_login_options : String → Route
  post_login_verify post_signup_options post_signup_verify : String → String → Route

unfoldable pub decorators : Route → Decorators
decorators post_register_options = undecorated
decorators (post_register_verify response) = undecorated
decorators (post_login_options email) = record undecorated { is_public = true }
decorators (post_login_verify email response) = record undecorated { is_public = true }
decorators delete_credential = undecorated
decorators (post_signup_options email display_name) = record undecorated { is_public = true }
decorators (post_signup_verify email response) = record undecorated { is_public = true }

module _ ⦃prisma : Prisma⦄ ⦃env : Env⦄ ⦃cache : CacheManager⦄ ⦃ceremony : Ceremony⦄
    {Byte : Type 0} where
  abbrev register_options : JwtPayload → Drawn Byte → ℕ → Exec Exchange Body
  register_options user drawn now = do
    options ← on_app (Webauthn.register_options user.sub user.email drawn.text now)
    pure (creation_options options)

  abbrev register_verify : JwtPayload → String → Drawn Byte → ℕ → Exec Exchange Body
  register_verify user response drawn now =
      on_app (Webauthn.register_verify user.sub response drawn.id now)
      >> pure (message "Passkey registered.")

  unfoldable pub login_verify : String → String → Request → Drawn Byte → ℕ → Exec Exchange Body
  login_verify email response req drawn now = do
    user_id ← on_app (Webauthn.login_verify email response now)
    session ← on_app (issue_tokens user_id req.user_agent drawn.token now)
    set_refresh_cookie session.refresh_token now
    pure (auth (auth_output session))

  unfoldable pub signup_verify : String → String → Request → Drawn Byte → ℕ → Exec Exchange Body
  signup_verify email response req drawn now = do
    user_id ← on_app (Webauthn.signup_verify email response drawn.id drawn.second_id now)
    session ← on_app (issue_tokens user_id req.user_agent drawn.token now)
    set_refresh_cookie session.refresh_token now
    pure (auth (auth_output session))

  unfoldable pub run : Route → Option JwtPayload → Request → Drawn Byte → ℕ → Exec Exchange Body
  run post_register_options found req drawn now = do
    user ← current_user found
    register_options user drawn now
  run (post_register_verify response) found req drawn now = do
    user ← current_user found
    register_verify user response drawn now
  run (post_login_options email) found req drawn now = do
    options ← on_app (Webauthn.login_options email drawn.text now)
    pure (request_options options)
  run (post_login_verify email response) found req drawn now =
      login_verify email response req drawn now
  run delete_credential found req drawn now = do
    user ← current_user found
    on_app (Webauthn.delete_credential user.sub)
    pure empty
  run (post_signup_options email display_name) found req drawn now = do
    options ← on_app (Webauthn.signup_options email display_name drawn.text now)
    pure (creation_options options)
  run (post_signup_verify email response) found req drawn now =
      signup_verify email response req drawn now
