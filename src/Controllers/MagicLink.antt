-- ===== src/Controllers/MagicLink.antt =====
-- src/modules/auth/magic-link/magic-link.controller.ts
use nest_nexus.Prelude.{ℕ, String, true, Option}
use nest_nexus.Exec.{Exec, pure, ◌>>=◌, ◌>>◌}
use nest_nexus.Prisma.{Prisma}
use nest_nexus.Env.{JwtPayload, Env}
use nest_nexus.Auth.Service.{issue_tokens}
use nest_nexus.Auth.MagicLink
use nest_nexus.Http.{
  Request, Drawn, auth_output, Body, auth, message, Exchange, on_app, set_refresh_cookie,
  Decorators, undecorated,
}

-- The e-mail of MagicLinkSendInput, and the token of MagicLinkVerifyInput.
pub data Route : Type 0 where
  post_send get_verify : String → Route

unfoldable pub decorators : Route → Decorators
decorators (post_send email) = record undecorated { is_public = true }
decorators (get_verify token) = record undecorated { is_public = true }

module _ ⦃prisma : Prisma⦄ ⦃env : Env⦄ {Byte : Type 0} where
  unfoldable pub send : String → Drawn Byte → ℕ → Exec Exchange Body
  send email drawn now =
      on_app (MagicLink.send email drawn.text now)
      >> pure (message "If an account with this email exists, a login link has been sent.")

  unfoldable pub verify : String → Request → Drawn Byte → ℕ → Exec Exchange Body
  verify token req drawn now = do
    user_id ← on_app (MagicLink.verify_link token now)
    session ← on_app (issue_tokens user_id req.user_agent drawn.token now)
    set_refresh_cookie session.refresh_token now
    pure (auth (auth_output session))

  unfoldable pub run : Route → Option JwtPayload → Request → Drawn Byte → ℕ → Exec Exchange Body
  run (post_send email) found req drawn now = send email drawn now
  run (get_verify token) found req drawn now = verify token req drawn now
