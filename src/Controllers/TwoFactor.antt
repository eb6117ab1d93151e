-- ===== src/Controllers/TwoFactor.antt =====
-- src/modules/auth/two-factor/two-factor.controller.ts
use nest_nexus.Prelude.{ℕ, String, true, Option, ◌==◌, string_eq, or_else}
use nest_nexus.Exec.{unauthorized, Exec, pure, unless, ◌>>=◌, ◌>>◌}
use nest_nexus.Prisma.{Prisma}
use nest_nexus.Env.{JwtPayload, Env}
use nest_nexus.Crypto.{Cipher}
use nest_nexus.Auth.Service.{issue_tokens}
use nest_nexus.Auth.TwoFactor
use nest_nexus.Auth.TwoFactor.{Totp}
use nest_nexus.Http.{
  Request, Drawn, auth_output, Body, empty, auth, setup_data, backup_codes, Exchange, on_app,
  set_refresh_cookie, current_user, Decorators, undecorated,
}

-- The code of TwoFactorCodeInput.
pub data Route : Type 0 where
  post_setup : Route
  post_enable post_disable post_verify : String → Route

unfoldable pub decorators : Route → Decorators
decorators post_setup = undecorated
decorators (post_enable given) = undecorated
decorators (post_disable given) = undecorated
decorators (post_verify given) = record undecorated { allow_pending = true }

module _ ⦃prisma : Prisma⦄ ⦃env : Env⦄ ⦃cipher : Cipher⦄ ⦃totp : Totp⦄ where
  abbrev setup : JwtPayload → Drawn cipher.Byte → ℕ → Exec Exchange Body
  setup user drawn now = do
    made ← on_app (TwoFactor.setup user.sub drawn.text drawn.iv now)
    pure (setup_data made)

  abbrev enable : JwtPayload → String → Drawn cipher.Byte → ℕ → Exec Exchange Body
  enable user given drawn now = do
    codes ← on_app (TwoFactor.enable user.sub given drawn.hex now)
    pure (backup_codes codes)

  abbrev disable : JwtPayload → String → ℕ → Exec Exchange Body
  disable user given now = on_app (TwoFactor.disable user.sub given now) >> pure empty

  -- The second half of a sign-in: a pending token and a code for a full session.
  unfoldable pub verify : JwtPayload → String → Request → Drawn cipher.Byte → ℕ → Exec Exchange Body
  verify user given req drawn now = do
    unless (or_else user.scope "" == "two_factor_pending") (unauthorized "Invalid token scope.")
    valid ← on_app (TwoFactor.verify user.sub given now)
    unless valid (unauthorized "Invalid 2FA code.")
    session ← on_app (issue_tokens user.sub req.user_agent drawn.token now)
    set_refresh_cookie session.refresh_token now
    pure (auth (auth_output session))

  unfoldable pub run :
      Route → Option JwtPayload → Request → Drawn cipher.Byte → ℕ → Exec Exchange Body
  run post_setup found req drawn now = do user ← current_user found; setup user drawn now
  run (post_enable given) found req drawn now = do
    user ← current_user found
    enable user given drawn now
  run (post_disable given) found req drawn now = do
    user ← current_user found
    disable user given now
  run (post_verify given) found req drawn now = do
    user ← current_user found
    verify user given req drawn now
