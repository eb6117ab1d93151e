-- ===== src/Auth/JwtRefresh.antt =====
-- src/modules/auth/strategies/jwt-refresh.strategy.ts: a strategy that reads the refresh token from its
-- cookie. The refresh route does not use it: it calls rotateRefreshToken with the cookie.
use nest_nexus.Prelude.{ℕ, String, Option, none, if◌then◌else◌, truthy}
use nest_nexus.Exec.{unauthorized, Exec, pure, require, ◌>>=◌}
use nest_nexus.Env.{RefreshTokenPayload, Env}

abbrev pub extract_token : Option String → Option String
extract_token refresh_cookie = refresh_cookie

pub record Refreshed : Type 0 where
  pub payload : RefreshTokenPayload
  pub raw_token : String

-- The payload with the raw token, which may not be empty.
unfoldable pub validate_refresh :
    {S : Type 0} → Option String → RefreshTokenPayload → Exec S Refreshed
validate_refresh refresh_cookie payload =
    require (if truthy refresh_cookie then refresh_cookie else none) (unauthorized "Unauthorized")
    >>= λ raw_token. pure (record { payload = payload; raw_token = raw_token })

-- Passport verifies the signature and the expiry of the token that is extracted.
unfoldable pub authenticate_refresh :
    {S : Type 0} → ⦃env : Env⦄ → Option String → ℕ → Exec S Refreshed
unfolding validate_refresh
authenticate_refresh ⦃env⦄ refresh_cookie now = do
  token ← require (extract_token refresh_cookie) (unauthorized "Unauthorized")
  payload ←
      require (env.verify_refresh token env.config.jwt_refresh_secret now)
        (unauthorized "Unauthorized")
  validate_refresh refresh_cookie payload
