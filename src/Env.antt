-- ===== src/Env.antt =====
-- What the services take from outside the repository: cryptography, tokens, text case, the formats of
-- addresses, and the configuration. Each is a parameter; a theorem names what it assumes of it.
use nest_nexus.Prelude.{ℕ, String, Bool, Option, List}

-- JwtPayload of src/modules/auth/strategies/jwt.strategy.ts, without the times that signing adds.
pub record JwtPayload : Type 0 where
  pub sub : String
  pub email : String
  pub roles : List String
  pub scope : Option String

pub record RefreshTokenPayload : Type 0 where
  pub sub : String
  pub jti : String
  pub family : String

-- The configuration of src/config, as far as the services read it.
pub record Config : Type 0 where
  pub jwt_secret : String
  pub jwt_refresh_secret : String
  pub jwt_expires_in : Option String
  pub jwt_refresh_expires_in : Option String
  pub node_env : String
  pub client_origin : String
  pub totp_encryption_key : String
  pub webauthn_rp_id : String
  pub webauthn_rp_name : String

-- `sign` takes the payload, the secret, the lifetime as the configuration writes it and the time;
-- `verify` gives the payload of a token that is genuine and has not expired.
pub record Env : Type 0 where
  pub config : Config
  pub sha256_hex : String → String
  pub to_lower_case : String → String
  pub to_upper_case : String → String
  pub is_email : String → Bool
  pub is_url : String → Bool
  pub sign_access : JwtPayload → String → Option String → ℕ → String
  pub sign_refresh : RefreshTokenPayload → String → Option String → ℕ → String
  pub verify_access : String → String → ℕ → Option JwtPayload
  pub verify_refresh : String → String → ℕ → Option RefreshTokenPayload
  pub bcrypt_hash : String → String
  pub bcrypt_compare : String → String → Bool
