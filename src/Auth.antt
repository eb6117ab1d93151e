-- ===== src/Auth.antt =====
-- src/modules/auth: sessions, sign-in and the other ways to prove who one is.
pub mod Token
pub mod Service
pub mod Oauth
pub mod TwoFactor
pub mod MagicLink
pub mod ApiKeys
pub mod JwtStrategy
pub mod JwtRefresh
pub mod Webauthn
mod Tests
