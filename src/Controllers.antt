-- ===== src/Controllers.antt =====
-- The controllers of src/modules, a module for each: the routes with the inputs that they take, their
-- decorators, and their handlers.
pub mod Auth
pub mod TwoFactor
pub mod Webauthn
pub mod MagicLink
pub mod ApiKeys
pub mod Users
pub mod Documents
pub mod Oauth
