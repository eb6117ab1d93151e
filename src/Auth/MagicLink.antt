-- ===== src/Auth/MagicLink.antt =====
-- src/modules/auth/magic-link/magic-link.service.ts: a link by e-mail that signs in once. The token
-- that the code draws at random is an argument.
pub mod Once
use Prim.Native.String
use nest_nexus.Prelude.{
  ℕ, ◌+◌, String, Bool, true, false, ◌&&◌, Option, none, some, ◌==◌, string_eq, if◌then◌else◌, ltb,
}
use nest_nexus.Exec.{
  Exception, prisma_known, unauthorized, Exec, pure, throw, catch, require, ◌>>=◌, ◌>>◌,
}
use nest_nexus.Prisma.{Prisma}
use nest_nexus.Schema.{User, MagicLinkEmail, same_text, App}
use nest_nexus.Store.{users, find_first, update, enqueue}
use nest_nexus.Env.{Env}

abbrev pub expiry_ms : ℕ
expiry_ms = 900000

-- An unknown e-mail is answered like a known one.
abbrev ignore_unknown : Exception → Exec App (Option User)
ignore_unknown (prisma_known code) =
    if code == "P2025" then pure none else throw (prisma_known code)
ignore_unknown e = throw e

-- `magicLinkExpiresAt: { gt: now }`
abbrev pub expires_after : ℕ → Option ℕ → Bool
expires_after now none = false
expires_after now (some expires) = ltb now expires

abbrev pub is_link_of : String → ℕ → User → Bool
is_link_of token_hash now u =
    same_text u.magic_link_token_hash (some token_hash) && expires_after now u.magic_link_expires_at

module _ ⦃prisma : Prisma⦄ ⦃env : Env⦄ where
  abbrev send_to : String → String → Option User → Exec App (Unit {0})
  send_to email token none = pure tt
  send_to email token (some user) = enqueue (record {
    to = email;
    display_name = user.display_name;
    magic_link = String.◌++◌ env.config.client_origin (String.◌++◌ "/auth/magic-link?token=" token);
    expires_in_minutes = 15;
  })

  unfoldable pub send : String → String → ℕ → Exec App (Unit {0})
  send email token now = do
    user ←
        catch
          (do
            u ←
                update users (λ u. u.email == env.to_lower_case email)
                  (λ u. record u {
                    magic_link_token_hash = some (env.sha256_hex token);
                    magic_link_expires_at = some (now + expiry_ms);
                    updated_at = now;
                  })
            pure (some u))
          ignore_unknown
    send_to email token user

  unfoldable pub verify_link : String → ℕ → Exec App String
  verify_link token now = do
    found ← find_first users (is_link_of (env.sha256_hex token) now)
    user ← require found (unauthorized "Invalid or expired magic link.")
    update users (λ u. u.id == user.id)
        (λ u. record u {
          magic_link_token_hash = none;
          magic_link_expires_at = none;
          updated_at = now;
        })
    pure user.id
