-- ===== src/Auth/TwoFactor/Backup.antt =====
-- src/modules/auth/two-factor/two-factor.service.ts: the ten backup codes that are answered when the
-- second factor is switched on.
use Prim.Native.String
use nest_nexus.Prelude.{
  ℕ, String, ◌≡◌, false, not, ◌&&◌, any, some, List, ◌==◌, string_eq, find, map_if,
}
use nest_nexus.Exec.{ok}
use nest_nexus.Prisma.{Prisma, list_prisma}
use nest_nexus.Schema.{User, user_clash, App}
use nest_nexus.Store.{users}
use nest_nexus.Env.{Env}
use nest_nexus.Crypto.{Cipher, decrypt_totp_secret}
use nest_nexus.Auth.TwoFactor.{Totp, secret_of, generate_backup_codes, switched_on}

module _ ⦃env : Env⦄ ⦃cipher : Cipher⦄ ⦃totp : Totp⦄ where
  -- The user whose second factor a call switched on.
  abbrev SwitchedOn : String → (ℕ → String) → ℕ → App → List String → App → Type 0
  SwitchedOn user_id hex now s codes t =
      (user : User) × (find (λ u. u.id == user_id) s.users ≡ some user)
      × (stored : String) × (secret_of (some user) ≡ some stored)
      × (secret : String) × (decrypt_totp_secret stored env.config.totp_encryption_key ≡ ok secret)
      × (any (λ o. not (o.id == user_id) && user_clash (switched_on user_id codes now user) o)
            s.users
          ≡ false)
      × (t.users ≡ map_if (λ u. u.id == user_id) (switched_on user_id codes now) s.users)
      × (codes ≡ generate_backup_codes hex)
