-- ===== src/Auth/TwoFactor.antt =====
-- src/modules/auth/two-factor/two-factor.service.ts: the second factor. The secret, the vector and
-- the digits of the backup codes that the code draws at random are arguments.
pub mod SingleUse
pub mod Backup
mod Tests
use Prim.Native.Char.{code}
use Prim.Native.String
use nest_nexus.Prelude.{
  ℕ, zero, suc, String, Bool, true, false, not, ◌&&◌, Option, none, some, List, [], ◌∷◌, map, ◌==◌,
  nat_eq, string_eq, if◌then◌else◌, includes, filter, truthy, or_else,
}
use nest_nexus.Exec.{
  bad_request, unauthorized, not_found, conflict, Result, Exec, pure, throw, lift, require, unless,
  ◌>>=◌, ◌>>◌,
}
use nest_nexus.Prisma.{Prisma}
use nest_nexus.Schema.{User, App}
use nest_nexus.Store.{users, find_unique, update}
use nest_nexus.Env.{Env}
use nest_nexus.Crypto.{Cipher, slice_from, encrypt_totp_secret, decrypt_totp_secret}

-- The libraries of one-time passwords, which hold at a time, and QR codes.
pub record Totp : Type 0 where
  pub verify_totp : String → String → ℕ → Bool
  pub generate_uri : String → String → String
  pub to_data_url : String → String

pub record SetupData : Type 0 where
  pub secret : String
  pub otpauth_url : String
  pub qr_code_data_url : String

-- `code.replace(/-/g, '')`
abbrev pub without_dashes : String → String
without_dashes String.[] = String.[]
without_dashes (String.◌∷◌ c s) =
    let rest = without_dashes s in if code c == b'-' then rest else String.◌∷◌ c rest

-- `slice`, with an end.
abbrev pub slice_to : ℕ → String → String
slice_to zero s = String.[]
slice_to (suc n) String.[] = String.[]
slice_to (suc n) (String.◌∷◌ c s) = String.◌∷◌ c (slice_to n s)

-- Sixteen hexadecimal digits in four groups.
abbrev pub grouped : String → String
grouped hex = String.◌++◌ (slice_to 4 hex) (
    String.◌++◌ "-" (
      String.◌++◌ (slice_to 4 (slice_from 4 hex)) (
        String.◌++◌ "-"
          (String.◌++◌ (slice_to 4 (slice_from 8 hex)) (String.◌++◌ "-" (slice_from 12 hex))))))

-- `Array.from({ length: n }, …)`, where the i-th call draws the i-th text.
abbrev pub array_from : {A : Type 0} → ℕ → (ℕ → A) → List A
array_from zero draw = []
array_from (suc n) draw = draw 0 ∷ array_from n (λ i. draw (suc i))

abbrev pub secret_of : Option User → Option String
secret_of none = none
secret_of (some user) = if truthy user.two_factor_secret then user.two_factor_secret else none

abbrev pub enabled_user : Option User → Bool
enabled_user none = false
enabled_user (some user) = user.is_two_factor_enabled

abbrev pub codes_of : Option User → List String
codes_of none = []
codes_of (some user) = user.two_factor_backup_codes

module _ ⦃prisma : Prisma⦄ ⦃env : Env⦄ ⦃cipher : Cipher⦄ ⦃totp : Totp⦄ where
  abbrev pub normalize_backup_code : String → String
  normalize_backup_code backup_code = env.to_upper_case (without_dashes backup_code)

  abbrev pub hash_code : String → String → String
  hash_code user_id backup_code = env.sha256_hex (String.◌++◌ user_id (String.◌++◌ ":" backup_code))

  abbrev pub backup_hash : String → String → String
  backup_hash user_id backup_code = hash_code user_id (normalize_backup_code backup_code)

  -- `crypto.randomBytes(8).toString('hex')` is drawn ten times.
  abbrev pub generate_backup_codes : (ℕ → String) → List String
  generate_backup_codes hex = array_from 10 (λ i. grouped (env.to_upper_case (hex i)))

  unfoldable pub setup : String → String → List cipher.Byte → ℕ → Exec App SetupData
  setup user_id secret iv now = do
    found ← find_unique users (λ u. u.id == user_id)
    user ← require found (not_found "User not found.")
    let otpauth_url = totp.generate_uri user.email secret
    update users (λ u. u.id == user_id)
        (λ u. record u {
          two_factor_secret = some (encrypt_totp_secret secret env.config.totp_encryption_key iv);
          updated_at = now;
        })
    pure (record {
      secret = secret;
      otpauth_url = otpauth_url;
      qr_code_data_url = totp.to_data_url otpauth_url;
    })

  abbrev pub switched_on : String → List String → ℕ → User → User
  switched_on user_id backup_codes now u = record u {
    is_two_factor_enabled = true;
    two_factor_backup_codes = map (backup_hash user_id) backup_codes;
    updated_at = now;
  }

  unfoldable pub enable : String → String → (ℕ → String) → ℕ → Exec App (List String)
  enable user_id totp_code hex now = do
    found ← find_unique users (λ u. u.id == user_id)
    stored ← require (secret_of found) (bad_request "Run 2FA setup first.")
    unless (not (enabled_user found)) (conflict "2FA is already enabled.")
    secret ← lift (decrypt_totp_secret stored env.config.totp_encryption_key)
    unless (totp.verify_totp totp_code secret now) (unauthorized "Invalid TOTP code.")
    let backup_codes = generate_backup_codes hex
    update users (λ u. u.id == user_id) (switched_on user_id backup_codes now)
    pure backup_codes

  -- A backup code that matches is used up.
  abbrev pub without_code : String → List String → ℕ → User → User
  without_code hash hashes now u = record u {
    two_factor_backup_codes = filter (λ c. not (c == hash)) hashes;
    updated_at = now;
  }

  abbrev pub try_backup_code : String → String → List String → ℕ → Exec App Bool
  try_backup_code user_id backup_code hashes now =
      if includes hashes (backup_hash user_id backup_code)
      then (update users (λ u. u.id == user_id)
            (without_code (backup_hash user_id backup_code) hashes now)
          >> pure true)
      else pure false

  abbrev pub accept_code : String → String → List String → ℕ → Bool → Exec App Bool
  accept_code user_id given hashes now true = pure true
  accept_code user_id given hashes now false = try_backup_code user_id given hashes now

  abbrev verify_secret : String → String → List String → ℕ → Option String → Exec App Bool
  verify_secret user_id given hashes now none = pure false
  verify_secret user_id given hashes now (some stored) = do
    secret ← lift (decrypt_totp_secret stored env.config.totp_encryption_key)
    accept_code user_id given hashes now (totp.verify_totp given secret now)

  abbrev verify_enabled : String → String → ℕ → Option User → Exec App Bool
  verify_enabled user_id given now found =
      if enabled_user found
      then verify_secret user_id given (codes_of found) now (secret_of found)
      else pure false

  unfoldable pub verify : String → String → ℕ → Exec App Bool
  verify user_id given now = do
    found ← find_unique users (λ u. u.id == user_id)
    verify_enabled user_id given now found

  unfoldable pub disable : String → String → ℕ → Exec App (Unit {0})
  unfolding verify
  disable user_id totp_code now = do
    found ← find_unique users (λ u. u.id == user_id)
    unless (enabled_user found) (bad_request "2FA is not enabled.")
    valid ← verify user_id totp_code now
    unless valid (unauthorized "Invalid TOTP or backup code.")
    update users (λ u. u.id == user_id)
        (λ u. record u {
          is_two_factor_enabled = false;
          two_factor_secret = none;
          two_factor_backup_codes = [];
          updated_at = now;
        })
    pure tt
