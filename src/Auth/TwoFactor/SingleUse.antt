-- ===== src/Auth/TwoFactor/SingleUse.antt =====
-- src/modules/auth/two-factor/two-factor.service.ts: the use of a backup code.
use nest_nexus.Prelude.{
  ℕ, String, ◌≡◌, refl, sym, ap, ◌∙◌, inl, inr, Bool, true, false, not, some, List, [], ◌∷◌, ◌==◌,
  string_eq, if◌then◌else◌, filter, includes, find, map_if, Bool-cases, Option-cases, find-some,
  find-map_if,
}
use nest_nexus.Exec.{Result, ok, pure, ◌>>◌, failed, ok_inj, Result-cases}
use nest_nexus.Prisma.{Prisma, PrismaLaws, list_prisma, by_lists}
use nest_nexus.Schema.{User, App}
use nest_nexus.Store.{users, update}
use nest_nexus.Store.Updates.{update-cases}
use nest_nexus.Env.{Env}
use nest_nexus.Crypto.{Cipher, decrypt_totp_secret}
use nest_nexus.Auth.TwoFactor.{
  Totp, secret_of, backup_hash, without_code, try_backup_code, accept_code, verify,
}

module _ ⦃env : Env⦄ ⦃cipher : Cipher⦄ ⦃totp : Totp⦄ where
  -- The user has no authenticator whose secret takes the text for a code, at any time.
  abbrev pub IsNoTotp : User → String → Type 0
  IsNoTotp user given =
      (stored secret : String) (time : ℕ)
      → secret_of (some user) ≡ some stored
      → decrypt_totp_secret stored env.config.totp_encryption_key ≡ ok secret
      → totp.verify_totp given secret time ≡ false

  used_up :
      (hashes : List String) (hash : String)
      → includes (filter (λ c. not (c == hash)) hashes) hash ≡ false
  used_up [] hash = refl
  used_up (c ∷ hashes) hash =
      let ih = used_up hashes hash in
      elim (Bool-cases (c == hash)) [
        | inl same ↦ rw same ih
        | inr another ↦ rw (another, another) ih
      ]

  no_answer : {P : Type 0} (s t : App) → ◌≡◌ {A = Result Bool × App} (ok false, s) (ok true, t) → P
  no_answer s t e = absurd (differ (ok_inj (ap (λ (o : Result Bool × App). o.0) e)))
    where
      differ : ¬ (false ≡ true)
      differ e = cc

  -- The user behind a call that answered, with the secret.
  abbrev Answers : String → String → ℕ → App → Bool → App → Type 0
  Answers user_id given now s answer t =
      (user : User) × (find (λ u. u.id == user_id) s.users ≡ some user)
      × (user.is_two_factor_enabled ≡ true)
      × (stored : String) × (secret_of (some user) ≡ some stored)
      × (secret : String) × (decrypt_totp_secret stored env.config.totp_encryption_key ≡ ok secret)
      × (accept_code user_id given user.two_factor_backup_codes now
            (totp.verify_totp given secret now) s
          ≡ (ok answer, t))

  verify-inversion :
      (user_id given : String) (now : ℕ) (s t : App)
      → verify user_id given now s ≡ (ok true, t)
      → Answers user_id given now s true t
  unfolding verify
  verify-inversion user_id given now s t h =
      elim (Option-cases (find (λ u. u.id == user_id) s.users)) [
        | inl missing ↦ no_answer s t (rw missing at h)
        | inr (user, found) ↦ elim (Bool-cases user.is_two_factor_enabled) [
          | inr off ↦ no_answer s t (rw off at (rw found at h))
          | inl on ↦ elim (Option-cases (secret_of (some user))) [
            | inl unset ↦ no_answer s t (rw unset at (rw on at (rw found at h)))
            | inr (stored, kept) ↦
                elim (Result-cases (decrypt_totp_secret stored env.config.totp_encryption_key)) [
                  | inl (e, broken) ↦ failed (rw broken at (rw kept at (rw on at (rw found at h))))
                  | inr (secret, opened) ↦ (
                    user,
                    found,
                    on,
                    stored,
                    kept,
                    secret,
                    opened,
                    rw opened at (rw kept at (rw on at (rw found at h))),
                  )
                ]
          ]
        ]
      ]

  backup-inversion :
      (user_id given : String) (hashes : List String) (now : ℕ) (s t : App)
      → try_backup_code user_id given hashes now s ≡ (ok true, t)
      → (includes hashes (backup_hash user_id given) ≡ true)
        × (t.users
            ≡ map_if
                (λ u. u.id == user_id)
                (without_code (backup_hash user_id given) hashes now)
                s.users)
  backup-inversion user_id given hashes now s t h =
      elim (Bool-cases (includes hashes (backup_hash user_id given))) [
        | inr unknown ↦ no_answer s t (rw unknown at h)
        | inl known ↦ (known, written (rw known at h))
      ]
    where
      written :
          (update users (λ u. u.id == user_id) (without_code (backup_hash user_id given) hashes now)
                >> pure true)
              s
            ≡ (ok true, t)
          → t.users
            ≡ map_if
                (λ u. u.id == user_id)
                (without_code (backup_hash user_id given) hashes now)
                s.users
      written h =
          elim (update-cases users (λ u. u.id == user_id)
            (without_code (backup_hash user_id given) hashes now) s) [
              | inl (e, refusal) ↦ failed (rw refusal at h)
              | inr (v, stored, done) ↦
                  ap (λ (o : Result Bool × App). o.1.users) (sym (rw done at h))
            ]

  refused :
      (user_id given : String) (now : ℕ) (t : App) (user : User)
      → find (λ u. u.id == user_id) t.users ≡ some user
      → user.is_two_factor_enabled ≡ true
      → (stored secret : String) → secret_of (some user) ≡ some stored
      → decrypt_totp_secret stored env.config.totp_encryption_key ≡ ok secret
      → totp.verify_totp given secret now ≡ false
      → includes user.two_factor_backup_codes (backup_hash user_id given) ≡ false
      → verify user_id given now t ≡ (ok false, t)
  unfolding verify
  refused user_id given now t user found on stored secret kept opened no_code unknown =
      rw (found, on, kept, opened, no_code, unknown) refl

  single_use :
      (user_id given : String) (now later_on : ℕ) (s t : App)
      → verify user_id given now s ≡ (ok true, t)
      → ((user : User) → find (λ u. u.id == user_id) s.users ≡ some user → IsNoTotp user given)
      → ((user : User) × (find (λ u. u.id == user_id) s.users ≡ some user)
          × (includes user.two_factor_backup_codes (backup_hash user_id given) ≡ true))
        × (verify user_id given later_on t ≡ (ok false, t))
  single_use user_id given now later_on s t h no_totp =
      let (user, found, on, stored, kept, secret, opened, accepted) =
        verify-inversion user_id given now s t h in
      let hash = backup_hash user_id given in
      let codes = user.two_factor_backup_codes in
      let q = λ (u : User). u.id == user_id in
      let none_now = no_totp user found stored secret now kept opened in
      let (known, written) =
        backup-inversion user_id given codes now s t (rw none_now at accepted) in
      let moved = find-map_if q q (without_code hash codes now) (λ u. refl) s.users found in
      let hit = (find-some q s.users found).1 in
      (
        (user, found, known),
        refused user_id given later_on t (without_code hash codes now user)
            (ap (find q) written
              ∙ moved
              ∙ ap (λ b. some (if b then without_code hash codes now user else user)) hit)
            on stored secret kept opened (no_totp user found stored secret later_on kept opened)
            (used_up codes hash),
      )

module _ {prisma : Prisma} (laws : PrismaLaws prisma) ⦃env : Env⦄ ⦃cipher : Cipher⦄
    ⦃totp : Totp⦄ where
  -- When a code that the authenticator never gives was accepted, it was one of the user's backup
  -- codes, and the same code is refused at every later time.
  pub verify-single_use :
      (user_id given : String) (now later_on : ℕ) (s t : App)
      → verify ⦃prisma = prisma⦄ user_id given now s ≡ (ok true, t)
      → ((user : User) → find (λ u. u.id == user_id) s.users ≡ some user → IsNoTotp user given)
      → ((user : User) × (find (λ u. u.id == user_id) s.users ≡ some user)
          × (includes user.two_factor_backup_codes (backup_hash ⦃prisma = prisma⦄ user_id given)
              ≡ true))
        × (verify ⦃prisma = prisma⦄ user_id given later_on t ≡ (ok false, t))
  verify-single_use = rw (by_lists laws) single_use
