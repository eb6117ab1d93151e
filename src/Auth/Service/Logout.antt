-- ===== src/Auth/Service/Logout.antt =====
-- src/modules/auth/auth.service.ts: the refresh tokens of a user who signs out.
use nest_nexus.Prelude.{
  arith, ℕ, String, ◌≡◌, refl, sym, ap, ◌∙◌, inl, inr, Bool, true, false, not, Option, none, some,
  ◌==◌, string_eq, filter, take, Has, Bool-cases, Option-cases, find-some, Has-take, Has-filter,
}
use nest_nexus.Exec.{unauthorized, err}
use nest_nexus.Prisma.{Prisma, PrismaLaws, list_prisma, list_prisma_laws, by_lists}
use nest_nexus.Schema.{User, RefreshToken, App}
use nest_nexus.Env.{Env, RefreshTokenPayload}
use nest_nexus.Auth.Token.{FreshToken, in_family, revoke_all_tokens, rotate_refresh_token}
use nest_nexus.Auth.Token.Families.{presented, owner_of, genuine, IsEnded, IsRejected}
use nest_nexus.Auth.Token.Reuse.{rotate-reuse}
use nest_nexus.Auth.Service.{logout}

abbrev active_of : Option User → Bool
active_of none = false
active_of (some user) = user.is_active

module _ ⦃env : Env⦄ where
  logout-without :
      (user_id : String) (s : App) (t : RefreshToken)
      → Has t (logout user_id s).1.refresh_tokens
      → (t.user_id == user_id) ≡ false
  unfolding logout revoke_all_tokens
  logout-without user_id s t place =
      let kept = (Has-filter (λ t. not (t.user_id == user_id)) s.refresh_tokens place).1 in
      ground arith

  rotation_unowned :
      (raw : String) (fresh : FreshToken) (now : ℕ) (s : App) (payload : RefreshTokenPayload)
      → genuine raw now ≡ some payload
      → ((user : User) → owner_of payload s ≡ some user → user.is_active ≡ false)
      → rotate_refresh_token raw fresh now s ≡ (err (unauthorized "User not found or inactive."), s)
  unfolding rotate_refresh_token
  rotation_unowned raw fresh now s payload verified none_active =
      elim (Option-cases (owner_of payload s)) [
        | inl missing ↦ rw (verified, missing) refl
        | inr (user, owned) ↦ rw (verified, owned, none_active user owned) refl
      ]

  rejected :
      (payload : RefreshTokenPayload) (s : App) (raw : String) (fresh : FreshToken) (now : ℕ)
      → genuine raw now ≡ some payload
      → IsRejected payload (rotate_refresh_token raw fresh now (logout payload.sub s).1)
  rejected payload s raw fresh now verified = elim (Option-cases (owner_of payload t)) [
    | inl missing ↦
        rw
          (rotation_unowned raw fresh now t payload verified
            (λ user owned. let differ : none ≡ some user = sym missing ∙ owned in absurd cc))
          ((_, refl), ended)
    | inr (user, owned) ↦ elim (Bool-cases user.is_active) [
      | inl active ↦
          rotate-reuse list_prisma_laws raw fresh now t payload user verified owned active absent
      | inr inactive ↦
          rw (rotation_unowned raw fresh now t payload verified (same_user user owned inactive))
            ((_, refl), ended)
    ]
  ]
    where
      t : App
      t = (logout payload.sub s).1

      ended : IsEnded payload t
      ended u place = rw (logout-without payload.sub s u place) refl

      absent :
          (u : RefreshToken) → presented raw payload t.refresh_tokens ≡ some u → u.is_revoked ≡ true
      absent u found =
          let mine = in_family payload.sub payload.family in
          let (place, h) = find-some _ (take 50 (filter mine t.refresh_tokens)) found in
          let (stored, member) =
            Has-filter mine t.refresh_tokens (Has-take 50 (filter mine t.refresh_tokens) place) in
          let differ : false ≡ true = sym (ended u stored) ∙ member in absurd cc

      same_user :
          (user : User)
          → owner_of payload t ≡ some user
          → user.is_active ≡ false
          → (v : User) → owner_of payload t ≡ some v
          → v.is_active ≡ false
      same_user user owned inactive v owned' =
          let same : some user ≡ some v = sym owned ∙ owned' in ap active_of (sym same) ∙ inactive

module _ {prisma : Prisma} (laws : PrismaLaws prisma) ⦃env : Env⦄ where
  -- After a user has signed out, no refresh token of the user is stored, and every raw token of the
  -- user that verifies is refused with 401.
  pub logout-IsRejected :
      (payload : RefreshTokenPayload) (s : App)
      → ((t : RefreshToken)
          → Has t (logout ⦃prisma = prisma⦄ payload.sub s).1.refresh_tokens
          → (t.user_id == payload.sub) ≡ false)
        × ((raw : String) (fresh : FreshToken) (now : ℕ)
            → genuine raw now ≡ some payload
            → IsRejected payload (
                rotate_refresh_token ⦃prisma = prisma⦄ raw fresh now
                  (logout ⦃prisma = prisma⦄ payload.sub s).1))
  logout-IsRejected =
      rw (by_lists laws) (λ payload s. (logout-without payload.sub s, rejected payload s))
