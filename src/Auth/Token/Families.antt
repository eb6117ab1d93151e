-- ===== src/Auth/Token/Families.antt =====
-- The families of refresh tokens, and what a token that is not live does to its family.
use nest_nexus.Prelude.{
  ℕ, String, ◌≡◌, refl, inl, inr, true, false, Option, some, List, arith, ◌==◌, string_eq, find,
  filter, take, Has, is_nil, Bool-cases, Option-cases, take-is_nil, deleted-none, filter-nil,
}
use nest_nexus.Exec.{Result, err, unauthorized}
use nest_nexus.Prisma.{list_prisma}
use nest_nexus.Schema.{User, RefreshToken, App}
use nest_nexus.Env.{RefreshTokenPayload, Env}
use nest_nexus.Auth.Token.{
  FreshToken, Rotation, in_family, hash_refresh_token, rotate_refresh_token,
}

pub some_inj : {a b : RefreshToken} → some a ≡ some b → a ≡ b
some_inj h = cc

module _ ⦃env : Env⦄ where
  -- The token that a request brings, among the first fifty of its family.
  abbrev pub presented : String → RefreshTokenPayload → List RefreshToken → Option RefreshToken
  presented raw payload rows =
      find (λ t. t.token_hash == hash_refresh_token raw)
        (take 50 (filter (in_family payload.sub payload.family) rows))

  abbrev pub owner_of : RefreshTokenPayload → App → Option User
  owner_of payload s = find (λ u. u.id == payload.sub) s.users

  abbrev pub genuine : String → ℕ → Option RefreshTokenPayload
  genuine raw now = env.verify_refresh raw env.config.jwt_refresh_secret now

  -- The family has no token in the table.
  abbrev pub IsEnded : RefreshTokenPayload → App → Type 0
  IsEnded payload s =
      (t : RefreshToken) → Has t s.refresh_tokens → in_family payload.sub payload.family t ≡ false

  abbrev pub IsRejected : RefreshTokenPayload → Result Rotation × App → Type 0
  IsRejected payload r =
      ((message : String) × (r.0 ≡ err (unauthorized message))) × IsEnded payload r.1

  pub reuse_refused :
      (raw : String) (fresh : FreshToken) (now : ℕ) (s : App) (payload : RefreshTokenPayload)
      (user : User)
      → genuine raw now ≡ some payload
      → owner_of payload s ≡ some user
      → user.is_active ≡ true
      → ((t : RefreshToken) → presented raw payload s.refresh_tokens ≡ some t → t.is_revoked ≡ true)
      → IsRejected payload (rotate_refresh_token raw fresh now s)
  unfolding rotate_refresh_token
  reuse_refused raw fresh now s payload user verified owned active spent =
      elim (Option-cases (presented raw payload s.refresh_tokens)) [
        | inr (t, found) ↦ rw verified (
            rw owned (
              rw active (
                rw found (
                  rw (spent t found) (
                    (_, refl),
                    λ u place.
                        deleted-none (in_family payload.sub payload.family) s.refresh_tokens place,
                  )))))
        | inl unknown ↦
            elim (Bool-cases
              (is_nil (take 50 (filter (in_family payload.sub payload.family) s.refresh_tokens)))) [
                | inl gone ↦ rw verified (
                    rw owned (
                      rw active (
                        rw unknown (
                          rw gone (
                            (_, refl),
                            λ u place.
                                filter-nil (in_family payload.sub payload.family) s.refresh_tokens
                                  (take-is_nil 50 _ (omega arith) gone) place,
                          )))))
                | inr others ↦ rw verified (
                    rw owned (
                      rw active (
                        rw unknown (
                          rw others (
                            (_, refl),
                            λ u place.
                                deleted-none (in_family payload.sub payload.family) s.refresh_tokens
                                  place,
                          )))))
              ]
      ]
