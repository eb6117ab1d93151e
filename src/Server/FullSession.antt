-- ===== src/Server/FullSession.antt =====
-- src/modules/auth/magic-link/magic-link.controller.ts: the session that a sign-in by magic link
-- answers with. docs/usecases/04-auth-magic-link.md, section 6, has a pending token in its place for a
-- user with a second factor.
use nest_nexus.Prelude.{
  ℕ, String, ◌≡◌, refl, sym, ap, ◌∙◌, Bool, true, false, Option, none, some, ◌==◌, string_eq,
  if◌then◌else◌,
}
use nest_nexus.Exec.{Result, ok, bind-ok, require-ok, require, not_found, ok_inj, pure, ◌>>◌}
use nest_nexus.Prisma.{Prisma}
use nest_nexus.Schema.{User, App, to_user_output, prune_expired_tokens}
use nest_nexus.Store.{refresh_tokens, create, start}
use nest_nexus.Env.{Env}
use nest_nexus.Auth.Token.{
  FreshToken, generate_access_token, generate_refresh_token, RefreshOptions, new_token,
  sign_refresh_token, refresh_payload,
}
use nest_nexus.Auth.Service.{Session, build_auth_response, issue_tokens, active_or_none}
use nest_nexus.Http.{auth_output, AuthOutput}
use nest_nexus.Controllers.MagicLink

module _ ⦃prisma : Prisma⦄ ⦃env : Env⦄ where
  -- A session with the rights of the user: no second factor is asked for any more.
  abbrev pub IsFull : User → ℕ → AuthOutput → Type 0
  IsFull user now o =
      (o.access_token ≡ generate_access_token user now)
      × (o.user ≡ some (to_user_output user))
      × (o.is_two_factor_pending ≡ false)

  -- The refresh token of a session, signed for the user.
  abbrev pub refresh_of : User → FreshToken → ℕ → String
  refresh_of user fresh now =
      env.sign_refresh (record { sub = user.id; jti = fresh.jti; family = fresh.family })
        env.config.jwt_refresh_secret env.config.jwt_refresh_expires_in now

  -- A refresh token that starts a family.
  generate_refresh_token-refresh_of :
      (user : User) (options : RefreshOptions) (fresh : FreshToken) (now : ℕ) (s u : App)
      (token : String)
      → generate_refresh_token user.id options fresh now s ≡ (ok token, u)
      → options.existing_family ≡ none
      → token ≡ refresh_of user fresh now
  unfolding generate_refresh_token
  generate_refresh_token-refresh_of user options fresh now s u token h new =
      let (_, v, _, rest) =
        bind-ok (create refresh_tokens (new_token user.id options fresh now))
          (λ _.
            start (prune_expired_tokens user.id)
            >> pure (sign_refresh_token (refresh_payload user.id options fresh) now))
          s h in
      let e : token ≡ sign_refresh_token (refresh_payload user.id options fresh) now =
        ok_inj (ap (λ (o : Result String × App). o.0) (sym rest)) in
      rw new at e

  build-IsFull :
      (user : User) (agent : Option String) (fresh : FreshToken) (now : ℕ) (s t : App)
      (session : Session)
      → build_auth_response user agent fresh now s ≡ (ok session, t)
      → IsFull user now (auth_output session) × (session.refresh_token ≡ refresh_of user fresh now)
  unfolding build_auth_response
  build-IsFull user agent fresh now s t session h =
      let (token, u, made, rest) = bind-ok (generate_refresh_token user.id _ fresh now) _ s h in
      let same = ok_inj (ap (λ (o : Result Session × App). o.0) (sym rest)) in
      (
        (
          ap (λ (o : Session). o.access_token) same,
          ap (λ (o : Session). o.user) same,
          ap (λ (o : Session). o.is_two_factor_pending) same,
        ),
        ap (λ (o : Session). o.refresh_token) same
            ∙ generate_refresh_token-refresh_of user _ fresh now s u token made refl,
      )

  -- The active user to whom tokens are issued.
  abbrev pub IsIssued : String → FreshToken → ℕ → App → AuthOutput → String → Type 0
  IsIssued id fresh now s o refresh =
      (user : User) × (prisma.find_unique (λ u. u.id == id) s.users ≡ some user)
      × (user.is_active ≡ true)
      × IsFull user now o
      × (refresh ≡ refresh_of user fresh now)

  kept_if :
      (b : Bool) (v user : User)
      → (if b then some v else none) ≡ some user
      → (b ≡ true) × (v ≡ user)
  kept_if true v user h = (refl, cc)
  kept_if false v user h = cc

  active-some :
      (found : Option User) (user : User)
      → active_or_none found ≡ some user
      → (found ≡ some user) × (user.is_active ≡ true)
  active-some none user h = cc
  active-some (some v) user h =
      let (active, same) = kept_if v.is_active v user h in
      (ap some same, ap (λ (u : User). u.is_active) (sym same) ∙ active)

  pub issue-IsIssued :
      (id : String) (agent : Option String) (fresh : FreshToken) (now : ℕ) (s t : App)
      (session : Session)
      → issue_tokens id agent fresh now s ≡ (ok session, t)
      → IsIssued id fresh now s (auth_output session) session.refresh_token
  unfolding issue_tokens
  issue-IsIssued id agent fresh now s t session h =
      let found = prisma.find_unique (λ (u : User). u.id == id) s.users in
      let (user, u, held, rest) =
        bind-ok (require (active_or_none found) (not_found "User not found or inactive."))
          (λ user. build_auth_response user agent fresh now) s h in
      let (found_active, same) = require-ok (active_or_none found) _ s held in
      let (there, active) = active-some found user found_active in
      let (full, refresh) = build-IsFull user agent fresh now u t session rest in
      (user, there, active, full, refresh)
