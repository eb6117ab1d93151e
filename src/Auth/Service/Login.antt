-- ===== src/Auth/Service/Login.antt =====
-- src/modules/auth/auth.service.ts: what a password sign-in has checked when it answers.
use Prim.Native.String
use nest_nexus.Prelude.{
  ℕ, ◌<◌, arith, String, ◌≡◌, ◌⊎◌, sym, ap, inl, inr, true, Option, none, some, [], ◌==◌, string_eq,
  or_else, find, leb, Bool-cases, Option-cases,
}
use nest_nexus.Exec.{Result, ok, failed, ok_inj}
use nest_nexus.Prisma.{Prisma, PrismaLaws, list_prisma, by_lists}
use nest_nexus.Schema.{User, App}
use nest_nexus.Cache.{CacheManager, CacheLaws, map_cache, by_map, live}
use nest_nexus.Env.{Env}
use nest_nexus.Auth.Token.{FreshToken, generate_pending_two_factor_token}
use nest_nexus.Auth.Service.{LoginInput, Session, as_failures, dummy_hash, admit, login}

module _ ⦃env : Env⦄ where
  -- The key under which a sign-in counts its failures, and the failures that count at a time.
  abbrev pub fail_key_of : LoginInput → Option String → String
  fail_key_of dto ip =
      String.◌++◌ "login:fail:"
        (String.◌++◌ (or_else ip "unknown") (String.◌++◌ ":" (env.to_lower_case dto.email)))

  abbrev pub failures_at : ℕ → LoginInput → Option String → App → ℕ
  failures_at now dto ip s = as_failures (live now (s.cache (fail_key_of dto ip)))

  abbrev pub account_of : LoginInput → App → Option User
  account_of dto s = find (λ u. u.email == env.to_lower_case dto.email) s.users

  -- The token that only lets the second factor be verified: it has no roles and the scope for that.
  abbrev pub pending_token : User → ℕ → String
  pending_token user now =
      env.sign_access
        (record {
          sub = user.id;
          email = user.email;
          roles = [];
          scope = some "two_factor_pending";
        })
        env.config.jwt_secret (some "5m") now

  -- The password fits the stored hash or, for a user without one, the constant of the source.
  abbrev pub FitsPassword : LoginInput → User → Type 0
  FitsPassword dto user =
      ((hash : String) × (user.password ≡ some hash)
        × (env.bcrypt_compare dto.password hash ≡ true))
      ⊎ ((user.password ≡ none)
          × (env.bcrypt_compare dto.password
                "$2b$12$LlxSWCRB6GdBk9m4LPHIAeOELn5X7YV5l1Kp6Kgv4H9ZfXhVLMnaX"
              ≡ true))

  fits_password :
      (dto : LoginInput) (user : User)
      → env.bcrypt_compare dto.password (or_else user.password dummy_hash) ≡ true
      → FitsPassword dto user
  fits_password dto user right = elim (Option-cases user.password) [
    | inl bare ↦ inr (bare, rw bare at right)
    | inr (hash, kept) ↦ inl (hash, kept, rw kept at right)
  ]

  -- Everything that a session rests on, and that the second factor holds it back.
  abbrev pub IsProven : LoginInput → Option String → ℕ → App → Session × App → Type 0
  IsProven dto ip now s r =
      (failures_at now dto ip s < 10)
      × ((user : User) × (account_of dto s ≡ some user)
          × FitsPassword dto user
          × (user.is_active ≡ true)
          × (user.is_two_factor_enabled ≡ true
              → (r.0.is_two_factor_pending ≡ true)
                × (r.0.access_token ≡ pending_token user now)
                × (r.0.user ≡ none)
                × (r.0.refresh_token ≡ "")
                × (r.1.refresh_tokens ≡ s.refresh_tokens)))

  login_checks :
      (dto : LoginInput) (ip agent : Option String) (fresh : FreshToken) (now : ℕ) (s t : App)
      (session : Session)
      → login dto ip agent fresh now s ≡ (ok session, t)
      → IsProven dto ip now s (session, t)
  unfolding login admit generate_pending_two_factor_token
  login_checks dto ip agent fresh now s t session h =
      elim (Bool-cases (leb 10 (failures_at now dto ip s))) [
        | inl locked ↦ failed (rw locked at h)
        | inr open_ ↦ elim (Option-cases (account_of dto s)) [
          | inl missing ↦ failed (rw missing at (rw open_ at h))
          | inr (user, found) ↦
              elim (Bool-cases
                (env.bcrypt_compare dto.password (or_else user.password dummy_hash))) [
                  | inr wrong ↦ failed (rw wrong at (rw found at (rw open_ at h)))
                  | inl right ↦ elim (Bool-cases user.is_active) [
                    | inr inactive ↦
                        failed (rw inactive at (rw right at (rw found at (rw open_ at h))))
                    | inl active ↦ (
                      ground arith,
                      (
                        user,
                        found,
                        fits_password dto user right,
                        active,
                        λ two.
                            held (
                              rw two at (rw active at (rw right at (rw found at (rw open_ at h))))),
                      ),
                    )
                  ]
                ]
        ]
      ]
    where
      held :
          {token : String} {expires : ℕ} {s' : App}
          → ◌≡◌ {A = Result Session × App}
              (
                ok (record {
                  access_token = token;
                  user = none;
                  is_two_factor_pending = true;
                  access_token_expires_at = expires;
                  refresh_token = "";
                }),
                s',
              )
              (ok session, t)
          → (session.is_two_factor_pending ≡ true)
            × (session.access_token ≡ token)
            × (session.user ≡ none)
            × (session.refresh_token ≡ "")
            × (t.refresh_tokens ≡ s'.refresh_tokens)
      held e =
          let same = ok_inj (ap (λ (o : Result Session × App). o.0) (sym e)) in
          (
            ap (λ (x : Session). x.is_two_factor_pending) same,
            ap (λ (x : Session). x.access_token) same,
            ap (λ (x : Session). x.user) same,
            ap (λ (x : Session). x.refresh_token) same,
            ap (λ (o : Result Session × App). o.1.refresh_tokens) (sym e),
          )

module _ {prisma : Prisma} (laws : PrismaLaws prisma) {cache : CacheManager}
    (cache_laws : CacheLaws cache) ⦃env : Env⦄ where
  -- A password sign-in that answers has seen fewer than ten failures for its address and e-mail, and
  -- the e-mail is of an active user. The password fits the stored hash of that user or, where none is
  -- stored, the constant hash of the source. If the user has a second factor, the answer is pending:
  -- its access token is signed without roles and with the scope for the second factor alone, it has
  -- no user and no refresh token, and none was stored.
  pub login-IsProven :
      (dto : LoginInput) (ip agent : Option String) (fresh : FreshToken) (now : ℕ) (s t : App)
      (session : Session)
      → login ⦃prisma = prisma⦄ ⦃cache = cache⦄ dto ip agent fresh now s ≡ (ok session, t)
      → IsProven dto ip now s (session, t)
  login-IsProven = rw (by_lists laws, by_map cache_laws) login_checks
