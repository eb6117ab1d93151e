-- ===== src/Server/Pending.antt =====
-- The global guard: what a call that is not public has established before its handler runs.
use nest_nexus.Prelude.{
  ℕ, String, ◌≡◌, ◌⊎◌, refl, inl, inr, arith, Bool, true, false, not, ◌&&◌, Option, none, some,
  ◌==◌, string_eq, eq_iff, or_else, Bool-cases, Option-cases,
}
use nest_nexus.Exec.{
  Exception, bad_request, unauthorized, ok, err, ◌>>◌, Result-cases, err-ne-ok, failed, bind-ok,
  unless-ok,
}
use nest_nexus.Prisma.{Prisma, OrderBy}
use nest_nexus.Env.{JwtPayload, Env}
use nest_nexus.Cache.{CacheManager}
use nest_nexus.Crypto.{Cipher}
use nest_nexus.Guards.{jwt_auth_guard}
use nest_nexus.Auth.JwtStrategy.{JwtState, validate, authenticate, fresh_entry, lookup_entry}
use nest_nexus.Auth.TwoFactor.{Totp}
use nest_nexus.Auth.Webauthn.{Ceremony}
use nest_nexus.Http.{Request, Drawn, Body, Exchange}
use nest_nexus.Controllers.Auth
use nest_nexus.Controllers.TwoFactor
use nest_nexus.Controllers.TwoFactor.{post_verify}
use nest_nexus.Controllers.Webauthn
use nest_nexus.Controllers.MagicLink
use nest_nexus.Controllers.Oauth
use nest_nexus.Controllers.ApiKeys
use nest_nexus.Controllers.Users
use nest_nexus.Controllers.Documents
use nest_nexus.Server.{
  Call, auth, two_factor, decorators, class_guards, is_valid, validated, run, admitted, serve,
}

-- The one route that takes a pending second factor.
pending_route :
    (call : Call)
    → (decorators call).allow_pending ≡ true
    → (given : String) × (call ≡ two_factor (post_verify given))
unfolding decorators Auth.decorators TwoFactor.decorators Webauthn.decorators MagicLink.decorators
    Oauth.decorators ApiKeys.decorators Users.decorators Documents.decorators
pending_route (two_factor (post_verify given)) h = (given, refl)
pending_route (auth (Auth.post_register dto)) h = cc
pending_route _ h = ground arith

module _ ⦃prisma : Prisma⦄ ⦃env : Env⦄ where
  -- Passport reads the tables and writes only the strategy's cache.
  pub authenticate-app :
      (token : Option String) (now : ℕ) (s : JwtState) → (authenticate token now s).1.app ≡ s.app
  unfolding authenticate validate
  authenticate-app none now s = refl
  authenticate-app (some token) now s =
      elim (Option-cases (env.verify_access token env.config.jwt_secret now)) [
        | inl refused ↦ rw refused refl
        | inr (payload, named) ↦
            elim (Option-cases (fresh_entry now (lookup_entry payload.sub s.active_cache))) [
              | inl unknown ↦ rw named (rw unknown refl)
              | inr (entry, cached) ↦ rw named (rw cached refl)
            ]
      ]

  -- The two outcomes of the guard on a call that is not public.
  guard_cases :
      (allow : Bool) (token : Option String) (now : ℕ) (s : JwtState)
      → ((user : JwtPayload) × ((authenticate token now s).0 ≡ ok user)
          × (or_else user.scope "" ≡ "two_factor_pending" → allow ≡ true)
          × (jwt_auth_guard false allow (authenticate token now) s
              ≡ (ok (some user), (authenticate token now s).1)))
        ⊎ ((e : Exception) × (jwt_auth_guard false allow (authenticate token now) s
              ≡ (err e, (authenticate token now s).1)))
  unfolding jwt_auth_guard
  guard_cases allow token now s = elim (Result-cases (authenticate token now s).0) [
    | inl (e, refused) ↦ inr (e, rw refused refl)
    | inr (user, found) ↦
        elim (Bool-cases (or_else user.scope "" == "two_factor_pending" && not allow)) [
          | inl held ↦ inr (
            unauthorized "Two-factor authentication required to complete login.",
            rw found (rw held refl),
          )
          | inr free ↦ inl (
            user,
            found,
            λ e. ground (arith, eq_iff (or_else user.scope "") "two_factor_pending"),
            rw found (rw free refl),
          )
        ]
  ]

  -- The user behind the bearer token, in the state before the call.
  abbrev pub IsBearer : Option String → ℕ → JwtState → JwtPayload → Type 0
  IsBearer bearer now s user =
      (token : String) × (payload : JwtPayload) × (bearer ≡ some token)
      × (env.verify_access token env.config.jwt_secret now ≡ some payload)
      × ((validate payload now s).0 ≡ ok user)

  pub authenticate-IsBearer :
      (bearer : Option String) (now : ℕ) (s : JwtState) (user : JwtPayload)
      → (authenticate bearer now s).0 ≡ ok user
      → IsBearer bearer now s user
  unfolding authenticate
  authenticate-IsBearer none now s user h = absurd (err-ne-ok h)
  authenticate-IsBearer (some token) now s user h =
      elim (Option-cases (env.verify_access token env.config.jwt_secret now)) [
        | inl refused ↦ absurd (err-ne-ok (rw refused at h))
        | inr (payload, named) ↦ (token, payload, refl, named, rw named at h)
      ]

  -- The two outcomes of a call that is not public.
  admitted-cases :
      (call : Call) (req : Request) (now : ℕ) (x : Exchange)
      → (decorators call).is_public ≡ false
      → ((user : JwtPayload) × ((authenticate req.bearer now x.server).0 ≡ ok user)
          × (or_else user.scope "" ≡ "two_factor_pending" → (decorators call).allow_pending ≡ true)
          × (admitted call req now x
              ≡ (ok (some user), record x { server = (authenticate req.bearer now x.server).1 })))
        ⊎ ((e : Exception) × (admitted call req now x
              ≡ (err e, record x { server = (authenticate req.bearer now x.server).1 })))
  unfolding admitted
  admitted-cases call req now x protected =
      elim (guard_cases (decorators call).allow_pending req.bearer now x.server) [
        | inl (user, found, free, passed) ↦ inl (user, found, free, rw protected (rw passed refl))
        | inr (e, refused) ↦ inr (e, rw protected (rw refused refl))
      ]

module _ ⦃prisma : Prisma⦄ ⦃env : Env⦄ ⦃cache : CacheManager⦄ ⦃cipher : Cipher⦄ ⦃totp : Totp⦄
    ⦃ceremony : Ceremony⦄ ⦃order : OrderBy⦄ where
  -- A call that is not public either has the user of a genuine bearer token, who is active by the
  -- strategy's account, or it is refused, and then the tables and the cookies are as they were. A user
  -- whose second factor is pending gets no further than to the verification of the second factor.
  pub serve-IsBearer :
      (call : Call) (req : Request) (drawn : Drawn cipher.Byte) (now : ℕ) (x : Exchange)
      → (decorators call).is_public ≡ false
      → ((user : JwtPayload) × IsBearer req.bearer now x.server user
          × (or_else user.scope "" ≡ "two_factor_pending"
              → (given : String) × (call ≡ two_factor (post_verify given))))
        ⊎ ((e : Exception) × ((serve call req drawn now x).0 ≡ err e)
            × ((serve call req drawn now x).1.server.app ≡ x.server.app)
            × ((serve call req drawn now x).1.cookies ≡ x.cookies))
  unfolding serve
  serve-IsBearer call req drawn now x protected = elim (admitted-cases call req now x protected) [
    | inl (user, found, free, passed) ↦ inl (
      user,
      authenticate-IsBearer req.bearer now x.server user found,
      λ pending. pending_route call (free pending),
    )
    | inr (e, refused) ↦
        inr (
          e,
          rw refused refl,
          rw refused (authenticate-app req.bearer now x.server),
          rw refused refl,
        )
  ]

  -- The converse for a call that answered: the user of the token was let through the guards.
  pub serve-guarded :
      (call : Call) (req : Request) (drawn : Drawn cipher.Byte) (now : ℕ) (x y : Exchange)
      (body : Body)
      → (decorators call).is_public ≡ false
      → serve call req drawn now x ≡ (ok body, y)
      → (user : JwtPayload) × IsBearer req.bearer now x.server user
        × (t : Exchange) × (class_guards call
              (some user)
              (record x { server = (authenticate req.bearer now x.server).1 })
            ≡ (ok tt, t))
        × (is_valid call ≡ true)
        × (run call (some user) req drawn now t ≡ (ok body, y))
  unfolding serve
  serve-guarded call req drawn now x y body protected h =
      elim (admitted-cases call req now x protected) [
        | inr (e, refused) ↦ failed (rw refused at h)
        | inl (user, found, free, passed) ↦
            let (_, t, guarded, rest) =
              bind-ok (class_guards call (some user))
                (λ _. validated call >> run call (some user) req drawn now)
                (record x { server = (authenticate req.bearer now x.server).1 }) (rw passed at h) in
            let (_, t', valid, ran) =
              bind-ok (validated call) (λ _. run call (some user) req drawn now) t rest in
            let (fits, same) =
              unless-ok (is_valid call) (bad_request "Bad Request Exception") t valid in
            (
              user,
              authenticate-IsBearer req.bearer now x.server user found,
              t,
              guarded,
              fits,
              rw same at ran,
            )
      ]
