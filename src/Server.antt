-- ===== src/Server.antt =====
-- src/app.module.ts and src/main.ts: how a request goes through the global guard, the guards of the
-- controller's class, the validation pipe and the handler, and how the events that the handler emitted
-- reach their listeners. The throttler and the health checks are libraries and are left out.
mod Fixtures
mod Tests
mod ListTests
pub mod Pending
pub mod Privileges
pub mod Notices
pub mod AtOnce
pub mod FullSession
pub mod Cookies
pub mod Roles
pub mod Bounds
use nest_nexus.Prelude.{ℕ, String, Bool, true, false, not, Option, none, some, List, [], ◌∷◌, map}
use nest_nexus.Exec.{
  Exception, bad_request, forbidden, other, Result, ok, err, Exec, pure, throw, unless, ◌>>=◌, ◌>>◌,
}
use nest_nexus.Prisma.{Prisma, OrderBy}
use nest_nexus.Schema.{App, Event}
use nest_nexus.Env.{JwtPayload, Env}
use nest_nexus.Cache.{CacheManager}
use nest_nexus.Crypto.{Cipher}
use nest_nexus.Guards.{
  subject_of, jwt_auth_guard, roles_guard, permissions_guard, relation_guard, policy_guard,
}
use nest_nexus.Invalidation
use nest_nexus.Auth.JwtStrategy
use nest_nexus.Auth.JwtStrategy.{JwtState, authenticate}
use nest_nexus.Auth.TwoFactor.{Totp}
use nest_nexus.Auth.Webauthn.{Ceremony}
use nest_nexus.Http.{Request, Drawn, Body, Exchange, on_server, on_app, current_user, Decorators}
use nest_nexus.Controllers.Auth
use nest_nexus.Controllers.TwoFactor
use nest_nexus.Controllers.Webauthn
use nest_nexus.Controllers.MagicLink
use nest_nexus.Controllers.Oauth
use nest_nexus.Controllers.ApiKeys
use nest_nexus.Controllers.Users
use nest_nexus.Controllers.Documents
use nest_nexus.Validation.{
  auth_valid, two_factor_valid, webauthn_valid, magic_link_valid, users_valid, documents_valid,
}

pub data Call : Type 0 where
  auth : Auth.Route → Call
  two_factor : TwoFactor.Route → Call
  webauthn : Webauthn.Route → Call
  magic_link : MagicLink.Route → Call
  oauth : Oauth.Route → Call
  api_keys : ApiKeys.Route → Call
  users : Users.Route → Call
  documents : Documents.Route → Call

-- What the reflector finds for the handler.
unfoldable pub decorators : Call → Decorators
decorators (auth route) = Auth.decorators route
decorators (two_factor route) = TwoFactor.decorators route
decorators (webauthn route) = Webauthn.decorators route
decorators (magic_link route) = MagicLink.decorators route
decorators (oauth route) = Oauth.decorators route
decorators (api_keys route) = ApiKeys.decorators route
decorators (users route) = Users.decorators route
decorators (documents route) = Documents.decorators route

module _ ⦃prisma : Prisma⦄ where
  -- A guard that answers with false becomes a 403.
  unfoldable pub users_guard : Users.Route → Option JwtPayload → Exec Exchange (Unit {0})
  users_guard route none =
      unless (roles_guard (Users.decorators route).roles none) (forbidden "Forbidden resource")
  users_guard route (some user) =
      unless (roles_guard (Users.decorators route).roles (some (subject_of user)))
        (forbidden "Forbidden resource")

  unfoldable pub documents_guard : Documents.Route → Option JwtPayload → Exec Exchange (Unit {0})
  documents_guard route none = do
    on_app (permissions_guard (Documents.decorators route).permissions none)
    throw (other "Cannot read properties of undefined (reading 'sub')")
  documents_guard route (some user) = on_app (do
    permissions_guard (Documents.decorators route).permissions (some (subject_of user))
    relation_guard (Documents.decorators route).relation (subject_of user)
        (Documents.id_param route)
    policy_guard (Documents.decorators route).policy (subject_of user) (Documents.id_param route)
    pure tt)

  -- `@UseGuards` of the controllers. Those of OAuth are part of its handlers.
  unfoldable pub class_guards : Call → Option JwtPayload → Exec Exchange (Unit {0})
  unfolding users_guard documents_guard
  class_guards (users route) found = users_guard route found
  class_guards (documents route) found = documents_guard route found
  class_guards (auth route) found = pure tt
  class_guards (two_factor route) found = pure tt
  class_guards (webauthn route) found = pure tt
  class_guards (magic_link route) found = pure tt
  class_guards (oauth route) found = pure tt
  class_guards (api_keys route) found = pure tt

-- The listeners of one event: the strategy's cache, then the shared one.
abbrev pub notify : ⦃cache : CacheManager⦄ → Event → JwtState → JwtState
notify ⦃cache⦄ event s =
    let t = JwtStrategy.on_event event s in record t { app = (Invalidation.on_event event t.app).1 }

abbrev pub notify_all : ⦃cache : CacheManager⦄ → List Event → JwtState → JwtState
notify_all ⦃cache⦄ [] s = s
notify_all ⦃cache⦄ (event ∷ events) s = notify_all events (notify event s)

-- The events that have been emitted reach their listeners, in order.
unfoldable pub deliver : ⦃cache : CacheManager⦄ → JwtState → JwtState
deliver ⦃cache⦄ s = notify_all s.app.events (record s { app = record s.app { events = [] } })

abbrev pub opened : JwtState → Exchange
opened s = record { server = s; cookies = [] }

module _ ⦃env : Env⦄ where
  unfoldable pub is_valid : Call → Bool
  is_valid (auth route) = auth_valid route
  is_valid (two_factor route) = two_factor_valid route
  is_valid (webauthn route) = webauthn_valid route
  is_valid (magic_link route) = magic_link_valid route
  is_valid (oauth route) = true
  is_valid (api_keys route) = true
  is_valid (users route) = users_valid route
  is_valid (documents route) = documents_valid route

  -- The pipe on the body or the query, whose messages are left out.
  abbrev pub validated : Call → Exec Exchange (Unit {0})
  validated call = unless (is_valid call) (bad_request "Bad Request Exception")

module _ ⦃prisma : Prisma⦄ ⦃env : Env⦄ where
  -- What passes the global guard, before the handler runs.
  unfoldable pub admitted : Call → Request → ℕ → Exec Exchange (Option JwtPayload)
  unfolding jwt_auth_guard
  admitted call req now = on_server (
      jwt_auth_guard (decorators call).is_public (decorators call).allow_pending
        (authenticate req.bearer now))

module _ ⦃prisma : Prisma⦄ ⦃env : Env⦄ ⦃cache : CacheManager⦄ ⦃cipher : Cipher⦄ ⦃totp : Totp⦄
    ⦃ceremony : Ceremony⦄ ⦃order : OrderBy⦄ where
  unfoldable pub run :
      Call → Option JwtPayload → Request → Drawn cipher.Byte → ℕ → Exec Exchange Body
  run (auth route) found req drawn now = Auth.run route found req drawn now
  run (two_factor route) found req drawn now = TwoFactor.run route found req drawn now
  run (webauthn route) found req drawn now = Webauthn.run route found req drawn now
  run (magic_link route) found req drawn now = MagicLink.run route found req drawn now
  run (oauth route) found req drawn now = Oauth.run route req drawn now
  run (api_keys route) found req drawn now = ApiKeys.run route found drawn now
  run (users route) found req drawn now = Users.run route found now
  run (documents route) found req drawn now = Documents.run route found drawn now

  unfoldable pub serve : Call → Request → Drawn cipher.Byte → ℕ → Exec Exchange Body
  serve call req drawn now = do
    found ← admitted call req now
    class_guards call found
    validated call
    run call found req drawn now

  -- One request, from the server's state before it to that after it.
  unfoldable pub request :
      Call → Request → Drawn cipher.Byte → ℕ → JwtState → Result Body × JwtState
  unfolding deliver
  request call req drawn now s =
      let (r, x) = serve call req drawn now (opened s) in (r, deliver x.server)
