-- ===== src/Server/AtOnce.antt =====
-- The next request of a user whose roles were changed, or who was deactivated.
use nest_nexus.Prelude.{
  ℕ, String, ◌≡◌, refl, sym, ap, ◌∙◌, Option, some, List, [], ◌∷◌, ◌++◌, ◌==◌, string_eq, find,
  map_if, find-map_if, find-some, if◌then◌else◌,
}
use nest_nexus.Exec.{Result, ok, err, unauthorized, bind-ok, unless-ok}
use nest_nexus.Prisma.{Prisma, PrismaLaws, OrderBy, list_prisma, by_lists}
use nest_nexus.Schema.{User, App, user_updated, user_deactivated}
use nest_nexus.Cache.{CacheManager}
use nest_nexus.Env.{JwtPayload, Env}
use nest_nexus.Auth.JwtStrategy.{JwtState, validate, with_db_roles}
use nest_nexus.Auth.TwoFactor.{Totp}
use nest_nexus.Auth.Webauthn.{Ceremony}
use nest_nexus.Crypto.{Cipher}
use nest_nexus.Http.{Request, Drawn, Body, Exchange, on_app, on_app-ok}
use nest_nexus.Users.{with_roles, set_roles, deactivate}
use nest_nexus.Users.Changes.{named, inactive, set_roles-ok, deactivate-ok}
use nest_nexus.Controllers.Users
use nest_nexus.Controllers.Users.{patch_roles, delete_user}
use nest_nexus.Server.{Call, users, users_guard, class_guards, deliver, run, serve, opened, request}
use nest_nexus.Server.Pending.{authenticate-app, serve-guarded}
use nest_nexus.Server.Roles.{users_protected}
use nest_nexus.Server.Notices.{updated-Tells, deactivated-Tells, delivered}

module _ ⦃cache : CacheManager⦄ ⦃env : Env⦄ ⦃cipher : Cipher⦄ ⦃totp : Totp⦄ ⦃ceremony : Ceremony⦄
    ⦃order : OrderBy⦄ where
  -- A route of the users ran on the tables that the call found.
  users_ran :
      (route : Users.Route) (req : Request) (drawn : Drawn cipher.Byte) (now : ℕ) (x y : Exchange)
      (body : Body)
      → serve (users route) req drawn now x ≡ (ok body, y)
      → (user : JwtPayload) × (t : Exchange) × (t.server.app ≡ x.server.app)
        × (Users.run route (some user) now t ≡ (ok body, y))
  unfolding run class_guards users_guard
  users_ran route req drawn now x y body h =
      let (user, _, t, guarded, _, ran) =
        serve-guarded (users route) req drawn now x y body (users_protected route) h in
      let (_, same) = unless-ok _ _ _ guarded in
      (
        user,
        t,
        ap (λ (z : Exchange). z.server.app) same ∙ authenticate-app req.bearer now x.server,
        ran,
      )

  set_roles_ran :
      (id : String) (roles : List String) (found : Option JwtPayload) (now : ℕ) (x y : Exchange)
      (body : Body)
      → Users.run (patch_roles id roles) found now x ≡ (ok body, y)
      → (u : User) × (find (named id) x.server.app.users ≡ some u)
        × (y.server.app ≡ record x.server.app {
          users = map_if (named id) (with_roles roles now) x.server.app.users;
          events = x.server.app.events ++ user_updated id ∷ [];
        })
  unfolding Users.run
  set_roles_ran id roles found now x y body h =
      let (out, x1, changed, end) = bind-ok (on_app (set_roles id roles now)) _ x h in
      let (t, made, after) = on_app-ok (set_roles id roles now) x x1 out changed in
      let (u, there, wrote) = set_roles-ok id now x.server.app roles out t made in
      (
        u,
        there,
        ap (λ (o : Result Body × Exchange). o.1.server.app) (sym end)
            ∙ ap (λ (z : Exchange). z.server.app) after
            ∙ wrote,
      )

  deactivate_ran :
      (id : String) (found : Option JwtPayload) (now : ℕ) (x y : Exchange) (body : Body)
      → Users.run (delete_user id) found now x ≡ (ok body, y)
      → (u : User) × (find (named id) x.server.app.users ≡ some u)
        × (y.server.app ≡ record x.server.app {
          users = map_if (named id) (inactive now) x.server.app.users;
          events = x.server.app.events ++ user_deactivated id ∷ [];
        })
  unfolding Users.run
  deactivate_ran id found now x y body h =
      let (out, x1, changed, end) = bind-ok (on_app (deactivate id now)) _ x h in
      let (t, made, after) = on_app-ok (deactivate id now) x x1 out changed in
      let (u, there, wrote) = deactivate-ok id now x.server.app out t made in
      (
        u,
        there,
        ap (λ (o : Result Body × Exchange). o.1.server.app) (sym end)
            ∙ ap (λ (z : Exchange). z.server.app) after
            ∙ wrote,
      )

  request-ok :
      (call : Call) (req : Request) (drawn : Drawn cipher.Byte) (now : ℕ) (s t : JwtState)
      (body : Body)
      → request call req drawn now s ≡ (ok body, t)
      → (y : Exchange) × (serve call req drawn now (opened s) ≡ (ok body, y))
        × (t ≡ deliver y.server)
  unfolding request
  request-ok call req drawn now s t body h =
      let y = (serve call req drawn now (opened s)).1 in
      (
        y,
        ap (λ (o : Result Body × JwtState). (o.0, y)) h,
        sym (ap (λ (o : Result Body × JwtState). o.1) h),
      )

  -- The row of the user after a write to it.
  rewritten :
      (id : String) (f : User → User) (us : List User) (u : User)
      → ((v : User) → (f v).id ≡ v.id)
      → find (named id) us ≡ some u
      → find (named id) (map_if (named id) f us) ≡ some (f u)
  rewritten id f us u keeps found =
      find-map_if (named id) (named id) f (λ v. ap (λ j. j == id) (keeps v)) us found
      ∙ ap (λ b. some (if b then f u else u)) (find-some (named id) us found).1

  roles_changed :
      (id : String) (roles : List String) (req : Request) (drawn : Drawn cipher.Byte) (now : ℕ)
      (s t : JwtState) (body : Body)
      → request (users (patch_roles id roles)) req drawn now s ≡ (ok body, t)
      → (u : User) × (find (named id) s.app.users ≡ some u)
        × ((payload : JwtPayload) (later_on : ℕ)
            → payload.sub ≡ id
            → (validate payload later_on t).0 ≡ with_db_roles payload u.is_active roles)
  roles_changed id roles req drawn now s t body h =
      let (y, served, after) = request-ok (users (patch_roles id roles)) req drawn now s t body h in
      let (user, x, same, ran) =
        users_ran (patch_roles id roles) req drawn now (opened s) y body served in
      let (u, there, wrote) = set_roles_ran id roles (some user) now x y body ran in
      let row = rewritten id (with_roles roles now) x.server.app.users u (λ v. refl) there in
      (
        u,
        ap (λ (a : App). find (named id) a.users) (sym same) ∙ there,
        λ payload later_on mine. rw after (
            delivered payload id later_on y.server (with_roles roles now u) x.server.app.events
              (user_updated id) mine (ap (λ (a : App). a.events) wrote) (updated-Tells id)
              (ap (λ (a : App). find (named id) a.users) wrote ∙ row)),
      )

  user_deactivated_lem :
      (id : String) (req : Request) (drawn : Drawn cipher.Byte) (now : ℕ) (s t : JwtState)
      (body : Body)
      → request (users (delete_user id)) req drawn now s ≡ (ok body, t)
      → (payload : JwtPayload) (later_on : ℕ) → payload.sub ≡ id
      → (validate payload later_on t).0
        ≡ err (unauthorized "User account is inactive or not found.")
  user_deactivated_lem id req drawn now s t body h payload later_on mine =
      let (y, served, after) = request-ok (users (delete_user id)) req drawn now s t body h in
      let (user, x, same, ran) =
        users_ran (delete_user id) req drawn now (opened s) y body served in
      let (u, there, wrote) = deactivate_ran id (some user) now x y body ran in
      let row = rewritten id (inactive now) x.server.app.users u (λ v. refl) there in
      rw after (
        delivered payload id later_on y.server (inactive now u) x.server.app.events
          (user_deactivated id) mine (ap (λ (a : App). a.events) wrote) (deactivated-Tells id)
          (ap (λ (a : App). find (named id) a.users) wrote ∙ row))

module _ {prisma : Prisma} (laws : PrismaLaws prisma) ⦃cache : CacheManager⦄ ⦃env : Env⦄
    ⦃cipher : Cipher⦄ ⦃totp : Totp⦄ ⦃ceremony : Ceremony⦄ ⦃order : OrderBy⦄ where
  -- When the route that changes roles has answered, the user is in the table, and on that instance each
  -- check of a token of the user gives the new roles, or refuses the user for not being active,
  -- whatever the strategy had kept.
  pub patch_roles-validate :
      (id : String) (roles : List String) (req : Request) (drawn : Drawn cipher.Byte) (now : ℕ)
      (s t : JwtState) (body : Body)
      → request ⦃prisma = prisma⦄ (users (patch_roles id roles)) req drawn now s ≡ (ok body, t)
      → (u : User) × (find (named id) s.app.users ≡ some u)
        × ((payload : JwtPayload) (later_on : ℕ)
            → payload.sub ≡ id
            → (validate ⦃prisma = prisma⦄ payload later_on t).0
              ≡ with_db_roles payload u.is_active roles)
  patch_roles-validate = rw (by_lists laws) roles_changed

  -- When the route that deactivates a user has answered, each check of a token of the user on that
  -- instance is refused with 401, whatever the strategy had kept.
  pub delete_user-validate :
      (id : String) (req : Request) (drawn : Drawn cipher.Byte) (now : ℕ) (s t : JwtState)
      (body : Body)
      → request ⦃prisma = prisma⦄ (users (delete_user id)) req drawn now s ≡ (ok body, t)
      → (payload : JwtPayload) (later_on : ℕ) → payload.sub ≡ id
      → (validate ⦃prisma = prisma⦄ payload later_on t).0
        ≡ err (unauthorized "User account is inactive or not found.")
  delete_user-validate = rw (by_lists laws) user_deactivated_lem
