-- ===== src/Server/Roles.antt =====
-- The guard of the users' routes: the roles that the caller has when the call answers.
use nest_nexus.Prelude.{
  ℕ, ◌<◌, String, ◌≡◌, ◌⊎◌, refl, sym, ap, ◌∙◌, inl, inr, arith, Bool, true, false, Option, none,
  some, List, ◌==◌, string_eq, includes, ltb, Bool-cases, Option-cases,
}
use nest_nexus.Exec.{ok, ok_inj, err-ne-ok, unless-ok}
use nest_nexus.Prisma.{Prisma, OrderBy}
use nest_nexus.Enums.{admin, super_admin}
use nest_nexus.Schema.{User}
use nest_nexus.Auth.JwtStrategy.{
  CacheEntry, JwtState, lookup_entry, fresh_entry, is_active_user, roles_of, with_db_roles,
  validate,
}
use nest_nexus.Env.{JwtPayload, Env}
use nest_nexus.Cache.{CacheManager}
use nest_nexus.Crypto.{Cipher}
use nest_nexus.Guards.{subject_of, roles_guard}
use nest_nexus.Auth.TwoFactor.{Totp}
use nest_nexus.Auth.Webauthn.{Ceremony}
use nest_nexus.Http.{Request, Drawn, Body, Exchange}
use nest_nexus.Controllers.Users
use nest_nexus.Controllers.Users.{
  get_profile, get_users, get_user, patch_profile, patch_roles, delete_user,
}
use nest_nexus.Server.{users, decorators, users_guard, class_guards, serve}
use nest_nexus.Server.Pending.{IsBearer, serve-guarded}

-- Who may call a route of the users, by the roles that the strategy found.
abbrev pub MayCall : Users.Route → List String → Type 0
MayCall get_profile roles = Unit
MayCall get_users roles = (includes roles admin ≡ true) ⊎ (includes roles super_admin ≡ true)
MayCall (get_user id) roles = Unit
MayCall (patch_profile input) roles = Unit
MayCall (patch_roles id given) roles = includes roles super_admin ≡ true
MayCall (delete_user id) roles = (includes roles admin ≡ true) ⊎ (includes roles super_admin ≡ true)

roles_suffice :
    (route : Users.Route) (user : JwtPayload)
    → roles_guard (Users.decorators route).roles (some (subject_of user)) ≡ true
    → MayCall route user.roles
unfolding roles_guard Users.decorators
roles_suffice get_profile user h = tt
roles_suffice get_users user h = ground arith
roles_suffice (get_user id) user h = tt
roles_suffice (patch_profile input) user h = tt
roles_suffice (patch_roles id given) user h = ground arith
roles_suffice (delete_user id) user h = ground arith

pub users_protected : (route : Users.Route) → (decorators (users route)).is_public ≡ false
unfolding decorators Users.decorators
users_protected get_profile = refl
users_protected _ = refl

-- Where the strategy has the roles from: its entry for the user that has not expired, or else the
-- stored user. Either says that the user is active.
abbrev pub HasRoles : ⦃prisma : Prisma⦄ → ℕ → JwtState → JwtPayload → Type 0
HasRoles ⦃prisma⦄ now s user =
    ((entry : CacheEntry) × (lookup_entry user.sub s.active_cache ≡ some entry)
      × (now < entry.exp)
      × (entry.is_ok ≡ true)
      × (user.roles ≡ entry.roles))
    ⊎ ((fresh_entry now (lookup_entry user.sub s.active_cache) ≡ none)
        × (u : User) × (prisma.find_unique (λ u. u.id == user.sub) s.app.users ≡ some u)
        × (u.is_active ≡ true)
        × (user.roles ≡ u.roles))

with_db_roles-ok :
    (payload user : JwtPayload) (active : Bool) (roles : List String)
    → with_db_roles payload active roles ≡ ok user
    → (active ≡ true) × (user.sub ≡ payload.sub) × (user.roles ≡ roles)
with_db_roles-ok payload user true roles h =
    let same = sym (ok_inj h) in
    (refl, ap (λ (p : JwtPayload). p.sub) same, ap (λ (p : JwtPayload). p.roles) same)
with_db_roles-ok payload user false roles h = absurd (err-ne-ok h)

fresh_entry-some :
    (now : ℕ) (kept : Option CacheEntry) (entry : CacheEntry)
    → fresh_entry now kept ≡ some entry
    → (kept ≡ some entry) × (now < entry.exp)
fresh_entry-some now none entry h = absurd cc
fresh_entry-some now (some e) entry h = elim (Bool-cases (ltb now e.exp)) [
  | inl runs ↦
      let same : e ≡ entry = let h' = rw runs at h in cc in
      let early : now < e.exp = ground arith in (ap some same, rw same at early)
  | inr over ↦ let h' = rw over at h in absurd cc
]

is_active-some :
    (found : Option User)
    → is_active_user found ≡ true
    → (u : User) × (found ≡ some u) × (u.is_active ≡ true) × (roles_of found ≡ u.roles)
is_active-some none h = absurd cc
is_active-some (some u) h = (u, refl, h, refl)

validate-HasRoles :
    ⦃prisma : Prisma⦄
    → (payload : JwtPayload) (now : ℕ) (s : JwtState) (user : JwtPayload)
    → (validate payload now s).0 ≡ ok user
    → HasRoles now s user
unfolding validate
validate-HasRoles ⦃prisma⦄ payload now s user h =
    elim (Option-cases (fresh_entry now (lookup_entry payload.sub s.active_cache))) [
      | inr (entry, fresh) ↦
          let (kept, runs) =
            fresh_entry-some now (lookup_entry payload.sub s.active_cache) entry fresh in
          let (good, same, roles) =
            with_db_roles-ok payload user entry.is_ok entry.roles (rw fresh at h) in
          inl (entry, rw same kept, runs, good, roles)
      | inl stale ↦
          let found = prisma.find_unique (λ u. u.id == payload.sub) s.app.users in
          let (good, same, roles) =
            with_db_roles-ok payload user (is_active_user found) (roles_of found) (rw stale at h) in
          let (u, there, active, his) = is_active-some found good in
          inr (rw same stale, u, rw same there, active, roles ∙ his)
    ]

module _ ⦃prisma : Prisma⦄ ⦃env : Env⦄ ⦃cache : CacheManager⦄ ⦃cipher : Cipher⦄ ⦃totp : Totp⦄
    ⦃ceremony : Ceremony⦄ ⦃order : OrderBy⦄ where
  -- When a route of the users answers, its caller is the user of a genuine bearer token. The list of the
  -- users and the deactivation answer only an admin or a super admin, and the change of roles only a
  -- super admin. The roles that count are not those of the token: they are those of the strategy's
  -- entry for the user that has not expired or, without one, those of the stored user, and the entry,
  -- or the stored user, is active.
  pub serve-MayCall :
      (route : Users.Route) (req : Request) (drawn : Drawn cipher.Byte) (now : ℕ) (x y : Exchange)
      (body : Body)
      → serve (users route) req drawn now x ≡ (ok body, y)
      → (user : JwtPayload) × IsBearer req.bearer now x.server user
        × HasRoles now x.server user
        × MayCall route user.roles
  unfolding class_guards users_guard
  serve-MayCall route req drawn now x y body h =
      let (user, bearer, t, guarded, _, _) =
        serve-guarded (users route) req drawn now x y body (users_protected route) h in
      let (token, payload, _, _, valid) = bearer in
      (
        user,
        bearer,
        validate-HasRoles payload now x.server user valid,
        roles_suffice route user (unless-ok _ _ _ guarded).0,
      )
