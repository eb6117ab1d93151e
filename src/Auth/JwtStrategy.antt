-- ===== src/Auth/JwtStrategy.antt =====
-- src/modules/auth/strategies/jwt.strategy.ts: the check of the user behind an access token, with a
-- cache of thirty seconds that the process keeps.
pub mod Entries
pub mod Deactivated
use nest_nexus.Prelude.{
  ℕ, ◌+◌, String, Bool, true, false, not, Option, none, some, List, [], ◌∷◌, ◌==◌, string_eq,
  if◌then◌else◌, ltb, leb, filter, length,
}
use nest_nexus.Exec.{unauthorized, Result, ok, err, Exec, pure, throw, require, ◌>>=◌}
use nest_nexus.Prisma.{Prisma}
use nest_nexus.Schema.{
  User, App, Event, user_created, user_updated, user_deactivated, api_key_created, api_key_revoked,
}
use nest_nexus.Store.{users, find_unique}
use nest_nexus.Env.{JwtPayload, Env}

pub record CacheEntry : Type 0 where
  pub is_ok : Bool
  pub roles : List String
  pub exp : ℕ

-- The map of the strategy, and the application beside it.
abbrev pub ActiveCache : Type 0
ActiveCache = List (String × CacheEntry)

pub record JwtState : Type 0 where
  pub active_cache : ActiveCache
  pub app : App

abbrev pub cache_ttl : ℕ
cache_ttl = 30000

abbrev pub max_cache_size : ℕ
max_cache_size = 10000

unfoldable pub lookup_entry : String → ActiveCache → Option CacheEntry
lookup_entry id [] = none
lookup_entry id ((key, entry) ∷ rest) = if key == id then some entry else lookup_entry id rest

-- `Map.set` and `Map.delete`.
unfoldable pub set_entry : String → CacheEntry → ActiveCache → ActiveCache
set_entry id entry [] = (id, entry) ∷ []
set_entry id entry ((key, old) ∷ rest) =
    if key == id then (key, entry) ∷ rest else (key, old) ∷ set_entry id entry rest

unfoldable pub delete_entry : String → ActiveCache → ActiveCache
delete_entry id cache = filter (λ (p : String × CacheEntry). not (p.0 == id)) cache

-- `setCacheEntry`: past the maximal size the expired entries go.
unfoldable pub set_cache_entry : String → CacheEntry → ℕ → ActiveCache → ActiveCache
unfolding set_entry
set_cache_entry id entry now cache =
    let entered = set_entry id entry cache in
    if ltb max_cache_size (length entered)
    then filter (λ (p : String × CacheEntry). not (leb p.1.exp now)) entered
    else entered

abbrev pub is_active_user : Option User → Bool
is_active_user none = false
is_active_user (some user) = user.is_active

abbrev pub roles_of : Option User → List String
roles_of none = []
roles_of (some user) = user.roles

abbrev pub fresh_entry : ℕ → Option CacheEntry → Option CacheEntry
fresh_entry now none = none
fresh_entry now (some entry) = if ltb now entry.exp then some entry else none

-- The payload with the roles of the database.
abbrev pub with_db_roles : JwtPayload → Bool → List String → Result JwtPayload
with_db_roles payload true roles = ok (record payload { roles = roles })
with_db_roles payload false roles = err (unauthorized "User account is inactive or not found.")

module _ ⦃prisma : Prisma⦄ where
  abbrev from_database : JwtPayload → ℕ → JwtState → Result JwtPayload × JwtState
  from_database payload now s =
      let found = prisma.find_unique (λ u. u.id == payload.sub) s.app.users in
      (
        with_db_roles payload (is_active_user found) (roles_of found),
        record s {
          active_cache =
              set_cache_entry payload.sub
                (record {
                  is_ok = is_active_user found;
                  roles = roles_of found;
                  exp = now + cache_ttl;
                })
                now s.active_cache;
        },
      )

  abbrev answer_with : JwtPayload → ℕ → Option CacheEntry → JwtState → Result JwtPayload × JwtState
  answer_with payload now (some entry) s = (with_db_roles payload entry.is_ok entry.roles, s)
  answer_with payload now none s = from_database payload now s

  unfoldable pub validate : JwtPayload → ℕ → Exec JwtState JwtPayload
  validate payload now s =
      answer_with payload now (fresh_entry now (lookup_entry payload.sub s.active_cache)) s

-- The listener of `user.updated` and `user.deactivated`, and `invalidateUserCache`.
unfoldable pub on_user_changed : String → JwtState → JwtState
unfolding delete_entry
on_user_changed user_id s = record s { active_cache = delete_entry user_id s.active_cache }

unfoldable pub on_event : Event → JwtState → JwtState
unfolding on_user_changed
on_event (user_updated user_id) s = on_user_changed user_id s
on_event (user_deactivated user_id) s = on_user_changed user_id s
on_event (user_created user_id) s = s
on_event (api_key_created user_id) s = s
on_event (api_key_revoked user_id key_id) s = s

-- Passport's strategy: the token is read from the header, its signature and time are checked, and the
-- user behind it is validated.
unfoldable pub authenticate :
    ⦃prisma : Prisma⦄ → ⦃env : Env⦄ → Option String → ℕ → Exec JwtState JwtPayload
authenticate ⦃prisma⦄ ⦃env⦄ none now = throw (unauthorized "Unauthorized")
authenticate ⦃prisma⦄ ⦃env⦄ (some token) now = do
  payload ←
      require (env.verify_access token env.config.jwt_secret now) (unauthorized "Unauthorized")
  validate payload now
