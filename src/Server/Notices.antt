-- ===== src/Server/Notices.antt =====
-- What the listeners of the emitted events leave in the tables and in the cache of the strategy.
use nest_nexus.Prelude.{
  ℕ, String, ◌≡◌, refl, ap, ◌∙◌, arith, none, some, List, [], ◌∷◌, ◌++◌, string_eq, find,
}
use nest_nexus.Prisma.{list_prisma}
use nest_nexus.Schema.{
  User, App, Event, user_created, user_updated, user_deactivated, api_key_created, api_key_revoked,
}
use nest_nexus.Cache.{CacheManager}
use nest_nexus.Env.{JwtPayload}
use nest_nexus.Invalidation
use nest_nexus.Invalidation.{invalidated_keys, invalidate}
use nest_nexus.Auth.JwtStrategy
use nest_nexus.Auth.JwtStrategy.{
  CacheEntry, ActiveCache, JwtState, lookup_entry, delete_entry, on_user_changed, validate,
  with_db_roles,
}
use nest_nexus.Users.Changes.{named}
use nest_nexus.Server.{notify, notify_all, deliver}

delete-lookup : (id : String) (cache : ActiveCache) → lookup_entry id (delete_entry id cache) ≡ none
unfolding lookup_entry delete_entry
delete-lookup id [] = refl
delete-lookup id ((key, entry) ∷ rest) = ground (arith, delete-lookup id rest)

delete-keeps_none :
    (id other_id : String) (cache : ActiveCache)
    → lookup_entry id cache ≡ none
    → lookup_entry id (delete_entry other_id cache) ≡ none
unfolding lookup_entry delete_entry
delete-keeps_none id other_id [] h = refl
delete-keeps_none id other_id ((key, entry) ∷ rest) h =
    ground (arith, delete-keeps_none id other_id rest)

module _ ⦃cache : CacheManager⦄ where
  invalidate-users : (keys : List String) (s : App) → (invalidate keys s).1.users ≡ s.users
  unfolding invalidate
  invalidate-users [] s = refl
  invalidate-users (key ∷ keys) s = invalidate-users keys _

  notify-users : (e : Event) (s : JwtState) → (notify e s).app.users ≡ s.app.users
  unfolding JwtStrategy.on_event Invalidation.on_event on_user_changed
  notify-users (user_updated id) s = invalidate-users (invalidated_keys (user_updated id)) s.app
  notify-users (user_deactivated id) s =
      invalidate-users (invalidated_keys (user_deactivated id)) s.app
  notify-users (user_created id) s = invalidate-users (invalidated_keys (user_created id)) s.app
  notify-users (api_key_created id) s = refl
  notify-users (api_key_revoked id key) s = refl

  notify-forgets :
      (id : String) (e : Event) (s : JwtState)
      → lookup_entry id s.active_cache ≡ none
      → lookup_entry id (notify e s).active_cache ≡ none
  unfolding JwtStrategy.on_event on_user_changed
  notify-forgets id (user_updated other_id) s h = delete-keeps_none id other_id s.active_cache h
  notify-forgets id (user_deactivated other_id) s h = delete-keeps_none id other_id s.active_cache h
  notify-forgets id (user_created other_id) s h = h
  notify-forgets id (api_key_created other_id) s h = h
  notify-forgets id (api_key_revoked other_id key) s h = h

  notify_all-users : (es : List Event) (s : JwtState) → (notify_all es s).app.users ≡ s.app.users
  notify_all-users [] s = refl
  notify_all-users (e ∷ es) s = notify_all-users es (notify e s) ∙ notify-users e s

  notify_all-forgets :
      (id : String) (es : List Event) (s : JwtState)
      → lookup_entry id s.active_cache ≡ none
      → lookup_entry id (notify_all es s).active_cache ≡ none
  notify_all-forgets id [] s h = h
  notify_all-forgets id (e ∷ es) s h =
      notify_all-forgets id es (notify e s) (notify-forgets id e s h)

  -- An event about the user, wherever it stands among the events, takes the entry out.
  abbrev pub Tells : String → Event → Type 0
  Tells id e = (s : JwtState) → lookup_entry id (notify e s).active_cache ≡ none

  told :
      (id : String) (before : List Event) (e : Event) (s : JwtState)
      → Tells id e
      → lookup_entry id (notify_all (before ++ e ∷ []) s).active_cache ≡ none
  told id [] e s tells = tells s
  told id (b ∷ before) e s tells = told id before e (notify b s) tells

  pub updated-Tells : (id : String) → Tells id (user_updated id)
  unfolding JwtStrategy.on_event on_user_changed
  updated-Tells id s = delete-lookup id s.active_cache

  pub deactivated-Tells : (id : String) → Tells id (user_deactivated id)
  unfolding JwtStrategy.on_event on_user_changed
  deactivated-Tells id s = delete-lookup id s.active_cache

  -- A user of whom nothing is kept is read in the database.
  forgotten :
      (payload : JwtPayload) (id : String) (later_on : ℕ) (s : JwtState) (u : User)
      → payload.sub ≡ id
      → lookup_entry id s.active_cache ≡ none
      → find (named id) s.app.users ≡ some u
      → (validate payload later_on s).0 ≡ with_db_roles payload u.is_active u.roles
  unfolding validate
  forgotten payload id later_on s u mine unknown found =
      let unknown' : lookup_entry payload.sub s.active_cache ≡ none =
        ap (λ j. lookup_entry j s.active_cache) mine ∙ unknown in
      let found' : find (named payload.sub) s.app.users ≡ some u =
        ap (λ j. find (named j) s.app.users) mine ∙ found in
      rw unknown' (rw found' refl)

  -- The same after the events have been delivered.
  pub delivered :
      (payload : JwtPayload) (id : String) (later_on : ℕ) (s : JwtState) (u : User)
      (before : List Event) (e : Event)
      → payload.sub ≡ id
      → s.app.events ≡ before ++ e ∷ []
      → Tells id e
      → find (named id) s.app.users ≡ some u
      → (validate payload later_on (deliver s)).0 ≡ with_db_roles payload u.is_active u.roles
  unfolding deliver
  delivered payload id later_on s u before e mine emitted tells found =
      let quiet : JwtState = record s { app = record s.app { events = [] } } in
      forgotten payload id later_on (notify_all s.app.events quiet) u mine
        (rw emitted (told id before e quiet tells)) (rw (notify_all-users s.app.events quiet) found)
