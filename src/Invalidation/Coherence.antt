-- ===== src/Invalidation/Coherence.antt =====
-- src/core/cache/cache-invalidation.service.ts: the cached user after a change of the profile.
use nest_nexus.Prelude.{
  ℕ, String, ◌≡◌, refl, sym, ap, ◌∙◌, inl, inr, none, some, List, [], ◌∷◌, ◌++◌, ◌==◌, string_eq,
  eq_refl, if◌then◌else◌, find, Bool-cases, find-some, find-map_if,
}
use nest_nexus.Exec.{Result, ok, failed, ok_inj}
use nest_nexus.Prisma.{Prisma, PrismaLaws, list_prisma, by_lists}
use nest_nexus.Schema.{User, UserOutput, to_user_output, App, Event, user_updated}
use nest_nexus.Store.{users}
use nest_nexus.Store.Updates.{update-cases}
use nest_nexus.Cache.{CacheManager, CacheLaws, map_cache, by_map, live, cache_del}
use nest_nexus.Users.{UpdateUserInput, user_key, profiled, update_user, find_by_id}
use nest_nexus.Users.Changes.{named, rethrow-throws}
use nest_nexus.Invalidation.{invalidated_keys, invalidate, on_event}

-- Nothing is cached for the user after the listener has run.
uncached :
    (id : String) (now : ℕ) (s : App)
    → (live now ((on_event (user_updated id) s).1.cache (user_key id)) ≡ none)
      × ((on_event (user_updated id) s).1.users ≡ s.users)
unfolding on_event invalidate
uncached id now s = (
  elim (Bool-cases ("users:all" == user_key id)) [
    | inl same ↦ rw (same) refl
    | inr other ↦ rw (other, eq_refl (user_key id)) refl
  ],
  refl,
)

-- The listener hears events in the order in which they were emitted.
abbrev pub heard : ⦃cache : CacheManager⦄ → List Event → App → App
heard ⦃cache⦄ [] s = s
heard ⦃cache⦄ (event ∷ events) s = heard ⦃cache = cache⦄ events (on_event ⦃cache = cache⦄ event s).1

invalidate-users : (keys : List String) (s : App) → (invalidate keys s).1.users ≡ s.users
unfolding invalidate
invalidate-users [] s = refl
invalidate-users (key ∷ keys) s = invalidate-users keys (cache_del key s).1

heard-users : (events : List Event) (s : App) → (heard events s).users ≡ s.users
unfolding on_event
heard-users [] s = refl
heard-users (event ∷ events) s =
    heard-users events (on_event event s).1 ∙ invalidate-users (invalidated_keys event) s

heard-last :
    (events : List Event) (event : Event) (s : App)
    → heard (events ++ event ∷ []) s ≡ (on_event event (heard events s)).1
heard-last [] event s = refl
heard-last (e ∷ events) event s = heard-last events event (on_event e s).1

update-inversion :
    (id : String) (dto : UpdateUserInput) (now : ℕ) (s t : App) (out : UserOutput)
    → update_user id dto now s ≡ (ok out, t)
    → (u : User) × (find (named id) t.users ≡ some u)
      × (out ≡ to_user_output u)
      × (t.events ≡ s.events ++ user_updated id ∷ [])
unfolding update_user
update-inversion id dto now s t out h = elim (update-cases users (named id) (profiled dto now) s) [
  | inl (e, refusal) ↦
      let (e', thrown) = rethrow-throws id now s e s in failed (rw thrown at (rw refusal at h))
  | inr (u, found, done) ↦
      let h' = rw done at h in
      let hit = (find-some (named id) s.users found).1 in
      let moved = find-map_if (named id) (named id) (profiled dto now) (λ v. refl) s.users found in
      (
        profiled dto now u,
        ap (find (named id)) (ap (λ (o : Result UserOutput × App). o.1.users) (sym h'))
            ∙ moved
            ∙ ap (λ b. some (if b then profiled dto now u else u)) hit,
        ok_inj (ap (λ (o : Result UserOutput × App). o.0) (sym h')),
        ap (λ (o : Result UserOutput × App). o.1.events) (sym h'),
      )
]

read_back :
    (id : String) (now : ℕ) (s : App) (u : User)
    → live now (s.cache (user_key id)) ≡ none
    → find (named id) s.users ≡ some u
    → (find_by_id id now s).0 ≡ ok (to_user_output u)
unfolding find_by_id
read_back id now s u empty found = rw (empty, found) refl

coherent :
    (id : String) (dto : UpdateUserInput) (now later_on : ℕ) (s t : App) (out : UserOutput)
    → update_user id dto now s ≡ (ok out, t)
    → (t.events ≡ s.events ++ user_updated id ∷ [])
      × ((find_by_id id later_on (heard t.events t)).0 ≡ ok out)
coherent id dto now later_on s t out h =
    let (u, found, is_out, emitted) = update-inversion id dto now s t out h in
    let before = heard s.events t in
    let (empty, same) = uncached id later_on before in
    let there : find (named id) (on_event (user_updated id) before).1.users ≡ some u =
      ap (find (named id)) (same ∙ heard-users s.events t) ∙ found in
    (
      emitted,
      ap (λ x. (find_by_id id later_on x).0)
            (ap (λ es. heard es t) emitted ∙ heard-last s.events (user_updated id) t)
          ∙ read_back id later_on (on_event (user_updated id) before).1 u empty there
          ∙ ap (λ x. ok x) (sym is_out),
    )

module _ {prisma : Prisma} (laws : PrismaLaws prisma) {cache : CacheManager}
    (cache_laws : CacheLaws cache) where
  -- A change of a profile that succeeds emits one event, which says that the user was updated. After
  -- the listener of the cache has heard all events that were emitted, a read of the user answers with
  -- the changed profile, whatever the cache held before and at every time.
  pub update_user-find_by_id :
      (id : String) (dto : UpdateUserInput) (now later_on : ℕ) (s t : App) (out : UserOutput)
      → update_user ⦃prisma = prisma⦄ id dto now s ≡ (ok out, t)
      → (t.events ≡ s.events ++ user_updated id ∷ [])
        × ((find_by_id ⦃prisma = prisma⦄ ⦃cache = cache⦄ id later_on
              (heard ⦃cache = cache⦄ t.events t)).0
            ≡ ok out)
  update_user-find_by_id = rw (by_lists laws, by_map cache_laws) coherent
