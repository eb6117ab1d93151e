-- ===== src/Invalidation.antt =====
-- src/core/cache/cache-invalidation.service.ts: what the events take out of the cache. The message to
-- the other instances carries the keys, and each of them deletes the keys on its own.
pub mod Coherence
mod Tests
use nest_nexus.Prelude.{String, Option, none, some, List, [], ◌∷◌}
use nest_nexus.Exec.{Exec, pure, ◌>>◌}
use nest_nexus.Schema.{
  App, Event, user_created, user_updated, user_deactivated, api_key_created, api_key_revoked,
}
use nest_nexus.Cache.{CacheManager, cache_del}
use nest_nexus.Users.{user_key}

-- The keys that a listener invalidates.
abbrev pub invalidated_keys : Event → List String
invalidated_keys (user_created user_id) = "users:all" ∷ []
invalidated_keys (user_updated user_id) = user_key user_id ∷ "users:all" ∷ []
invalidated_keys (user_deactivated user_id) = user_key user_id ∷ "users:all" ∷ []
invalidated_keys (api_key_created user_id) = []
invalidated_keys (api_key_revoked user_id key_id) = []

module _ ⦃cache : CacheManager⦄ where
  unfoldable pub invalidate : List String → Exec App (Unit {0})
  invalidate [] = pure tt
  invalidate (key ∷ keys) = cache_del key >> invalidate keys

  unfoldable pub on_event : Event → Exec App (Unit {0})
  unfolding invalidate
  on_event event = invalidate (invalidated_keys event)

  -- What another instance does with the message of an invalidation; one that cannot be parsed is
  -- passed over.
  unfoldable pub on_message : Option (List String) → Exec App (Unit {0})
  unfolding invalidate
  on_message none = pure tt
  on_message (some keys) = invalidate keys
