-- ===== src/Scheduler.antt =====
-- src/core/scheduler: the jobs that clean up, and the lock under which one instance runs them.
pub mod Holder
pub mod Released
mod Tests
use Prim.Native.String
use nest_nexus.Prelude.{
  ℕ, ◌+◌, ◌*◌, ◌≡◌, refl, String, Bool, true, false, not, ◌&&◌, ◌||◌, Option, none, some, List,
  ◌==◌, string_eq, if◌then◌else◌, any, is_some, ltb,
}
use nest_nexus.Exec.{Result, ok, err, Exec, pure, ◌>>=◌, ◌>>◌}
use nest_nexus.Prisma.{Prisma}
use nest_nexus.Schema.{User, RefreshToken, OauthProvider, App}
use nest_nexus.Store.{users, refresh_tokens, oauth_providers, update_many, delete_many}

-- The locks in Redis: the token that holds a key, and the time until which it does.
abbrev pub Locks : Type 0
Locks = String → Option (String × ℕ)

-- Redis is not part of the repository: `set … EX … NX` answers with whether the key was free, and
-- the script compares and deletes.
pub record Redis : Type 0 where
  pub set_nx : ℕ → String → String → ℕ → Locks → Bool × Locks
  pub compare_and_delete : ℕ → String → String → Locks → Locks

abbrev pub holder : ℕ → Option (String × ℕ) → Option String
holder now none = none
holder now (some (token, expires)) = if ltb now expires then some token else none

abbrev pub holds : String → Option String → Bool
holds token none = false
holds token (some t) = t == token

abbrev pub set_lock : String → Option (String × ℕ) → Locks → Locks
set_lock key v m j = if key == j then v else m j

abbrev pub lock_free : Option String → Bool
lock_free none = true
lock_free (some token) = false

abbrev pub claim : ℕ → String → String → ℕ → Locks → Option String → Bool × Locks
claim now key token ttl m none = (true, set_lock key (some (token, now + ttl)) m)
claim now key token ttl m (some other_token) = (false, m)

pub record RedisLaws (r : Redis) : Type 0 where
  pub set_nx_lem :
      (now : ℕ) (key token : String) (ttl : ℕ) (m : Locks)
      → r.set_nx now key token ttl m ≡ claim now key token ttl m (holder now (m key))
  pub compare_and_delete_lem :
      (now : ℕ) (key token : String) (m : Locks)
      → r.compare_and_delete now key token m
        ≡ (if holds token (holder now (m key)) then set_lock key none m else m)

abbrev pub map_redis : Redis
map_redis = record {
  set_nx = λ now key token ttl m. claim now key token ttl m (holder now (m key));
  compare_and_delete =
      λ now key token m. if holds token (holder now (m key)) then set_lock key none m else m;
}

-- The application's state with the locks that all instances share.
pub record Shared : Type 0 where
  pub app : App
  pub locks : Locks

abbrev pub lock_key : String → String
lock_key key = String.◌++◌ "lock:" key

module _ ⦃redis : Redis⦄ where
  -- The token is what `randomUUID` draws; the time-to-live is in seconds.
  unfoldable pub acquire : String → String → ℕ → ℕ → Exec Shared (Option String)
  acquire key token ttl_seconds now s =
      let (free, locks) = redis.set_nx now (lock_key key) token (1000 * ttl_seconds) s.locks in
      (ok (if free then some token else none), record s { locks = locks })

  unfoldable pub release : String → String → ℕ → Exec Shared (Unit {0})
  release key token now s =
      (ok tt, record s { locks = redis.compare_and_delete now (lock_key key) token s.locks })

  abbrev pub release_after :
      {A : Type 0} → String → String → ℕ → Result A × Shared → Result (Option A) × Shared
  release_after key token done (ok a, s) = (ok (some a), (release key token done s).1)
  release_after key token done (err e, s) = (err e, (release key token done s).1)

  abbrev run_locked :
      {A : Type 0} → String → Exec Shared A → ℕ → Option String → Exec Shared (Option A)
  run_locked key f done none s = (ok none, s)
  run_locked key f done (some token) s = release_after key token done (f s)

  -- Nothing is done when another instance holds the lock; the lock is released also after an
  -- exception. `done` is the time at which the function has ended.
  unfoldable pub with_lock :
      {A : Type 0} → String → Exec Shared A → ℕ → String → ℕ → ℕ → Exec Shared (Option A)
  unfolding acquire release
  with_lock key f ttl_seconds token now done = do
    held ← acquire key token ttl_seconds now
    run_locked key f done held

abbrev pub on_app : {A : Type 0} → Exec App A → Exec Shared A
on_app f s = let (r, t) = f s.app in (r, record s { app = t })

abbrev pub before : ℕ → Option ℕ → Bool
before now none = false
before now (some t) = ltb t now

abbrev pub clear_magic_link : User → User
clear_magic_link u = record u { magic_link_token_hash = none; magic_link_expires_at = none }

abbrev pub clear_verification : User → User
clear_verification u = record u {
  email_verification_token = none;
  email_verification_expires = none;
}

module _ ⦃prisma : Prisma⦄ where
  unfoldable pub purge_tokens : ℕ → Exec App (Unit {0})
  purge_tokens now = do
    delete_many refresh_tokens (λ t. ltb t.expires_at now || t.is_revoked)
    update_many users (λ u. before now u.magic_link_expires_at && is_some u.magic_link_token_hash)
        clear_magic_link
    update_many users
        (λ u. before now u.email_verification_expires && is_some u.email_verification_token)
        clear_verification

  -- The providers of users that are not active.
  unfoldable pub purge_providers : Exec App ℕ
  purge_providers s =
      delete_many oauth_providers (λ p. any (λ u. u.id == p.user_id && not u.is_active) s.users) s

  unfoldable pub purge_expired_tokens :
      ⦃redis : Redis⦄ → String → ℕ → ℕ → Exec Shared (Option (Unit {0}))
  unfolding with_lock purge_tokens
  purge_expired_tokens ⦃redis⦄ token now done =
      with_lock ⦃redis = redis⦄ "cleanup:expired-tokens" (on_app (purge_tokens now)) 300 token now
        done

  unfoldable pub purge_orphaned_oauth_providers :
      ⦃redis : Redis⦄ → String → ℕ → ℕ → Exec Shared (Option ℕ)
  unfolding with_lock purge_providers
  purge_orphaned_oauth_providers ⦃redis⦄ token now done =
      with_lock ⦃redis = redis⦄ "cleanup:orphaned-oauth" (on_app purge_providers) 60 token now done

pub map_redis_laws : RedisLaws map_redis
map_redis_laws = record {
  set_nx_lem = λ now key token ttl m. refl;
  compare_and_delete_lem = λ now key token m. refl;
}

-- The laws determine the client.
pub by_locks : {r : Redis} → RedisLaws r → r ≡ map_redis
by_locks l = λ i. record {
  set_nx = λ now key token ttl m. l.set_nx_lem now key token ttl m i;
  compare_and_delete = λ now key token m. l.compare_and_delete_lem now key token m i;
}
