-- ===== src/Scheduler/Released.antt =====
-- src/core/scheduler/redis-lock.service.ts: a lock after its release, and after its expiry.
use nest_nexus.Prelude.{
  ℕ, ◌+◌, ◌*◌, ◌≤◌, arith, String, ◌≡◌, refl, ap, ◌∙◌, inl, inr, true, false, none, some, string_eq,
  eq_refl, ltb, Bool-cases,
}
use nest_nexus.Exec.{Result, ok, err, Exec}
use nest_nexus.Scheduler.{
  Locks, Redis, RedisLaws, holder, holds, set_lock, map_redis, by_locks, Shared, lock_key, acquire,
  release, release_after, with_lock,
}
use nest_nexus.Scheduler.Holder.{placed, acquired}

module _ (key : String) where
  -- Who finds no holder gets the lock.
  gets_free :
      (other : String) (ttl now : ℕ) (s : Shared)
      → holder now (s.locks (lock_key key)) ≡ none
      → (acquire ⦃redis = map_redis⦄ key other ttl now s).0 ≡ ok (some other)
  unfolding acquire
  gets_free other ttl now s free = rw free refl

  expired :
      (token : String) (limit now : ℕ) (s : Shared)
      → s.locks (lock_key key) ≡ some (token, limit)
      → limit ≤ now
      → holder now (s.locks (lock_key key)) ≡ none
  expired token limit now s held late =
      let over : ltb now limit ≡ false = ground arith in rw held (rw over refl)

  -- Releasing one's own lock leaves no holder, whether it was still held or had expired.
  release_own :
      (token : String) (limit done later_on : ℕ) (s : Shared)
      → s.locks (lock_key key) ≡ some (token, limit)
      → done ≤ later_on
      → holder later_on ((release ⦃redis = map_redis⦄ key token done s).1.locks (lock_key key))
        ≡ none
  unfolding release
  release_own token limit done later_on s held later = elim (Bool-cases (ltb done limit)) [
    | inl alive ↦
        let mine : holds token (holder done (s.locks (lock_key key))) ≡ true =
          rw held (rw alive (eq_refl token)) in
        rw mine (rw (placed (lock_key key) none s.locks) refl)
    | inr over ↦
        let nobody : holds token (holder done (s.locks (lock_key key))) ≡ false =
          rw held (rw over refl) in
        rw nobody (expired token limit later_on s held (ground arith))
  ]

  release_after-eq :
      {A : Type 0} (token : String) (done : ℕ) (r : Result A × Shared)
      → (release_after ⦃redis = map_redis⦄ key token done r).1
        ≡ (release ⦃redis = map_redis⦄ key token done r.1).1
  release_after-eq token done (ok a, t) = refl
  release_after-eq token done (err e, t) = refl

  take_free :
      (ttl now : ℕ) (token : String) (s : Shared)
      → holder now (s.locks (lock_key key)) ≡ none
      → acquire ⦃redis = map_redis⦄ key token ttl now s
        ≡ (ok (some token), (acquire ⦃redis = map_redis⦄ key token ttl now s).1)
  unfolding acquire
  take_free ttl now token s free = rw free refl

  -- A function under the lock that leaves the locks alone.
  freed :
      {A : Type 0} (f : Exec Shared A) (ttl now done later_on : ℕ) (token : String) (s : Shared)
      → holder now (s.locks (lock_key key)) ≡ none
      → ((t : Shared) → (f t).1.locks ≡ t.locks)
      → done ≤ later_on
      → holder later_on
          ((with_lock ⦃redis = map_redis⦄ key f ttl token now done s).1.locks (lock_key key))
        ≡ none
  unfolding with_lock
  freed f ttl now done later_on token s free quiet later =
      let until = now + 1000 * ttl in
      let taken : Shared = record s {
        locks = set_lock (lock_key key) (some (token, until)) s.locks;
      } in
      let held : (f taken).1.locks (lock_key key) ≡ some (token, until) =
        ap (λ (m : Locks). m (lock_key key)) (quiet taken)
        ∙ placed (lock_key key) (some (token, until)) s.locks in
      let out = release_own token until done later_on (f taken).1 held later in
      rw (free, release_after-eq token done (f taken)) out

  -- A lock that is never released.
  crashed :
      (ttl now later_on : ℕ) (token : String) (s : Shared)
      → holder now (s.locks (lock_key key)) ≡ none
      → now + 1000 * ttl ≤ later_on
      → holder later_on ((acquire ⦃redis = map_redis⦄ key token ttl now s).1.locks (lock_key key))
        ≡ none
  crashed ttl now later_on token s free late =
      let taken = (acquire ⦃redis = map_redis⦄ key token ttl now s).1 in
      expired token (now + 1000 * ttl) later_on taken
        (acquired key token ttl now s taken (take_free ttl now token s free)) late

module _ {redis : Redis} (laws : RedisLaws redis) where
  -- Where nobody holds a lock, and a function that leaves the locks alone is run under it, any instance
  -- gets it from the time the function has ended, whether it answered or threw; and where the instance
  -- that took it never releases it, any instance gets it from the time its time-to-live has run out.
  pub with_lock-acquire :
      {A : Type 0} (key : String) (f : Exec Shared A) (ttl now done : ℕ) (token : String)
      (s : Shared)
      → holder now (s.locks (lock_key key)) ≡ none
      → ((t : Shared) → (f t).1.locks ≡ t.locks)
      → (other : String) (ttl' later : ℕ)
      → (done ≤ later
          → (acquire ⦃redis = redis⦄ key other ttl' later
              (with_lock ⦃redis = redis⦄ key f ttl token now done s).1).0
            ≡ ok (some other))
        × (now + 1000 * ttl ≤ later
            → (acquire ⦃redis = redis⦄ key other ttl' later
                (acquire ⦃redis = redis⦄ key token ttl now s).1).0
              ≡ ok (some other))
  with_lock-acquire = rw (by_locks laws) (λ key f ttl now done token s free quiet other ttl' later.
      (
        λ after.
            gets_free key other ttl' later _
              (freed key f ttl now done later token s free quiet after),
        λ late. gets_free key other ttl' later _ (crashed key ttl now later token s free late),
      ))
