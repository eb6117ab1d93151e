-- ===== src/Scheduler/Holder.antt =====
-- src/core/scheduler/redis-lock.service.ts: a lock while it is held.
use nest_nexus.Prelude.{
  ℕ, ◌+◌, ◌*◌, ◌<◌, arith, String, ◌≡◌, ◌≢◌, refl, sym, ap, ◌∙◌, inl, inr, true, Option, none, some,
  ◌==◌, string_eq, eq_iff, eq_refl, ltb, Bool-cases, Option-cases,
}
use nest_nexus.Exec.{Result, ok, Exec, ok_inj}
use nest_nexus.Schema.{App}
use nest_nexus.Scheduler.{
  Locks, Redis, RedisLaws, holder, holds, set_lock, map_redis, by_locks, Shared, lock_key, acquire,
  release, with_lock,
}

-- What the instances do before a time: they take locks, release what they hold, and work. The holder
-- of the token does not release it.
pub data Step (redis : Redis) (token : String) (limit : ℕ) (s : Shared) : Shared → Type 0 where
  acquires :
      (key other : String) (ttl now : ℕ)
      → now < limit
      → Step redis token limit s (acquire ⦃redis = redis⦄ key other ttl now s).1
  releases :
      (key other : String) (now : ℕ)
      → now < limit
      → other ≢ token
      → Step redis token limit s (release ⦃redis = redis⦄ key other now s).1
  works : (app : App) → Step redis token limit s (record s { app = app })

pub data Reach (redis : Redis) (token : String) (limit : ℕ) (s : Shared) : Shared → Type 0 where
  here : Reach redis token limit s s
  next :
      {t u : Shared}
      → Reach redis token limit s t
      → Step redis token limit t u
      → Reach redis token limit s u

module _ (key token : String) (limit : ℕ) where
  abbrev pub IsHeld : Shared → Type 0
  IsHeld s = s.locks (lock_key key) ≡ some (token, limit)

  held_now :
      (now : ℕ) (s : Shared)
      → IsHeld s
      → now < limit
      → holder now (s.locks (lock_key key)) ≡ some token
  held_now now s held soon =
      let alive : ltb now limit ≡ true = ground arith in rw (held, alive) refl

  acquires-IsHeld :
      (k other : String) (ttl now : ℕ) (s : Shared)
      → now < limit
      → IsHeld s
      → IsHeld (acquire ⦃redis = map_redis⦄ k other ttl now s).1
  unfolding acquire
  acquires-IsHeld k other ttl now s soon held = elim (Bool-cases (lock_key k == lock_key key)) [
    | inl same ↦
        let there : lock_key k ≡ lock_key key = (eq_iff (lock_key k) (lock_key key)).0 same in
        rw (there, held_now now s held soon) held
    | inr another ↦ elim (Option-cases (holder now (s.locks (lock_key k)))) [
      | inl free ↦ rw (free, another) held
      | inr (t, taken) ↦ rw taken held
    ]
  ]

  releases-IsHeld :
      (k other : String) (now : ℕ) (s : Shared)
      → now < limit
      → other ≢ token
      → IsHeld s
      → IsHeld (release ⦃redis = map_redis⦄ k other now s).1
  unfolding release
  releases-IsHeld k other now s soon differs held = elim (Bool-cases (lock_key k == lock_key key)) [
    | inl same ↦
        let there : lock_key k ≡ lock_key key = (eq_iff (lock_key k) (lock_key key)).0 same in
        elim (Bool-cases (token == other)) [
          | inl equal ↦ absurd (differs (sym ((eq_iff token other).0 equal)))
          | inr foreign ↦ rw (there, held_now now s held soon, foreign) held
        ]
    | inr another ↦ elim (Bool-cases (holds other (holder now (s.locks (lock_key k))))) [
      | inl own ↦ rw (own, another) held
      | inr not_own ↦ rw not_own held
    ]
  ]

  Reach-IsHeld : {s t : Shared} → Reach map_redis token limit s t → IsHeld s → IsHeld t
  Reach-IsHeld here held = held
  Reach-IsHeld (next {t} run (acquires k other ttl now soon)) held =
      acquires-IsHeld k other ttl now t soon (Reach-IsHeld run held)
  Reach-IsHeld (next {t} run (releases k other now soon differs)) held =
      releases-IsHeld k other now t soon differs (Reach-IsHeld run held)
  Reach-IsHeld (next run (works app)) held = Reach-IsHeld run held

  skipped :
      {A : Type 0} (f : Exec Shared A) (ttl : ℕ) (other : String) (now done : ℕ) (s : Shared)
      → IsHeld s
      → now < limit
      → with_lock ⦃redis = map_redis⦄ key f ttl other now done s ≡ (ok none, s)
  unfolding with_lock acquire
  skipped f ttl other now done s held soon = rw (held_now now s held soon) refl

pub placed : (key : String) (v : Option (String × ℕ)) (m : Locks) → set_lock key v m key ≡ v
placed key v m = rw (eq_refl key) refl

pub acquired :
    (key token : String) (ttl start : ℕ) (s t : Shared)
    → acquire ⦃redis = map_redis⦄ key token ttl start s ≡ (ok (some token), t)
    → IsHeld key token (start + 1000 * ttl) t
unfolding acquire
acquired key token ttl start s t h = elim (Option-cases (holder start (s.locks (lock_key key)))) [
  | inl free ↦
      ap (λ (o : Result (Option String) × Shared). o.1.locks (lock_key key)) (sym (rw free at h))
      ∙ placed (lock_key key) (some (token, start + 1000 * ttl)) s.locks
  | inr (other, taken) ↦
      let differ : none ≡ some token =
        ok_inj (ap (λ (o : Result (Option String) × Shared). o.0) (rw taken at h)) in
      absurd cc
]

module _ {redis : Redis} (laws : RedisLaws redis) where
  -- After an instance has taken a lock at a time, and as long as its time-to-live runs, whatever the
  -- instances acquire, release with tokens of their own, or write, a function that another instance
  -- would run under the lock is skipped, and nothing changes.
  pub Reach-skipped :
      {A : Type 0} (key token : String) (ttl start : ℕ) (r s t : Shared)
      → acquire ⦃redis = redis⦄ key token ttl start r ≡ (ok (some token), s)
      → Reach redis token (start + 1000 * ttl) s t
      → (f : Exec Shared A) (ttl' : ℕ) (other : String) (now done : ℕ) → now < start + 1000 * ttl
      → with_lock ⦃redis = redis⦄ key f ttl' other now done t ≡ (ok none, t)
  Reach-skipped =
      rw (by_locks laws) (λ key token ttl start r s t got run f ttl' other now done soon.
        skipped key token (start + 1000 * ttl) f ttl' other now done t
          (Reach-IsHeld key token (start + 1000 * ttl) run (acquired key token ttl start r s got))
          soon)
