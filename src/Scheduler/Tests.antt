-- ===== src/Scheduler/Tests.antt =====
-- Two instances and one lock.
use nest_nexus.Prelude.{String, arith, true, false, eq_iff, ◌≡◌, ◌≢◌, refl, none, some}
use nest_nexus.Exec.{ok, Exec}
use nest_nexus.Prisma.{list_prisma}
use nest_nexus.Samples.{sample}
use nest_nexus.Scheduler.{
  map_redis, map_redis_laws, Shared, acquire, release, with_lock, on_app, purge_tokens,
}
use nest_nexus.Scheduler.Holder.{releases, here, next, Reach-skipped}
use nest_nexus.Scheduler.Released.{with_lock-acquire}

abbrev unlocked : Shared
unlocked = record { app = sample; locks = λ key. none }

abbrev held : Shared
held = (acquire ⦃redis = map_redis⦄ "cleanup" "one" 300 0 unlocked).1

abbrev tried : Shared
tried = (release ⦃redis = map_redis⦄ "cleanup" "two" 5 held).1

got : acquire ⦃redis = map_redis⦄ "cleanup" "one" 300 0 unlocked ≡ (ok (some "one"), held)
unfolding acquire
got = refl

foreign : ◌≢◌ {A = String} "two" "one"
foreign same = let differ : false ≡ true = (eq_iff "two" "one").1 same in cc

abbrev job : Exec Shared (Unit {0})
job = on_app (purge_tokens 6)

Reach-skipped_example :
    with_lock ⦃redis = map_redis⦄ "cleanup" job 300 "two" 6 7 tried ≡ (ok none, tried)
Reach-skipped_example =
    Reach-skipped map_redis_laws "cleanup" "one" 300 0 unlocked held tried got
      (next here (releases "cleanup" "two" 5 (omega arith) foreign)) job 300 "two" 6 7 (omega arith)

with_lock-acquire_example :
    ((acquire ⦃redis = map_redis⦄ "cleanup" "two" 60 7
        (with_lock ⦃redis = map_redis⦄ "cleanup" job 300 "one" 6 7 unlocked).1).0
      ≡ ok (some "two"))
    × ((acquire ⦃redis = map_redis⦄ "cleanup" "two" 60 300006
          (acquire ⦃redis = map_redis⦄ "cleanup" "one" 300 6 unlocked).1).0
        ≡ ok (some "two"))
with_lock-acquire_example = (
  (with_lock-acquire map_redis_laws "cleanup" job 300 6 7 "one" unlocked refl (λ t. refl) "two" 60
        7).0
      (omega arith),
  (with_lock-acquire map_redis_laws "cleanup" job 300 6 7 "one" unlocked refl (λ t. refl) "two" 60
        300006).1
      (omega arith),
)
