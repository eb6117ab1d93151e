-- ===== src/Cache.antt =====
-- The cache manager that the services share, which is not part of the repository: its operations are
-- a parameter with their documented behaviour. The time-to-live of a write with none is the one that
-- src/core/cache/cache.module.ts configures, five minutes.
use nest_nexus.Prelude.{
  ℕ, ◌+◌, String, ◌≡◌, refl, Option, none, some, ◌==◌, string_eq, if◌then◌else◌, ltb, or_else,
}
use nest_nexus.Exec.{ok, Exec}
use nest_nexus.Schema.{CacheValue, CacheContents, App}

pub record CacheManager : Type 0 where
  pub read : ℕ → String → CacheContents → Option CacheValue
  pub write : ℕ → String → CacheValue → ℕ → CacheContents → CacheContents
  pub remove : String → CacheContents → CacheContents

-- A value is there until the time at which it expires.
abbrev pub live : ℕ → Option (CacheValue × ℕ) → Option CacheValue
live now none = none
live now (some (v, expires)) = if ltb now expires then some v else none

pub record CacheLaws (c : CacheManager) : Type 0 where
  pub read_lem : (now : ℕ) (k : String) (m : CacheContents) → c.read now k m ≡ live now (m k)
  pub write_lem :
      (now : ℕ) (k : String) (v : CacheValue) (ttl : ℕ) (m : CacheContents) (j : String)
      → c.write now k v ttl m j ≡ (if k == j then some (v, now + ttl) else m j)
  pub remove_lem :
      (k : String) (m : CacheContents) (j : String)
      → c.remove k m j ≡ (if k == j then none else m j)

-- A manager that meets the laws.
instance abbrev pub map_cache : CacheManager
map_cache = record {
  read = λ now k m. live now (m k);
  write = λ now k v ttl m j. if k == j then some (v, now + ttl) else m j;
  remove = λ k m j. if k == j then none else m j;
}

pub map_cache_laws : CacheLaws map_cache
map_cache_laws = record {
  read_lem = λ now k m. refl;
  write_lem = λ now k v ttl m j. refl;
  remove_lem = λ k m j. refl;
}

-- The laws determine the manager.
pub by_map : {c : CacheManager} → CacheLaws c → c ≡ map_cache
by_map l = λ i. record {
  read = λ now k m. l.read_lem now k m i;
  write = λ now k v ttl m j. l.write_lem now k v ttl m j i;
  remove = λ k m j. l.remove_lem k m j i;
}

abbrev pub default_ttl : ℕ
default_ttl = 300000

module _ ⦃cache : CacheManager⦄ where
  abbrev pub cache_get : String → ℕ → Exec App (Option CacheValue)
  cache_get key now s = (ok (cache.read now key s.cache), s)

  abbrev pub cache_set : String → CacheValue → Option ℕ → ℕ → Exec App (Unit {0})
  cache_set key v ttl now s =
      (ok tt, record s { cache = cache.write now key v (or_else ttl default_ttl) s.cache })

  abbrev pub cache_del : String → Exec App (Unit {0})
  cache_del key s = (ok tt, record s { cache = cache.remove key s.cache })
