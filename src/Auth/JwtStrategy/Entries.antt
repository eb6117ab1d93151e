-- ===== src/Auth/JwtStrategy/Entries.antt =====
-- The entries of the cache of src/modules/auth/strategies/jwt.strategy.ts after a check of a token.
use nest_nexus.Prelude.{
  ℕ, ◌+◌, ◌≤◌, String, ◌≡◌, sym, ap, ◌∙◌, ◌⊎◌, inl, inr, true, false, not, some, [], ◌∷◌, ◌==◌,
  string_eq, eq_iff, ltb, leb, find, length, Has, head, later, Has-filter, Has-cons, Has-one,
  Bool-cases, Option-cases,
}
use nest_nexus.Prisma.{list_prisma}
use nest_nexus.Schema.{App}
use nest_nexus.Env.{JwtPayload}
use nest_nexus.Auth.JwtStrategy.{
  CacheEntry, ActiveCache, JwtState, max_cache_size, cache_ttl, lookup_entry, set_entry,
  set_cache_entry, is_active_user, fresh_entry, roles_of, validate,
}

abbrev pub IsInactive : String → App → Type 0
IsInactive id app = is_active_user (find (λ u. u.id == id) app.users) ≡ false

-- Every entry that lets the user in ends by a time.
abbrev pub EndsBy : String → ℕ → ActiveCache → Type 0
EndsBy id limit cache =
    (key : String) (entry : CacheEntry)
    → Has (key, entry) cache
    → key ≡ id
    → entry.is_ok ≡ true
    → entry.exp ≤ limit

pub lookup-Has :
    (id : String) (cache : ActiveCache) (entry : CacheEntry)
    → lookup_entry id cache ≡ some entry
    → (key : String) × Has (key, entry) cache × (key ≡ id)
unfolding lookup_entry
lookup-Has id [] entry h = absurd cc
lookup-Has id ((key, old) ∷ rest) entry h = elim (Bool-cases (key == id)) [
  | inl hit ↦
      let same : old ≡ entry = some_inj (rw hit at h) in
      (key, rw (← same) head, (eq_iff key id).0 hit)
  | inr miss ↦ let (k, place, e) = lookup-Has id rest entry (rw miss at h) in (k, later place, e)
]
  where
    some_inj : {a b : CacheEntry} → some a ≡ some b → a ≡ b
    some_inj e = cc

pub Has-set_entry :
    (id : String) (entry : CacheEntry) (cache : ActiveCache) (key : String) (e : CacheEntry)
    → Has (key, e) (set_entry id entry cache)
    → ((key ≡ id) × (e ≡ entry)) ⊎ Has (key, e) cache
unfolding set_entry
Has-set_entry id entry [] key e h =
    let same = Has-one h in
    inl (ap (λ (p : String × CacheEntry). p.0) same, ap (λ (p : String × CacheEntry). p.1) same)
Has-set_entry id entry ((k, old) ∷ rest) key e h = elim (Bool-cases (k == id)) [
  | inl hit ↦ elim (Has-cons (rw hit at h)) [
    | inl same ↦ inl (
      ap (λ (p : String × CacheEntry). p.0) same ∙ (eq_iff k id).0 hit,
      ap (λ (p : String × CacheEntry). p.1) same,
    )
    | inr below ↦ inr (later below)
  ]
  | inr miss ↦ elim (Has-cons (rw miss at h)) [
    | inl same ↦ inr (rw same head)
    | inr below ↦ elim (Has-set_entry id entry rest key e below) [
      | inl new ↦ inl new
      | inr old_one ↦ inr (later old_one)
    ]
  ]
]

pub Has-set_cache_entry :
    (id : String) (entry : CacheEntry) (now : ℕ) (cache : ActiveCache) (key : String)
    (e : CacheEntry)
    → Has (key, e) (set_cache_entry id entry now cache)
    → ((key ≡ id) × (e ≡ entry)) ⊎ Has (key, e) cache
unfolding set_cache_entry
Has-set_cache_entry id entry now cache key e h =
    elim (Bool-cases (ltb max_cache_size (length (set_entry id entry cache)))) [
      | inl full ↦
          Has-set_entry id entry cache key e
            (Has-filter (λ (p : String × CacheEntry). not (leb p.1.exp now))
              (set_entry id entry cache) (rw full at h)).0
      | inr room ↦ Has-set_entry id entry cache key e (rw room at h)
    ]

-- The cache after a check holds what was there, or the entry of an inactive user.
pub validate-EndsBy :
    (id : String) (limit : ℕ) (payload : JwtPayload) (now : ℕ) (s : JwtState)
    → IsInactive id s.app
    → EndsBy id limit s.active_cache
    → IsInactive id (validate payload now s).1.app
      × EndsBy id limit (validate payload now s).1.active_cache
unfolding validate
validate-EndsBy id limit payload now s inactive ends =
    elim (Option-cases (fresh_entry now (lookup_entry payload.sub s.active_cache))) [
      | inr (entry, cached) ↦ rw cached (inactive, ends)
      | inl stale ↦ rw stale (inactive, entered)
    ]
  where
    refreshed : CacheEntry
    refreshed = record {
      is_ok = is_active_user (find (λ u. u.id == payload.sub) s.app.users);
      roles = roles_of (find (λ u. u.id == payload.sub) s.app.users);
      exp = now + cache_ttl;
    }

    entered : EndsBy id limit (set_cache_entry payload.sub refreshed now s.active_cache)
    entered key e place is_id good =
        elim (Has-set_cache_entry payload.sub refreshed now s.active_cache key e place) [
          | inr before ↦ ends key e before is_id good
          | inl (is_sub, new) ↦
              let same : payload.sub ≡ id = sym is_sub ∙ is_id in
              let bad : is_active_user (find (λ u. u.id == payload.sub) s.app.users) ≡ false =
                rw same inactive in
              let ok_ : is_active_user (find (λ u. u.id == payload.sub) s.app.users) ≡ true =
                rw new at good in
              let clash : true ≡ false = sym ok_ ∙ bad in absurd cc
        ]
