-- ===== src/Auth/JwtStrategy/Deactivated.antt =====
-- src/modules/auth/strategies/jwt.strategy.ts: the tokens of a deactivated user.
use nest_nexus.Prelude.{
  ℕ, ◌+◌, ◌≤◌, ◌<◌, arith, String, ◌≡◌, refl, ap, inl, inr, true, not, Option, none, some, ◌==◌,
  string_eq, ltb, Has-filter, Bool-cases, Option-cases,
}
use nest_nexus.Exec.{unauthorized, err}
use nest_nexus.Prisma.{Prisma, PrismaLaws, list_prisma, by_lists}
use nest_nexus.Schema.{App}
use nest_nexus.Env.{JwtPayload}
use nest_nexus.Auth.JwtStrategy.{
  CacheEntry, JwtState, lookup_entry, delete_entry, fresh_entry, validate, on_user_changed,
}
use nest_nexus.Auth.JwtStrategy.Entries.{IsInactive, EndsBy, lookup-Has, validate-EndsBy}

-- What may happen while the user stays deactivated.
pub data Step (prisma : Prisma) (id : String) (s : JwtState) : JwtState → Type 0 where
  validates :
      (payload : JwtPayload) (now : ℕ)
      → Step prisma id s (validate ⦃prisma = prisma⦄ payload now s).1
  hears : (user_id : String) → Step prisma id s (on_user_changed user_id s)
  writes : (app : App) → IsInactive id app → Step prisma id s (record s { app = app })

pub data Reach (prisma : Prisma) (id : String) (s : JwtState) : JwtState → Type 0 where
  here : Reach prisma id s s
  next : {t u : JwtState} → Reach prisma id s t → Step prisma id t u → Reach prisma id s u

hears-EndsBy :
    (id user_id : String) (limit : ℕ) (s : JwtState)
    → IsInactive id s.app
    → EndsBy id limit s.active_cache
    → IsInactive id (on_user_changed user_id s).app
      × EndsBy id limit (on_user_changed user_id s).active_cache
unfolding on_user_changed delete_entry
hears-EndsBy id user_id limit s inactive ends = (
  inactive,
  λ key e place.
      ends key e
        (Has-filter (λ (p : String × CacheEntry). not (p.0 == user_id)) s.active_cache place).0,
)

Step-EndsBy :
    {id : String} {s t : JwtState} (limit : ℕ)
    → Step list_prisma id s t
    → IsInactive id s.app
    → EndsBy id limit s.active_cache
    → IsInactive id t.app × EndsBy id limit t.active_cache
Step-EndsBy {id} {s} limit (validates payload now) inactive ends =
    validate-EndsBy id limit payload now s inactive ends
Step-EndsBy {id} {s} limit (hears user_id) inactive ends =
    hears-EndsBy id user_id limit s inactive ends
Step-EndsBy {id} {s} limit (writes app still) inactive ends = (still, ends)

Reach-EndsBy :
    {id : String} {s t : JwtState} (limit : ℕ)
    → Reach list_prisma id s t
    → IsInactive id s.app
    → EndsBy id limit s.active_cache
    → IsInactive id t.app × EndsBy id limit t.active_cache
Reach-EndsBy limit here inactive ends = (inactive, ends)
Reach-EndsBy limit (next run step) inactive ends =
    let (inactive', ends') = Reach-EndsBy limit run inactive ends in
    Step-EndsBy limit step inactive' ends'

-- An entry that is used was stored and has not expired.
fresh-inversion :
    (now : ℕ) (found : Option CacheEntry) (entry : CacheEntry)
    → fresh_entry now found ≡ some entry
    → (found ≡ some entry) × (now < entry.exp)
fresh-inversion now none entry h = absurd cc
fresh-inversion now (some e) entry h = elim (Bool-cases (ltb now e.exp)) [
  | inl alive ↦
      let same : e ≡ entry = some_inj (rw alive at h) in
      let soon : now < e.exp = ground arith in (ap (λ x. some x) same, rw (← same) soon)
  | inr expired ↦ let no_entry : none ≡ some entry = rw expired at h in absurd cc
]
  where
    some_inj : {a b : CacheEntry} → some a ≡ some b → a ≡ b
    some_inj e = cc

rejected :
    (payload : JwtPayload) (now limit : ℕ) (s : JwtState)
    → IsInactive payload.sub s.app
    → EndsBy payload.sub limit s.active_cache
    → limit ≤ now
    → (validate payload now s).0 ≡ err (unauthorized "User account is inactive or not found.")
unfolding validate
rejected payload now limit s inactive ends late =
    elim (Option-cases (fresh_entry now (lookup_entry payload.sub s.active_cache))) [
      | inl stale ↦ rw (stale, inactive) refl
      | inr (entry, cached) ↦ elim (Bool-cases entry.is_ok) [
        | inr bad ↦ rw (cached, bad) refl
        | inl good ↦ absurd (too_late entry cached good)
      ]
    ]
  where
    too_late :
        (entry : CacheEntry)
        → fresh_entry now (lookup_entry payload.sub s.active_cache) ≡ some entry
        → ¬ (entry.is_ok ≡ true)
    too_late entry cached good =
        let (found, soon) =
          fresh-inversion now (lookup_entry payload.sub s.active_cache) entry cached in
        let (key, place, same) = lookup-Has payload.sub s.active_cache entry found in
        let bound = ends key entry place same good in omega arith

module _ {prisma : Prisma} (laws : PrismaLaws prisma) where
  -- Once a user is deactivated or gone, at a time by whose cache lifetime every entry that lets the
  -- user in ends, and stays so, every check of a token of the user from that end on is refused with
  -- 401, whatever checks, notices and writes came between.
  pub Reach-rejected :
      (payload : JwtPayload) (from now : ℕ) (s t : JwtState)
      → IsInactive payload.sub s.app
      → EndsBy payload.sub (from + 30000) s.active_cache
      → Reach prisma payload.sub s t
      → from + 30000 ≤ now
      → (validate ⦃prisma = prisma⦄ payload now t).0
        ≡ err (unauthorized "User account is inactive or not found.")
  Reach-rejected = rw (by_lists laws) (λ payload from now s t inactive ends run late.
      let (inactive', ends') = Reach-EndsBy (from + 30000) run inactive ends in
      rejected payload now (from + 30000) t inactive' ends' late)
