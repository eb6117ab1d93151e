-- ===== src/Auth/Service/Lockout.antt =====
-- src/modules/auth/auth.service.ts: the lock of a sign-in after failures.
use nest_nexus.Prelude.{
  ℕ, suc, ◌+◌, ◌<◌, ◌≤◌, arith, String, ◌≡◌, refl, ◌⊎◌, inl, inr, true, false, Option, none, some,
  List, [], ◌∷◌, ◌==◌, string_eq, eq_refl, if◌then◌else◌, or_else, find, leb, ltb, length, All,
  Bool-cases, Option-cases,
}
use nest_nexus.Exec.{unauthorized, too_many_requests, err}
use nest_nexus.Prisma.{Prisma, PrismaLaws, list_prisma, by_lists}
use nest_nexus.Schema.{User, failures, App}
use nest_nexus.Cache.{CacheManager, CacheLaws, map_cache, by_map, live}
use nest_nexus.Env.{Env}
use nest_nexus.Auth.Token.{FreshToken}
use nest_nexus.Auth.Service.{LoginInput, login_fail_key, as_failures, password_hash_of, login}

abbrev pub locked_message : String
locked_message =
    "Account temporarily locked due to too many failed login attempts. Please try again in 15 minutes."

abbrev pub IsDuring : ℕ → ℕ → Type 0
IsDuring start now = (start ≤ now) × (now < start + 900000)

module _ ⦃env : Env⦄ (email : String) (ip agent : Option String) (fresh : FreshToken) where
  abbrev pub with_password : String → LoginInput
  with_password password = record { email = email; password = password }

  abbrev pub fail_key : String
  fail_key = login_fail_key (or_else ip "unknown") (env.to_lower_case email)

  abbrev account : App → Option User
  account s = find (λ u. u.email == env.to_lower_case email) s.users

  -- The password does not sign in: there is no such account, or its hash does not fit.
  abbrev pub IsWrong : String → App → Type 0
  IsWrong password s =
      (account s ≡ none) ⊎ (env.bcrypt_compare password (password_hash_of (account s)) ≡ false)

  abbrev counted : ℕ → ℕ → App → App
  counted n now s = record s {
    cache = λ j. if fail_key == j then some (failures (n + 1), now + 900000) else s.cache j;
  }

  locked :
      (password : String) (now n : ℕ) (s : App)
      → as_failures (live now (s.cache fail_key)) ≡ n
      → 10 ≤ n
      → login (with_password password) ip agent fresh now s
        ≡ (err (too_many_requests locked_message), s)
  unfolding login
  locked password now n s e many =
      let full : leb 10 (as_failures (live now (s.cache fail_key))) ≡ true = rw e (ground arith) in
      rw full refl

  wrong :
      (password : String) (now n : ℕ) (s : App)
      → as_failures (live now (s.cache fail_key)) ≡ n
      → n < 10
      → IsWrong password s
      → login (with_password password) ip agent fresh now s
        ≡ (err (unauthorized "Invalid email or password."), counted n now s)
  unfolding login
  wrong password now n s e few (inl missing) =
      let open_ : leb 10 (as_failures (live now (s.cache fail_key))) ≡ false =
        rw e (ground arith) in
      rw (open_, missing, e) refl
  wrong password now n s e few (inr unfit) =
      let open_ : leb 10 (as_failures (live now (s.cache fail_key))) ≡ false =
        rw e (ground arith) in
      elim (Option-cases (account s)) [
        | inl missing ↦ rw (open_, missing, e) refl
        | inr (user, found) ↦
            let unfit' : env.bcrypt_compare password (or_else user.password _) ≡ false =
              rw found at unfit in
            rw (open_, found, unfit', e) refl
      ]

  -- The sign-ins, one after the other.
  abbrev pub attempts : ⦃prisma : Prisma⦄ → ⦃cache : CacheManager⦄ → List (String × ℕ) → App → App
  attempts ⦃prisma⦄ ⦃cache⦄ [] s = s
  attempts ⦃prisma⦄ ⦃cache⦄ ((password, now) ∷ rest) s =
      attempts ⦃prisma = prisma⦄ ⦃cache = cache⦄ rest
        (login ⦃prisma = prisma⦄ ⦃cache = cache⦄ (with_password password) ip agent fresh now s).1

  -- After k failures since the start.
  abbrev Counts : ℕ → ℕ → App → Type 0
  Counts start k s =
      ((k ≡ 0) × (s.cache fail_key ≡ none))
      ⊎ ((n : ℕ) × (exp : ℕ) × (s.cache fail_key ≡ some (failures n, exp))
          × (start + 900000 ≤ exp)
          × ((10 ≤ n) ⊎ (k ≤ n)))

  live_count :
      (start now n exp : ℕ) (s : App)
      → IsDuring start now
      → s.cache fail_key ≡ some (failures n, exp)
      → start + 900000 ≤ exp
      → as_failures (live now (s.cache fail_key)) ≡ n
  live_count start now n exp s (from, to) e late =
      let alive : ltb now exp ≡ true = ground arith in rw (e, alive) refl

  counted_entry :
      (n now : ℕ) (s : App)
      → (counted n now s).cache fail_key ≡ some (failures (n + 1), now + 900000)
  counted_entry n now s = rw (eq_refl fail_key) refl

  count_one :
      (start now n k : ℕ) (s : App)
      → IsDuring start now
      → (10 ≤ n) ⊎ (k ≤ n)
      → ((counted n now s).users ≡ s.users) × Counts start (k + 1) (counted n now s)
  count_one start now n k s (from, to) enough =
      (refl, inr (n + 1, now + 900000, counted_entry n now s, omega arith, more enough))
    where
      more : (10 ≤ n) ⊎ (k ≤ n) → (10 ≤ n + 1) ⊎ (k + 1 ≤ n + 1)
      more (inl full) = inl (omega arith)
      more (inr as_many) = inr (omega arith)

  step :
      (start k : ℕ) (password : String) (now : ℕ) (s : App)
      → Counts start k s
      → IsDuring start now
      → IsWrong password s
      → ((login (with_password password) ip agent fresh now s).1.users ≡ s.users)
        × Counts start (k + 1) (login (with_password password) ip agent fresh now s).1
  step start k password now s (inl (zero_, empty)) during bad =
      let none_yet : as_failures (live now (s.cache fail_key)) ≡ 0 = rw empty refl in
      rw (wrong password now 0 s none_yet (omega arith) bad)
        (count_one start now 0 k s during (inr (omega arith)))
  step start k password now s (inr (n, exp, entry, late, enough)) during bad =
      let count = live_count start now n exp s during entry late in
      elim (Bool-cases (leb 10 n)) [
        | inl full ↦
            let many : 10 ≤ n = ground arith in
            rw (locked password now n s count many) (refl, inr (n, exp, entry, late, inl many))
        | inr open_ ↦
            let few : n < 10 = ground arith in
            rw (wrong password now n s count few bad) (count_one start now n k s during enough)
      ]

  abbrev pub IsFailedTry : ℕ → App → String × ℕ → Type 0
  IsFailedTry start s (password, now) = IsDuring start now × IsWrong password s

  same_users :
      (tries : List (String × ℕ)) (start : ℕ) (s t : App)
      → t.users ≡ s.users
      → All (IsFailedTry start s) tries
      → All (IsFailedTry start t) tries
  same_users [] start s t e h = h
  same_users ((password, now) ∷ rest) start s t e ((during, bad), h) =
      ((during, rw e bad), same_users rest start s t e h)

  run :
      (tries : List (String × ℕ)) (start k : ℕ) (s : App)
      → Counts start k s
      → All (IsFailedTry start s) tries
      → Counts start (k + length tries) (attempts tries s)
  run [] start k s c h = rw (plus_zero k) c
    where
      plus_zero : (k : ℕ) → k + 0 ≡ k
      plus_zero k = omega arith
  run ((password, now) ∷ rest) start k s c ((during, bad), h) =
      let (users, c') = step start k password now s c during bad in
      let t = (login (with_password password) ip agent fresh now s).1 in
      let all = run rest start (k + 1) t c' (same_users rest start s t users h) in
      rw (← shift k (length rest)) all
    where
      shift : (k n : ℕ) → k + 1 + n ≡ k + suc n
      shift k n = omega arith

  locks :
      (tries : List (String × ℕ)) (start now : ℕ) (password : String) (s : App)
      → s.cache fail_key ≡ none
      → 10 ≤ length tries
      → All (IsFailedTry start s) tries
      → IsDuring start now
      → login (with_password password) ip agent fresh now (attempts tries s)
        ≡ (err (too_many_requests locked_message), attempts tries s)
  locks tries start now password s empty ten h during =
      elim (run tries start 0 s (inl (refl, empty)) h) [
        | inl (zero_, e) ↦ absurd (omega arith)
        | inr (n, exp, entry, late, enough) ↦
            locked password now n (attempts tries s)
              (live_count start now n exp (attempts tries s) during entry late) (many enough)
      ]
    where
      many : {n : ℕ} → (10 ≤ n) ⊎ (0 + length tries ≤ n) → 10 ≤ n
      many (inl full) = full
      many (inr as_many) = omega arith

module _ {prisma : Prisma} (laws : PrismaLaws prisma) {cache : CacheManager}
    (cache_laws : CacheLaws cache) ⦃env : Env⦄ (email : String) (ip agent : Option String)
    (fresh : FreshToken) where
  -- After ten or more sign-ins for one address and e-mail, none with a password that fits and all
  -- within fifteen minutes of a start at which no failure was recorded, every sign-in in those fifteen
  -- minutes is refused with 429, with whatever password, and changes nothing.
  pub attempts-locked :
      (tries : List (String × ℕ)) (start now : ℕ) (password : String) (s : App)
      → s.cache (fail_key email ip agent fresh) ≡ none
      → 10 ≤ length tries
      → All (IsFailedTry email ip agent fresh start s) tries
      → IsDuring start now
      → login ⦃prisma = prisma⦄ ⦃cache = cache⦄
          (with_password email ip agent fresh password)
          ip
          agent
          fresh
          now
          (attempts email ip agent fresh ⦃prisma = prisma⦄ ⦃cache = cache⦄ tries s)
        ≡ (
          err (too_many_requests locked_message),
          attempts email ip agent fresh ⦃prisma = prisma⦄ ⦃cache = cache⦄ tries s,
        )
  attempts-locked = rw (by_lists laws, by_map cache_laws) (locks email ip agent fresh)
