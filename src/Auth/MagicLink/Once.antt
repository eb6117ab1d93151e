-- ===== src/Auth/MagicLink/Once.antt =====
-- src/modules/auth/magic-link/magic-link.service.ts: the use of a link.
use nest_nexus.Prelude.{
  ℕ, ◌<◌, arith, String, ◌≡◌, ◌⊎◌, refl, sym, ap, inl, inr, Bool, true, false, List, Option, none,
  some, ◌==◌, string_eq, eq_iff, find, map_if, Has, Bool-cases, Option-cases, find-some, and-true,
  map_if-Has,
}
use nest_nexus.Exec.{unauthorized, Result, ok, err, failed, pure, ◌>>◌}
use nest_nexus.Prisma.{Prisma, PrismaLaws, list_prisma, by_lists}
use nest_nexus.Schema.{User, same_text, App}
use nest_nexus.Store.{users, update}
use nest_nexus.Store.Updates.{update-cases}
use nest_nexus.Env.{Env}
use nest_nexus.Auth.MagicLink.{is_link_of, expires_after, verify_link}

abbrev cleared : ℕ → User → User
cleared now u = record u {
  magic_link_token_hash = none;
  magic_link_expires_at = none;
  updated_at = now;
}

module _ ⦃env : Env⦄ where
  abbrev pub carries : String → User → Bool
  carries token u = same_text u.magic_link_token_hash (some (env.sha256_hex token))

  same_text-eq : (a : Option String) (b : String) → same_text a (some b) ≡ true → a ≡ some b
  same_text-eq none b h = absurd cc
  same_text-eq (some a) b h = ap some ((eq_iff a b).0 h)

  expires_after-some :
      (now : ℕ) (kept : Option ℕ)
      → expires_after now kept ≡ true
      → (expires : ℕ) × (kept ≡ some expires) × (now < expires)
  expires_after-some now none h = absurd cc
  expires_after-some now (some expires) h = (expires, refl, ground arith)

  abbrev returned : Result String → String
  returned (ok id) = id
  returned (err e) = ""

  verify-inversion :
      (token : String) (now : ℕ) (s t : App) (id : String)
      → verify_link token now s ≡ (ok id, t)
      → (u : User) × (find (is_link_of (env.sha256_hex token) now) s.users ≡ some u)
        × (u.id ≡ id)
        × (t.users ≡ map_if (λ v. v.id == u.id) (cleared now) s.users)
  unfolding verify_link
  verify-inversion token now s t id h =
      elim (Option-cases (find (is_link_of (env.sha256_hex token) now) s.users)) [
        | inl missing ↦ failed (rw missing at h)
        | inr (u, found) ↦
            let (same, written) = clearing u (rw found at h) in (u, found, same, written)
      ]
    where
      clearing :
          (u : User)
          → (update users (λ v. v.id == u.id) (cleared now) >> pure u.id) s ≡ (ok id, t)
          → (u.id ≡ id) × (t.users ≡ map_if (λ v. v.id == u.id) (cleared now) s.users)
      clearing u h = elim (update-cases users (λ v. v.id == u.id) (cleared now) s) [
        | inl (e, refusal) ↦ failed (rw refusal at h)
        | inr (v, stored, done) ↦
            let h' = rw done at h in
            (
              ap returned (ap (λ (o : Result String × App). o.0) h'),
              ap (λ (o : Result String × App). o.1.users) (sym h'),
            )
      ]

  -- A row that the link still fits, after it has signed a user in, is one of another user.
  remaining :
      (token : String) (now later_on : ℕ) (us : List User) (u v : User)
      → Has v (map_if (λ w. w.id == u.id) (cleared now) us)
      → is_link_of (env.sha256_hex token) later_on v ≡ true
      → Has v us × (¬ (v.id ≡ u.id)) × (carries token v ≡ true)
  remaining token now later_on us u v place fits =
      let (w, was, from) = map_if-Has (λ w. w.id == u.id) (cleared now) us place in
      elim (Bool-cases (w.id == u.id)) [
        | inl hit ↦ let e : false ≡ true = rw (from, hit) at fits in absurd cc
        | inr miss ↦
            let same : v ≡ w = rw miss at from in
            (
              rw same was,
              λ e.
                  let e' = (eq_iff w.id u.id).1 (rw same at e) in
                  let wrong : false ≡ true = rw miss at e' in absurd cc,
              (and-true (carries token v) (expires_after later_on v.magic_link_expires_at) fits).0,
            )
      ]

  refused :
      (token : String) (now : ℕ) (s : App)
      → find (is_link_of (env.sha256_hex token) now) s.users ≡ none
      → (verify_link token now s).0 ≡ err (unauthorized "Invalid or expired magic link.")
  unfolding verify_link
  refused token now s nobody = rw nobody refl

  -- Another user whose row has the hash of the token of a link.
  abbrev pub OtherCarries : String → String → App → Type 0
  OtherCarries token id s =
      (other : User) × Has other s.users × (¬ (other.id ≡ id)) × (carries token other ≡ true)

  -- What a sign-in by a link has found, and what the link does on the state that this leaves.
  abbrev pub IsSpent : ⦃prisma : Prisma⦄ → String → ℕ → App → App → String → Type 0
  IsSpent ⦃prisma⦄ token now s t id =
      ((u : User) × Has u s.users
        × (u.id ≡ id)
        × (u.magic_link_token_hash ≡ some (env.sha256_hex token))
        × (expires : ℕ) × (u.magic_link_expires_at ≡ some expires)
        × (now < expires))
      × ((later_on : ℕ)
          → (¬ ((verify_link ⦃prisma = prisma⦄ token later_on t).0 ≡ ok id))
            × (((verify_link ⦃prisma = prisma⦄ token later_on t).0
                  ≡ err (unauthorized "Invalid or expired magic link."))
                ⊎ OtherCarries token id s))

  not_again :
      (token : String) (now later_on : ℕ) (s t : App) (u : User)
      → t.users ≡ map_if (λ v. v.id == u.id) (cleared now) s.users
      → ¬ ((verify_link token later_on t).0 ≡ ok u.id)
  not_again token now later_on s t u written h =
      let after = (verify_link token later_on t).1 in
      let (v, found, same, _) =
        verify-inversion token later_on t after u.id (ap (λ (r : Result String). (r, after)) h) in
      let (place, fits) = find-some (is_link_of (env.sha256_hex token) later_on) t.users found in
      (remaining token now later_on s.users u v (rw written at place) fits).1 same

  refused_or_shared :
      (token : String) (now later_on : ℕ) (s t : App) (u : User)
      → t.users ≡ map_if (λ v. v.id == u.id) (cleared now) s.users
      → ((verify_link token later_on t).0 ≡ err (unauthorized "Invalid or expired magic link."))
        ⊎ OtherCarries token u.id s
  refused_or_shared token now later_on s t u written =
      elim (Option-cases (find (is_link_of (env.sha256_hex token) later_on) t.users)) [
        | inl nobody ↦ inl (refused token later_on t nobody)
        | inr (v, found) ↦
            let (place, fits) =
              find-some (is_link_of (env.sha256_hex token) later_on) t.users found in
            let (was, other, had) =
              remaining token now later_on s.users u v (rw written at place) fits in
            inr (v, was, other, had)
      ]

  once :
      (token : String) (now : ℕ) (s t : App) (id : String)
      → verify_link token now s ≡ (ok id, t)
      → IsSpent ⦃prisma = list_prisma⦄ token now s t id
  once token now s t id h =
      let (u, found, same, written) = verify-inversion token now s t id h in
      let (place, fits) = find-some (is_link_of (env.sha256_hex token) now) s.users found in
      let both = and-true (carries token u) (expires_after now u.magic_link_expires_at) fits in
      let (expires, kept, early) = expires_after-some now u.magic_link_expires_at both.1 in
      rw (← same) (
        (
          u,
          place,
          refl,
          same_text-eq u.magic_link_token_hash (env.sha256_hex token) both.0,
          expires,
          kept,
          early,
        ),
        λ later_on. (
          not_again token now later_on s t u written,
          refused_or_shared token now later_on s t u written,
        ),
      )

module _ {prisma : Prisma} (laws : PrismaLaws prisma) ⦃env : Env⦄ where
  -- When a link has signed a user in, the row of that user had the hash of the link's token and its
  -- time had not passed. On the state that this leaves the link never signs that user in again: at
  -- every time it is refused with 401, unless the row of another user had the same hash.
  pub verify_link-once :
      (token : String) (now : ℕ) (s t : App) (id : String)
      → verify_link ⦃prisma = prisma⦄ token now s ≡ (ok id, t)
      → IsSpent ⦃prisma = prisma⦄ token now s t id
  verify_link-once = rw (by_lists laws) once
