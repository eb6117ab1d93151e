-- ===== src/Auth/ApiKeys/Revoked.antt =====
-- src/modules/auth/api-key/api-key.service.ts: the revocation of a key.
use nest_nexus.Prelude.{
  ℕ, String, ◌≡◌, refl, sym, ap, ◌∙◌, inl, inr, Bool, not, ◌&&◌, Option, some, ◌==◌, string_eq,
  eq_iff, if◌then◌else◌, any, find, map_if, Has, Bool-cases, Option-cases, find-some, find-map_if,
  and-true,
}
use nest_nexus.Exec.{unauthorized, Result, ok, err, failed}
use nest_nexus.Prisma.{Prisma, PrismaLaws, list_prisma, by_lists}
use nest_nexus.Schema.{ApiKey, App, api_key_clash}
use nest_nexus.Env.{Env}
use nest_nexus.Auth.ApiKeys.{validate_key, revoke_key}

module _ ⦃env : Env⦄ where
  -- The key that a raw key stands for.
  abbrev pub key_of : String → App → Option ApiKey
  key_of raw s = find (λ k. k.key_hash == env.sha256_hex raw) s.api_keys

  abbrev revoked_at_time : ℕ → ApiKey → ApiKey
  revoked_at_time now k = record k { revoked_at = some now }

  abbrev is_own : String → String → ApiKey → Bool
  is_own id user_id k = k.id == id && k.user_id == user_id

  abbrev key_clashes : String → ℕ → ApiKey → App → Bool
  key_clashes id now k s =
      any (λ l. not (l.id == id) && api_key_clash (revoked_at_time now k) l) s.api_keys

  revoke-inversion :
      (id user_id : String) (now : ℕ) (s t : App)
      → revoke_key id user_id now s ≡ (ok tt, t)
      → ((k : ApiKey) × (find (is_own id user_id) s.api_keys ≡ some k))
        × (t.api_keys ≡ map_if (λ k. k.id == id) (revoked_at_time now) s.api_keys)
  unfolding revoke_key
  revoke-inversion id user_id now s t h =
      elim (Option-cases (find (is_own id user_id) s.api_keys)) [
        | inl missing ↦ failed (rw missing at h)
        | inr (k, own) ↦ elim (Option-cases (find (λ k. k.id == id) s.api_keys)) [
          | inl gone ↦ failed (rw (own, gone) at h)
          | inr (l, found) ↦ elim (Bool-cases (key_clashes id now l s)) [
            | inl taken ↦ failed (rw (own, found, taken) at h)
            | inr free ↦ (
              (k, own),
              ap (λ (o : Result (Unit {0}) × App). o.1.api_keys) (sym (rw (own, found, free) at h)),
            )
          ]
        ]
      ]

  refused :
      (raw : String) (later : ℕ) (s : App) (k : ApiKey) (time : ℕ)
      → key_of raw s ≡ some k
      → k.revoked_at ≡ some time
      → (validate_key raw later s).0 ≡ err (unauthorized "Invalid or revoked API key.")
  unfolding validate_key
  refused raw later s k time found revoked = rw (found, revoked) refl

  own_key :
      (id user_id : String) (s : App) (k : ApiKey)
      → find (is_own id user_id) s.api_keys ≡ some k
      → Has k s.api_keys × (k.id ≡ id) × (k.user_id ≡ user_id)
  own_key id user_id s k found =
      let (place, owned) = find-some (is_own id user_id) s.api_keys found in
      let both = and-true (k.id == id) (k.user_id == user_id) owned in
      (place, (eq_iff k.id id).0 both.0, (eq_iff k.user_id user_id).0 both.1)

  revoked :
      (id user_id : String) (now : ℕ) (s t : App)
      → revoke_key id user_id now s ≡ (ok tt, t)
      → ((k : ApiKey) × Has k s.api_keys × (k.id ≡ id) × (k.user_id ≡ user_id))
        × ((raw : String) (later : ℕ) (k : ApiKey)
            → key_of raw s ≡ some k
            → k.id ≡ id
            → (validate_key raw later t).0 ≡ err (unauthorized "Invalid or revoked API key."))
  revoked id user_id now s t h =
      let ((k, found), written) = revoke-inversion id user_id now s t h in
      let (place, same_id, same_user) = own_key id user_id s k found in
      ((k, place, same_id, same_user), after written)
    where
      after :
          t.api_keys ≡ map_if (λ k. k.id == id) (revoked_at_time now) s.api_keys
          → (raw : String) (later : ℕ) (k : ApiKey) → key_of raw s ≡ some k
          → k.id ≡ id
          → (validate_key raw later t).0 ≡ err (unauthorized "Invalid or revoked API key.")
      after written raw later k found same =
          let hash_of = λ (l : ApiKey). l.key_hash == env.sha256_hex raw in
          let kept =
            find-map_if hash_of (λ l. l.id == id) (revoked_at_time now) (λ l. refl) s.api_keys
              found in
          refused raw later t (revoked_at_time now k) now
            (ap (find hash_of) written
              ∙ kept
              ∙ ap (λ b. some (if b then revoked_at_time now k else k)) ((eq_iff k.id id).1 same))
            refl

module _ {prisma : Prisma} (laws : PrismaLaws prisma) ⦃env : Env⦄ where
  -- A user who revokes a key by its id has a key with that id, and every raw key that stands for it is
  -- refused with 401 from then on.
  pub revoke-validate :
      (id user_id : String) (now : ℕ) (s t : App)
      → revoke_key ⦃prisma = prisma⦄ id user_id now s ≡ (ok tt, t)
      → ((k : ApiKey) × Has k s.api_keys × (k.id ≡ id) × (k.user_id ≡ user_id))
        × ((raw : String) (later : ℕ) (k : ApiKey)
            → key_of raw s ≡ some k
            → k.id ≡ id
            → (validate_key ⦃prisma = prisma⦄ raw later t).0
              ≡ err (unauthorized "Invalid or revoked API key."))
  revoke-validate = rw (by_lists laws) revoked
