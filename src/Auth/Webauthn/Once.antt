-- ===== src/Auth/Webauthn/Once.antt =====
-- src/modules/auth/webauthn/webauthn.service.ts: the challenge of a sign-in.
use Prim.Native.String
use nest_nexus.Prelude.{
  ℕ, String, ◌≡◌, ◌⊎◌, refl, sym, ap, ◌∙◌, Bool, inl, inr, Option-cases, Bool-cases, Option, none,
  some, ◌==◌, string_eq, eq_refl, truthy,
}
use nest_nexus.Exec.{Exception, Result, ok, err, unauthorized, bind-ok, ok_inj, failed, pure, ◌>>◌}
use nest_nexus.Prisma.{Prisma}
use nest_nexus.Schema.{
  User, WebauthnCredential, CacheValue, failures, challenge, signup, user_output, user_outputs, App,
}
use nest_nexus.Store.{webauthn_credentials, update}
use nest_nexus.Cache.{CacheManager, CacheLaws, map_cache, by_map, live, cache_del}
use nest_nexus.Env.{Env}
use nest_nexus.Auth.Webauthn.{Ceremony, Passkey, as_passkey, login_key, challenge_of, login_verify}

module _ ⦃prisma : Prisma⦄ ⦃env : Env⦄ ⦃ceremony : Ceremony⦄ where
  abbrev ceremony_of : String → String → Passkey → Result (Option ℕ)
  ceremony_of response expected key =
      ceremony.verify_authentication response expected env.config.client_origin
        env.config.webauthn_rp_id key

  -- What a sign-in has seen: the challenge of the e-mail that was kept and has not expired, the user
  -- of the e-mail, and the user's passkey, by which the response answers the challenge.
  abbrev pub HasAnswered : String → String → ℕ → App → String → Type 0
  HasAnswered email response now s id =
      (c : String) × (live now (s.cache (String.◌++◌ "webauthn:login:" (env.to_lower_case email)))
        ≡ some (challenge c))
      × (user : User) × (prisma.find_unique (λ u. u.email == env.to_lower_case email) s.users
          ≡ some user)
      × (user.id ≡ id)
      × (cred : WebauthnCredential) × (prisma.find_unique (λ c. c.user_id == user.id)
            s.webauthn_credentials
          ≡ some cred)
      × (counter : ℕ) × (ceremony_of response c (as_passkey cred) ≡ ok (some counter))

  challenge_of-some :
      (kept : Option CacheValue) (c : String)
      → challenge_of kept ≡ some c
      → kept ≡ some (challenge c)
  challenge_of-some none c h = cc
  challenge_of-some (some (failures n)) c h = cc
  challenge_of-some (some (signup a b)) c h = cc
  challenge_of-some (some (user_output a)) c h = cc
  challenge_of-some (some (user_outputs a)) c h = cc
  challenge_of-some (some (challenge d)) c h = elim (Bool-cases (truthy (some d))) [
    | inl full ↦ let e = rw full at h in let same : d ≡ c = cc in ap (λ x. some (challenge x)) same
    | inr empty ↦ let e = rw empty at h in cc
  ]

  -- The writes of a sign-in whose response was accepted.
  written :
      (key user_id : String) (q : WebauthnCredential → Bool)
      (f : WebauthnCredential → WebauthnCredential) (s t : App) (id : String)
      → (update webauthn_credentials q f >> (cache_del ⦃cache = map_cache⦄ key >> pure user_id)) s
        ≡ (ok id, t)
      → (user_id ≡ id) × ((later_on : ℕ) → live later_on (t.cache key) ≡ none)
  written key user_id q f s t id h =
      let (r, s', _, rest) =
        bind-ok (update webauthn_credentials q f)
          (λ _. cache_del ⦃cache = map_cache⦄ key >> pure user_id) s h in
      (
        ok_inj (ap (λ (o : Result String × App). o.0) rest),
        λ later_on.
            ap (λ (o : Result String × App). live later_on (o.1.cache key)) (sym rest)
            ∙ rw (eq_refl key) refl,
      )

  -- The library throws, or does not verify the response, or gives the new counter.
  verdict :
      (r : Result (Option ℕ))
      → (((e : Exception) × (r ≡ err e)) ⊎ (r ≡ ok none)) ⊎ ((n : ℕ) × (r ≡ ok (some n)))
  verdict (err e) = inl (inl (e, refl))
  verdict (ok none) = inl (inr refl)
  verdict (ok (some n)) = inr (n, refl)

  answered :
      (email response : String) (now : ℕ) (s t : App) (id : String)
      → login_verify ⦃cache = map_cache⦄ email response now s ≡ (ok id, t)
      → HasAnswered email response now s id
        × ((later_on : ℕ) → live later_on (t.cache (login_key (env.to_lower_case email))) ≡ none)
  unfolding login_verify
  answered email response now s t id h =
      let key = login_key (env.to_lower_case email) in
      let found = prisma.find_unique (λ (u : User). u.email == env.to_lower_case email) s.users in
      elim (Option-cases (challenge_of (live now (s.cache key)))) [
        | inl expired ↦ failed (rw expired at h)
        | inr (c, kept) ↦ elim (Option-cases found) [
          | inl missing ↦ failed (rw missing at (rw kept at h))
          | inr (user, there) ↦
              elim (Option-cases
                (prisma.find_unique (λ c. c.user_id == user.id) s.webauthn_credentials)) [
                  | inl bare ↦ failed (rw bare at (rw there at (rw kept at h)))
                  | inr (cred, owned) ↦ elim (verdict (ceremony_of response c (as_passkey cred))) [
                    | inl (inl (e, thrown)) ↦
                        failed (rw thrown at (rw owned at (rw there at (rw kept at h))))
                    | inl (inr wrong) ↦
                        failed (rw wrong at (rw owned at (rw there at (rw kept at h))))
                    | inr (counter, right) ↦
                        let (same, gone) =
                          written key user.id _ _ s t id
                            (rw right at (rw owned at (rw there at (rw kept at h)))) in
                        (
                          (
                            c,
                            challenge_of-some (live now (s.cache key)) c kept,
                            user,
                            there,
                            same,
                            cred,
                            owned,
                            counter,
                            right,
                          ),
                          gone,
                        )
                  ]
                ]
        ]
      ]

  refused :
      (email response : String) (later_on : ℕ) (t : App)
      → live later_on (t.cache (login_key (env.to_lower_case email))) ≡ none
      → login_verify ⦃cache = map_cache⦄ email response later_on t
        ≡ (err (unauthorized "Login challenge expired or not found."), t)
  unfolding login_verify
  refused email response later_on t gone = rw gone refl

  once :
      (email response : String) (now : ℕ) (s t : App) (id : String)
      → login_verify ⦃cache = map_cache⦄ email response now s ≡ (ok id, t)
      → HasAnswered email response now s id
        × ((response' : String) (later_on : ℕ)
            → login_verify ⦃cache = map_cache⦄ email response' later_on t
              ≡ (err (unauthorized "Login challenge expired or not found."), t))
  once email response now s t id h =
      let (seen, gone) = answered email response now s t id h in
      (seen, λ response' later_on. refused email response' later_on t (gone later_on))

module _ {cache : CacheManager} (cache_laws : CacheLaws cache) ⦃prisma : Prisma⦄ ⦃env : Env⦄
    ⦃ceremony : Ceremony⦄ where
  -- When a passkey has signed a user in, a challenge was kept under a key of the e-mail in lower case
  -- and had not expired, the user has the e-mail, and by the user's passkey the response answers that challenge. On the state
  -- that this leaves each sign-in for the e-mail, with whatever response and at any time, is refused
  -- with 401 and changes nothing.
  pub login_verify-once :
      (email response : String) (now : ℕ) (s t : App) (id : String)
      → login_verify ⦃cache = cache⦄ email response now s ≡ (ok id, t)
      → HasAnswered email response now s id
        × ((response' : String) (later_on : ℕ)
            → login_verify ⦃cache = cache⦄ email response' later_on t
              ≡ (err (unauthorized "Login challenge expired or not found."), t))
  login_verify-once = rw (by_map cache_laws) once
