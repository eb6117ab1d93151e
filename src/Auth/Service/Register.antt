-- ===== src/Auth/Service/Register.antt =====
-- src/modules/auth/auth.service.ts: registration and the addresses of accounts.
use nest_nexus.Prelude.{
  ℕ, String, ◌≡◌, refl, sym, ap, ◌∙◌, inl, inr, Bool, true, false, Option, some, [], ◌∷◌, ◌++◌,
  ◌==◌, string_eq, eq_iff, find, any, Has, Bool-cases, Option-cases, find-none, head, Has-right,
}
use nest_nexus.Exec.{conflict, Result, ok, err, failed}
use nest_nexus.Prisma.{Prisma, PrismaLaws, list_prisma, by_lists}
use nest_nexus.Schema.{User, user_clash, refresh_token_clash, App, user_created}
use nest_nexus.Enums.{user_role}
use nest_nexus.Env.{Env}
use nest_nexus.Auth.Token.{FreshToken, new_token, generate_refresh_token}
use nest_nexus.Auth.Service.{
  RegisterInput, Session, new_user, no_options, build_auth_response, register,
}

module _ ⦃env : Env⦄ (dto : RegisterInput) where
  abbrev registered : String → ℕ → User
  registered id now = record (new_user id (env.to_lower_case dto.email) dto.display_name now) {
    password = some (env.bcrypt_hash dto.password);
  }

  abbrev pub has_address : User → Bool
  has_address u = u.email == env.to_lower_case dto.email

module _ ⦃env : Env⦄ (dto : RegisterInput) (user_agent : Option String) (id : String)
    (fresh : FreshToken) (now : ℕ) where
  abbrev account : User
  account = registered dto id now

  signed_in :
      (s t : App) (session : Session)
      → build_auth_response account user_agent fresh now s ≡ (ok session, t)
      → (t.users ≡ s.users) × (t.events ≡ s.events)
  unfolding build_auth_response generate_refresh_token
  signed_in s t session h =
      elim (Bool-cases (
        any (refresh_token_clash (new_token id (no_options user_agent) fresh now))
          s.refresh_tokens)) [
            | inl taken ↦ failed (rw taken at h)
            | inr free ↦
                let h' = rw free at h in
                (
                  ap (λ (o : Result Session × App). o.1.users) (sym h'),
                  ap (λ (o : Result Session × App). o.1.events) (sym h'),
                )
          ]

  creates :
      (s t : App) (session : Session)
      → register dto user_agent id fresh now s ≡ (ok session, t)
      → ((u : User) → Has u s.users → has_address dto u ≡ false)
        × (t.users ≡ s.users ++ account ∷ [])
        × (t.events ≡ s.events ++ user_created id ∷ [])
  unfolding register
  creates s t session h = elim (Option-cases (find (has_address dto) s.users)) [
    | inr (u, found) ↦ failed (rw found at h)
    | inl missing ↦ elim (Bool-cases (any (user_clash account) s.users)) [
      | inl taken ↦ failed (rw (missing, taken) at h)
      | inr free ↦
          let (rows, events) =
            signed_in
              (record s {
                users = s.users ++ account ∷ [];
                events = s.events ++ user_created id ∷ [];
              })
              t session (rw (missing, free) at h) in
          ((λ u place. find-none (has_address dto) s.users missing place), rows, events)
    ]
  ]

  refused :
      (s : App) (u : User)
      → Has u s.users
      → u.email ≡ env.to_lower_case dto.email
      → register dto user_agent id fresh now s
        ≡ (err (conflict "An account with this email address already exists."), s)
  unfolding register
  refused s u place same = elim (Option-cases (find (has_address dto) s.users)) [
    | inr (v, found) ↦ rw found refl
    | inl missing ↦
        let hit : has_address dto u ≡ true =
          (eq_iff u.email (env.to_lower_case dto.email)).1 same in
        let miss : has_address dto u ≡ false = find-none (has_address dto) s.users missing place in
        let differ : false ≡ true = sym miss ∙ hit in absurd cc
  ]

module _ {prisma : Prisma} (laws : PrismaLaws prisma) ⦃env : Env⦄ where
  -- A registration for an address that a stored account has is refused with 409 and changes nothing.
  -- One that succeeds was for an address that no stored account had; it adds one account, with that
  -- address, the hash of the password, and the role user alone, and emits one event for it. Every
  -- later registration for the address, on the state that it leaves, is refused.
  pub register-once :
      (dto : RegisterInput) (user_agent : Option String) (id : String) (fresh : FreshToken)
      (now : ℕ) (s : App)
      → ((u : User)
          → Has u s.users
          → u.email ≡ env.to_lower_case dto.email
          → register ⦃prisma = prisma⦄ dto user_agent id fresh now s
            ≡ (err (conflict "An account with this email address already exists."), s))
        × ((session : Session) (t : App)
            → register ⦃prisma = prisma⦄ dto user_agent id fresh now s ≡ (ok session, t)
            → ((u : User) → Has u s.users → has_address dto u ≡ false)
              × ((u : User) × (t.users ≡ s.users ++ u ∷ [])
                  × (u.id ≡ id)
                  × (u.email ≡ env.to_lower_case dto.email)
                  × (u.password ≡ some (env.bcrypt_hash dto.password))
                  × (u.roles ≡ user_role ∷ []))
              × (t.events ≡ s.events ++ user_created id ∷ [])
              × ((dto' : RegisterInput) (agent' : Option String) (id' : String)
                    (fresh' : FreshToken) (later_on : ℕ)
                  → env.to_lower_case dto.email ≡ env.to_lower_case dto'.email
                  → register ⦃prisma = prisma⦄ dto' agent' id' fresh' later_on t
                    ≡ (err (conflict "An account with this email address already exists."), t)))
  register-once = rw (by_lists laws) (λ dto user_agent id fresh now s. (
    (λ u place same. refused dto user_agent id fresh now s u place same),
    (λ session t h.
        let (absent, rows, events) = creates dto user_agent id fresh now s t session h in
        (
          absent,
          (registered dto id now, rows, refl, refl, refl, refl),
          events,
          λ dto' agent' id' fresh' later_on same.
              refused dto' agent' id' fresh' later_on t (registered dto id now)
                (rw rows (Has-right s.users head)) same,
        )),
  ))
