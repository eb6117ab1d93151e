-- ===== src/Auth/Service/Tests.antt =====
-- Registration on a sample state.
use nest_nexus.Prelude.{
  ℕ, String, Option, ◌≡◌, refl, none, some, [], ◌∷◌, ◌++◌, string_eq, false, Has,
}
use nest_nexus.Exec.{ok, err, conflict}
use nest_nexus.Prisma.{list_prisma, list_prisma_laws}
use nest_nexus.Enums.{user_role}
use nest_nexus.Schema.{User, App, user_created}
use nest_nexus.Samples.{sample, sample_env, fresh_token}
use nest_nexus.Auth.Token.{FreshToken, generate_refresh_token}
use nest_nexus.Auth.Service.{RegisterInput, Session, build_auth_response, register}
use nest_nexus.Auth.Service.Register.{has_address, register-once}

abbrev bea : RegisterInput
bea = record { email = "bea"; password = "long enough"; display_name = "Bea" }

-- The address is free, and the account is made.
register-bea :
    (t : App) × (session : Session) × (register bea none "b" fresh_token 40 sample
      ≡ (ok session, t))
unfolding register build_auth_response generate_refresh_token
register-bea = (_, _, refl)

register-once_example :
    ((u : User)
      → Has u sample.users
      → u.email ≡ "bea"
      → register bea none "b" fresh_token 40 sample
        ≡ (err (conflict "An account with this email address already exists."), sample))
    × ((session : Session) (t : App)
        → register bea none "b" fresh_token 40 sample ≡ (ok session, t)
        → ((u : User) → Has u sample.users → has_address bea u ≡ false)
          × ((u : User) × (t.users ≡ sample.users ++ u ∷ [])
              × (u.id ≡ "b")
              × (u.email ≡ "bea")
              × (u.password ≡ some "long enough")
              × (u.roles ≡ user_role ∷ []))
          × (t.events ≡ user_created "b" ∷ [])
          × ((dto' : RegisterInput) (agent' : Option String) (id' : String) (fresh' : FreshToken)
                (later_on : ℕ)
              → "bea" ≡ dto'.email
              → register dto' agent' id' fresh' later_on t
                ≡ (err (conflict "An account with this email address already exists."), t)))
register-once_example = register-once list_prisma_laws bea none "b" fresh_token 40 sample
