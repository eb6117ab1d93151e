-- ===== src/Auth/Tests.antt =====
-- Sign-in on a sample state.
use nest_nexus.Prelude.{
  ℕ, zero, suc, ◌≤◌, arith, String, ◌≡◌, refl, true, false, none, some, List, [], ◌∷◌, ◌==◌,
  string_eq, find, includes, inr, All, Has, head, later,
}
use nest_nexus.Exec.{ok, err, unauthorized, too_many_requests}
use nest_nexus.Prisma.{list_prisma, list_prisma_laws}
use nest_nexus.Schema.{RefreshToken, User, ApiKey, App}
use nest_nexus.Cache.{map_cache, map_cache_laws}
use nest_nexus.Env.{JwtPayload}
use nest_nexus.Samples.{
  payload_of, ada, root, sample, sample_env, fresh_token, open_cipher, no_totp,
}
use nest_nexus.Crypto.{decrypt_totp_secret}
use nest_nexus.Auth.Token.{FreshToken, rotate_refresh_token, generate_pending_two_factor_token}
use nest_nexus.Auth.Token.Families.{genuine, IsRejected}
use nest_nexus.Auth.Service.Logout.{logout-IsRejected}
use nest_nexus.Auth.Service.{logout, LoginInput, Session, login}
use nest_nexus.Auth.Service.Login.{IsProven, login-IsProven}
use nest_nexus.Auth.Service.Lockout.{
  with_password, attempts, IsFailedTry, locked_message, attempts-locked,
}
use nest_nexus.Auth.ApiKeys.{validate_key, revoke_key}
use nest_nexus.Auth.ApiKeys.Revoked.{key_of, revoke-validate}
use nest_nexus.Auth.MagicLink.{verify_link}
use nest_nexus.Auth.MagicLink.Once.{IsSpent, verify_link-once}
use nest_nexus.Auth.TwoFactor.{backup_hash, verify}
use nest_nexus.Auth.TwoFactor.SingleUse.{IsNoTotp, verify-single_use}
use nest_nexus.Auth.JwtStrategy.{JwtState, validate}
use nest_nexus.Auth.JwtStrategy.Entries.{EndsBy}
use nest_nexus.Auth.JwtStrategy.Deactivated.{validates, here, next, Reach-rejected}

-- Ada with a second factor.
abbrev guarded : App
guarded = record sample {
  users =
      record ada {
        two_factor_secret = some "seed";
        is_two_factor_enabled = true;
        two_factor_backup_codes = "ada:ABCD" ∷ "ada:EFGH" ∷ [];
        magic_link_token_hash = some "link";
        magic_link_expires_at = some 100;
      }
      ∷ root
      ∷ [];
}

abbrev right_password : LoginInput
right_password = record { email = "ada"; password = "ada" }

abbrev pending : Session
pending = record {
  access_token = "ada";
  user = none;
  is_two_factor_pending = true;
  access_token_expires_at = 300001;
  refresh_token = "";
}

abbrev signed_in : App
signed_in = (login right_password none none fresh_token 1 guarded).1

signs_in : login right_password none none fresh_token 1 guarded ≡ (ok pending, signed_in)
unfolding login generate_pending_two_factor_token
signs_in = refl

login-IsProven_example : IsProven right_password none 1 guarded (pending, signed_in)
login-IsProven_example =
    login-IsProven list_prisma_laws map_cache_laws right_password none none fresh_token 1 guarded
      signed_in pending signs_in

-- Sign-ins with a wrong password at the times before a number.
abbrev tries : ℕ → List (String × ℕ)
tries zero = []
tries (suc n) = ("wrong", n) ∷ tries n

tries_fail : (n : ℕ) → n ≤ 10 → All (IsFailedTry "ada" none none fresh_token 0 guarded) (tries n)
tries_fail zero few = tt
tries_fail (suc n) few = (((omega arith, omega arith), inr refl), tries_fail n (omega arith))

attempts-locked_example :
    login
      (with_password "ada" none none fresh_token "ada")
      none
      none
      fresh_token
      20
      (attempts "ada" none none fresh_token (tries 10) guarded)
    ≡ (
      err (too_many_requests locked_message),
      attempts "ada" none none fresh_token (tries 10) guarded,
    )
attempts-locked_example =
    attempts-locked list_prisma_laws map_cache_laws "ada" none none fresh_token (tries 10) 0 20
      "ada" guarded refl (omega arith) (tries_fail 10 (omega arith)) (omega arith, omega arith)

abbrev ada_key : ApiKey
ada_key = record {
  id = "k1";
  user_id = "ada";
  key_hash = "raw key";
  scopes = [];
  revoked_at = none;
  last_used_at = none;
}

abbrev keyed : App
keyed = record sample { api_keys = ada_key ∷ [] }

abbrev without_key : App
without_key = (revoke_key "k1" "ada" 3 keyed).1

revokes : revoke_key "k1" "ada" 3 keyed ≡ (ok tt, without_key)
unfolding revoke_key
revokes = refl

revoke-validate_example :
    ((k : ApiKey) × Has k keyed.api_keys × (k.id ≡ "k1") × (k.user_id ≡ "ada"))
    × ((raw : String) (later_on : ℕ) (k : ApiKey)
        → key_of raw keyed ≡ some k
        → k.id ≡ "k1"
        → (validate_key raw later_on without_key).0
          ≡ err (unauthorized "Invalid or revoked API key."))
revoke-validate_example = revoke-validate list_prisma_laws "k1" "ada" 3 keyed without_key revokes

abbrev linked : App
linked = (verify_link "link" 5 guarded).1

links : verify_link "link" 5 guarded ≡ (ok "ada", linked)
unfolding verify_link
links = refl

verify_link-once_example : IsSpent ⦃prisma = list_prisma⦄ "link" 5 guarded linked "ada"
verify_link-once_example = verify_link-once list_prisma_laws "link" 5 guarded linked "ada" links

abbrev recovered : App
recovered = (verify "ada" "AB-CD" 5 guarded).1

recovers : verify "ada" "AB-CD" 5 guarded ≡ (ok true, recovered)
unfolding verify decrypt_totp_secret
recovers = refl

no_code :
    (user : User) → find (λ u. u.id == "ada") guarded.users ≡ some user → IsNoTotp user "AB-CD"
no_code user found stored secret time kept opened = refl

verify-single_use_example :
    ((user : User) × (find (λ u. u.id == "ada") guarded.users ≡ some user)
      × (includes user.two_factor_backup_codes (backup_hash "ada" "AB-CD") ≡ true))
    × (verify "ada" "AB-CD" 6 recovered ≡ (ok false, recovered))
verify-single_use_example =
    verify-single_use list_prisma_laws "ada" "AB-CD" 5 6 guarded recovered recovers no_code

-- Ada was let in at the time 10, and is deactivated before 50.
abbrev ada_payload : JwtPayload
ada_payload = record { sub = "ada"; email = "ada"; roles = []; scope = none }

abbrev removed : JwtState
removed = record {
  active_cache = ("ada", record { is_ok = true; roles = []; exp = 30010 }) ∷ [];
  app = record sample { users = record ada { is_active = false } ∷ [] };
}

ends : EndsBy "ada" 30050 removed.active_cache
ends key entry head same good = omega arith
ends key entry (later h) same good = elim h [ ]

abbrev checked : JwtState
checked = (validate ada_payload 60 removed).1

Reach-rejected_example :
    (validate ada_payload 30050 checked).0
    ≡ err (unauthorized "User account is inactive or not found.")
Reach-rejected_example =
    Reach-rejected list_prisma_laws ada_payload 50 30050 removed checked refl ends
      (next here (validates ada_payload 60)) (omega arith)

logout-IsRejected_example :
    ((t : RefreshToken)
      → Has t (logout "ada" sample).1.refresh_tokens
      → (t.user_id == "ada") ≡ false)
    × ((raw : String) (fresh : FreshToken) (now : ℕ)
        → genuine raw now ≡ some (payload_of "raw")
        → IsRejected
            (payload_of "raw")
            (rotate_refresh_token raw fresh now (logout "ada" sample).1))
logout-IsRejected_example = logout-IsRejected list_prisma_laws (payload_of "raw") sample
