-- ===== src/Auth/Webauthn/Tests.antt =====
-- Ada signs in with a passkey that answers a challenge by repeating it.
use nest_nexus.Prelude.{ℕ, String, ◌≡◌, refl, some, [], ◌∷◌, ◌==◌, string_eq, if◌then◌else◌, none}
use nest_nexus.Exec.{ok, err, unauthorized}
use nest_nexus.Prisma.{list_prisma}
use nest_nexus.Schema.{WebauthnCredential, challenge, App}
use nest_nexus.Cache.{map_cache, map_cache_laws}
use nest_nexus.Samples.{sample, sample_env}
use nest_nexus.Auth.Webauthn.{Ceremony, login_key, login_verify}
use nest_nexus.Auth.Webauthn.Once.{HasAnswered, login_verify-once}

instance abbrev repeating : Ceremony
repeating = record {
  verify_registration = λ response expected origin rp_id. ok none;
  verify_authentication =
      λ response expected origin rp_id key. ok (if response == expected then some 2 else none);
}

abbrev ada_key : WebauthnCredential
ada_key = record {
  id = "k1";
  user_id = "ada";
  credential_id = "key";
  public_key = "public";
  counter = 1;
  transports = [];
}

-- The challenge for Ada was drawn.
abbrev challenged : App
challenged = record sample {
  webauthn_credentials = ada_key ∷ [];
  cache = λ key. if key == login_key "ada" then some (challenge "nonce", 300000) else none;
}

abbrev let_in : App
let_in = (login_verify "ada" "nonce" 5 challenged).1

lets_in : login_verify "ada" "nonce" 5 challenged ≡ (ok "ada", let_in)
unfolding login_verify
lets_in = refl

login_verify-once_example :
    HasAnswered "ada" "nonce" 5 challenged "ada"
    × ((response : String) (later_on : ℕ)
        → login_verify "ada" response later_on let_in
          ≡ (err (unauthorized "Login challenge expired or not found."), let_in))
login_verify-once_example =
    login_verify-once map_cache_laws "ada" "nonce" 5 challenged let_in "ada" lets_in
