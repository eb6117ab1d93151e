-- ===== src/Auth/TwoFactor/Tests.antt =====
-- Ada switches her second factor on.
use nest_nexus.Prelude.{ℕ, String, some, List, [], ◌∷◌, ◌==◌, string_eq}
use nest_nexus.Prisma.{list_prisma}
use nest_nexus.Schema.{App}
use nest_nexus.Samples.{ada, root, sample, sample_env, open_cipher}
use nest_nexus.Auth.TwoFactor.{Totp, enable}

-- An authenticator that shows its secret.
instance abbrev showing : Totp
showing = record {
  verify_totp = λ token secret now. token == secret;
  generate_uri = λ label secret. secret;
  to_data_url = λ url. url;
}

abbrev scanned : App
scanned = record sample { users = record ada { two_factor_secret = some "seed" } ∷ root ∷ [] }

abbrev hex : ℕ → String
hex i = "0123456789ABCDEF"

abbrev switched : App
switched = (enable "ada" "seed" hex 1 scanned).1

abbrev code : String
code = "0123-4567-89AB-CDEF"

abbrev codes : List String
codes = code ∷ code ∷ code ∷ code ∷ code ∷ code ∷ code ∷ code ∷ code ∷ code ∷ []
