-- ===== src/Crypto/Tests.antt =====
-- A secret comes back from a cipher that hides nothing.
use Prim.Native.Char.{Char}
use nest_nexus.Prelude.{String, ◌≡◌, refl, ap, some, List, [], ◌∷◌}
use nest_nexus.Exec.{ok}
use nest_nexus.Crypto.{CipherLaws, encrypt_totp_secret, decrypt_totp_secret}
use nest_nexus.Samples.{characters, joined, open_cipher}
use nest_nexus.Crypto.RoundTrip.{decrypt-encrypt}

characters-joined : (cs : List Char) → characters (joined cs) ≡ cs
characters-joined [] = refl
characters-joined (c ∷ cs) = ap (λ rest. c ∷ rest) (characters-joined cs)

joined-characters : (s : String) → joined (characters s) ≡ s
joined-characters String.[] = refl
joined-characters (String.◌∷◌ c s) = ap (λ rest. String.◌∷◌ c rest) (joined-characters s)

open_cipher_laws : CipherLaws open_cipher
open_cipher_laws = record {
  base64_lem = characters-joined;
  tag_length = λ key iv text. refl;
  open-seal = λ key iv text. ap (λ s. some s) (joined-characters text);
}

decrypt-encrypt_example :
    decrypt_totp_secret (encrypt_totp_secret "secret" "00" (characters "twelve bytes")) "00"
    ≡ ok "secret"
decrypt-encrypt_example =
    decrypt-encrypt open_cipher_laws "secret" "00" (characters "twelve bytes") refl
