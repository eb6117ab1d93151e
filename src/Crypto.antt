-- ===== src/Crypto.antt =====
-- src/common/crypto/totp-crypto.util.ts: the secret of the second factor as it is stored. Buffers are
-- lists of bytes; the cipher and the encodings, which Node has, are a parameter.
pub mod RoundTrip
mod Tests
use Prim.Native.String
use Prim.Native.Char.{code}
use nest_nexus.Prelude.{
  ℕ, zero, suc, ◌+◌, String, ◌≡◌, Bool, true, false, ◌&&◌, Option, none, some, List, ◌++◌, ◌==◌,
  nat_eq, if◌then◌else◌, take, drop, length,
}
use nest_nexus.Exec.{other, Result, ok, err}

-- AES-256-GCM, which seals a text as an authentication tag and a ciphertext, hexadecimal and base64.
pub record Cipher : Type 1 where
  pub Byte : Type 0
  pub from_hex : String → List Byte
  pub to_base64 : List Byte → String
  pub from_base64 : String → List Byte
  pub seal : List Byte → List Byte → String → List Byte × List Byte
  pub open_sealed : List Byte → List Byte → List Byte → List Byte → Option String

pub record CipherLaws (c : Cipher) : Type 0 where
  pub base64_lem : (bytes : List c.Byte) → c.from_base64 (c.to_base64 bytes) ≡ bytes
  pub tag_length : (key iv : List c.Byte) (text : String) → length (c.seal key iv text).0 ≡ 16
  pub open-seal :
      (key iv : List c.Byte) (text : String)
      → c.open_sealed key iv (c.seal key iv text).0 (c.seal key iv text).1 ≡ some text

abbrev pub iv_bytes : ℕ
iv_bytes = 12

abbrev pub tag_bytes : ℕ
tag_bytes = 16

abbrev pub enc_prefix : String
enc_prefix = "enc:"

-- `startsWith`, and `slice` from a position.
abbrev pub has_prefix : String → String → Bool
has_prefix String.[] s = true
has_prefix (String.◌∷◌ c p) String.[] = false
has_prefix (String.◌∷◌ c p) (String.◌∷◌ d s) = code c == code d && has_prefix p s

abbrev pub slice_from : ℕ → String → String
slice_from zero s = s
slice_from (suc n) String.[] = String.[]
slice_from (suc n) (String.◌∷◌ c s) = slice_from n s

module _ ⦃cipher : Cipher⦄ where
  -- The initialisation vector is twelve random bytes.
  unfoldable pub encrypt_totp_secret : String → String → List cipher.Byte → String
  encrypt_totp_secret secret key_hex iv =
      let (tag, ciphertext) = cipher.seal (cipher.from_hex key_hex) iv secret in
      String.◌++◌ enc_prefix (cipher.to_base64 (iv ++ (tag ++ ciphertext)))

  abbrev authentic : Option String → Result String
  authentic none = err (other "Unsupported state or unable to authenticate data")
  authentic (some text) = ok text

  -- A value without the prefix is a legacy plain text.
  unfoldable pub decrypt_totp_secret : String → String → Result String
  decrypt_totp_secret stored key_hex =
      if has_prefix enc_prefix stored
      then (let buf = cipher.from_base64 (slice_from 4 stored) in
          authentic (
            cipher.open_sealed (cipher.from_hex key_hex) (take iv_bytes buf)
              (take tag_bytes (drop iv_bytes buf)) (drop (iv_bytes + tag_bytes) buf)))
      else ok stored
