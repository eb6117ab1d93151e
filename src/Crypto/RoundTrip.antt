-- ===== src/Crypto/RoundTrip.antt =====
-- src/common/crypto/totp-crypto.util.ts: encryption and then decryption.
use Prim.Native.String
use text.Mathlib.TextLemmas.{cons-append, nil-append}
use nest_nexus.Prelude.{
  ℕ, zero, suc, ◌+◌, arith, String, ◌≡◌, refl, ap, true, List, [], ◌∷◌, ◌++◌, take, drop, length,
}
use nest_nexus.Exec.{ok}
use nest_nexus.Crypto.{
  Cipher, CipherLaws, enc_prefix, has_prefix, slice_from, encrypt_totp_secret, decrypt_totp_secret,
}

module _ {A : Type 0} where
  take-append : (n : ℕ) (xs ys : List A) → length xs ≡ n → take n (xs ++ ys) ≡ xs
  take-append zero [] ys e = refl
  take-append zero (x ∷ xs) ys e = absurd (omega arith)
  take-append (suc n) [] ys e = absurd (omega arith)
  take-append (suc n) (x ∷ xs) ys e = ap (λ l. x ∷ l) (take-append n xs ys (omega arith))

  drop-append :
      (k n m : ℕ) (xs ys : List A) → k ≡ n + m → length xs ≡ n → drop k (xs ++ ys) ≡ drop m ys
  drop-append k n m [] ys e l = let same : k ≡ m = omega arith in rw same refl
  drop-append zero n m (x ∷ xs) ys e l = absurd (omega arith)
  drop-append (suc k) zero m (x ∷ xs) ys e l = absurd (omega arith)
  drop-append (suc k) (suc n) m (x ∷ xs) ys e l =
      drop-append k n m xs ys (omega arith) (omega arith)

has_prefix-append : (p s : String) → has_prefix p (String.◌++◌ p s) ≡ true
has_prefix-append String.[] s = refl
has_prefix-append (String.◌∷◌ c p) s = rw (cons-append c p s, has_prefix-append p s) (ground arith)

abbrev size : String → ℕ
size String.[] = 0
size (String.◌∷◌ c p) = suc (size p)

slice_from-append : (p s : String) → slice_from (size p) (String.◌++◌ p s) ≡ s
slice_from-append String.[] s = nil-append s
slice_from-append (String.◌∷◌ c p) s = rw (cons-append c p s) (slice_from-append p s)

module _ ⦃cipher : Cipher⦄ (laws : CipherLaws cipher) where
  -- A secret that was encrypted under a key, with a vector of twelve bytes, is decrypted under that
  -- key to the same secret.
  pub decrypt-encrypt :
      (secret key_hex : String) (iv : List cipher.Byte)
      → length iv ≡ 12
      → decrypt_totp_secret (encrypt_totp_secret secret key_hex iv) key_hex ≡ ok secret
  unfolding decrypt_totp_secret encrypt_totp_secret
  decrypt-encrypt secret key_hex iv twelve =
      let key = cipher.from_hex key_hex in
      let (tag, sealed) = cipher.seal key iv secret in
      let sixteen = laws.tag_length key iv secret in
      rw
        (
          has_prefix-append enc_prefix (cipher.to_base64 (iv ++ (tag ++ sealed))),
          slice_from-append enc_prefix (cipher.to_base64 (iv ++ (tag ++ sealed))),
          laws.base64_lem (iv ++ (tag ++ sealed)),
          take-append 12 iv (tag ++ sealed) twelve,
          drop-append 12 12 0 iv (tag ++ sealed) refl twelve,
          drop-append 28 12 16 iv (tag ++ sealed) refl twelve,
          take-append 16 tag sealed sixteen,
          drop-append 16 16 0 tag sealed refl sixteen,
          laws.open-seal key iv secret,
        )
        refl
