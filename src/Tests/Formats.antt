-- ===== src/Tests/Formats.antt =====
-- The formats of DWhoCryptoHelper at concrete inputs, over ciphers that hide nothing.
use dwho.Base.{
  ℕ, ◌+◌, ◌-◌, List, [], ◌∷◌, map, ◌≡◌, refl, arith, ap, ok, raise, value_error, some, All, foreign,
  inl,
}
use dwho.Base.Value.{str, bytes}
use dwho.Base.Text.{codes}
use dwho.Crypto
use dwho.Crypto.Formats
use dwho.Crypto.Formats.{
  Ciphers, Global, set_class, find_class, legacy_bytes, to_bytes, auth_prefix,
}
use dwho.Crypto.RoundTrip.{IsLawful, IsLetter, legacy, eax, encrypt_as, decrypt_as, decrypt-encrypt}

abbrev ciphers : Ciphers
ciphers = record {
  encode = codes;
  b64encode = map (λ c. c + 47);
  b64decode = λ b. some (map (λ c. c - 47) b);
  cbc_encrypt = λ key iv body. body;
  cbc_decrypt = λ key iv body. body;
  eax_encrypt = λ key nonce header body.
      (body, 0 ∷ 1 ∷ 2 ∷ 3 ∷ 4 ∷ 5 ∷ 6 ∷ 7 ∷ 8 ∷ 9 ∷ 10 ∷ 11 ∷ 12 ∷ 13 ∷ 14 ∷ 15 ∷ []);
  eax_verify = λ key nonce header ciphertext tag. ok ciphertext;
}

map_back : (b : List ℕ) → map (λ c. c - 47) (map (λ c. c + 47) b) ≡ b
map_back [] = refl
map_back (c ∷ b) = ground (arith, map_back b)

map-IsLetter : (b : List ℕ) → All IsLetter (map (λ c. c + 47) b)
map-IsLetter [] = tt
map-IsLetter (c ∷ b) = ((ground arith, ground arith), map-IsLetter b)

lawful : IsLawful ciphers
lawful = record {
  decode_encode = λ b. ap some (map_back b);
  letters = map-IsLetter;
  cbc_length = λ key iv body h. refl;
  cbc_inverse = λ key iv body k i h. refl;
  tag_length = λ key nonce header body. refl;
  eax_inverse = λ key nonce header body k. refl;
}

runs : Unit {0}
unfolding Crypto.take Crypto.drop Crypto.replicate Crypto.last Crypto.pad Crypto.unpad
    Crypto.normalize_key to_bytes Formats.encrypt Formats.open_blocks Formats.decrypt
    Formats.authenticated_key Formats.encrypt_authenticated Formats.open_payload
    Formats.open_encoded Formats.decrypt_authenticated find_class legacy_bytes
runs = tt

abbrev random : List ℕ
random = 15 ∷ 14 ∷ 13 ∷ 12 ∷ 11 ∷ 10 ∷ 9 ∷ 8 ∷ 7 ∷ 6 ∷ 5 ∷ 4 ∷ 3 ∷ 2 ∷ 1 ∷ 0 ∷ []

decrypt-encrypt_example :
    (sealed : List ℕ) × (encrypt_as ciphers eax random (str "sixteen letters!") (str "hello")
      ≡ ok sealed)
    × (decrypt_as ciphers eax (str "sixteen letters!") (bytes sealed) ≡ ok (codes "hello"))
unfolding to_bytes
decrypt-encrypt_example =
    decrypt-encrypt ciphers lawful eax random (str "sixteen letters!") (str "hello") refl refl refl
      (inl refl)

legacy_run :
    decrypt_as ciphers legacy (str "sixteen letters!") (str "no blocks") ≡ raise value_error
unfolding runs
legacy_run = refl

-- A prefix that is missing, and a payload without a tag.
no_prefix : decrypt_as ciphers eax (str "sixteen letters!") (str "hello") ≡ raise value_error
unfolding runs
no_prefix = refl

no_tag :
    decrypt_as ciphers eax (str "sixteen letters!") (str "dwho-eax-v1:hello") ≡ raise value_error
unfolding runs
no_tag = refl

custom_class : find_class "os" "system" ≡ raise (foreign 10)
unfolding runs
custom_class = refl

set_found : find_class "builtins" "set" ≡ ok set_class
unfolding runs
set_found = refl
