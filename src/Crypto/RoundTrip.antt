-- ===== src/Crypto/RoundTrip.antt =====
-- dwho/helpers/crypto.py: encryption and decryption together, in both formats, with what is
-- documented of base64 and of the ciphers as hypotheses.
use mathlib.Core.List.{append_assoc}
use dwho.Base.{
  ℕ, ◌+◌, ◌-◌, ◌%◌, ◌≤◌, ◌==◌, ◌||◌, ltb, true, false, List, [], ◌∷◌, ◌++◌, some, Result, ok, raise,
  length, length-append, All, if◌then◌else◌, ◌≡◌, refl, arith, ap, sym, ◌∙◌, ◌⊎◌, inl, inr,
  Bool-cases, >>=-eq-ok, ok-injective, subst, value_error,
}
use dwho.Base.Value.{Value, bytes}
use dwho.Crypto.{replicate, take, drop, block_size, pad, normalize_key}
use dwho.Crypto.Padding.{
  length-replicate, take-append, drop-append, same_bytes_refl, unpad-pad, length-pad,
  normalize_key-take,
}
use dwho.Crypto.Formats.{
  Ciphers, auth_prefix, replace, to_bytes, seal, encrypt, open_blocks, decrypt, authenticated_key,
  encrypt_authenticated, open_payload, open_encoded, decrypt_authenticated,
}

-- The letters of base64, with its padding.
abbrev pub IsLetter : ℕ → Type 0
IsLetter c = ((c == b' ') ≡ false) × ((c == b'.') ≡ false)

abbrev pub IsKeyLength : ℕ → Type 0
IsKeyLength n = (n ≡ 16) ⊎ ((n ≡ 24) ⊎ (n ≡ 32))

pub data Format : Type 0 where
  legacy eax : Format

-- The numbers of bytes of a secret that the format takes.
abbrev pub Takes : Format → ℕ → Type 0
Takes legacy n = 16 ≤ n
Takes eax n = IsKeyLength n

abbrev pub encrypt_as : Ciphers → Format → List ℕ → Value → Value → Result (List ℕ)
encrypt_as ciphers legacy = encrypt ciphers
encrypt_as ciphers eax = encrypt_authenticated ciphers

abbrev pub decrypt_as : Ciphers → Format → Value → Value → Result (List ℕ)
decrypt_as ciphers legacy = decrypt ciphers
decrypt_as ciphers eax = decrypt_authenticated ciphers

-- What is documented of base64 and AES.
pub record IsLawful (ciphers : Ciphers) : Type 0 where
  pub decode_encode : (b : List ℕ) → ciphers.b64decode (ciphers.b64encode b) ≡ some b
  pub letters : (b : List ℕ) → All IsLetter (ciphers.b64encode b)
  pub cbc_length :
      (key iv body : List ℕ)
      → length body % 16 ≡ 0
      → length (ciphers.cbc_encrypt key iv body) ≡ length body
  pub cbc_inverse :
      (key iv body : List ℕ)
      → IsKeyLength (length key)
      → length iv ≡ 16
      → length body % 16 ≡ 0
      → ciphers.cbc_decrypt key iv (ciphers.cbc_encrypt key iv body) ≡ body
  pub tag_length :
      (key nonce header body : List ℕ) → length (ciphers.eax_encrypt key nonce header body).1 ≡ 16
  pub eax_inverse :
      (key nonce header body : List ℕ)
      → IsKeyLength (length key)
      → ciphers.eax_verify key nonce header
          (ciphers.eax_encrypt key nonce header body).0
          (ciphers.eax_encrypt key nonce header body).1
        ≡ ok body

replace_back :
    (cs : List ℕ)
    → All IsLetter cs
    → replace b'.' b'/' (replace b' ' b'+' (replace b'/' b'.' cs)) ≡ cs
replace_back [] h = refl
replace_back (c ∷ cs) h = ground (arith, replace_back cs h.1)

take-prefix : (n : ℕ) (xs ys : List ℕ) → length xs ≡ n → take n (xs ++ ys) ≡ xs
take-prefix n xs ys h = ap (λ m. take m (xs ++ ys)) (sym h) ∙ take-append xs ys

drop-prefix : (n : ℕ) (xs ys : List ℕ) → length xs ≡ n → drop n (xs ++ ys) ≡ ys
drop-prefix n xs ys h = ap (λ m. drop m (xs ++ ys)) (sym h) ∙ drop-append xs ys

test-IsKeyLength : (n : ℕ) → (n == 16 || n == 24 || n == 32) ≡ true → IsKeyLength n
test-IsKeyLength n h = ground arith

checked-IsKeyLength :
    (given : List ℕ) {key : List ℕ}
    → (if length given == 16 || length given == 24 || length given == 32
        then ok given
        else raise value_error)
      ≡ ok key
    → IsKeyLength (length key)
checked-IsKeyLength given h =
    elim (Bool-cases (length given == 16 || length given == 24 || length given == 32)) [
      | inl fits ↦
          subst (λ k. IsKeyLength (length k)) (ok-injective (rw fits at h))
            (test-IsKeyLength _ fits)
      | inr not_so ↦ absurd (cc (rw not_so at h))
    ]

-- A normalized key has a length that AES takes.
normalize_key-IsKeyLength :
    (secret : List ℕ) {key : List ℕ} → normalize_key secret ≡ ok key → IsKeyLength (length key)
unfolding normalize_key
normalize_key-IsKeyLength secret h =
    let size = if ltb 32 (length secret) then 32 else if ltb 24 (length secret) then 24 else 16 in
    checked-IsKeyLength (take size secret) h

-- A padded body has a block.
pad-ge : (body : List ℕ) → 16 ≤ length (pad block_size body)
unfolding pad
pad-ge body =
    let count = 16 - length body % 16 in
    omega (arith, length-append body (replicate count count), length-replicate count count)

module _ (ciphers : Ciphers) where
  authenticated_key-IsKeyLength :
      (secret : Value) {key : List ℕ}
      → authenticated_key ciphers secret ≡ ok key
      → IsKeyLength (length key)
  unfolding authenticated_key
  authenticated_key-IsKeyLength secret h =
      let (given, _, h') = >>=-eq-ok (to_bytes ciphers secret) _ h in checked-IsKeyLength given h'

  authenticated_key-ok :
      (secret : Value) {given : List ℕ}
      → to_bytes ciphers secret ≡ ok given
      → IsKeyLength (length given)
      → authenticated_key ciphers secret ≡ ok given
  unfolding authenticated_key
  authenticated_key-ok secret {given} e (inl h) = rw (e, h) refl
  authenticated_key-ok secret {given} e (inr (inl h)) = rw (e, h) refl
  authenticated_key-ok secret {given} e (inr (inr h)) = rw (e, h) refl

  module _ (lawful : IsLawful ciphers) where
    open_blocks-seal :
        (iv given key body : List ℕ) (secret : Value)
        → length iv ≡ 16
        → to_bytes ciphers secret ≡ ok given
        → normalize_key given ≡ ok key
        → open_blocks ciphers secret (iv ++ ciphers.cbc_encrypt key iv (pad block_size body))
          ≡ ok body
    unfolding open_blocks
    open_blocks-seal iv given key body secret len e h =
        let padded = pad block_size body in
        let sealed = ciphers.cbc_encrypt key iv padded in
        let whole = length-pad body in
        let size : length (iv ++ sealed) ≡ 16 + length padded =
          omega (arith, length-append iv sealed, len, lawful.cbc_length key iv padded whole) in
        let some_block = pad-ge body in
        let long : ltb (length (iv ++ sealed)) 32 ≡ false = ground (arith, size, some_block) in
        let blocks : length (iv ++ sealed) % 16 == 0 ≡ true = ground (arith, size, whole) in
        rw
          (
            long,
            blocks,
            e,
            h,
            take-prefix 16 iv sealed len,
            drop-prefix 16 iv sealed len,
            lawful.cbc_inverse key iv padded (normalize_key-IsKeyLength given h) len whole,
          )
          ((unpad-pad body).0)

    open_payload-eax :
        (nonce key body : List ℕ) (secret : Value)
        → length nonce ≡ 16
        → authenticated_key ciphers secret ≡ ok key
        → let sealed = ciphers.eax_encrypt key nonce auth_prefix body in
          let payload = nonce ++ (sealed.1 ++ sealed.0) in
          open_payload ciphers secret (ciphers.b64encode payload) payload ≡ ok body
    unfolding open_payload
    open_payload-eax nonce key body secret len h =
        let sealed = ciphers.eax_encrypt key nonce auth_prefix body in
        let payload = nonce ++ (sealed.1 ++ sealed.0) in
        let tagged : length sealed.1 ≡ 16 = lawful.tag_length key nonce auth_prefix body in
        let behind : drop 32 payload ≡ sealed.0 =
          ap (drop 32) (sym (append_assoc nonce sealed.1 sealed.0))
          ∙ drop-prefix 32 (nonce ++ sealed.1) sealed.0
              (omega (arith, length-append nonce sealed.1, len, tagged)) in
        let long : ltb (length payload) 32 ≡ false = ground (
          arith,
          length-append nonce (sealed.1 ++ sealed.0),
          length-append sealed.1 sealed.0,
          len,
          tagged,
        ) in
        rw
          (
            same_bytes_refl (ciphers.b64encode payload),
            long,
            h,
            take-prefix 16 nonce (sealed.1 ++ sealed.0) len,
            drop-prefix 16 nonce (sealed.1 ++ sealed.0) len,
            take-prefix 16 sealed.1 sealed.0 tagged,
            behind,
          )
          (lawful.eax_inverse key nonce auth_prefix body (authenticated_key-IsKeyLength secret h))

    decrypt-encrypt_legacy :
        (random : List ℕ) (secret text : Value) {given body : List ℕ}
        → length random ≡ 16
        → to_bytes ciphers secret ≡ ok given
        → to_bytes ciphers text ≡ ok body
        → 16 ≤ length given
        → (sealed : List ℕ) × (encrypt ciphers random secret text ≡ ok sealed)
          × (decrypt ciphers secret (bytes sealed) ≡ ok body)
    unfolding encrypt decrypt
    decrypt-encrypt_legacy random secret text {given} {body} len key_bytes text_bytes enough =
        let (n, normal, _, _) = normalize_key-take given enough in
        let key = take n given in
        let whole = random ++ ciphers.cbc_encrypt key random (pad block_size body) in
        (
          seal ciphers random key body,
          rw (key_bytes, normal, text_bytes) refl,
          unfold to_bytes in
              rw
                (
                  replace_back (ciphers.b64encode whole) (lawful.letters whole),
                  lawful.decode_encode whole,
                )
                (open_blocks-seal random given key body secret len key_bytes normal),
        )

    decrypt-encrypt_authenticated :
        (random : List ℕ) (secret text : Value) {given body : List ℕ}
        → length random ≡ 16
        → to_bytes ciphers secret ≡ ok given
        → to_bytes ciphers text ≡ ok body
        → IsKeyLength (length given)
        → (sealed : List ℕ) × (encrypt_authenticated ciphers random secret text ≡ ok sealed)
          × (decrypt_authenticated ciphers secret (bytes sealed) ≡ ok body)
    unfolding encrypt_authenticated decrypt_authenticated open_encoded
    decrypt-encrypt_authenticated random secret text {given} {body} len key_bytes text_bytes fits =
        let key : authenticated_key ciphers secret ≡ ok given =
          authenticated_key-ok secret key_bytes fits in
        let sealed = ciphers.eax_encrypt given random auth_prefix body in
        let payload = random ++ (sealed.1 ++ sealed.0) in
        let encoded = ciphers.b64encode payload in
        (
          auth_prefix ++ encoded,
          rw (key, text_bytes) refl,
          unfold to_bytes drop in
              rw (lawful.decode_encode payload) (open_payload-eax random given body secret len key),
        )

    -- Both formats, each under a secret whose number of bytes it takes: what is encrypted with random
    -- bytes of a block is returned, and decrypted under the same secret it gives back the bytes of
    -- the text.
    pub decrypt-encrypt :
        (format : Format) (random : List ℕ) (secret text : Value) {given body : List ℕ}
        → length random ≡ 16
        → to_bytes ciphers secret ≡ ok given
        → to_bytes ciphers text ≡ ok body
        → Takes format (length given)
        → (sealed : List ℕ) × (encrypt_as ciphers format random secret text ≡ ok sealed)
          × (decrypt_as ciphers format secret (bytes sealed) ≡ ok body)
    decrypt-encrypt legacy = decrypt-encrypt_legacy
    decrypt-encrypt eax = decrypt-encrypt_authenticated
