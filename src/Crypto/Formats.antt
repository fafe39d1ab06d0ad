-- ===== src/Crypto/Formats.antt =====
-- dwho/helpers/crypto.py: the legacy and the authenticated format of DWhoCryptoHelper. The ciphers,
-- base64, JSON, pickle and the UTF-8 of a text are parameters; random bytes are arguments.
use dwho.Base.{
  ℕ, ◌*◌, ◌%◌, ◌||◌, ◌==◌, ◌&&◌, not, Bool, String, Option, none, some, List, [], ◌∷◌, ◌++◌,
  if◌then◌else◌, Result, ok, raise, value_error, type_error, foreign, ◌>>=◌, ltb, length, str_eq,
  all,
}
use dwho.Base.Value.{Value, str, bytes}
use dwho.Base.Text.{codes, prefix_of}
use dwho.Crypto.{take, drop, same_bytes, block_size, pad, unpad, normalize_key}

pub record Ciphers : Type 0 where
  -- s.encode('utf-8')
  pub encode : String → List ℕ
  pub b64encode : List ℕ → List ℕ
  -- None is a TypeError or a binascii.Error.
  pub b64decode : List ℕ → Option (List ℕ)
  -- AES.new(key, AES.MODE_CBC, iv), of one message
  pub cbc_encrypt : List ℕ → List ℕ → List ℕ → List ℕ
  pub cbc_decrypt : List ℕ → List ℕ → List ℕ → List ℕ
  -- AES.new(key, AES.MODE_EAX, nonce, mac_len = 16) after the header: the ciphertext and the tag of a
  -- message, and what a ciphertext with a tag stands for.
  pub eax_encrypt : List ℕ → List ℕ → List ℕ → List ℕ → List ℕ × List ℕ
  pub eax_verify : List ℕ → List ℕ → List ℕ → List ℕ → List ℕ → Result (List ℕ)

-- AUTH_PREFIX
abbrev pub auth_prefix : List ℕ
auth_prefix = codes "dwho-eax-v1:"

-- data.replace(bytes([old]), bytes([new]))
abbrev pub replace : ℕ → ℕ → List ℕ → List ℕ
replace old new [] = []
replace old new (c ∷ cs) = (if c == old then new else c) ∷ replace old new cs

-- `_legacy_bytes`, whose text is one of code points
unfoldable pub legacy_bytes : String → String → Result (List ℕ)
legacy_bytes value encoding =
    if not (str_eq encoding "latin1")
    then raise (foreign 10)
    else if all (λ c. ltb c 256) (codes value)
    then ok (codes value)
    else raise value_error

pub data Global : Type 0 where
  set_class frozenset_class complex_class legacy_bytes_function : Global

-- `_DataUnpickler.find_class`
unfoldable pub find_class : String → String → Result Global
find_class mod_name name =
    let builtin = str_eq mod_name "__builtin__" || str_eq mod_name "builtins" in
    if builtin && str_eq name "set"
    then ok set_class
    else if builtin && str_eq name "frozenset"
    then ok frozenset_class
    else if builtin && str_eq name "complex"
    then ok complex_class
    else if str_eq mod_name "_codecs" && str_eq name "encode"
    then ok legacy_bytes_function
    else raise (foreign 10)

module _ (ciphers : Ciphers) where
  -- `_bytes`
  unfoldable pub to_bytes : Value → Result (List ℕ)
  to_bytes (str s) = ok (ciphers.encode s)
  to_bytes (bytes b) = ok b
  to_bytes _ = raise type_error

  -- base64.b64encode(iv + cipher.encrypt(...)).replace(b'/', b'.')
  abbrev pub seal : List ℕ → List ℕ → List ℕ → List ℕ
  seal iv key body =
      replace b'/' b'.' (ciphers.b64encode (iv ++ ciphers.cbc_encrypt key iv (pad block_size body)))

  -- `encrypt`, of the random bytes that it draws
  unfoldable pub encrypt : List ℕ → Value → Value → Result (List ℕ)
  encrypt iv secret text = do
    given ← to_bytes secret
    key ← normalize_key given
    body ← to_bytes text
    ok (seal iv key body)

  abbrev decoded : Option (List ℕ) → Result (List ℕ)
  decoded none = raise value_error
  decoded (some b) = ok b

  -- `decrypt` behind the base64: of the key and the message
  unfoldable pub open_blocks : Value → List ℕ → Result (List ℕ)
  open_blocks secret body =
      if ltb (length body) (2 * block_size) || not (length body % block_size == 0)
      then raise value_error
      else do
        given ← to_bytes secret
        key ← normalize_key given
        unpad (ciphers.cbc_decrypt key (take block_size body) (drop block_size body))

  -- `decrypt`
  unfoldable pub decrypt : Value → Value → Result (List ℕ)
  decrypt secret text = do
    given ← to_bytes text
    body ← decoded (ciphers.b64decode (replace b'.' b'/' (replace b' ' b'+' given)))
    open_blocks secret body

  -- `_authenticated_key`
  unfoldable pub authenticated_key : Value → Result (List ℕ)
  authenticated_key secret = do
    key ← to_bytes secret
    if length key == 16 || length key == 24 || length key == 32 then ok key else raise value_error

  abbrev pub authenticated : List ℕ → List ℕ × List ℕ → List ℕ
  authenticated nonce (ciphertext, tag) =
      auth_prefix ++ ciphers.b64encode (nonce ++ (tag ++ ciphertext))

  -- `encrypt_authenticated`, of the random bytes that it draws
  unfoldable pub encrypt_authenticated : List ℕ → Value → Value → Result (List ℕ)
  encrypt_authenticated nonce secret text = do
    key ← authenticated_key secret
    body ← to_bytes text
    ok (authenticated nonce (ciphers.eax_encrypt key nonce auth_prefix body))

  -- `decrypt_authenticated` behind the base64: of the payload and its encoding
  unfoldable pub open_payload : Value → List ℕ → List ℕ → Result (List ℕ)
  open_payload secret encoded payload =
      if not (same_bytes (ciphers.b64encode payload) encoded) || ltb (length payload) 32
      then raise value_error
      else do
        key ← authenticated_key secret
        ciphers.eax_verify key (take 16 payload) auth_prefix (drop 32 payload)
            (take 16 (drop 16 payload))

  -- The base64 behind the prefix.
  unfoldable pub open_encoded : Value → List ℕ → Result (List ℕ)
  open_encoded secret encoded = do
    payload ← decoded (ciphers.b64decode encoded)
    open_payload secret encoded payload

  -- `decrypt_authenticated`
  unfoldable pub decrypt_authenticated : Value → Value → Result (List ℕ)
  decrypt_authenticated secret text = do
    given ← to_bytes text
    if prefix_of auth_prefix given
        then open_encoded secret (drop (length auth_prefix) given)
        else raise value_error

  module _ (dumps : Value → Result String) (loads : List ℕ → Result Value) where
    -- `serialize_authenticated`, with json.dumps(data, allow_nan = False)
    unfoldable pub serialize_authenticated : List ℕ → Value → Value → Result (List ℕ)
    serialize_authenticated nonce secret v = do
      text ← dumps v
      encrypt_authenticated nonce secret (str text)

    -- `unserialize_authenticated`, with json.loads(data.decode('utf-8'))
    unfoldable pub unserialize_authenticated : Value → Value → Result Value
    unserialize_authenticated secret text = do body ← decrypt_authenticated secret text; loads body

  module _ (pickle : Value → Result (List ℕ)) (unpickle data_unpickle : List ℕ → Result Value) where
    -- `serialize`, with pickle.dumps(data, protocol = 2)
    unfoldable pub serialize : List ℕ → Value → Value → Result (List ℕ)
    serialize iv secret v = do body ← pickle v; encrypt iv secret (bytes body)

    -- `unserialize`, with pickle.loads and the data unpickler
    unfoldable pub unserialize : Bool → Value → Value → Result Value
    unserialize trusted secret text = do
      body ← decrypt secret text
      if trusted then unpickle body else data_unpickle body
