-- ===== src/Sessions/Manager.antt =====
-- dwho/sessions/__init__.py: `SessionManager` over any backend. JSON, SHA-256, Base64 and the
-- operating system's randomness are parameters (`Libraries`).
pub mod Renewal
pub mod Reading
pub mod Creation
pub mod RoundTrip
use dwho.Base.{
  ℕ, zero, suc, ◌+◌, ◌-◌, ◌*◌, ◌/◌, min, String, ◌&◌, Bool, true, false, not, ◌&&◌, ◌||◌, Option,
  none, some, List, [], ◌∷◌, leb, ltb, ◌==◌, length, all, if◌then◌else◌, Exc, Result, ok, raise,
  value_error, type_error, guard, ◌>>=◌ as and_then, runtime_error, overflow_error, foreign, str_eq,
  ◌^◌, ◌≡◌, refl,
}
use dwho.Base.Value.{
  Value, Fields, ℤ, pos, negsuc, Float, finite, nan, inf, null, bool, int, float, str, dict, list,
  field, end, get_field, count_fields,
}
use dwho.Base.Text.{codes, is_alpha, is_word, utf8_length}
use dwho.Base.Exec.{Exec, pure, fail, lift, ◌>>=◌, ◌>>◌, continue}
use dwho.Sessions.Ttl.{check_ttl}
use dwho.Sessions.Clock.{Clock, now, tick, second}
use dwho.Sessions.Backend.{SessionBackend, Raw, text, encoded}

-- MAX_DATA_BYTES
abbrev pub max_data_bytes : ℕ
max_data_bytes = 4096

-- [A-Za-z0-9_-]
abbrev pub is_token_char : ℕ → Bool
is_token_char c = is_word c || c == b'-'

-- TOKEN_PATTERN
unfoldable pub token_pattern : String → Bool
token_pattern s = all is_token_char (codes s) && length (codes s) == 43

-- NAMESPACE_PATTERN
unfoldable pub namespace_pattern : String → Bool
namespace_pattern s =
    all is_token_char (codes s) && (leb 1 (length (codes s)) && leb (length (codes s)) 64)

pub record Session : Type 0 where
  pub subject : Value
  pub contents : Value
  pub created_at : Value
  pub absolute_expires_at : Value

pub record SessionGrant : Type 0 where
  pub token : String
  pub session : Session
  pub expires_at : ℕ

pub record Manager : Type 0 where
  pub prefix : String
  pub idle_ttl : ℕ
  pub absolute_ttl : ℕ

-- What the manager calls of code outside the library. `token` is the text that
-- `base64.urlsafe_b64encode(...)` gives, without its padding, for the n-th draw of `os.urandom(32)`.
pub record Libraries : Type 0 where
  pub dumps : Value → Result String
  pub loads : String → Result Value
  pub decode : List ℕ → Result String
  pub sha256 : String → String
  pub token : ℕ → String

checked_init : String → Result ℕ → Result ℕ → Result Manager
checked_init namespace (ok i) (ok a) =
    if leb i a
    then ok (record { prefix = namespace & ":session:"; idle_ttl = i; absolute_ttl = a })
    else raise value_error
checked_init namespace (ok i) (raise e) = raise e
checked_init namespace (raise e) absolute = raise e

-- __init__
unfoldable pub init : Value → Value → Value → Result Manager
unfolding checked_init
init (str namespace) idle absolute =
    if namespace_pattern namespace
    then checked_init namespace (check_ttl idle) (check_ttl absolute)
    else raise value_error
init _ idle absolute = raise value_error

-- isinstance(subject, string_types) and 1 <= len(subject) <= 256
unfoldable pub is_subject : Value → Bool
is_subject (str s) = leb 1 (length (codes s)) && leb (length (codes s)) 256
is_subject _ = false

-- isinstance(data, dict)
abbrev pub is_dict : Value → Bool
is_dict (dict _) = true
is_dict _ = false

-- float(n) raises beyond the largest double, which rounding reaches at this bound.
abbrev pub float_bound : ℕ
float_bound = 2 ^ 1024 - 2 ^ 970

abbrev pub scaled : ℤ → Result ℤ
scaled (pos n) = if ltb n float_bound then ok (pos (n * second)) else raise overflow_error
scaled (negsuc n) =
    if ltb (n + 1) float_bound
    then ok (negsuc (n * second + (second - 1)))
    else raise overflow_error

-- The tests of `read` on `absolute_expires_at`, and the time that it stands for.
unfoldable pub expiry : Value → Result ℤ
expiry (bool true) = ok (pos second)
expiry (bool false) = ok (pos 0)
expiry (int z) = scaled z
expiry (float (finite z)) = ok z
expiry _ = raise value_error

-- expires <= clock()
abbrev pub reached : ℤ → ℕ → Bool
reached (pos e) t = leb e t
reached (negsuc e) t = true

-- int(expires - now), where that is positive; 0 stands for the rest.
abbrev pub whole_seconds : ℤ → ℕ → ℕ
whole_seconds (pos e) t = (e - t) / second
whole_seconds (negsuc e) t = 0

-- Session(**record): exactly the four names, or `TypeError`.
session_of_fields :
    Option Value → Option Value → Option Value → Option Value → Bool → Result Session
session_of_fields (some s) (some d) (some c) (some e) true =
    ok (record { subject = s; contents = d; created_at = c; absolute_expires_at = e })
session_of_fields _ _ _ _ _ = raise type_error

unfoldable pub session_of : Value → Result Session
unfolding session_of_fields
session_of (dict d) =
    session_of_fields (get_field "subject" d) (get_field "data" d) (get_field "created_at" d)
      (get_field "absolute_expires_at" d) (count_fields d == 4)
session_of _ = raise type_error

-- The record that `create` writes, its times as floats.
abbrev pub record_of : Value → Fields → ℕ → ℕ → Value
record_of subject data_fields created absolute = dict (
    field "subject" subject (
      field "data" (dict data_fields) (
        field "created_at" (float (finite (pos created)))
          (field "absolute_expires_at" (float (finite (pos absolute))) end))))

-- The rest of the validation in `read`: the subject, the data, and then the expiry.
unfoldable pub valid_expiry : Session → Result ℤ
valid_expiry s =
    if is_subject s.subject && is_dict s.contents
    then expiry s.absolute_expires_at
    else raise value_error

-- The backend's state, the manager's clock, and how often `os.urandom` was called.
pub record World (S : Type 0) : Type 0 where
  pub store : S
  pub clock : Clock
  pub drawn : ℕ

module _ (lib : Libraries) {S : Type 0} (backend : SessionBackend S) (m : Manager) where
  abbrev pub read_clock : Exec (World S) ℕ
  read_clock w = (ok (now w.clock), record w { clock = tick w.clock })

  abbrev pub new_token : Exec (World S) String
  new_token w = (ok (lib.token w.drawn), record w { drawn = w.drawn + 1 })

  -- A call of the backend.
  abbrev pub run {ℓ} : {A : Type ℓ} → (S → Result A × S) → World S → Result A × World S
  run f w = let (r, s) = f w.store in (r, record w { store = s })

  -- `_key`
  unfoldable pub key_of : Value → Option String
  key_of (str token) = if token_pattern token then some (m.prefix & lib.sha256 token) else none
  key_of _ = none

  -- backend.create(self._key(token), value, self.idle_ttl); a token of 32 random bytes has a key.
  unfoldable pub try_create : String → String → Exec (World S) Bool
  try_create token value = elim (key_of (str token)) [
    | some key ↦ run (backend.create key value (int (pos m.idle_ttl)))
    | none ↦ fail type_error
  ]

  -- for _ in range(3): ...
  unfoldable pub allocate : ℕ → String → Session → ℕ → Exec (World S) SessionGrant
  allocate zero value session created = fail runtime_error
  allocate (suc n) value session created =
      let again = allocate n value session created in
      (do
        token ← new_token
        accepted ← try_create token value
        if accepted
            then pure (record {
              token = token;
              session = session;
              expires_at = created + m.idle_ttl * second;
            })
            else again)

  -- data is None: {}
  abbrev pub data_fields : Value → Result Fields
  data_fields null = ok end
  data_fields (dict d) = ok d
  data_fields _ = raise value_error

  -- json.dumps of the record, and the bound on its size.
  unfoldable pub encode : Value → Fields → ℕ → Result String
  encode subject d created =
      and_then (lib.dumps (record_of subject d created (created + m.absolute_ttl * second)))
        (λ value.
          if ltb max_data_bytes (utf8_length (codes value)) then raise value_error else ok value)

  -- Session(**json.loads(value))
  unfoldable pub decode_session : String → Result Session
  decode_session value = and_then (lib.loads value) session_of

  unfoldable pub create : Value → Value → Exec (World S) SessionGrant
  create subject contents = do
    lift (guard (is_subject subject) value_error)
    d ← lift (data_fields contents)
    created ← read_clock
    value ← lift (encode subject d created)
    session ← lift (decode_session value)
    allocate 3 value session created

  abbrev pub as_string : Raw → Result String
  as_string (text s) = ok s
  as_string (encoded b) = lib.decode b

  -- The checks of `read` on a stored value.
  unfoldable pub load : Raw → Result (Session × ℤ)
  load raw = and_then (as_string raw) (λ value.
      if ltb max_data_bytes (length (codes value))
      then raise value_error
      else and_then (decode_session value) (λ s. and_then (valid_expiry s) (λ e. ok (s, e))))

  -- An expired session is deleted from the backend.
  unfoldable pub expire : String → Session × ℤ → Exec (World S) (Option Session)
  expire key (session, e) = do
    t ← read_clock
    if reached e t then (do run (backend.delete key); pure none) else pure (some session)

  unfoldable pub read_key : String → Exec (World S) (Option Session)
  read_key key = do
    found ← run (backend.read key)
    elim found [ none ↦ pure none | some raw ↦ (do loaded ← lift (load raw); expire key loaded) ]

  unfoldable pub read : Value → Exec (World S) (Option Session)
  read token = elim (key_of token) [ none ↦ pure none | some key ↦ read_key key ]

  -- backend.touch(self._key(token), ttl), for the time to live that is left.
  unfoldable pub renew_at : String → String → Session → ℤ → ℕ → Exec (World S) (Option SessionGrant)
  renew_at key token session e t =
      let ttl = min m.idle_ttl (whole_seconds e t) in
      if ltb ttl 1 then pure none else (do
        kept ← run (backend.touch key (int (pos ttl)))
        if kept
            then pure
                (some (record { token = token; session = session; expires_at = t + ttl * second }))
            else pure none)

  unfoldable pub renew_session : String → String → Session → Exec (World S) (Option SessionGrant)
  renew_session key token session = do
    t ← read_clock
    e ← lift (expiry session.absolute_expires_at)
    renew_at key token session e t

  pub renew_found : String → Option String → Option Session → Exec (World S) (Option SessionGrant)
  renew_found token (some key) (some session) = renew_session key token session
  renew_found token _ _ = pure none

  unfoldable pub renew : Value → Exec (World S) (Option SessionGrant)
  unfolding renew_found
  renew (str token) = do found ← read (str token); renew_found token (key_of (str token)) found
  renew _ = pure none

  unfoldable pub revoke : Value → Exec (World S) Bool
  revoke token = elim (key_of token) [ none ↦ pure false | some key ↦ run (backend.delete key) ]
