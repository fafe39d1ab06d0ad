-- ===== src/Notifiers/Handlers.antt =====
-- dwho/classes/notifiers.py: the HTTP and the Redis notifier. The Redis one drives the adapter of
-- dwho/adapters/redis.py, made for the one message. JSON and HTTP requests are outside.
use dwho.Base.{
  ℕ, ◌&&◌, leb, ltb, String, Bool, true, false, Option, none, some, List, [], ◌∷◌, if◌then◌else◌,
  Result, ok, raise, value_error, type_error, runtime_error, foreign, ◌>>=◌ as and_then, str_eq,
  all,
}
use dwho.Base.Dict.{Dict, is_in}
use dwho.Base.Value.{
  Value, Fields, end, field, str, dict, null, bool, int, pos, truthy, get_or, get_field, put_field,
  dict_or_empty,
}
use dwho.Base.Text.{lower}
use dwho.Base.Exec.{Exec, pure, fail, lift, ◌>>=◌}
use dwho.Notifiers.{general_of, attribute_error}
use dwho.Notifiers.Running.{uri_of}
use dwho.Redis.{Client, Adapter, load, disconnect}
use dwho.Redis.Commands.{xadd, set_key}

-- HTTP_ALLOWED_METHODS
abbrev allowed_methods : List String
allowed_methods = "delete" ∷ "head" ∷ "get" ∷ "patch" ∷ "post" ∷ "put" ∷ []

pub record Request : Type 0 where
  pub method : String
  pub uri : Value
  pub auth : Value
  pub headers : Fields
  pub payload : Value
  pub timeout : Value
  pub verify : Value

pub record Web (W : Type 0) : Type 0 where
  pub dumps : Value → Result Value
  -- The headers of a urllib request made of these.
  pub normalize : Fields → Result Fields
  -- One request, and the status code of its response.
  pub request : Request → Exec W ℕ

abbrev method_of : Value → Result String
method_of (str s) = if is_in (lower s) allowed_methods then ok (lower s) else raise value_error
method_of v = raise (foreign attribute_error)

-- if tpl.get('method'): ...
unfoldable pub http_method : Fields → Result String
http_method tpl =
    let given = get_or "method" null tpl in if truthy given then method_of given else ok "post"

abbrev is_json : Value → Bool
is_json (str s) = str_eq s "application/json"
is_json _ = false

abbrev dict_or : Value → Value → Value
dict_or (dict d) other = dict d
dict_or _ other = other

-- What an error of the body of a `try` becomes: raised again, or logged and None.
unfoldable pub lenient : Bool → Result Value → Result Value
lenient strict (ok v) = ok v
lenient true (raise e) = raise e
lenient false (raise e) = ok null

module _ {W : Type 0} (web : Web W) where
  -- The payload of a request with these headers, normalized.
  encode_payload : Fields → Value → Result Value
  encode_payload headers (dict d) =
      if is_json (get_or "Content-type" null headers) then web.dumps (dict d) else ok (dict d)
  encode_payload headers payload = ok payload

  pub headers_and_payload : Fields → Value → Result (Fields × Value)
  unfolding encode_payload
  headers_and_payload end payload = ok (end, payload)
  headers_and_payload (field k v rest) payload =
      and_then (web.normalize (field k v rest))
        (λ headers. and_then (encode_payload headers payload) (λ p. ok (headers, p)))

  -- `_execute` before its request, up to the URI, which is read inside the `try`.
  unfoldable pub http_request : Value → Fields → Fields → Result Request
  unfolding headers_and_payload
  http_request uri cfg tpl = and_then (http_method tpl) (λ method.
      and_then
        (headers_and_payload (dict_or_empty (get_or "headers" (dict end) tpl))
          (get_or "payload" (dict end) tpl))
        (λ p. ok (record {
          method = method;
          uri = uri;
          auth = dict_or (get_or "auth" null tpl) null;
          headers = p.0;
          payload = p.1;
          timeout = get_or "timeout" (get_or "timeout" (int (pos 30)) cfg) tpl;
          verify = get_or "verify" (get_or "verify" null cfg) tpl;
        })))

  -- What the response makes of it: True, or an error that is logged and gives None.
  unfoldable pub http_answer : Bool → ℕ → Exec W Value
  http_answer strict status =
      if leb 200 status && ltb status 300
      then pure (bool true)
      else if strict
      then fail (foreign 1)
      else pure null

  -- DWhoNotifierHttp._execute
  unfoldable pub http_execute : Bool → Fields → Value → Exec W Value
  http_execute strict cfg tpl = do
    -- Everything but the URI is made before the `try`.
    let general = dict_or_empty (get_or "general" null cfg)
    req ← lift (http_request (get_or "uri" null general) cfg (dict_or_empty tpl))
    λ w.
        let (r, w') =
          (lift (and_then (general_of (dict cfg)) uri_of) >>= λ _.
          (web.request req >>= http_answer strict))
            w in
        (lenient strict r, w')

abbrev mode_of : Value → Result Bool
mode_of (str s) =
    if str_eq s "set" then ok false else if str_eq s "stream" then ok true else raise value_error
mode_of _ = raise value_error

abbrev options_of : Value → Result Fields
options_of (dict d) = ok d
options_of v = if truthy v then raise type_error else ok end

-- What `send` of the Redis notifier makes of its arguments: whether to a stream, the key, the
-- payload, the stream's length, and the settings of the server.
pub record Message : Type 0 where
  pub stream : Bool
  pub key : Value
  pub payload : Value
  pub maxlen : Value
  pub settings : Fields

abbrev required : String → Fields → Result Value
required k d = elim (get_field k d) [ none ↦ raise value_error | some v ↦ ok v ]

unfoldable pub message : (Value → Result Value) → Fields → Value → Result Message
message dumps cfg (dict tpl) = and_then (required "key" tpl) (λ key.
    and_then (required "value" tpl) (λ value. and_then (general_of (dict cfg)) (λ general.
      and_then (mode_of (get_or "redis_mode" (str "set") general)) (λ stream.
        and_then (dumps value) (λ payload.
          and_then (options_of (get_or "options" null general)) (λ options.
            and_then (uri_of general) (λ uri. ok (record {
              stream = stream;
              key = key;
              payload = payload;
              maxlen = get_or "stream_maxlen" null general;
              settings = put_field "url" uri options;
            }))))))))
message dumps cfg tpl = raise value_error

-- not result or not all(result.values())
abbrev pub are_acknowledged : Dict Value → Bool
are_acknowledged [] = false
are_acknowledged (r ∷ rs) = all (λ p. truthy p.1) (r ∷ rs)

module _ {C W : Type 0} (client : Client C W) where
  abbrev pub config_of : Message → Dict Fields
  config_of m = ("notifier", m.settings) ∷ []

  -- The write, on the servers of the adapter.
  unfoldable pub write : Message → Adapter C W → Exec W (Dict Value)
  write m a =
      if m.stream
      then xadd client a.servers m.key (dict (field "payload" m.payload end)) m.maxlen none none
      else set_key client a.servers m.key m.payload null none none

  unfoldable pub checked_write : Message → Adapter C W → Exec W (Dict Value)
  checked_write m a = do r ← write m a; if are_acknowledged r then pure r else fail runtime_error

  -- DWhoNotifierRedis.send, and the adapter that it leaves: none where the adapter was not made.
  unfoldable pub redis_send : Message → W → Result (Dict Value) × Option (Adapter C W) × W
  redis_send m w =
      let (made, a) =
        load client (config_of m) (some "notifier") (record { servers = []; world = w }) in
      elim made [
        | raise e ↦ (raise e, none, a.world)
        | ok _ ↦
            let (r, w') = checked_write m a a.world in
            let closed =
              disconnect client (config_of m) none (some "notifier") (record a { world = w' }) in
            (r, some closed, closed.world)
      ]
