-- ===== src/Redis/Commands.antt =====
-- dwho/adapters/redis.py: the methods that send a command to the servers, and `keys`. Each walks a
-- dict of servers and returns the replies by server name. The servers' dict is the adapter's own or
-- the one that is given; no method changes it.
use dwho.Base.{
  ℕ, zero, suc, ◌&&◌, ◌==◌, leb, String, Bool, true, false, Option, none, some, List, [], ◌∷◌, ◌++◌,
  if◌then◌else◌, Result, ok, raise, value_error, foreign,
}
use dwho.Base.Dict.{Dict, is_in}
use dwho.Base.Value.{Value, Fields, null, int, str, list, dict, end, field, pos, items, truthy}
use dwho.Base.Exec.{Exec, pure, fail, lift, ◌>>=◌}
use dwho.Redis.{
  Client, Server, selected, Command, ping, set, setex, execute, get, exists, delete, expire, hset,
  hget, hdel, sadd, srem, sort,
}

-- if not servers: servers = self.servers
abbrev pub servers_or : {C : Type 0} → Option (Dict (Server C)) → Dict (Server C) → Dict (Server C)
servers_or none own = own
servers_or (some []) own = own
servers_or (some (s ∷ ss)) own = s ∷ ss

-- if not isinstance(key, (list, tuple)): key = [key]
abbrev pub as_list : Value → List Value
as_list (list vs) = items vs
as_list v = v ∷ []

-- What `None` raises where a connection is expected.
abbrev pub attribute_error : ℕ
attribute_error = 0

abbrev pub add_reply : {A : Type 0} → String → Option A → Dict A → Dict A
add_reply name none r = r
add_reply name (some a) r = (name, a) ∷ r

module _ {C W : Type 0} where
  abbrev pub conn_of : Server C → Exec W C
  conn_of server = elim server.conn [ none ↦ fail (foreign attribute_error) | some c ↦ pure c ]

  -- One loop over the servers; `none` of a call adds nothing to the result.
  unfoldable pub gather :
      {A : Type 0} → Option String → (C → Exec W (Option A)) → Dict (Server C) → Exec W (Dict A)
  gather prefix call [] = pure []
  gather prefix call ((name, server) ∷ rest) =
      let later = gather prefix call rest in
      if selected prefix name
      then (do c ← conn_of server; a ← call c; r ← later; pure (add_reply name a r))
      else later

  unfoldable pub broadcast :
      {A : Type 0} → Option String → (C → Exec W A) → Dict (Server C) → Exec W (Dict A)
  broadcast prefix call servers = gather prefix (λ c. call c >>= λ a. pure (some a)) servers

  -- One loop that returns from inside: the first call that gives a value ends it.
  unfoldable pub find_first :
      {A : Type 0} → Option String → (C → Exec W (Option A)) → Dict (Server C) → Exec W (Option A)
  find_first prefix call [] = pure none
  find_first prefix call ((name, server) ∷ rest) =
      let later = find_first prefix call rest in
      if selected prefix name
      then (do c ← conn_of server; a ← call c; elim a [ none ↦ later | some v ↦ pure (some v) ])
      else later

abbrev pub is_positive_64 : Value → Bool
is_positive_64 (int (pos n)) = leb 1 n && leb n 9223372036854775807
is_positive_64 _ = false

abbrev is_null : Value → Bool
is_null null = true
is_null _ = false

-- args.extend([field, value])
abbrev pub flatten : Fields → List Value
flatten end = []
flatten (field k v rest) = str k ∷ v ∷ flatten rest

unfoldable maxlen_args : Value → Result (List Value)
maxlen_args null = ok []
maxlen_args v = if is_positive_64 v then ok (str "MAXLEN" ∷ v ∷ []) else raise value_error

-- The checks of `xadd`, and the command it sends.
unfoldable pub xadd_args : Value → Value → Value → Result (List Value)
unfolding maxlen_args
xadd_args key (dict (field k v rest)) maxlen = elim (maxlen_args maxlen) [
  | ok limit ↦ ok (str "XADD" ∷ key ∷ (limit ++ (str "*" ∷ flatten (field k v rest))))
  | raise e ↦ raise e
]
xadd_args key _ maxlen = raise value_error

-- for key in batch: if key not in found: ...; `found` holds the items of `keys`.
unfoldable pub add_new : List String → List String → List String
add_new [] found = found
add_new (k ∷ batch) found = add_new batch (if is_in k found then found else found ++ (k ∷ []))

module _ {C W : Type 0} (client : Client C W) (own : Dict (Server C)) where
  -- The servers that a method takes.
  abbrev Given : Type 0
  Given = Option (Dict (Server C))

  abbrev Replies : Type 0
  Replies = Exec W (Dict Value)

  send_all : Option String → Given → Command → Replies
  send_all prefix servers command =
      broadcast prefix (λ c. client.send c command) (servers_or servers own)

  unfoldable pub ping_all : Given → Option String → Replies
  unfolding send_all
  ping_all servers prefix = send_all prefix servers ping

  unfoldable pub set_key : Value → Value → Value → Given → Option String → Replies
  unfolding send_all
  set_key key val null servers prefix = send_all prefix servers (set key val)
  set_key key val time servers prefix = send_all prefix servers (setex key time val)

  unfoldable pub xadd : Value → Value → Value → Given → Option String → Replies
  xadd key fields maxlen servers prefix = do
    args ← lift (xadd_args key fields maxlen)
    broadcast prefix (λ c. client.send c (execute args)) (elim servers [ none ↦ own | some s ↦ s ])

  -- A command on a connection that has the key.
  unfoldable pub where_exists : Value → Command → C → Exec W (Option Value)
  where_exists key command c = do
    found ← client.send c (exists (key ∷ []))
    let answer = client.send c command >>= λ v. pure (some v)
    if truthy found then answer else pure none

  unfoldable pub get_key : Value → Given → Option String → Exec W (Option Value)
  get_key key servers prefix =
      find_first prefix (where_exists key (get key)) (servers_or servers own)

  unfoldable pub del_key : Value → Given → Option String → Replies
  unfolding send_all
  del_key key servers prefix = send_all prefix servers (delete (as_list key))

  unfoldable pub exists_key : Value → Given → Option String → Replies
  unfolding send_all
  exists_key key servers prefix = send_all prefix servers (exists (as_list key))

  unfoldable pub expire_key : Value → Value → Given → Option String → Replies
  expire_key key xtime servers prefix =
      gather prefix (where_exists key (expire key xtime)) (servers_or servers own)

  unfoldable pub hset_key : Value → Value → Value → Value → Given → Option String → Replies
  unfolding send_all
  hset_key key name val null servers prefix = send_all prefix servers (hset key name val)
  hset_key key name val time servers prefix =
      broadcast prefix
        (λ c. client.send c (hset key name val) >>= λ v.
          (client.send c (expire key time) >>= λ _. pure v))
        (servers_or servers own)

  unfoldable pub hget_key : Value → Value → Given → Option String → Exec W (Option Value)
  hget_key key name servers prefix =
      find_first prefix (where_exists key (hget key name)) (servers_or servers own)

  unfoldable pub hdel_key : Value → Value → Given → Option String → Replies
  unfolding send_all
  hdel_key key name servers prefix = send_all prefix servers (hdel key (as_list name))

  unfoldable pub has_key : Value → Given → Option String → Exec W (Option Value)
  has_key key servers prefix =
      find_first prefix (λ c. client.send c (exists (key ∷ [])) >>= λ v. pure (some v))
        (servers_or servers own)

  -- The SCAN loop on one server, on fuel; `none` where the fuel ends before it.
  unfoldable pub scan_keys : ℕ → C → Value → ℕ → List String → Exec W (Option (List String))
  scan_keys zero c pattern cursor found = pure none
  scan_keys (suc fuel) c pattern cursor found = do
    (next, batch) ← client.scan c cursor pattern
    let found' = add_new batch found
    let later = scan_keys fuel c pattern next found'
    if next == 0 then pure (some found') else later

  unfoldable pub keys : ℕ → Value → Given → Option String → Exec W (Dict (Option (List String)))
  keys fuel pattern servers prefix =
      broadcast prefix (λ c. scan_keys fuel c pattern 0 []) (servers_or servers own)

  unfoldable pub sadd_key : Value → Value → Given → Option String → Replies
  unfolding send_all
  sadd_key key member servers prefix = send_all prefix servers (sadd key (as_list member))

  unfoldable pub srem_key : Value → Value → Given → Option String → Replies
  unfolding send_all
  srem_key key member servers prefix = send_all prefix servers (srem key (as_list member))

  unfoldable pub sort_key : Value → Fields → Given → Option String → Replies
  unfolding send_all
  sort_key key options servers prefix = send_all prefix servers (sort key options)
