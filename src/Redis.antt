-- ===== src/Redis.antt =====
-- dwho/adapters/redis.py: DWhoAdapterRedis. `Commands` holds the methods that send commands to the
-- servers, `Scan` what `keys` collects, and `Connections` what connecting and disconnecting do. The
-- redis client is a parameter over the state `W` of the outside.
pub mod Commands
pub mod Scan
pub mod Connections
use dwho.Base.{
  ℕ, ◌&&◌, ◌==◌, String, Bool, true, false, Option, none, some, List, [], ◌∷◌, if◌then◌else◌,
  Result, ok, raise, foreign, key_error, is_some, str_eq,
}
use dwho.Base.Dict.{Dict, lookup, insert, keys}
use dwho.Base.Value.{Value, Fields, end, field}
use dwho.Base.Exec.{Exec, pure, fail, gets, ◌>>=◌, ◌>>◌, continue}
use dwho.Base.Text.{codes, prefix_of}

-- The commands that the adapter sends on a connection.
pub data Command : Type 0 where
  ping : Command
  set : Value → Value → Command
  setex : Value → Value → Value → Command
  execute : List Value → Command
  get : Value → Command
  exists : List Value → Command
  delete : List Value → Command
  expire : Value → Value → Command
  hset : Value → Value → Value → Command
  hget : Value → Value → Command
  hdel : Value → List Value → Command
  sadd : Value → List Value → Command
  srem : Value → List Value → Command
  sort : Value → Fields → Command

pub record Client (C W : Type 0) : Type 0 where
  pub from_url : Value → Exec W C
  pub send : C → Command → Exec W Value
  -- One SCAN: the cursor, the pattern, and what the server gives, the next cursor and some keys.
  pub scan : C → ℕ → Value → Exec W (ℕ × List String)
  pub disconnect : C → Exec W (Unit {0})

-- self.servers[name]
pub record Server (C : Type 0) : Type 0 where
  pub conn : Option C
  pub options : Dict Value

pub record Adapter (C W : Type 0) : Type 0 where
  pub servers : Dict (Server C)
  pub world : W

-- not prefix or name.startswith(prefix)
unfoldable pub selected : Option String → String → Bool
selected none name = true
selected (some prefix) name = prefix_of (codes prefix) (codes name)

module _ {C W : Type 0} (client : Client C W) (config : Dict Fields) where
  abbrev Action : Type 0 → Type 0
  Action A = Exec (Adapter C W) A

  -- A call of the client, which sees only the world.
  unfoldable pub outside : {A : Type 0} → Exec W A → Action A
  outside call a = let (r, w) = call a.world in (r, record a { world = w })

  unfoldable pub set_server : String → Server C → Action (Unit {0})
  set_server name server a = (ok tt, record a { servers = insert name server a.servers })

  -- for key, value in iteritems(self.config['general']['redis'][name]), with `from_url`
  unfoldable pub configure : String → Server C → Fields → Action (Server C)
  unfolding outside set_server
  configure name server end = pure server
  configure name server (field key value rest) =
      if str_eq key "url"
      then (do
        c ← outside (client.from_url value)
        let server' = record server { conn = some c }
        set_server name server'
        configure name server' rest)
      else (do
        let server' = record server { options = insert key value server.options }
        set_server name server'
        configure name server' rest)

  unfoldable pub connect_fresh : String → Server C → Action (Server C)
  connect_fresh name server = elim (lookup name config) [
    | none ↦ fail key_error
    | some settings ↦ configure name server settings
  ]

  unfoldable pub connect_server : String → Server C → Action (Server C)
  connect_server name server =
      if is_some server.conn then pure server else connect_fresh name server

  abbrev empty_server : Server C
  empty_server = record { conn = none; options = [] }

  unfoldable pub connect : String → Action (Server C)
  connect name a = elim (lookup name a.servers) [
    | some server ↦ connect_server name server a
    | none ↦ (set_server name empty_server >>= λ _. connect_server name empty_server) a
  ]

  unfoldable pub load_names : Option String → List String → Action (Unit {0})
  load_names prefix [] = pure tt
  load_names prefix (name ∷ names) =
      let later = load_names prefix names in
      if selected prefix name then (connect name >>= λ _. later) else later

  unfoldable pub load : Option String → Action (Unit {0})
  load prefix = load_names prefix (keys config)

  -- try: connection_pool.disconnect() except Exception: pass
  unfoldable pub try_disconnect : C → W → W
  try_disconnect c w = (client.disconnect c w).1

  unfoldable pub drop : String → Adapter C W → Adapter C W
  drop name a = elim (lookup name a.servers) [
    | none ↦ a
    | some server ↦ elim server.conn [
      | none ↦ a
      | some c ↦ record {
        servers = insert name (record server { conn = none }) a.servers;
        world = try_disconnect c a.world;
      }
    ]
  ]

  unfoldable pub drop_names : Option String → List String → Adapter C W → Adapter C W
  drop_names prefix [] a = a
  drop_names prefix (name ∷ names) a =
      drop_names prefix names (if selected prefix name then drop name a else a)

  -- `disconnect` of the adapter's own servers, by name or by prefix; it returns the adapter. `none`
  -- stands for an empty text as well.
  unfoldable pub disconnect : Option String → Option String → Adapter C W → Adapter C W
  disconnect (some name) prefix a = drop name a
  disconnect none prefix a = drop_names prefix (keys config) a
