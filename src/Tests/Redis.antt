-- ===== src/Tests/Redis.antt =====
-- The redis adapter at concrete inputs, over a client that counts its calls.
use dwho.Base.{
  ℕ, String, ◌≡◌, refl, List, [], ◌∷◌, some, ok, raise, ◌+◌, ◌==◌, if◌then◌else◌, foreign, arith,
}
use dwho.Base.Value.{Fields, str, int, pos, end, field}
use dwho.Base.Dict.{Dict, lookup, insert, keys, is_in}
use dwho.Redis
use dwho.Redis.{Client, Adapter, Server, connect, load, disconnect, selected}
use dwho.Redis.Connections.{is_connected}
use dwho.Redis.Commands
use dwho.Redis.Scan.{last, more, scan_keys-NoRepeats, NoRepeats, concat, chosen}

-- The second SCAN of a server gives a key again that the first one gave.
abbrev client : Client ℕ ℕ
client = record {
  from_url = λ url w. (ok w, w + 1);
  send = λ c command w. (ok (int (pos c)), w + 1);
  scan = λ c cursor pattern w.
      if cursor == 0 then (ok (7, "a" ∷ "b" ∷ []), w + 1) else (ok (0, "b" ∷ "c" ∷ []), w + 1);
  disconnect = λ c w. (raise (foreign 3), w);
}

abbrev config : Dict Fields
config =
    ("sessions", field "url" (str "redis://h/1") end)
    ∷ ("queue", field "url" (str "redis://h/2") (field "ttl" (int (pos 5)) end))
    ∷ []

abbrev fresh : Adapter ℕ ℕ
fresh = record { servers = []; world = 0 }

abbrev queue : Server ℕ
queue = record { conn = some 0; options = ("ttl", int (pos 5)) ∷ [] }

abbrev connected : Adapter ℕ ℕ
connected = record { servers = ("queue", queue) ∷ []; world = 1 }

runs : Unit {0}
unfolding Redis.outside Redis.set_server Redis.configure Redis.connect_fresh Redis.connect_server
    connect Redis.load_names load Redis.try_disconnect Redis.drop Redis.drop_names disconnect
    selected lookup insert is_connected Commands.gather Commands.broadcast Commands.find_first
    Commands.add_new Commands.scan_keys Commands.keys Commands.xadd Commands.xadd_args
    Commands.set_key chosen
runs = tt

connect_queue : connect client config "queue" fresh ≡ (ok queue, connected)
unfolding runs
connect_queue = refl

load_prefix : keys (load client config (some "se") fresh).1.servers ≡ "sessions" ∷ []
unfolding runs
load_prefix = refl

scan_keys-NoRepeats_example :
    (ks : List String) × (Commands.scan_keys client connected.servers 2 0 (str "*") 0 [] 4
      ≡ (ok (some ks), 6))
    × NoRepeats ks
    × ((k : String) → is_in k ks ≡ is_in k (concat (("a" ∷ "b" ∷ []) ∷ ("b" ∷ "c" ∷ []) ∷ [])))
scan_keys-NoRepeats_example =
    scan_keys-NoRepeats client connected.servers 0 (str "*") 2 (omega arith) (more refl (last refl))

pings :
    Commands.broadcast (some "q") (λ c. client.send c Redis.ping) connected.servers 1
    ≡ (ok (("queue", int (pos 0)) ∷ []), 2)
unfolding runs
pings = refl
