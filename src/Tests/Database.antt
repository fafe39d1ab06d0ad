-- ===== src/Tests/Database.antt =====
-- The connections of threads at concrete inputs: a driver that numbers its connections, with a
-- cursor for each of the connection's number.
use dwho.Base.{ℕ, ◌+◌, true, false, some, [], ◌∷◌, ◌≡◌, refl, ok, if◌then◌else◌, ◌==◌, ok-injective}
use dwho.Base.Dict
use dwho.Base.Dict.{Dict}
use dwho.Base.Value.{Value, str}
use dwho.Abstract.Database
use dwho.Abstract.Database.{Entry, Driver, Database, empty_entry, close_entry}
use dwho.Abstract.Connections.{done, connected, MakesOwn, ArePaired, Run-ArePaired}

-- The world counts what was done; a connection is lost from the fifth step on.
abbrev driver : Driver ℕ ℕ ℕ
driver = record {
  connect = λ uri w. (ok w, w + 1);
  is_connected = λ c k w. (ok (if w == 5 then false else true), w);
  make_cursor = λ c w. (ok c, w + 1);
  close_conn = λ c w. w + 1;
  close_cursor = λ k w. w + 1;
}

abbrev uris : Dict Value
uris = ("db_uri_main", str "sqlite://") ∷ []

abbrev start : Database ℕ ℕ ℕ
start = record {
  threads = (1, ("old", record { conn = some 9; cursor = some 9 }) ∷ []) ∷ [];
  world = 0;
}

runs : Unit {0}
unfolding Dict.lookup Dict.insert Database.thread_db Database.put_db Database.reconnect
    Database.is_lost Database.reconnect_if Database.ensure_conn Database.add_cursor
    Database.cursor_if Database.ensure_cursor Database.connect_entry Database.connect close_entry
    Database.close_all Database.sweep Database.set_db Database.release_entry Database.release
    Database.disconnect
runs = tt

abbrev main : Entry ℕ ℕ
main = record { conn = some 0; cursor = some 0 }

abbrev opened : Database ℕ ℕ ℕ
opened = record {
  threads =
      (1, ("old", record { conn = some 9; cursor = some 9 }) ∷ []) ∷ (2, ("main", main) ∷ []) ∷ [];
  world = 2;
}

-- A lost connection is closed and made again.
reconnect_run :
    (Database.connect driver uris 2 "main" (record opened { world = 5 })).0
    ≡ ok (record { conn = some 7; cursor = some 7 })
unfolding runs
reconnect_run = refl

-- The first `disconnect` of a thread without connections closes those of the threads that are gone.
disconnect_run : Database.disconnect driver (λ t. false) 2 "main" start ≡ (
  ok tt,
  record {
    threads = (1, ("old", empty_entry) ∷ []) ∷ (2, ("main", empty_entry) ∷ []) ∷ [];
    world = 2;
  },
)
unfolding runs
disconnect_run = refl

makes_own : MakesOwn driver (λ k c. c ≡ k)
makes_own c w k h = ok-injective h

Run-ArePaired_example :
    ArePaired driver (λ k c. c ≡ k) (Database.connect driver uris 2 "main" start).1
Run-ArePaired_example =
    Run-ArePaired driver (λ k c. c ≡ k) makes_own (connected uris 2 "main" done) ((refl, tt), tt)
