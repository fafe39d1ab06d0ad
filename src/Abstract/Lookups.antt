-- ===== src/Abstract/Lookups.antt =====
-- dwho/classes/abstract.py: what `db_connect` and `db_disconnect` leave under each name of each thread.
use dwho.Base.{ℕ, String, Option, some, ◌≡◌}
use dwho.Base.Dict.{Dict, lookup}
use dwho.Base.Value.{Value}
use dwho.Abstract.Database.{Entry, Driver, Threads, Database, thread_db}

module _ {C K : Type 0} where
  -- What the thread has under the name.
  abbrev pub entry_of : ℕ → String → Threads C K → Option (Entry C K)
  entry_of t n ts = lookup n (thread_db t ts)

module _ {C K W : Type 0} (driver : Driver C K W) where
  -- An entry that `db_connect` returns has a connection and a cursor.
  pub record HasBoth (e : Entry C K) : Type 0 where
    pub conn : C
    pub has_conn : e.conn ≡ some conn
    pub cursor : K
    pub has_cursor : e.cursor ≡ some cursor
