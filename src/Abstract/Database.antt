-- ===== src/Abstract/Database.antt =====
-- dwho/classes/abstract.py: DWhoAbstractDB, the connections that each thread keeps by their names.
-- The driver is a parameter, over the state `W` of the outside; `C` and `K` are its connections and
-- cursors.
use Prim.Native.Char.{code}
use dwho.Base.{
  ℕ, ◌==◌, ◌&◌, Bool, true, false, not, String, Option, none, some, List, [], ◌∷◌, if◌then◌else◌,
  Result, ok, raise, key_error, foreign, is_some,
}
use dwho.Base.Dict.{Dict, lookup, insert}
use dwho.Base.Exec.{Exec, ◌>>=◌, ◌>>◌, pure}
use dwho.Base.Value.{Value, null, str}

pub record Entry (C K : Type 0) : Type 0 where
  pub conn : Option C
  pub cursor : Option K

pub record Driver (C K W : Type 0) : Type 0 where
  -- anysql.connect_by_uri(uri)
  pub connect : Value → Exec W C
  pub is_connected : C → Option K → Exec W Bool
  pub make_cursor : C → Exec W K
  -- What these two raise is ignored.
  pub close_conn : C → W → W
  pub close_cursor : K → W → W

abbrev pub empty_entry : {C K : Type 0} → Entry C K
empty_entry = record { conn = none; cursor = none }

-- Each thread's dict, by the thread's number.
abbrev pub Threads : Type 0 → Type 0 → Type 0
Threads C K = List (ℕ × Dict (Entry C K))

pub record Database (C K W : Type 0) : Type 0 where
  pub threads : Threads C K
  pub world : W

module _ {C K : Type 0} where
  -- self._db[tid], or an empty dict
  unfoldable pub thread_db : ℕ → Threads C K → Dict (Entry C K)
  thread_db tid [] = []
  thread_db tid ((t, d) ∷ ts) = if t == tid then d else thread_db tid ts

  -- self._db[tid] = d
  unfoldable pub put_db : ℕ → Dict (Entry C K) → Threads C K → Threads C K
  put_db tid d [] = (tid, d) ∷ []
  put_db tid d ((t, d') ∷ ts) = if t == tid then (t, d) ∷ ts else (t, d') ∷ put_db tid d ts

  abbrev pub is_empty_db : Dict (Entry C K) → Bool
  is_empty_db [] = true
  is_empty_db (_ ∷ _) = false

  -- return self.db[name]
  abbrev pub returned : Entry C K → Result (Unit {0}) → Result (Entry C K)
  returned e (ok _) = ok e
  returned e (raise x) = raise x

  abbrev pub entry_or : Option (Entry C K) → Entry C K
  entry_or none = empty_entry
  entry_or (some e) = e

module _ {C K W : Type 0} (driver : Driver C K W) where
  abbrev close_cursor? : Option K → W → W
  close_cursor? none w = w
  close_cursor? (some k) w = driver.close_cursor k w

  abbrev close_conn? : Option C → W → W
  close_conn? none w = w
  close_conn? (some c) w = driver.close_conn c w

  -- not conn or not conn.is_connected(cursor)
  unfoldable pub is_lost : Option C → Option K → Exec W Bool
  is_lost none cursor = pure true
  is_lost (some c) cursor = driver.is_connected c cursor >>= λ live. pure (not live)

  -- self.db[name]['conn'] = ...
  abbrev set_conn : Entry C K → Result C → W → Result (Unit {0}) × (Entry C K × W)
  set_conn e (raise x) w = (raise x, (e, w))
  set_conn e (ok c) w = (ok tt, (record e { conn = some c }, w))

  -- The close of the lost connection, and the new one, of the URI of the configuration if any.
  unfoldable pub reconnect : Option Value → Exec (Entry C K × W) (Unit {0})
  reconnect uri (e, w) =
      let w1 = close_conn? e.conn (close_cursor? e.cursor w) in
      elim uri [
        | none ↦ (raise key_error, (record e { cursor = none }, w1))
        | some u ↦
            let (made, w2) = driver.connect u w1 in set_conn (record e { cursor = none }) made w2
      ]

  -- if ...: the reconnection
  unfoldable pub reconnect_if :
      Option Value → Entry C K → Result Bool × W → Result (Unit {0}) × (Entry C K × W)
  reconnect_if uri e (raise x, w) = (raise x, (e, w))
  reconnect_if uri e (ok true, w) = reconnect uri (e, w)
  reconnect_if uri e (ok false, w) = (ok tt, (e, w))

  unfoldable pub ensure_conn : Option Value → Exec (Entry C K × W) (Unit {0})
  ensure_conn uri (e, w) = reconnect_if uri e (is_lost e.conn e.cursor w)

  unfoldable pub add_cursor : Entry C K → Result K × W → Result (Unit {0}) × (Entry C K × W)
  add_cursor e (raise x, w) = (raise x, (e, w))
  add_cursor e (ok k, w) = (ok tt, (record e { cursor = some k }, w))

  -- The cursor, where there is none; the entry has a connection where this is reached.
  unfoldable pub cursor_if :
      Entry C K → Option C → Option K → W → Result (Unit {0}) × (Entry C K × W)
  cursor_if e conn (some k) w = (ok tt, (e, w))
  cursor_if e none none w = (raise (foreign 0), (e, w))
  cursor_if e (some c) none w = add_cursor e (driver.make_cursor c w)

  -- if not self.db[name]['cursor']: ...
  unfoldable pub ensure_cursor : Exec (Entry C K × W) (Unit {0})
  ensure_cursor (e, w) = cursor_if e e.conn e.cursor w

  unfoldable pub connect_entry : Option Value → Exec (Entry C K × W) (Unit {0})
  connect_entry uri = ensure_conn uri >> ensure_cursor

  -- `db_connect` of the thread `me`, with the URIs of the configuration by their names
  unfoldable pub connect : Dict Value → ℕ → String → Exec (Database C K W) (Entry C K)
  connect uris me name s =
      let d = thread_db me s.threads in
      let before : Entry C K × W = (entry_or (lookup name d), s.world) in
      let (r, after) = connect_entry (lookup ("db_uri_" & name) uris) before in
      (
        returned after.0 r,
        record { threads = put_db me (insert name after.0 d) s.threads; world = after.1 },
      )

  unfoldable pub close_entry : Entry C K → W → W
  close_entry e w = close_conn? e.conn (close_cursor? e.cursor w)

  -- for name in iterkeys(db): self.db_disconnect(name, db)
  unfoldable pub close_all : Dict (Entry C K) → W → Dict (Entry C K) × W
  close_all [] w = ([], w)
  close_all ((name, e) ∷ d) w =
      let (d', w') = close_all d (close_entry e w) in ((name, empty_entry) ∷ d', w')

  -- The sweep of the setter of `db` over the threads, with those that are still active.
  unfoldable pub sweep : (ℕ → Bool) → Threads C K → W → Threads C K × W
  sweep is_active [] w = ([], w)
  sweep is_active ((t, d) ∷ ts) w =
      let (d', w1) = if is_active t then (d, w) else close_all d w in
      let (ts', w2) = sweep is_active ts w1 in ((t, d') ∷ ts', w2)

  -- self.db = value
  unfoldable pub set_db : (ℕ → Bool) → ℕ → Dict (Entry C K) → Database C K W → Database C K W
  set_db is_active me value s =
      let (ts, w) = sweep is_active s.threads s.world in
      record { threads = put_db me value ts; world = w }

  unfoldable pub release_entry : ℕ → String → Option (Entry C K) → Exec (Database C K W) (Unit {0})
  release_entry me name none s = (raise key_error, s)
  release_entry me name (some e) s = (
    ok tt,
    record {
      threads = put_db me (insert name empty_entry (thread_db me s.threads)) s.threads;
      world = close_entry e s.world;
    },
  )

  -- What stands of `db_disconnect` under its tests, on the thread's own dict.
  unfoldable pub release : ℕ → String → Exec (Database C K W) (Unit {0})
  release me name s = release_entry me name (lookup name (thread_db me s.threads)) s

  -- `db_disconnect` of a name, without a dict
  unfoldable pub disconnect : (ℕ → Bool) → ℕ → String → Exec (Database C K W) (Unit {0})
  disconnect is_active me name s =
      if is_empty_db (thread_db me s.threads)
      then release me name (set_db is_active me ((name, empty_entry) ∷ []) s)
      else release me name s

-- if name not in self.db: self.db[name] = {'conn': None, 'cursor': None}, of the `init` of the SQL bases
unfoldable pub prepare_name : {C K W : Type 0} → ℕ → String → Database C K W → Database C K W
prepare_name me name s =
    let d = thread_db me s.threads in
    if is_some (lookup name d)
    then s
    else record s { threads = put_db me (insert name empty_entry d) s.threads }

abbrev after_dot : String → Option String
after_dot String.[] = none
after_dot (String.◌∷◌ c s) = if code c == b'.' then some s else after_dot s

-- `get_column_name`: what stands behind the first dot
unfoldable pub get_column_name : String → String
get_column_name column = elim (after_dot column) [ none ↦ column | some name ↦ name ]

-- The methods `_prepcol_...` of the object by the names of columns, and '%s' % v.
pub record Columns : Type 0 where
  pub prepcol : String → Option (String → Value → Result Value)
  pub text_of : Value → String

abbrev plain_column : Columns → Value → Result Value
plain_column columns null = ok null
plain_column columns (str s) = ok (str s)
plain_column columns v = ok (str (columns.text_of v))

-- `db_prepare_column`
unfoldable pub prepare_column : Columns → Value → Option String → Result Value
prepare_column columns res none = plain_column columns res
prepare_column columns res (some String.[]) = plain_column columns res
prepare_column columns res (some (String.◌∷◌ c s)) =
    let column = String.◌∷◌ c s in
    elim (columns.prepcol (get_column_name column)) [
      | none ↦ plain_column columns res
      | some method ↦ method column res
    ]
