-- ===== src/Sessions/Memory.antt =====
-- dwho/sessions/memory.py: the bounded process-local backend. A method returns what Python returns
-- or raises, and the new state; the lock makes each call one step.
pub mod Bounds
pub mod View
pub mod Contract
use dwho.Base.{
  ℕ, ◌+◌, ◌*◌, String, Bool, true, false, Option, none, some, List, [], ◌∷◌, max, leb, is_some,
  length, if◌then◌else◌, Result, ok, raise, value_error, runtime_error,
}
use mathlib.Core.Option
use dwho.Base.Dict.{Dict, lookup, insert, erase, keys}
use dwho.Base.Value.{Value, int, pos}
use dwho.Sessions.Ttl.{check_ttl}
use dwho.Sessions.Clock.{Clock, now, tick, second}

-- A stored value and the time at which it expires.
abbrev pub Entry : Type 0
Entry = String × ℕ

pub record Memory : Type 0 where
  pub capacity : ℕ
  pub clock : Clock
  pub values : Dict Entry

-- __init__
unfoldable pub init : Value → Clock → Result Memory
init (int (pos n)) c =
    if leb 1 n then ok (record { capacity = n; clock = c; values = [] }) else raise value_error
init _ c = raise value_error

-- `_read`: drops the entry of the key where it has expired.
unfoldable pub read_entry : String → Memory → Option Entry × Memory
read_entry key m = elim (lookup key m.values) [
  | none ↦ (none, m)
  | some (value, expires) ↦
      if leb expires (now m.clock)
      then (none, record m { clock = tick m.clock; values = erase key m.values })
      else (some (value, expires), record m { clock = tick m.clock })
]

-- for expired in list(self._values): self._read(expired)
unfoldable pub purge : List String → Memory → Memory
purge [] m = m
purge (key ∷ rest) m = purge rest (read_entry key m).1

pub store : String → String → ℕ → Memory → Result Bool × Memory
store key value ttl m = (
  ok true,
  record m {
    clock = tick m.clock;
    values = insert key (value, now m.clock + ttl * second) m.values;
  },
)

pub store_if_room : String → String → ℕ → Memory → Result Bool × Memory
unfolding store
store_if_room key value ttl m =
    if leb m.capacity (length m.values) then (raise runtime_error, m) else store key value ttl m

pub make_room : String → String → ℕ → Memory → Result Bool × Memory
unfolding store store_if_room
make_room key value ttl m =
    if leb m.capacity (length m.values)
    then store_if_room key value ttl (purge (keys m.values) m)
    else store key value ttl m

pub create_locked : String → String → ℕ → Memory → Result Bool × Memory
unfolding make_room
create_locked key value ttl m =
    let (found, m') = read_entry key m in
    if is_some found then (ok false, m') else make_room key value ttl m'

unfoldable pub create : String → String → Value → Memory → Result Bool × Memory
unfolding create_locked
create key value ttl m = elim (check_ttl ttl) [
  | ok t ↦ create_locked key value t m
  | raise e ↦ (raise e, m)
]

unfoldable pub read : String → Memory → Result (Option String) × Memory
read key m = let (found, m') = read_entry key m in (ok (Option.map (λ e. e.0) found), m')

pub touch_entry : String → ℕ → Option Entry → Memory → Result Bool × Memory
touch_entry key ttl none m = (ok false, m)
touch_entry key ttl (some (value, expires)) m = (
  ok true,
  record m {
    clock = tick m.clock;
    values = insert key (value, max expires (now m.clock + ttl * second)) m.values;
  },
)

pub touch_locked : String → ℕ → Memory → Result Bool × Memory
unfolding touch_entry
touch_locked key ttl m = let (found, m') = read_entry key m in touch_entry key ttl found m'

unfoldable pub touch : String → Value → Memory → Result Bool × Memory
unfolding touch_locked
touch key ttl m = elim (check_ttl ttl) [ ok t ↦ touch_locked key t m | raise e ↦ (raise e, m) ]

unfoldable pub delete : String → Memory → Result Bool × Memory
delete key m = (ok (is_some (lookup key m.values)), record m { values = erase key m.values })
