-- ===== src/Sessions/Memory/Contract.antt =====
-- dwho/sessions/memory.py: `create`, `read`, `touch` and `delete` against the contract that the
-- docstring of `SessionBackend` states.
use mathlib.Core.Option
use dwho.Base.{
  eq_refl, ap, ℕ, ◌+◌, ◌-◌, ◌*◌, ◌≤◌, ◌≡◌, refl, String, Option, none, some, Bool, true, false,
  arith, leb, max, is_some, str_eq, if◌then◌else◌, inl, inr, Option-cases, Bool-cases, Result, ok,
  raise, runtime_error, length,
}
use dwho.Base.Dict.{lookup, insert, keys, lookup-erase, lookup-insert}
use dwho.Base.Value.{Value}
use dwho.Sessions.Ttl.{check_ttl}
use dwho.Sessions.Clock.{Clock, Follows, now, tick, second}
use dwho.Sessions.Memory.{
  Memory, Entry, read_entry, purge, store, store_if_room, make_room, create_locked, create, read,
  touch, touch_locked, touch_entry, delete,
}
use dwho.Sessions.Memory.View.{live, view, read_entry-view}

-- The time that the last call of the clock returned.
abbrev pub last : Clock → ℕ
last c = c.readings (c.taken - 1)

-- After a store attempt, at `t`, with `seen` what was there before under `j`: a stored value
-- replaces only its own key, and lives `ttl` seconds from the last time read; a refusal is
-- `RuntimeError`, in a table that is full, and shows no change.
abbrev pub StoreSpec :
    String → String → ℕ → ℕ → String → Option Entry → Result Bool × Memory → Type 0
StoreSpec key value ttl t j seen (ok true, m) =
    view m t j ≡ (if str_eq key j then live t (some (value, last m.clock + ttl * second)) else seen)
StoreSpec key value ttl t j seen (ok false, m) = ⊥
StoreSpec key value ttl t j seen (raise e, m) =
    (e ≡ runtime_error) × (m.capacity ≤ length m.values) × (view m t j ≡ seen)

last-tick : (c : Clock) → last (tick c) ≡ now c
last-tick c = let e : c.taken + 1 - 1 ≡ c.taken = omega arith in rw e

-- `create` refuses a key that is live when it looks, and then shows no change.
abbrev pub CreateSpec : String → String → ℕ → Memory → ℕ → String → Result Bool × Memory → Type 0
CreateSpec key value ttl m t j (ok false, m') =
    (is_some (view m (now m.clock) key) ≡ true) × (view m' t j ≡ view m t j)
CreateSpec key value ttl m t j (ok true, m') =
    (is_some (view m (now m.clock) key) ≡ false)
    × StoreSpec key value ttl t j (view m t j) (ok true, m')
CreateSpec key value ttl m t j (raise e, m') =
    (is_some (view m (now m.clock) key) ≡ false)
    × StoreSpec key value ttl t j (view m t j) (raise e, m')

read_entry-is_some : (key : String) (m : Memory) → (read_entry key m).0 ≡ view m (now m.clock) key
unfolding read_entry view
read_entry-is_some key m = ground arith

-- `touch` of a live key moves only its expiry, and never back; of any other key it creates nothing.
abbrev pub TouchSpec : String → ℕ → Memory → Result Bool × Memory → Type 0
TouchSpec key ttl m (ok true, m') =
    (e : Entry) × (view m (now m.clock) key ≡ some e)
    × (m'.values ≡ insert key (e.0, max e.1 (last m'.clock + ttl * second)) m.values)
TouchSpec key ttl m (ok false, m') =
    (view m (now m.clock) key ≡ none) × (lookup key m'.values ≡ none)
TouchSpec key ttl m (raise e, m') = ⊥

read_entry-miss :
    (key : String) (m : Memory)
    → (read_entry key m).0 ≡ none
    → lookup key (read_entry key m).1.values ≡ none
unfolding read_entry
read_entry-miss key m h = ground (arith, lookup-erase key key m.values, eq_refl key)

read_entry-values :
    (key : String) (m : Memory) {e : Entry}
    → (read_entry key m).0 ≡ some e
    → (read_entry key m).1.values ≡ m.values
unfolding read_entry
read_entry-values key m h = ground arith

-- `touch` with a valid time to live never raises. It returns `True` exactly where the key is live;
-- then the table differs from before in the expiry of that key alone, which becomes the later of
-- the old one and `ttl` seconds from the last time read. It returns `False` where the key is
-- absent or has expired, and then the key is absent afterwards.
pub touch-TouchSpec :
    (key : String) (ttl : Value) (n : ℕ) (m : Memory)
    → check_ttl ttl ≡ ok n
    → TouchSpec key n m (touch key ttl m)
unfolding touch touch_locked touch_entry
touch-TouchSpec key ttl n m valid = elim (Option-cases (read_entry key m).0) [
  | inl miss ↦
      rw (valid, touch, miss) (rw (read_entry-is_some key m) at miss, read_entry-miss key m miss)
  | inr (e, hit) ↦
      rw (valid, touch, hit)
        (rw (last-tick (read_entry key m).1.clock, read_entry-values key m hit)
          (e, rw (read_entry-is_some key m) at hit, refl))
]

-- What `read` returns is what a client can see of the key at the time that the backend reads, and
-- reading shows no change at any time `t` not before it. `delete` tells whether the key was in the
-- table, takes the key away at every time, and leaves every other key as it was.
pub read-delete-view :
    (key : String) (m : Memory) (t : ℕ) (j : String)
    → Follows (read key m).1.clock t
    → ((read key m).0 ≡ ok (Option.map (λ e. e.0) (view m (now m.clock) key)))
      × (view (read key m).1 t j ≡ view m t j)
      × ((delete key m).0 ≡ ok (is_some (lookup key m.values)))
      × (view (delete key m).1 t j ≡ (if str_eq key j then none else view m t j))
unfolding read delete view
read-delete-view key m t j h = (
  ap (λ (o : Option Entry). ok (Option.map (λ e. e.0) o)) (unfold view in read_entry-is_some key m),
  read_entry-view key m t h j,
  refl,
  ground (arith, lookup-erase key j m.values),
)

-- A created entry is in the table, with its time to live from the last time read.
pub create-lookup :
    (key value : String) (ttl : Value) (n : ℕ) (m : Memory)
    → check_ttl ttl ≡ ok n
    → (create key value ttl m).0 ≡ ok true
    → lookup key (create key value ttl m).1.values
      ≡ some (value, last (create key value ttl m).1.clock + n * second)
unfolding create create_locked
create-lookup key value ttl n m valid h = elim (Bool-cases (is_some (read_entry key m).0)) [
  | inl held ↦ absurd (ground arith)
  | inr new ↦ rw (valid, create, new) (made (read_entry key m).1 (rw (valid, create, new) at h))
]
  where
    stored :
        (m : Memory)
        → (store key value n m).0 ≡ ok true
        → lookup key (store key value n m).1.values
          ≡ some (value, last (store key value n m).1.clock + n * second)
    stored m h = rw (last-tick m.clock) (
        ground
          (arith, lookup-insert key key (value, now m.clock + n * second) m.values, eq_refl key))

    tried :
        (m : Memory)
        → (store_if_room key value n m).0 ≡ ok true
        → lookup key (store_if_room key value n m).1.values
          ≡ some (value, last (store_if_room key value n m).1.clock + n * second)
    tried m h = elim (Bool-cases (leb m.capacity (length m.values))) [
      | inl full ↦ absurd (ground arith)
      | inr room ↦ rw room (stored m refl)
    ]

    made :
        (m : Memory)
        → (make_room key value n m).0 ≡ ok true
        → lookup key (make_room key value n m).1.values
          ≡ some (value, last (make_room key value n m).1.clock + n * second)
    made m h = elim (Bool-cases (leb m.capacity (length m.values))) [
      | inl full ↦ rw full (tried (purge (keys m.values) m) (rw full at h))
      | inr room ↦ rw room (stored m refl)
    ]
