-- ===== src/Sessions/Memory/Bounds.antt =====
-- dwho/sessions/memory.py: the table never grows past the capacity, and holds each key once.
use dwho.Base.{
  Option-cases, Result-cases, Bool-cases, inl, inr, some, ℕ, ◌+◌, ◌*◌, max, ◌≤◌, ◌<◌, ◌≡◌, String,
  List, [], ◌∷◌, arith, length, false, leb,
}
use dwho.Base.Dict.{
  IsDistinct, lookup, keys, erase-IsDistinct, insert-IsDistinct, length-erase, length-insert,
}
use dwho.Base.Value.{Value}
use dwho.Sessions.Ttl.{check_ttl}
use dwho.Sessions.Clock.{now, second}
use dwho.Sessions.Memory.{
  Memory, Entry, read_entry, purge, store, store_if_room, make_room, create_locked, create, read,
  touch, touch_locked, touch_entry, delete,
}

pub record IsValid (m : Memory) : Type 0 where
  pub positive : 0 < m.capacity
  pub bounded : length m.values ≤ m.capacity
  pub distinct : IsDistinct m.values

pub read_entry-IsValid : (key : String) (m : Memory) → IsValid m → IsValid (read_entry key m).1
unfolding read_entry
read_entry-IsValid key m h =
    ground (arith, erase-IsDistinct key m.values, length-erase key m.values)

purge-IsValid : (ks : List String) (m : Memory) → IsValid m → IsValid (purge ks m)
unfolding purge
purge-IsValid [] m h = h
purge-IsValid (k ∷ ks) m h = purge-IsValid ks (read_entry k m).1 (read_entry-IsValid k m h)

store-IsValid :
    (key value : String) (ttl : ℕ) (m : Memory)
    → IsValid m
    → leb m.capacity (length m.values) ≡ false
    → IsValid (store key value ttl m).1
unfolding store
store-IsValid key value ttl m h room = record {
  positive = h.positive;
  bounded = ground (arith, length-insert key (value, now m.clock + ttl * second) m.values);
  distinct = insert-IsDistinct key _ m.values h.distinct;
}

store_if_room-IsValid :
    (key value : String) (ttl : ℕ) (m : Memory)
    → IsValid m
    → IsValid (store_if_room key value ttl m).1
unfolding store_if_room
store_if_room-IsValid key value ttl m h = elim (Bool-cases (leb m.capacity (length m.values))) [
  | inl full ↦ rw full h
  | inr room ↦ rw room (store-IsValid key value ttl m h room)
]

make_room-IsValid :
    (key value : String) (ttl : ℕ) (m : Memory) → IsValid m → IsValid (make_room key value ttl m).1
unfolding make_room
make_room-IsValid key value ttl m h = elim (Bool-cases (leb m.capacity (length m.values))) [
  | inl full ↦ rw full (store_if_room-IsValid key value ttl _ (purge-IsValid (keys m.values) m h))
  | inr room ↦ rw room (store-IsValid key value ttl m h room)
]

create-IsValid :
    (key value : String) (ttl : Value) (m : Memory) → IsValid m → IsValid (create key value ttl m).1
unfolding create create_locked
create-IsValid key value ttl m h = elim (Result-cases (check_ttl ttl)) [
  | inl (t, e) ↦
      rw (e, create)
        (ground
          (arith, read_entry-IsValid key m, make_room-IsValid key value t (read_entry key m).1))
  | inr (x, e) ↦ rw (e, create) h
]

read_entry-hit :
    (key : String) (m : Memory) {e : Entry}
    → (read_entry key m).0 ≡ some e
    → (lookup key m.values ≡ some e)
      × ((read_entry key m).1.values ≡ m.values)
      × ((read_entry key m).1.capacity ≡ m.capacity)
unfolding read_entry
read_entry-hit key m h = ground arith

touch_entry-IsValid :
    (key : String) (ttl : ℕ) (m : Memory) (e : Entry)
    → IsValid m
    → lookup key m.values ≡ some e
    → IsValid (touch_entry key ttl (some e) m).1
unfolding touch_entry
touch_entry-IsValid key ttl m e h hit =
    let e' : Entry = (e.0, max e.1 (now m.clock + ttl * second)) in
    record {
      positive = h.positive;
      bounded = ground (arith, length-insert key e' m.values);
      distinct = insert-IsDistinct key e' m.values h.distinct;
    }

touch_locked-IsValid :
    (key : String) (ttl : ℕ) (m : Memory) → IsValid m → IsValid (touch_locked key ttl m).1
unfolding touch_locked
touch_locked-IsValid key ttl m h = elim (Option-cases (read_entry key m).0) [
  | inl miss ↦ rw miss (unfold touch_entry in read_entry-IsValid key m h)
  | inr (e, hit) ↦ rw hit (
      touch_entry-IsValid key ttl (read_entry key m).1 e (read_entry-IsValid key m h)
        (rw (read_entry-hit key m hit).1 (read_entry-hit key m hit).0))
]

-- Every method of the backend keeps the table within its capacity and its keys distinct, on every
-- branch, the ones that raise included.
pub methods-IsValid :
    (key value : String) (ttl : Value) (m : Memory)
    → IsValid m
    → IsValid (create key value ttl m).1
      × IsValid (read key m).1
      × IsValid (touch key ttl m).1
      × IsValid (delete key m).1
unfolding read touch delete
methods-IsValid key value ttl m h = (
  create-IsValid key value ttl m h,
  read_entry-IsValid key m h,
  elim (Result-cases (check_ttl ttl)) [
    | inl (t, e) ↦ rw (e, touch) (touch_locked-IsValid key t m h)
    | inr (x, e) ↦ rw (e, touch) h
  ],
  record {
    positive = h.positive;
    bounded = omega (arith, h.bounded, length-erase key m.values);
    distinct = erase-IsDistinct key m.values h.distinct;
  },
)
