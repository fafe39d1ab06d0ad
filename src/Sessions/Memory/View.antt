-- ===== src/Sessions/Memory/View.antt =====
-- dwho/sessions/memory.py against the contract of `SessionBackend`: what a client can see of the
-- table at a time is a map from keys to values, and each method changes it as the contract says.
use dwho.Base.{
  ◌∙◌, ℕ, ◌+◌, ◌*◌, ◌≤◌, ◌≡◌, refl, String, Option, none, some, List, [], ◌∷◌, arith, leb, eq_iff,
  str_eq, if◌then◌else◌, inl, inr, Option-cases,
}
use dwho.Base.Dict.{lookup, lookup-erase, lookup-insert}
use dwho.Sessions.Clock.{Clock, Follows, now, tick, second}
use dwho.Sessions.Memory.{Memory, Entry, read_entry, purge, store}

-- The entry at a time: what has expired is not there.
abbrev pub live : ℕ → Option Entry → Option Entry
live t none = none
live t (some e) = if leb e.1 t then none else some e

unfoldable pub view : Memory → ℕ → String → Option Entry
view m t k = live t (lookup k m.values)

-- The two states show the same to a client at `t`, whatever the key.
abbrev pub SameView : ℕ → Memory → Memory → Type 0
SameView t m m' = (j : String) → view m' t j ≡ view m t j

pub read_entry-clock :
    (key : String) (m : Memory) {e : Entry}
    → lookup key m.values ≡ some e
    → (read_entry key m).1.clock ≡ tick m.clock
unfolding read_entry
read_entry-clock key m hit = ground arith

pub read_entry-view :
    (key : String) (m : Memory) (t : ℕ)
    → Follows (read_entry key m).1.clock t
    → SameView t m (read_entry key m).1
unfolding read_entry view
read_entry-view key m t h j = elim (Option-cases (lookup key m.values)) [
  | inl miss ↦ rw (miss, read_entry)
  | inr (e, hit) ↦
      let follows : Follows (tick m.clock) t = rw (read_entry-clock key m hit) at h in
      let now_le : now m.clock ≤ t = follows.at m.clock.taken (omega arith) in
      ground (arith, lookup-erase key j m.values, eq_iff key j)
]

-- A clock that was read more often.
pub record Extends (c c' : Clock) : Type 0 where
  pub same : c'.readings ≡ c.readings
  pub more : c.taken ≤ c'.taken

pub Follows-Extends : {c c' : Clock} {t : ℕ} → Extends c c' → Follows c' t → Follows c t
Follows-Extends x h = record { at = λ i lt. rw (← x.same) (h.at i (omega (arith, lt, x.more))) }

pub Extends-trans : {a b c : Clock} → Extends a b → Extends b c → Extends a c
Extends-trans x y = record { same = cc; more = omega arith }

pub read_entry-Extends : (key : String) (m : Memory) → Extends m.clock (read_entry key m).1.clock
unfolding read_entry
read_entry-Extends key m = ground arith

pub purge-Extends : (ks : List String) (m : Memory) → Extends m.clock (purge ks m).clock
unfolding purge
purge-Extends [] m = record { same = refl; more = omega arith }
purge-Extends (k ∷ ks) m =
    Extends-trans (read_entry-Extends k m) (purge-Extends ks (read_entry k m).1)

pub purge-view :
    (ks : List String) (m : Memory) (t : ℕ)
    → Follows (purge ks m).clock t
    → SameView t m (purge ks m)
unfolding purge
purge-view [] m t h j = refl
purge-view (k ∷ ks) m t h j =
    purge-view ks (read_entry k m).1 t h j
    ∙ read_entry-view k m t (Follows-Extends (purge-Extends ks (read_entry k m).1) h) j

-- What a client sees at `t` once `key` holds `e`.
abbrev pub written : String → Entry → ℕ → Memory → String → Option Entry
written key e t m j = if str_eq key j then live t (some e) else view m t j

pub store-view :
    (key value : String) (ttl : ℕ) (m : Memory) (t : ℕ) (j : String)
    → view (store key value ttl m).1 t j ≡ written key (value, now m.clock + ttl * second) t m j
unfolding store view
store-view key value ttl m t j =
    ground (arith, lookup-insert key j (value, now m.clock + ttl * second) m.values)
