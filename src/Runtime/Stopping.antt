-- ===== src/Runtime/Stopping.antt =====
-- dwho/runtime.py: `stop` runs every registered cleanup once, in order, even when one fails.
use mathlib.Core.List.{append-nil, append_assoc}
use dwho.Base.{
  ◌≡◌, refl, false, Option, none, some, List, [], ◌∷◌, ◌++◌, Exc, Result, ok, raise, arith, inl,
  inr, Bool-cases,
}
use dwho.Runtime.{
  Extensions, Runtime, Call, stopped, is_stopped, keep_first, call, run_callbacks, raise_first,
  stop,
}

module _ {W : Type 0} (ext : Extensions W) where
  -- What the calls return or raise when they are made one after another, and the world then.
  unfoldable pub outcomes : List Call → W → List (Result (Unit {0}))
  outcomes [] w = []
  outcomes (c ∷ cs) w = (ext.perform c w).0 ∷ outcomes cs (ext.perform c w).1

  unfoldable pub world_after : List Call → W → W
  world_after [] w = w
  world_after (c ∷ cs) w = world_after cs (ext.perform c w).1

  -- The first that was raised.
  unfoldable pub first_raised : List (Result (Unit {0})) → Result (Unit {0})
  first_raised [] = ok tt
  first_raised (ok _ ∷ rs) = first_raised rs
  first_raised (raise e ∷ rs) = raise e

  -- Like `first_raised`, where an error `e` came before.
  abbrev unless_raised : Option Exc → List (Result (Unit {0})) → Result (Unit {0})
  unless_raised none rs = first_raised rs
  unless_raised (some e) rs = raise e

  run_callbacks_lem :
      (cs : List Call) (first : Option Exc) (r : Runtime W)
      → raise_first (run_callbacks ext cs first r) ≡ (
        unless_raised first (outcomes cs r.world),
        record r { world = world_after cs r.world; calls = r.calls ++ cs },
      )
  unfolding run_callbacks call outcomes world_after first_raised
  run_callbacks_lem [] none r = rw append-nil
  run_callbacks_lem [] (some e) r = rw append-nil
  run_callbacks_lem (c ∷ cs) first r =
      let r' : Runtime W = record r {
        world = (ext.perform c r.world).1;
        calls = r.calls ++ c ∷ [];
      } in
      ground (
        arith,
        run_callbacks_lem cs (keep_first first (ext.perform c r.world).0) r',
        append_assoc r.calls (c ∷ []) cs,
      )

  -- `stop` of a runtime that is not stopped makes every registered cleanup call once, in the order
  -- of registration, whether or not some of them raise, and raises the first error among them, if
  -- any. The runtime is then stopped, with no cleanup left, and its other fields as they were.
  pub stop-run_callbacks :
      (r : Runtime W)
      → is_stopped r.state ≡ false
      → stop ext r ≡ (
        first_raised (outcomes r.callbacks r.world),
        record r {
          state = stopped;
          callbacks = [];
          world = world_after r.callbacks r.world;
          calls = r.calls ++ r.callbacks;
        },
      )
  unfolding stop
  stop-run_callbacks r h =
      rw h (run_callbacks_lem r.callbacks none (record r { state = stopped; callbacks = [] }))

  -- A second `stop` returns and changes nothing, whatever the first one did.
  pub stop_twice : (r : Runtime W) → stop ext (stop ext r).1 ≡ (ok tt, (stop ext r).1)
  stop_twice r = elim (Bool-cases (is_stopped r.state)) [
    | inl done ↦ unfold stop in (rw (done, stop) (rw done))
    | inr live ↦ rw (stop-run_callbacks r live) (unfold stop in refl)
  ]
