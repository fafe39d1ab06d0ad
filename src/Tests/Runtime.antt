-- ===== src/Tests/Runtime.antt =====
-- The runtime at concrete inputs.
use dwho.Base.{
  ◌≡◌, refl, true, false, [], ◌∷◌, Result, ok, raise, foreign, Has, here, later, str_eq,
  if◌then◌else◌,
}
use dwho.Runtime
use dwho.Runtime.{
  Extensions, Runtime, Call, Phase, Extension, plugin, inoplug, extension_module, stopped, ready,
  running, make, init, safe_init, at_start, at_stop, start_inotify, is_stopped,
}
use dwho.Runtime.Stopping.{stop-run_callbacks, outcomes, world_after, first_raised}
use dwho.Runtime.Rollback
use dwho.Runtime.Rollback.{
  Outcome, initialize-start-Outcome, make-IsConsistent, stopped-at_stop, Reach,
}

-- The second plugin fails in its `safe_init`, and the first in its `at_stop`.
abbrev behaviour : Call → Result (Unit {0})
behaviour (safe_init (plugin name)) = if str_eq name "b" then raise (foreign 1) else ok tt
behaviour (at_stop (plugin name)) = if str_eq name "a" then raise (foreign 2) else ok tt
behaviour _ = ok tt

abbrev extensions : Extensions (Unit {0})
extensions = record {
  perform = λ c w. (behaviour c, w);
  enabled = λ e w. true;
  autostart = λ e w. true;
  is_fresh = λ e w. true;
  adopt = λ e w. w;
}

abbrev fresh : Runtime (Unit {0})
fresh = make [] ("a" ∷ "b" ∷ []) [] false tt

runs : Unit {0}
unfolding make Runtime.initialize Runtime.finish Runtime.set_state Runtime.stop
    Runtime.initialize_body Runtime.open_inotify Runtime.init_modules Runtime.bring_up_all
    Runtime.bring_up Runtime.call Runtime.register Runtime.run_callbacks Runtime.open_inoplugs
    Runtime.start
runs = tt

-- The failure rolls both plugins back, and the first one's own failure does not hide it.
abbrev rolled_back : Runtime (Unit {0})
rolled_back = record {
  modules = [];
  plugins = "a" ∷ "b" ∷ [];
  inoplugs = [];
  has_registrar = false;
  inotify = false;
  callbacks = [];
  state = stopped;
  world = tt;
  calls =
      init (plugin "a")
      ∷ safe_init (plugin "a")
      ∷ init (plugin "b")
      ∷ safe_init (plugin "b")
      ∷ at_stop (plugin "a")
      ∷ at_stop (plugin "b")
      ∷ [];
}

initialize_fails : Runtime.initialize extensions false fresh ≡ (raise (foreign 1), rolled_back)
unfolding runs
initialize_fails = refl

initialize-start-Outcome_example :
    Outcome extensions ready fresh (Runtime.initialize extensions false fresh)
    × Outcome extensions running fresh (Runtime.start extensions fresh)
initialize-start-Outcome_example =
    initialize-start-Outcome extensions false fresh
      (make-IsConsistent extensions [] ("a" ∷ "b" ∷ []) [] false tt)

stopped-at_stop_example :
    Has (at_stop (plugin "a")) (Runtime.initialize extensions false fresh).1.calls
unfolding runs
stopped-at_stop_example =
    stopped-at_stop extensions [] ("a" ∷ "b" ∷ []) [] false tt
      (Runtime.initialize extensions false fresh).1 (plugin "a")
      (Rollback.initialized false Rollback.here_now) refl (later here)

abbrev up : Runtime (Unit {0})
up = record rolled_back {
  state = running;
  callbacks = at_stop (plugin "a") ∷ at_stop (plugin "b") ∷ [];
  calls = [];
}

stop-run_callbacks_example : Runtime.stop extensions up ≡ (
  first_raised extensions (outcomes extensions up.callbacks tt),
  record up {
    state = stopped;
    callbacks = [];
    world = world_after extensions up.callbacks tt;
    calls = up.callbacks;
  },
)
stop-run_callbacks_example = stop-run_callbacks extensions up refl
