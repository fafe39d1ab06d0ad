-- ===== src/Runtime/Rollback.antt =====
-- dwho/runtime.py: every extension that was brought up is stopped when the runtime stops, also
-- when it stops because initialization or startup failed.
use mathlib.Core.List.{append-nil}
use dwho.Base.{
  ◌≡◌, refl, Bool, true, false, List, [], ◌++◌, Result, ok, raise, String, inl, inr, Bool-cases,
  Has, Has-append, not, all, subst, not-Has-nil, ◌⊎◌, ◌&&◌,
}
use dwho.Runtime.{
  Extensions, Runtime, Phase, Extension, stopped, ready, running, is_stopped, stop, safe_init,
  at_stop, set_state, finish, adopt_all, extensions, is_new, is_ready, is_empty, initializing,
  starting, initialize, start, make,
}
use dwho.Runtime.Stopping.{stop-run_callbacks}
use dwho.Runtime.Invariant.{
  IsSound, IsWorking, IsConsistent, initialize_body-Works, start_body-Works,
}

module _ {W : Type 0} (ext : Extensions W) where
  stop-IsSound :
      (r : Runtime W) → is_stopped r.state ≡ false → IsSound r → IsConsistent (stop ext r).1
  stop-IsSound r live h = rw (stop-run_callbacks ext r live) (record {
    sound = record {
      balanced = λ e made. rw append-nil (elim (Has-append r.calls made) [
        | inl old ↦ h.balanced e old
        | inr now ↦ absurd (h.clean e now)
      ]);
      watched = λ w. rw append-nil (h.watched w);
      clean = λ e made. not-Has-nil made;
    };
    settled = λ p. refl;
  })

  pub stop-IsConsistent : (r : Runtime W) → IsConsistent r → IsConsistent (stop ext r).1
  unfolding stop
  stop-IsConsistent r h = elim (Bool-cases (is_stopped r.state)) [
    | inl done ↦ rw (done, stop) h
    | inr live ↦ stop-IsSound r live h.sound
  ]

  -- What `finish` makes of a body that kept the runtime working.
  finish-IsConsistent :
      (phase : Phase) (p : Result (Unit {0}) × Runtime W)
      → is_stopped phase ≡ false
      → IsWorking p.1
      → IsConsistent (finish ext phase p).1
  unfolding finish set_state
  finish-IsConsistent phase (ok _, r) other h = record {
    sound = record {
      balanced = h.sound.balanced;
      watched = h.sound.watched;
      clean = h.sound.clean;
    };
    settled = λ p. cc (other, p);
  }
  finish-IsConsistent phase (raise e, r) other h = stop-IsSound r h.live h.sound

  -- A method either returns with the runtime in its phase, or raises; then it has changed nothing,
  -- or it leaves the runtime stopped with no cleanup left.
  abbrev pub Outcome : Phase → Runtime W → Result (Unit {0}) × Runtime W → Type 0
  Outcome phase before (ok _, r) = r.state ≡ phase
  Outcome phase before (raise e, r) = (r ≡ before) ⊎ ((r.state ≡ stopped) × (r.callbacks ≡ []))

  finish-Outcome :
      (phase : Phase) (before : Runtime W) (p : Result (Unit {0}) × Runtime W)
      → IsWorking p.1
      → Outcome phase before (finish ext phase p)
  unfolding finish set_state
  finish-Outcome phase before (ok _, r) h = refl
  finish-Outcome phase before (raise e, r) h =
      rw (stop-run_callbacks ext r h.live) (inr (refl, refl))

  begin-IsWorking :
      (r : Runtime W) (phase : Phase) (w : W)
      → is_stopped phase ≡ false
      → IsConsistent r
      → IsWorking (record r { state = phase; world = w })
  begin-IsWorking r phase w live h = record {
    sound = record {
      balanced = h.sound.balanced;
      watched = h.sound.watched;
      clean = h.sound.clean;
    };
    live = live;
  }

  initialize_lem :
      (b : Bool) (r : Runtime W)
      → IsConsistent r
      → Outcome ready r (initialize ext b r) × IsConsistent (initialize ext b r).1
  unfolding initialize
  initialize_lem b r h = elim (Bool-cases (not (is_new r.state))) [
    | inl old ↦ rw old (inl refl, h)
    | inr fresh ↦ elim (Bool-cases (not (is_empty r.modules) && not r.has_registrar)) [
      | inl bad ↦ rw (fresh, bad) (inl refl, h)
      | inr good ↦ elim (Bool-cases (not (all (λ e. ext.is_fresh e r.world) (extensions r)))) [
        | inl used ↦ rw (fresh, good, used) (inl refl, h)
        | inr unused ↦
            let begun =
              begin-IsWorking r initializing (adopt_all ext (extensions r) r.world) refl h in
            let done = initialize_body-Works ext b _ begun in
            rw (fresh, good, unused)
              (finish-Outcome ready r _ done, finish-IsConsistent ready _ refl done)
      ]
    ]
  ]

  start_lem :
      (r : Runtime W)
      → IsConsistent r
      → Outcome running r (start ext r) × IsConsistent (start ext r).1
  unfolding start
  start_lem r h = elim (Bool-cases (not (is_ready r.state))) [
    | inl bad ↦ rw bad (inl refl, h)
    | inr good ↦
        let done = start_body-Works ext _ (begin-IsWorking r starting r.world refl h) in
        rw good (finish-Outcome running r _ done, finish-IsConsistent running _ refl done)
  ]

  -- `initialize` either returns, and the runtime is ready, or raises; then it has changed nothing,
  -- or has rolled back: the runtime is stopped with no cleanup left to call. So does `start`, with
  -- `running` for `ready`. The runtime is any that its methods leave (`IsConsistent`).
  pub initialize-start-Outcome :
      (b : Bool) (r : Runtime W)
      → IsConsistent r
      → Outcome ready r (initialize ext b r) × Outcome running r (start ext r)
  initialize-start-Outcome b r h = ((initialize_lem b r h).0, (start_lem r h).0)

  -- The states that the methods lead to, whatever they return or raise.
  pub data Reach (r : Runtime W) : Runtime W → Type 0 where
    here_now : Reach r r
    initialized : {s : Runtime W} (b : Bool) → Reach r s → Reach r (initialize ext b s).1
    started : {s : Runtime W} → Reach r s → Reach r (start ext s).1
    stopped_by : {s : Runtime W} → Reach r s → Reach r (stop ext s).1

  Reach-IsConsistent : {r s : Runtime W} → IsConsistent r → Reach r s → IsConsistent s
  Reach-IsConsistent h here_now = h
  Reach-IsConsistent h (initialized {s} b x) = (initialize_lem b s (Reach-IsConsistent h x)).1
  Reach-IsConsistent h (started {s} x) = (start_lem s (Reach-IsConsistent h x)).1
  Reach-IsConsistent h (stopped_by {s} x) = stop-IsConsistent s (Reach-IsConsistent h x)

  pub make-IsConsistent :
      (ms ps is : List String) (registrar : Bool) (w : W) → IsConsistent (make ms ps is registrar w)
  unfolding make
  make-IsConsistent ms ps is registrar w = record {
    sound = record {
      balanced = λ e made. absurd (not-Has-nil made);
      watched = λ p. cc;
      clean = λ e made. not-Has-nil made;
    };
    settled = λ p. cc;
  }

  -- However the methods of a new runtime are called, and whichever of them raise: once the runtime
  -- is stopped, every extension whose `safe_init` was called has had its `at_stop` called.
  pub stopped-at_stop :
      (ms ps is : List String) (registrar : Bool) (w : W) (r : Runtime W) (e : Extension)
      → Reach (make ms ps is registrar w) r
      → is_stopped r.state ≡ true
      → Has (safe_init e) r.calls
      → Has (at_stop e) r.calls
  stopped-at_stop ms ps is registrar w r e reach over made =
      let h = Reach-IsConsistent (make-IsConsistent ms ps is registrar w) reach in
      let all_made : r.calls ++ r.callbacks ≡ r.calls = rw (h.settled over, append-nil) in
      subst (Has (at_stop e)) all_made (h.sound.balanced e made)
