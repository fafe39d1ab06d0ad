-- ===== src/Notifiers/Reaping.antt =====
-- dwho/classes/notifiers.py: how `_wait_process` and `_execute` end, and the state of the process then.
use dwho.Base.{
  ℕ, zero, suc, ◌+◌, ◌≤◌, ◌<◌, leb, Bool, true, false, Option, some, ◌≡◌, arith, Bool-cases, inl,
  inr, subst, sym,
}
use dwho.Base.Value.{Value}
use dwho.Notifiers.Processes.{Processes, pause, wait_loop, wait_process}

module _ {W : Type 0} (processes : Processes W) where
  -- What is documented of time and of processes: the clock does not go back, a sleep takes at least
  -- its time, and a process that was waited for has ended and stays so.
  pub record Documented : Type 0 where
    pub now : W → ℕ
    pub clock_now : (w : W) → (processes.clock w).0 ≡ now w
    pub clock_later : (w : W) → now w ≤ now (processes.clock w).1
    pub poll_later : (w : W) → now w ≤ now (processes.poll w).1
    pub sleep_later : (n : ℕ) (w : W) → n + now w ≤ now (processes.sleep n w)
    pub has_ended : W → Bool
    pub wait_ended : (w : W) → has_ended (processes.wait w) ≡ true
    pub join_ended : (w : W) → has_ended w ≡ true → has_ended (processes.join_readers w) ≡ true

  -- How a wait with a deadline ends: the process was seen to have ended, and was waited for; or it
  -- was seen not to have ended, and then the clock had reached the deadline.
  pub data Waited (deadline : ℕ) : Option Bool × W → Type 0 where
    ended :
        {w : W}
        → (processes.poll w).0 ≡ true
        → Waited deadline (some true, processes.wait (processes.poll w).1)
    expired :
        {w : W}
        → (processes.poll w).0 ≡ false
        → deadline ≤ (processes.clock (processes.poll w).1).0
        → Waited deadline (some false, (processes.clock (processes.poll w).1).1)

  module _ (doc : Documented) where
    wait_loop-Waited :
        (fuel deadline : ℕ) (w : W)
        → deadline < fuel + doc.now w
        → (0 < fuel)
        → Waited deadline (wait_loop processes fuel deadline w)
    unfolding wait_loop
    wait_loop-Waited zero deadline w enough some_fuel = absurd (omega (arith, some_fuel))
    wait_loop-Waited (suc fuel) deadline w enough some_fuel =
        elim (Bool-cases (processes.poll w).0) [
          | inl over ↦ rw (wait_loop, over) (ended over)
          | inr running ↦
              let w1 = (processes.poll w).1 in
              let w2 = (processes.clock w1).1 in
              let t = (processes.clock w1).0 in
              elim (Bool-cases (leb deadline t)) [
                | inl late ↦
                    let le : deadline ≤ t = ground (arith, late) in
                    rw (wait_loop, running, late) (expired running le)
                | inr early ↦
                    let lt : t < deadline = ground (arith, early) in
                    let slept = processes.sleep (pause deadline t) w2 in
                    let gone : suc (doc.now w) ≤ doc.now slept = omega (
                      arith,
                      doc.poll_later w,
                      doc.clock_now w1,
                      doc.clock_later w1,
                      doc.sleep_later (pause deadline t) w2,
                      lt,
                    ) in
                    rw (wait_loop, running, early)
                      (wait_loop-Waited fuel deadline slept (omega (arith, enough, gone))
                        (omega (arith, enough, lt, doc.poll_later w, doc.clock_now w1)))
              ]
        ]

    -- `_wait_process` returns after at most as many rounds as its timeout has milliseconds, and one:
    -- True where it has seen the process end, and has waited for it; False where it has seen it run
    -- on, and then the clock had reached the time of the call and the timeout.
    pub wait_process-Waited :
        (timeout : ℕ) (w : W) → Waited (doc.now w + timeout) (wait_process processes timeout w)
    unfolding wait_process
    wait_process-Waited timeout w =
        let w' = (processes.clock w).1 in
        subst
          (λ t. Waited (doc.now w + timeout) (wait_loop processes (suc timeout) (t + timeout) w'))
          (sym (doc.clock_now w))
          (wait_loop-Waited (suc timeout) (doc.now w + timeout) w'
            (omega (arith, doc.clock_later w)) (omega arith))

    -- A run that returned has seen the process end by itself, without a return code.
    pub record Succeeded : Type 0 where
      pub before : W
      pub ended : (processes.poll before).0 ≡ true
      pub successful : processes.is_failed (processes.wait (processes.poll before).1) ≡ false
