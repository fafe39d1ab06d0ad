-- ===== src/Notifiers/Processes.antt =====
-- dwho/classes/notifiers.py: the process of the subprocess notifier, how it is waited for and put
-- down. The process, the clock and the readers of its output are a parameter over the state `W` of
-- the outside; times are in milliseconds.
use dwho.Base.{
  ℕ, zero, suc, ◌+◌, ◌-◌, leb, min, Bool, true, false, Option, none, some, List, if◌then◌else◌,
  Result, ok, raise, runtime_error, foreign,
}
use dwho.Base.Value.{Value, Fields, null, bool}
use dwho.Base.Exec.{Exec, lift, ◌>>=◌, ◌>>◌}
use dwho.Notifiers.Handlers.{lenient}

-- What Popen is called with: the arguments, the environment and the directory.
pub record Launch : Type 0 where
  pub args : List Value
  pub env : Fields
  pub workdir : Value

pub record Processes (W : Type 0) : Type 0 where
  pub spawn : Launch → Exec W (Unit {0})
  pub start_readers : Exec W (Unit {0})
  -- proc.poll() is not None
  pub poll : W → Bool × W
  pub clock : W → ℕ × W
  pub sleep : ℕ → W → W
  pub wait : W → W
  -- An OSError of these two is ignored.
  pub terminate : W → W
  pub kill : W → W
  -- proc.returncode is not 0, of a process that has ended
  pub is_failed : W → Bool
  -- texit.set(), and reader.join(1.0)
  pub stop_readers : W → W
  pub join_readers : W → W
  -- The number that a timeout stands for: `clock() + timeout` raises where it is none.
  pub duration : Value → Result ℕ

-- The pause until the next poll: min(0.05, remaining).
abbrev pub pause : ℕ → ℕ → ℕ
pause deadline t = min 50 (deadline - t)

module _ {W : Type 0} (processes : Processes W) where
  -- The loop of `_wait_process`, on fuel; none where the fuel ends before it.
  unfoldable pub wait_loop : ℕ → ℕ → W → Option Bool × W
  wait_loop zero deadline w = (none, w)
  wait_loop (suc fuel) deadline w =
      let (ended, w1) = processes.poll w in
      let (t, w2) = processes.clock w1 in
      let later = wait_loop fuel deadline (processes.sleep (pause deadline t) w2) in
      if ended
      then (some true, processes.wait w1)
      else if leb deadline t
      then (some false, w2)
      else later

  -- `_wait_process`
  unfoldable pub wait_process : ℕ → W → Option Bool × W
  wait_process timeout w =
      let (t, w') = processes.clock w in wait_loop (suc timeout) (t + timeout) w'

  abbrev pub is_in_time : Option Bool → Bool
  is_in_time none = false
  is_in_time (some b) = b

  -- The body of the `try`, once the process is there.
  unfoldable pub observe : Bool → Value → Exec W Value
  observe strict timeout = do
    processes.start_readers
    ms ← lift (processes.duration timeout)
    λ w.
        let (o, w') = wait_process ms w in
        if is_in_time o
        then (if processes.is_failed w'
            then (raise (foreign 3), w')
            else (ok (if strict then bool true else null), w'))
        else (raise runtime_error, w')

  unfoldable pub put_down : W → W
  put_down w =
      let (o, w') = wait_process 1000 (processes.terminate w) in
      if is_in_time o then w' else processes.kill w'

  -- The `finally`, of a process that was started.
  unfoldable pub reap : W → W
  reap w =
      let (ended, w1) = processes.poll (processes.stop_readers w) in
      let w2 = if ended then w1 else put_down w1 in processes.join_readers (processes.wait w2)

  -- The `try` of `_execute` with its `finally`.
  unfoldable pub supervise : Bool → Value → Launch → Exec W Value
  supervise strict timeout launch w =
      let (started, w0) = processes.spawn launch w in
      elim started [
        | raise e ↦ (lenient strict (raise e), processes.stop_readers w0)
        | ok _ ↦ let (r, w1) = observe strict timeout w0 in (lenient strict r, reap w1)
      ]
