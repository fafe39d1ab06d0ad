-- ===== src/Dashboard/Service.antt =====
-- dwho/tui/textual/service.py: ServiceDashboard, which makes one request at a time. The thread of a
-- request is outside: how it ends is an event. `C` is what is called, and `A` what it returns.
use dwho.Base.{
  Bool, true, false, Option, none, some, List, [], ◌∷◌, ◌++◌, ℕ, suc, if◌then◌else◌, Exc,
}
use dwho.Base.Text.{codes}
use dwho.Dashboard.{Status}

-- The arguments of `perform`, but for the functions that it calls back.
pub record Request (C : Type 0) : Type 0 where
  pub call : C
  pub has_failed : Bool
  pub label : List ℕ

-- How `asyncio.to_thread(call)` ends; CancelledError is no Exception.
pub data Outcome (A : Type 0) : Type 0 where
  returned : A → Outcome A
  raised : Exc → Outcome A
  cancelled : Outcome A

-- A call of `done` or `failed` of a request.
pub data Callback (C A : Type 0) : Type 0 where
  done : Request C → A → Callback C A
  failed : Request C → Exc → Callback C A

pub record Service (C A : Type 0) : Type 0 where
  pub busy : Bool
  pub is_running : Bool
  pub exited : Bool
  -- The workers that have not ended.
  pub in_flight : List (Request C)
  pub callbacks : List (Callback C A)
  -- The arguments of the last `set_notice`, and the number of calls of `notify`.
  pub notice : Option Status
  pub warnings : ℕ

pub data Event (C A : Type 0) : Type 0 where
  perform : Request C → Event C A
  -- The first worker in flight ends.
  finish : Outcome A → Event C A
  quit : Event C A
  -- The application ends otherwise.
  close : Event C A

-- __init__, of an application that runs
abbrev pub idle : {C A : Type 0} → Service C A
idle = record {
  busy = false;
  is_running = true;
  exited = false;
  in_flight = [];
  callbacks = [];
  notice = none;
  warnings = 0;
}

abbrev uncertain : Status
uncertain = record {
  state = "warning";
  text = codes "Request did not complete. Refresh before retrying; outcome may be uncertain.";
}

module _ {C A : Type 0} where
  -- `perform`
  unfoldable pub start : Request C → Service C A → Bool × Service C A
  start r s = if s.busy then (false, s) else (
    true,
    record s {
      busy = true;
      notice = some (record { state = "running"; text = r.label });
      in_flight = s.in_flight ++ (r ∷ []);
    },
  )

  -- `execute`, once the call has ended
  unfoldable pub end : Request C → Outcome A → Service C A → Service C A
  end r (returned a) s =
      if s.is_running
      then record s { busy = false; callbacks = s.callbacks ++ (done r a ∷ []) }
      else record s { busy = false }
  end r (raised e) s =
      if s.is_running
      then if r.has_failed
        then record s { busy = false; callbacks = s.callbacks ++ (failed r e ∷ []) }
        else record s { busy = false; notice = some uncertain }
      else record s { busy = false }
  end r cancelled s = s

  -- `action_quit`
  unfoldable pub quit_action : Service C A → Service C A
  quit_action s =
      if s.busy then record s { warnings = suc s.warnings } else record s { exited = true }

  abbrev end_first : Outcome A → List (Request C) → Service C A → Service C A
  end_first o [] s = s
  end_first o (r ∷ rs) s = end r o (record s { in_flight = rs })

  unfoldable pub step : Event C A → Service C A → Service C A
  step (perform r) s = (start r s).1
  step (finish o) s = end_first o s.in_flight s
  step quit s = quit_action s
  step close s = record s { is_running = false }

  unfoldable pub run : List (Event C A) → Service C A → Service C A
  run [] s = s
  run (e ∷ es) s = run es (step e s)
