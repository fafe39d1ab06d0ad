-- ===== src/Dashboard/Requests.antt =====
-- dwho/tui/textual/service.py: the requests of a ServiceDashboard over any sequence of events.
use mathlib.Core.List.{append-nil, append_assoc}
use dwho.Base.{
  Bool, true, false, ◌&&◌, not, ◌||◌, subst, List, [], ◌∷◌, ◌++◌, take, length, ◌≤◌, if◌then◌else◌,
  ◌≡◌, refl, arith, sym, ap, ◌∙◌,
}
use dwho.Dashboard.Service.{
  Request, returned, raised, cancelled, Service, Event, perform, finish, quit, close, idle, start,
  end, quit_action, step, run,
}

or_false : (b : Bool) → (b || false) ≡ b
or_false true = refl
or_false false = refl

or_assoc : (a b c : Bool) → ((a || b) || c) ≡ (a || (b || c))
or_assoc true b c = refl
or_assoc false b c = refl

abbrev pub has_items : {C : Type 0} → List (Request C) → Bool
has_items [] = false
has_items (_ ∷ _) = true

module _ {C A : Type 0} where
  abbrev accepted_one : Event C A → Service C A → List (Request C)
  accepted_one (perform r) s = if (start r s).0 then r ∷ [] else []
  accepted_one _ s = []

  -- The requests for which `perform` returns True, in their order.
  abbrev pub accepted : List (Event C A) → Service C A → List (Request C)
  accepted [] s = []
  accepted (e ∷ es) s = accepted_one e s ++ accepted es (step e s)

  abbrev ended_one : Event C A → Service C A → List (Request C)
  ended_one (finish o) s = take 1 s.in_flight
  ended_one _ s = []

  -- The requests that end, in their order.
  abbrev pub ended : List (Event C A) → Service C A → List (Request C)
  ended [] s = []
  ended (e ∷ es) s = ended_one e s ++ ended es (step e s)

  abbrev cancelled_one : Event C A → Service C A → Bool
  cancelled_one (finish cancelled) s = has_items s.in_flight
  cancelled_one _ s = false

  -- Whether a request is cancelled.
  abbrev pub any_cancelled : List (Event C A) → Service C A → Bool
  any_cancelled [] s = false
  any_cancelled (e ∷ es) s = cancelled_one e s || any_cancelled es (step e s)

  abbrev leaves_one : Event C A → Service C A → Bool
  leaves_one e s = not s.exited && (step e s).exited && has_items s.in_flight

  -- Whether the application exits while a request is in flight.
  abbrev pub any_left : List (Event C A) → Service C A → Bool
  any_left [] s = false
  any_left (e ∷ es) s = leaves_one e s || any_left es (step e s)

  -- At most one request in flight, and the dashboard is busy then, or where it is stuck, which it is
  -- without any.
  abbrev pub IsSerial : Bool → Service C A → Type 0
  IsSerial stuck s =
      (length s.in_flight ≤ 1)
      × (s.busy ≡ (has_items s.in_flight || stuck))
      × ((has_items s.in_flight && stuck) ≡ false)

  abbrev Served : Bool → Event C A → Service C A → Type 0
  Served stuck e s =
      IsSerial (stuck || cancelled_one e s) (step e s)
      × (s.in_flight ++ accepted_one e s ≡ ended_one e s ++ (step e s).in_flight)
      × (leaves_one e s ≡ false)

  abbrev with_fields : Bool → Bool → List (Request C) → Service C A → Service C A
  with_fields busy is_running in_flight s = record s {
    busy = busy;
    is_running = is_running;
    in_flight = in_flight;
  }

  serve :
      (stuck busy is_running : Bool) (in_flight : List (Request C)) (e : Event C A)
      (s : Service C A)
      → IsSerial stuck (with_fields busy is_running in_flight s)
      → Served stuck e (with_fields busy is_running in_flight s)
  unfolding step start end quit_action
  serve stuck busy is_running [] (perform r) s h = ground (arith, h)
  serve stuck busy is_running (r' ∷ rs) (perform r) s h = ground (arith, h, append-nil rs)
  serve stuck busy is_running [] (finish o) s h = ground (arith, h)
  serve stuck busy is_running (r ∷ []) (finish (returned a)) s h = ground (arith, h)
  serve stuck busy is_running (r ∷ []) (finish (raised e)) s h = ground (arith, h)
  serve stuck busy is_running (r ∷ []) (finish cancelled) s h = ground (arith, h)
  serve stuck busy is_running (r ∷ r' ∷ rs) (finish o) s h = absurd (omega (arith, h.0))
  serve stuck busy is_running in_flight quit s h = ground (arith, h, append-nil in_flight)
  serve stuck busy is_running in_flight close s h = ground (arith, h, append-nil in_flight)

  run-IsSerial :
      (stuck : Bool) (es : List (Event C A)) (s : Service C A)
      → IsSerial stuck s
      → IsSerial (stuck || any_cancelled es s) (run es s)
        × (s.in_flight ++ accepted es s ≡ ended es s ++ (run es s).in_flight)
        × (any_left es s ≡ false)
  unfolding run
  run-IsSerial stuck [] s h =
      (subst (λ b. IsSerial b s) (sym (or_false stuck)) h, append-nil s.in_flight, refl)
  run-IsSerial stuck (e ∷ es) s h =
      let (kept, one, stays) = serve stuck s.busy s.is_running s.in_flight e s h in
      let (serial, rest, stay) = run-IsSerial (stuck || cancelled_one e s) es (step e s) kept in
      (
        subst (λ b. IsSerial b (run es (step e s)))
            (or_assoc stuck (cancelled_one e s) (any_cancelled es (step e s))) serial,
        sym (append_assoc s.in_flight (accepted_one e s) (accepted es (step e s)))
            ∙ (ap (λ l. l ++ accepted es (step e s)) one
                ∙ (append_assoc (ended_one e s) (step e s).in_flight (accepted es (step e s))
                    ∙ (ap (λ l. ended_one e s ++ l) rest
                        ∙ sym (
                            append_assoc (ended_one e s) (ended es (step e s))
                              (run es (step e s)).in_flight)))),
        rw (stays, stay),
      )

  -- Whatever happens to a new dashboard: its requests end one at a time, in the order in which they
  -- were accepted, so that the accepted ones are those that have ended and then the one in flight, if
  -- any; it is busy exactly while one is in flight or after one was cancelled; and it does not exit
  -- while one is in flight.
  pub run-Serial :
      (es : List (Event C A))
      → (accepted es idle ≡ ended es idle ++ (run es idle).in_flight)
        × (length (run es idle).in_flight ≤ 1)
        × ((run es idle).busy ≡ (has_items (run es idle).in_flight || any_cancelled es idle))
        × (any_left es idle ≡ false)
  run-Serial es =
      let (serial, order, stay) = run-IsSerial false es idle (omega arith, refl, refl) in
      (order, serial.0, serial.1, stay)
