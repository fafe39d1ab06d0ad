-- ===== src/Notifiers/Closing.antt =====
-- dwho/classes/notifiers.py: the Redis notifier closes its connection, and acknowledges a write only
-- by replies.
use dwho.Base.{
  true, false, Option, none, some, [], ◌∷◌, Result, ok, raise, all, ◌≡◌, ◌≢◌, arith, inl, inr,
  Bool-cases, Result-cases, Exc, subst,
}
use dwho.Base.Dict.{Dict}
use dwho.Base.Value.{Value, truthy}
use dwho.Redis.{Client, Adapter, load, disconnect, selected}
use dwho.Redis.Connections.{is_connected, disconnect-is_connected}
use dwho.Notifiers.Handlers.{Message, config_of, write, checked_write, redis_send, are_acknowledged}

module _ {C W : Type 0} (client : Client C W) (m : Message) where
  -- A run of `send`: the adapter could not be made, and the error is raised; or it was, and is left
  -- without a connection, and what is returned is not empty and all truthy.
  pub data Closed : Result (Dict Value) × Option (Adapter C W) × W → Type 0 where
    unmade : {e : Exc} {w : W} → Closed (raise e, none, w)
    closed :
        {r : Result (Dict Value)} {a : Adapter C W} {w : W}
        → is_connected a "notifier" ≡ false
        → ((d : Dict Value) → r ≡ ok d → (d ≢ []) × (all (λ p. truthy p.1) d ≡ true))
        → Closed (r, some a, w)

  acknowledged_parts :
      (d : Dict Value) → are_acknowledged d ≡ true → (d ≢ []) × (all (λ p. truthy p.1) d ≡ true)
  acknowledged_parts [] h = cc
  acknowledged_parts (x ∷ d) h = (λ e. cc, h)

  checked_write-eq-ok :
      (a : Adapter C W) (w : W) {d : Dict Value}
      → (checked_write client m a w).0 ≡ ok d
      → (d ≢ []) × (all (λ p. truthy p.1) d ≡ true)
  unfolding checked_write
  checked_write-eq-ok a w {d} h = elim (Result-cases (write client m a w).0) [
    | inr (e, failed) ↦ absurd (ground arith)
    | inl (r, written) ↦ elim (Bool-cases (are_acknowledged r)) [
      | inr refused ↦ absurd (ground arith)
      | inl good ↦
          let same : r ≡ d = ground arith in
          subst (λ d. (d ≢ []) × (all (λ p. truthy p.1) d ≡ true)) same (acknowledged_parts r good)
    ]
  ]

  disconnected :
      (a : Adapter C W)
      → is_connected (disconnect client (config_of client m) none (some "notifier") a) "notifier"
        ≡ false
  unfolding selected
  disconnected a =
      disconnect-is_connected client (config_of client m) none (some "notifier") "notifier" a

  -- However `send` of a Redis message ends, an adapter that it has made is left without a connection,
  -- and it returns replies only where there are some and all of them are truthy.
  pub redis_send-Closed : (w : W) → Closed (redis_send client m w)
  unfolding redis_send
  redis_send-Closed w =
      let start : Adapter C W = record { servers = []; world = w } in
      elim (Result-cases (load client (config_of client m) (some "notifier") start).0) [
        | inr (e, failed) ↦ rw (redis_send, failed) unmade
        | inl (u, made) ↦
            rw (redis_send, made) (closed (disconnected _) (λ d h. checked_write-eq-ok _ _ h))
      ]
