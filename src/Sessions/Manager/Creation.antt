-- ===== src/Sessions/Manager/Creation.antt =====
-- dwho/sessions/__init__.py: what a grant of `create` stands for.
use dwho.Base.{
  ap, sym, ◌∙◌, ℕ, zero, suc, ◌+◌, ◌*◌, ◌≤◌, ◌≡◌, String, true, false, some, arith, ok,
  Option-cases, Bool-cases, inl, inr, Result-cases,
}
use dwho.Base.Value.{Value, Fields, int, pos, str}
use dwho.Sessions.Clock.{now, tick, second}
use dwho.Sessions.Backend.{SessionBackend}
use dwho.Sessions.Manager.{
  Libraries, Manager, World, Session, SessionGrant, is_subject, data_fields, key_of, try_create,
  allocate, encode, decode_session, create,
}

module _ (lib : Libraries) {S : Type 0} (backend : SessionBackend S) (m : Manager) where
  -- `g` was allocated in `n` draws at most, the last of which the backend accepted.
  pub record Allocated (n : ℕ) (value : String) (session : Session) (created : ℕ) (w : World S)
      (g : SessionGrant) (w' : World S) : Type 0 where
    pub key : String
    pub before : S
    pub keyed : key_of lib backend m (str g.token) ≡ some key
    pub accepted : backend.create key value (int (pos m.idle_ttl)) before ≡ (ok true, w'.store)
    pub same_session : g.session ≡ session
    pub expires : g.expires_at ≡ created + m.idle_ttl * second
    pub same_clock : w'.clock ≡ w.clock
    pub draws : w'.drawn ≤ w.drawn + n

  allocate-Allocated :
      (n : ℕ) (value : String) (session : Session) (created : ℕ) (w : World S) {g : SessionGrant}
      {w' : World S}
      → allocate lib backend m n value session created w ≡ (ok g, w')
      → Allocated n value session created w g w'
  unfolding allocate try_create
  allocate-Allocated zero value session created w h = absurd (ground arith)
  allocate-Allocated (suc n) value session created w {g} {w'} h =
      elim (Option-cases (key_of lib backend m (str (lib.token w.drawn)))) [
        | inl out ↦ absurd (ground arith)
        | inr (key, ek) ↦
            let call = backend.create key value (int (pos m.idle_ttl)) w.store in
            elim (Result-cases call.0) [
              | inr (x, bad) ↦ absurd (ground arith)
              | inl (true, er) ↦ record {
                key = key;
                before = w.store;
                keyed = ground arith;
                accepted = ground arith;
                same_session = ground arith;
                expires = ground arith;
                same_clock = ground arith;
                draws = ground arith;
              }
              | inl (false, er) ↦
                  let w1 : World S = record w { drawn = w.drawn + 1; store = call.1 } in
                  let h1 : allocate lib backend m n value session created w1 ≡ (ok g, w') =
                    ground arith in
                  let rest = allocate-Allocated n value session created w1 h1 in
                  record {
                    key = rest.key;
                    before = rest.before;
                    keyed = rest.keyed;
                    accepted = rest.accepted;
                    same_session = rest.same_session;
                    expires = rest.expires;
                    same_clock = rest.same_clock;
                    draws = omega (arith, rest.draws);
                  }
            ]
      ]

  -- What `create` in the world `w` has checked and done when it returns `g`.
  pub record Granted (subject contents : Value) (w : World S) (g : SessionGrant) (w' : World S)
      : Type 0 where
    pub entries : Fields
    pub value : String
    pub valid_subject : is_subject subject ≡ true
    pub valid_contents : data_fields lib backend m contents ≡ ok entries
    pub encoded : encode lib backend m subject entries (now w.clock) ≡ ok value
    pub decoded : decode_session lib backend m value ≡ ok g.session
    pub allocated :
        Allocated 3 value g.session (now w.clock) (record w { clock = tick w.clock }) g w'

  pub create-Granted :
      (subject contents : Value) (w : World S) {g : SessionGrant} {w' : World S}
      → create lib backend m subject contents w ≡ (ok g, w')
      → Granted subject contents w g w'
  unfolding create
  create-Granted subject contents w {g} {w'} h = elim (Bool-cases (is_subject subject)) [
    | inr bad ↦ absurd (ground arith)
    | inl good ↦ elim (Result-cases (data_fields lib backend m contents)) [
      | inr (x, bad) ↦ absurd (ground arith)
      | inl (d, ed) ↦ elim (Result-cases (encode lib backend m subject d (now w.clock))) [
        | inr (x, bad) ↦ absurd (ground arith)
        | inl (value, ev) ↦ elim (Result-cases (decode_session lib backend m value)) [
          | inr (x, bad) ↦ absurd (ground arith)
          | inl (session, es) ↦
              let w1 : World S = record w { clock = tick w.clock } in
              let h1 : allocate lib backend m 3 value session (now w.clock) w1 ≡ (ok g, w') =
                ground arith in
              let done = allocate-Allocated 3 value session (now w.clock) w1 h1 in
              let same : ok session ≡ ok g.session =
                ap (λ (x : Session). ok x) (sym done.same_session) in
              record {
                entries = d;
                value = value;
                valid_subject = good;
                valid_contents = ed;
                encoded = ev;
                decoded = es ∙ same;
                allocated = rw (← done.same_session) at done;
              }
        ]
      ]
    ]
  ]
