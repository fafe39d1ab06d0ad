-- ===== src/Sessions/Manager/RoundTrip.antt =====
-- dwho/sessions/__init__.py over dwho/sessions/memory.py: a session that was created is read back
-- and a revoked one is not.
use dwho.Base.{
  ap, sym, ◌∙◌, ℕ, ◌+◌, ◌*◌, ◌≤◌, ◌<◌, ◌≡◌, refl, String, true, none, some, List, [], ◌∷◌, arith,
  ok, Option-cases, inl, inr, length, eq_refl,
}
use dwho.Base.Dict.{lookup, erase, lookup-erase}
use dwho.Base.Value.{Value, Fields, int, pos, str, dict, float, finite}
use dwho.Base.Text.{codes, utf8_length}
use dwho.Sessions.Ttl.{check_ttl}
use dwho.Sessions.Clock.{now, tick, second}
use dwho.Sessions.Backend.{text, memory_backend}
use dwho.Sessions.Memory
use dwho.Sessions.Memory.{Memory, read_entry, delete}
use dwho.Sessions.Memory.Contract.{last, create-lookup}
use dwho.Sessions.Manager.{
  Libraries, Manager, World, Session, SessionGrant, is_subject, record_of, data_fields, key_of,
  encode, decode_session, session_of, valid_expiry, expiry, load, expire, read_key, create, read,
  revoke, max_data_bytes,
}
use dwho.Sessions.Manager.Creation.{create-Granted}

length-le-utf8_length : (cs : List ℕ) → length cs ≤ utf8_length cs
length-le-utf8_length [] = omega arith
length-le-utf8_length (c ∷ cs) = ground (arith, length-le-utf8_length cs)

module _ (lib : Libraries) (m : Manager) where
  encode-eq-ok :
      (subject : Value) (d : Fields) (t : ℕ) {value : String}
      → encode lib memory_backend m subject d t ≡ ok value
      → (lib.dumps (record_of subject d t (t + m.absolute_ttl * second)) ≡ ok value)
        × (utf8_length (codes value) ≤ max_data_bytes)
  unfolding encode
  encode-eq-ok subject d t h = ground arith

  abbrev pub session_at : Value → Fields → ℕ → Session
  session_at subject d t = record {
    subject = subject;
    contents = dict d;
    created_at = float (finite (pos t));
    absolute_expires_at = float (finite (pos (t + m.absolute_ttl * second)));
  }

  decode-session_at :
      (subject : Value) (d : Fields) (t : ℕ) (value : String)
      → lib.loads value ≡ ok (record_of subject d t (t + m.absolute_ttl * second))
      → decode_session lib memory_backend m value ≡ ok (session_at subject d t)
  unfolding decode_session session_of
  decode-session_at subject d t value h = rw h refl

  load-session_at :
      (subject : Value) (d : Fields) (t : ℕ) (value : String)
      → is_subject subject ≡ true
      → utf8_length (codes value) ≤ max_data_bytes
      → decode_session lib memory_backend m value ≡ ok (session_at subject d t)
      → load lib memory_backend m (text value)
        ≡ ok (session_at subject d t, pos (t + m.absolute_ttl * second))
  unfolding load valid_expiry expiry
  load-session_at subject d t value good small dec =
      ground (arith, length-le-utf8_length (codes value))

  memory_read :
      (key value : String) (e : ℕ) (s : Memory)
      → lookup key s.values ≡ some (value, e)
      → now s.clock < e
      → memory_backend.read key s ≡ (ok (some (text value)), record s { clock = tick s.clock })
  unfolding Memory.read read_entry
  memory_read key value e s hit early = ground arith

  read-stored :
      (token key value : String) (session : Session) (e a : ℕ) (w : World Memory)
      → key_of lib memory_backend m (str token) ≡ some key
      → lookup key w.store.values ≡ some (value, e)
      → load lib memory_backend m (text value) ≡ ok (session, pos a)
      → now w.store.clock < e
      → now w.clock < a
      → (read lib memory_backend m (str token) w).0 ≡ ok (some session)
  unfolding read read_key expire
  read-stored token key value session e a w ek hit el idle early =
      ground (arith, memory_read key value e w.store hit idle)

  -- What `create` grants over the in-process backend, `read` returns at once: under the granted
  -- token it gives the granted session, whose subject is the one asked for, provided that neither
  -- the idle time to live (by the next time of the backend's clock) nor the absolute one (by the
  -- next time of the manager's) is over. It is assumed that the manager was built with a valid idle
  -- time to live, and that the JSON text of the record decodes to the record.
  pub read-create :
      (subject contents : Value) (d : Fields) (w w' : World Memory) (g : SessionGrant)
      → data_fields lib memory_backend m contents ≡ ok d
      → ((s : String)
          → lib.dumps (record_of subject d (now w.clock) (now w.clock + m.absolute_ttl * second))
            ≡ ok s
          → lib.loads s
            ≡ ok (record_of subject d (now w.clock) (now w.clock + m.absolute_ttl * second)))
      → check_ttl (int (pos m.idle_ttl)) ≡ ok m.idle_ttl
      → create lib memory_backend m subject contents w ≡ (ok g, w')
      → now w'.store.clock < last w'.store.clock + m.idle_ttl * second
      → now w'.clock < now w.clock + m.absolute_ttl * second
      → ((read lib memory_backend m (str g.token) w').0 ≡ ok (some g.session))
        × (g.session.subject ≡ subject)
  read-create subject contents d w w' g ed json valid h idle early =
      let made = create-Granted lib memory_backend m subject contents w h in
      let put = made.allocated in
      let t = now w.clock in
      let same_ok : ok made.entries ≡ ok d = sym made.valid_contents ∙ ed in
      let same_fields : made.entries ≡ d = ground arith in
      let (dumped, small) = encode-eq-ok subject d t (rw same_fields at made.encoded) in
      let dec = decode-session_at subject d t made.value (json made.value dumped) in
      let same : ok g.session ≡ ok (session_at subject d t) = sym made.decoded ∙ dec in
      let same' : g.session ≡ session_at subject d t = ground arith in
      let loaded = load-session_at subject d t made.value made.valid_subject small dec in
      let hit =
        create-lookup put.key made.value (int (pos m.idle_ttl)) m.idle_ttl put.before valid
          (ap (λ p. p.0) put.accepted) in
      let found =
        read-stored g.token put.key made.value (session_at subject d t) _ _ w' put.keyed
          (rw put.accepted at hit) loaded idle early in
      (found ∙ ap (λ (s : Session). ok (some s)) (sym same'), ap (λ (s : Session). s.subject) same')

  read-absent :
      (key : String) (s : Memory)
      → lookup key s.values ≡ none
      → memory_backend.read key s ≡ (ok none, s)
  unfolding Memory.read read_entry
  read-absent key s h = ground arith

  -- Whatever the token and the state, once `revoke` has run on it over the in-process backend,
  -- `read` of the token returns `None`, and changes nothing more.
  pub read-revoke :
      (token : Value) (w : World Memory)
      → read lib memory_backend m token (revoke lib memory_backend m token w).1
        ≡ (ok none, (revoke lib memory_backend m token w).1)
  unfolding read revoke read_key delete
  read-revoke token w = elim (Option-cases (key_of lib memory_backend m token)) [
    | inl out ↦ rw (out, read, revoke)
    | inr (key, ek) ↦ ground (
      arith,
      ek,
      lookup-erase key key w.store.values,
      eq_refl key,
      read-absent key (record w.store { values = erase key w.store.values }),
    )
  ]
