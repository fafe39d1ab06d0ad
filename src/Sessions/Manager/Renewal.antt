-- ===== src/Sessions/Manager/Renewal.antt =====
-- dwho/sessions/__init__.py: `renew` never grants more than the idle time to live, and never
-- reaches past the absolute expiry of the session.
use dwho.Base.{
  ℕ, ◌+◌, ◌-◌, ◌*◌, ◌/◌, ◌≤◌, ◌≡◌, refl, String, true, Option, none, some, arith, ok, min,
  Result-cases, inl, inr,
}
use dwho.Base.Value.{ℤ, pos, negsuc, int, str}
use dwho.Base.Exec.{bind-eq-ok}
use dwho.Sessions.Clock.{now, second}
use dwho.Sessions.Backend.{SessionBackend}
use dwho.Sessions.Manager.{
  Libraries, Manager, World, Session, SessionGrant, expiry, key_of, read, renew_at, renew_session,
  renew_found, renew,
}

-- A time that is not after an expiry.
abbrev pub IsWithin : ℕ → ℤ → Type 0
IsWithin t (pos e) = t ≤ e
IsWithin t (negsuc e) = ⊥

module _ (lib : Libraries) {S : Type 0} (backend : SessionBackend S) (m : Manager) where
  -- What a renewal at `t` of a session that expires at `e` for good has granted, and that the
  -- backend in state `s` has accepted it.
  pub record Renewed (key token : String) (session : Session) (e : ℤ) (t : ℕ) (s : S)
      (g : SessionGrant) : Type 0 where
    pub ttl : ℕ
    pub same_token : g.token ≡ token
    pub same_session : g.session ≡ session
    pub at_least_a_second : 1 ≤ ttl
    pub at_most_idle : ttl ≤ m.idle_ttl
    pub expires : g.expires_at ≡ t + ttl * second
    pub within_absolute : IsWithin g.expires_at e
    pub accepted : (backend.touch key (int (pos ttl)) s).0 ≡ ok true

  renew_at-Renewed :
      (key token : String) (session : Session) (e : ℤ) (t : ℕ) (w : World S) {g : SessionGrant}
      {w' : World S}
      → renew_at lib backend m key token session e t w ≡ (ok (some g), w')
      → Renewed key token session e t w.store g
  unfolding renew_at
  renew_at-Renewed key token session (pos e) t w h = record {
    ttl = min m.idle_ttl ((e - t) / second);
    same_token = ground arith;
    same_session = ground arith;
    at_least_a_second = ground arith;
    at_most_idle = ground arith;
    expires = ground arith;
    within_absolute = ground arith;
    accepted = ground arith;
  }
  renew_at-Renewed key token session (negsuc e) t w h = absurd (ground arith)

  -- The grant `g` renews what `read` found in the world `w` under the token.
  pub record RenewedFrom (token : String) (w : World S) (g : SessionGrant) : Type 0 where
    pub key : String
    pub session : Session
    pub absolute : ℤ
    pub keyed : key_of lib backend m (str token) ≡ some key
    pub found : (read lib backend m (str token) w).0 ≡ ok (some session)
    pub expires_for_good : expiry session.absolute_expires_at ≡ ok absolute
    pub renewed :
        Renewed key token session absolute
          (now (read lib backend m (str token) w).1.clock)
          (read lib backend m (str token) w).1.store
          g

  renew_found-RenewedFrom :
      (token : String) (w : World S) (k : Option String) (found : Option Session) {g : SessionGrant}
      {w' : World S}
      → key_of lib backend m (str token) ≡ k
      → (read lib backend m (str token) w).0 ≡ ok found
      → renew_found lib backend m token k found (read lib backend m (str token) w).1
        ≡ (ok (some g), w')
      → RenewedFrom token w g
  unfolding renew_found renew_session
  renew_found-RenewedFrom token w (some key) (some session) {g} {w'} ek er h =
      elim (Result-cases (expiry session.absolute_expires_at)) [
        | inl (e, valid) ↦ record {
          key = key;
          session = session;
          absolute = e;
          keyed = ek;
          found = er;
          expires_for_good = valid;
          renewed = renew_at-Renewed key token session e _ _ (rw valid at h);
        }
        | inr (x, bad) ↦ absurd (ground arith)
      ]
  renew_found-RenewedFrom token w none _ ek er h = absurd (ground arith)
  renew_found-RenewedFrom token w (some key) none ek er h = absurd (ground arith)

  -- A grant of `renew` is for the session that `read` finds for the token. Its new idle time to
  -- live, in whole seconds from the next time of the clock, is at least one second, at most the
  -- idle time to live of the manager, and ends no later than the absolute expiry of the session.
  -- The backend has accepted that time to live for the key of the token.
  pub renew-RenewedFrom :
      (token : String) (w : World S) {g : SessionGrant} {w' : World S}
      → renew lib backend m (str token) w ≡ (ok (some g), w')
      → RenewedFrom token w g
  unfolding renew
  renew-RenewedFrom token w h =
      let (found, e, h') = bind-eq-ok (read lib backend m (str token)) _ w h in
      renew_found-RenewedFrom token w (key_of lib backend m (str token)) found refl e h'
