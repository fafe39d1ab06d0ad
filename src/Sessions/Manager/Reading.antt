-- ===== src/Sessions/Manager/Reading.antt =====
-- dwho/sessions/__init__.py: what `read` returns.
use dwho.Base.{◌≡◌, String, Bool, true, false, none, some, arith, ok}
use dwho.Base.Value.{Value, ℤ}
use dwho.Sessions.Clock.{now, tick}
use dwho.Sessions.Backend.{SessionBackend, Raw}
use dwho.Sessions.Manager.{
  Libraries, Manager, World, Session, is_subject, is_dict, expiry, reached, key_of, load, expire,
  read_key, read,
}

module _ (lib : Libraries) {S : Type 0} (backend : SessionBackend S) (m : Manager) where
  -- The session `s` stands in the backend of `w` under the token, well formed and not expired at
  -- the next time of the clock.
  pub record Live (token : Value) (w : World S) (s : Session) : Type 0 where
    pub key : String
    pub raw : Raw
    pub absolute : ℤ
    pub keyed : key_of lib backend m token ≡ some key
    pub stored : (backend.read key w.store).0 ≡ ok (some raw)
    pub loaded : load lib backend m raw ≡ ok (s, absolute)
    pub subject : is_subject s.subject ≡ true
    pub contents : is_dict s.contents ≡ true
    pub expires : expiry s.absolute_expires_at ≡ ok absolute
    pub unexpired : reached absolute (now w.clock) ≡ false

  -- A session in the backend that loads and has expired for good by the next time of the clock is
  -- deleted from the backend, and `read` returns `None`.
  pub read-expired :
      (token : Value) (w : World S) (key : String) (raw : Raw) (s : Session) (e : ℤ) (b : Bool)
      (s1 s2 : S)
      → key_of lib backend m token ≡ some key
      → backend.read key w.store ≡ (ok (some raw), s1)
      → load lib backend m raw ≡ ok (s, e)
      → reached e (now w.clock) ≡ true
      → backend.delete key s1 ≡ (ok b, s2)
      → read lib backend m token w ≡ (ok none, record w { store = s2; clock = tick w.clock })
  unfolding read read_key expire
  read-expired token w key raw s e b s1 s2 ek er el gone ed = ground arith
