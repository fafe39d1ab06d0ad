-- ===== src/Sessions/Redis.antt =====
-- dwho/sessions/redis.py: RedisSessionBackend. The redis client is a parameter over the state `W` of
-- the server; `eval` runs the script of `touch` at once, with no other command in between.
use dwho.Base.{
  ℕ, ◌*◌, String, Bool, true, false, Option, if◌then◌else◌, ok, ltb, max, ◌≡◌, ◌==◌, not, ◌≢◌,
}
use dwho.Base.Value.{Value, ℤ, pos, negsuc}
use dwho.Base.Exec.{Exec, pure, lift, ◌>>=◌}
use dwho.Sessions.Ttl.{check_ttl}
use dwho.Sessions.Backend.{Raw, SessionBackend}

pub record Client (W : Type 0) : Type 0 where
  -- SET key value EX seconds NX
  pub set_new : String → String → ℕ → Exec W Bool
  pub get : String → Exec W (Option Raw)
  pub delete : String → Exec W ℕ
  -- redis.call('PTTL', key): -2 for a key that is not there, -1 for one that does not expire.
  pub pttl : String → Exec W ℤ
  -- redis.call('PEXPIRE', key, milliseconds)
  pub pexpire : String → ℕ → Exec W (Unit {0})

-- current < requested, for a number of milliseconds from 0 on.
abbrev pub is_less : ℤ → ℕ → Bool
is_less (pos a) b = ltb a b
is_less (negsuc a) b = true

-- current == -2
abbrev pub is_missing : ℤ → Bool
is_missing (negsuc a) = a == 1
is_missing (pos a) = false

module _ {W : Type 0} (client : Client W) where
  pub set_expiry : String → ℕ → ℤ → Exec W (Unit {0})
  set_expiry key requested current =
      if is_less current requested then client.pexpire key requested else pure tt

  -- TOUCH_SCRIPT
  unfoldable pub touch_script : String → ℕ → Exec W ℕ
  unfolding set_expiry
  touch_script key seconds = do
    current ← client.pttl key
    let answer = set_expiry key (seconds * 1000) current >>= λ _. pure 1
    if is_missing current then pure 0 else answer

  unfoldable pub create : String → String → Value → Exec W Bool
  create key value ttl = lift (check_ttl ttl) >>= λ t. client.set_new key value t

  unfoldable pub read : String → Exec W (Option Raw)
  read key = client.get key

  unfoldable pub touch : String → Value → Exec W Bool
  touch key ttl = lift (check_ttl ttl) >>= λ t. (touch_script key t >>= λ n. pure (not (n == 0)))

  unfoldable pub delete : String → Exec W Bool
  delete key = client.delete key >>= λ n. pure (not (n == 0))

  abbrev pub redis_backend : SessionBackend W
  unfolding create read touch delete
  redis_backend = record { create = create; read = read; touch = touch; delete = delete }

-- What redis documents of PTTL and PEXPIRE, at one instant: `left` is the time that a key has left.
pub record IsServer {W : Type 0} (client : Client W) (left : W → String → ℤ) : Type 0 where
  pub pttl_left : (key : String) (w : W) → client.pttl key w ≡ (ok (left w key), w)
  pub pexpire_returns : (key : String) (ms : ℕ) (w : W) → (client.pexpire key ms w).0 ≡ ok tt
  pub pexpire_own :
      (key : String) (ms : ℕ) (w : W)
      → is_missing (left w key) ≡ false
      → left (client.pexpire key ms w).1 key ≡ pos ms
  pub pexpire_other :
      (key other : String) (ms : ℕ) (w : W)
      → key ≢ other
      → left (client.pexpire key ms w).1 other ≡ left w other

-- The longer of the two times; a key that does not expire gets the new one.
abbrev pub extended : ℤ → ℕ → ℤ
extended (pos a) ms = pos (max a ms)
extended (negsuc a) ms = pos ms
