-- ===== src/Tests/RedisSessions.antt =====
-- The Redis session backend at concrete inputs, over a server that keeps the times left.
use dwho.Base.{String, true, none, ok, if◌then◌else◌, str_eq}
use dwho.Base.Value.{ℤ, pos, negsuc}
use dwho.Sessions.Redis.{Client}

abbrev Server : Type 0
Server = String → ℤ

abbrev server : Client Server
server = record {
  set_new = λ key value seconds w. (ok true, λ k. if str_eq key k then pos (seconds) else w k);
  get = λ key w. (ok none, w);
  delete = λ key w. (ok 0, w);
  pttl = λ key w. (ok (w key), w);
  pexpire = λ key ms w. (ok tt, λ k. if str_eq key k then pos ms else w k);
}

-- Nine seconds left, and a key that is not there.
abbrev held : Server
held = λ k. if str_eq k "s" then pos 9000 else negsuc 1
