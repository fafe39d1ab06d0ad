-- ===== src/Sessions/Ttl.antt =====
-- dwho/sessions/__init__.py: the shared check of a time to live.
use dwho.Base.{ℕ, ◌≤◌, ◌*◌, ◌&&◌, leb, arith, ◌≡◌, if◌then◌else◌, Result, ok, raise, value_error}
use dwho.Base.Value.{Value, int, pos}

-- MAX_TTL
abbrev pub max_ttl : ℕ
max_ttl = 366 * 24 * 60 * 60

-- `_ttl`: an `int` that is no `bool`, in range.
unfoldable pub check_ttl : Value → Result ℕ
check_ttl (int (pos n)) = if leb 1 n && leb n max_ttl then ok n else raise value_error
check_ttl _ = raise value_error

pub check_ttl_range :
    (v : Value) {n : ℕ} → check_ttl v ≡ ok n → (v ≡ int (pos n)) × (1 ≤ n) × (n ≤ max_ttl)
unfolding check_ttl
check_ttl_range (int (pos n)) h = ground arith
check_ttl_range _ h = ground arith
