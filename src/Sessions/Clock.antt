-- ===== src/Sessions/Clock.antt =====
-- The injected `clock` callable: each call reads the next of a sequence of times in microseconds,
-- of which nothing is assumed (`time.time` may be set back).
use dwho.Base.{ℕ, ◌+◌, ◌<◌, ◌≤◌}

-- A second, in the unit of the clock.
abbrev pub second : ℕ
second = 1000000

pub record Clock : Type 0 where
  pub readings : ℕ → ℕ
  pub taken : ℕ

-- The value of the next call, and the clock after it.
abbrev pub now : Clock → ℕ
now c = c.readings c.taken

abbrev pub tick : Clock → Clock
tick c = record c { taken = c.taken + 1 }

-- `t` is not before any time that was read so far.
pub record Follows (c : Clock) (t : ℕ) : Type 0 where
  pub at : (i : ℕ) → i < c.taken → c.readings i ≤ t
