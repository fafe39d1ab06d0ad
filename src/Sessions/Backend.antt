-- ===== src/Sessions/Backend.antt =====
-- dwho/sessions/__init__.py: `SessionBackend`, the storage interface, over the state `S` that a
-- backend keeps; and the in-process backend as a value of it.
use mathlib.Core.Option
use dwho.Base.{ℕ, String, Bool, Option, List, Result, ok, raise}
use dwho.Base.Value.{Value}
use dwho.Sessions.Memory
use dwho.Sessions.Memory.{Memory}

-- A stored value comes back as text, or as undecoded bytes.
pub data Raw : Type 0 where
  text : String → Raw
  encoded : List ℕ → Raw

pub record SessionBackend (S : Type 0) : Type 0 where
  pub create : String → String → Value → S → Result Bool × S
  pub read : String → S → Result (Option Raw) × S
  pub touch : String → Value → S → Result Bool × S
  pub delete : String → S → Result Bool × S

abbrev pub as_text : Result (Option String) × Memory → Result (Option Raw) × Memory
as_text (ok o, m) = (ok (Option.map text o), m)
as_text (raise e, m) = (raise e, m)

abbrev pub memory_backend : SessionBackend Memory
memory_backend = record {
  create = Memory.create;
  read = λ key m. as_text (Memory.read key m);
  touch = Memory.touch;
  delete = Memory.delete;
}
