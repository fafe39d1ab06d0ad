-- ===== src/Notifiers/Acknowledged.antt =====
-- dwho/classes/notifiers.py: the replies that `send` returns.
use dwho.Base.{
  ℕ, ◌+◌, String, true, Option, none, some, List, [], ◌∷◌, if◌then◌else◌, all, ◌≡◌, str_eq, length,
}
use dwho.Base.Dict.{Dict, lookup}
use dwho.Base.Value.{Value, truthy}
use dwho.Notifiers.{Registry, Push}
use dwho.Notifiers.Delivery.{handlers_of}
use dwho.Notifiers.Running.{Outside}

abbrev or_none : Option (List Value) → List Value
or_none none = []
or_none (some vs) = vs

-- The replies of a name.
abbrev pub replies : String → Dict (List Value) → List Value
replies name r = or_none (lookup name r)

-- The later dict has `n m` replies more of each name `m`, and all new ones are truthy.
record Grows (n : String → ℕ) (r r' : Dict (List Value)) : Type 0 where
  counted : (m : String) → length (replies m r') ≡ n m + length (replies m r)
  acknowledged : (m : String) → all truthy (replies m r) ≡ true → all truthy (replies m r') ≡ true

abbrev only : String → ℕ → String → ℕ
only name n m = if str_eq name m then n else 0

module _ {H W : Type 0} (outside : Outside H W) (registry : Registry H) where
  -- The notifiers of a name.
  unfoldable pub handler_count : Push → String → ℕ
  handler_count p name = elim (lookup name p.notifications) [
    | none ↦ 0
    | some n ↦ length (handlers_of registry n)
  ]

  -- The replies that are due for a name when these names are sent to.
  unfoldable pub due : Push → List String → String → ℕ
  due p [] m = 0
  due p (name ∷ names) m = due p names m + (if str_eq name m then handler_count p name else 0)
