-- ===== src/Notifiers/Environment.antt =====
-- dwho/classes/notifiers.py: the variables of a notification in the environment that the template and
-- the configuration of a subprocess notifier make.
use dwho.Base.{◌≡◌, String, false, none, List, [], ◌∷◌, All, str_eq}
use dwho.Base.Value.{Value, Fields, end, field, get_field}
use dwho.Notifiers.Subprocess.{Shell}

-- No key twice: true of every dict.
abbrev pub IsDistinct : Fields → Type 0
IsDistinct end = Unit
IsDistinct (field k v d) = (get_field k d ≡ none) × IsDistinct d

module _ {W : Type 0} (shell : Shell W) where
  -- The keys of these entries are not the key.
  abbrev Without : String → List (String × String) → Type 0
  Without key = All (λ entry. str_eq entry.0 key ≡ false)

  -- No entry has the key of a later one.
  abbrev AreApart : List (String × String) → Type 0
  AreApart [] = Unit
  AreApart ((k, name) ∷ rest) = Without k rest × AreApart rest
