-- ===== src/Abstract/Params.antt =====
-- dwho/classes/abstract.py: `_build_params_dict`, which changes a dict by a list of elements whose
-- keys carry modifiers. Substitution by a regular expression and Python's `==` of values are outside.
use Prim.Native.Char.{code}
use dwho.Base.{
  ℕ, ◌||◌, ◌==◌, String, Bool, true, false, none, some, List, [], ◌∷◌, if◌then◌else◌, Result, ok,
  raise, type_error, foreign, ◌>>=◌, str_eq,
}
use dwho.Base.Value.{
  Value, Fields, end, field, null, str, list, dict, get_field, get_or, put_field, truthy, items,
  dict_or_empty,
}
use dwho.Base.Text.{codes, is_space}

-- [\+\-~=%]
abbrev is_modifier : ℕ → Bool
is_modifier c = c == b'+' || c == b'-' || c == b'~' || c == b'=' || c == b'%'

-- The longest run of modifiers at the front, and the rest.
abbrev modifier_run : String → String × String
modifier_run String.[] = (String.[], String.[])
modifier_run (String.◌∷◌ c s) =
    let (run, rest) = modifier_run s in
    if is_modifier (code c) then (String.◌∷◌ c run, rest) else (String.[], String.◌∷◌ c s)

-- A run, a space and a key; otherwise the whole name is the key, and the modifier is a '+'.
abbrev keyed : String → String → String → String × String
keyed name (String.◌∷◌ m run) (String.◌∷◌ c (String.◌∷◌ k key)) =
    if is_space (code c) then (String.◌∷◌ m run, String.◌∷◌ k key) else ("+", name)
keyed name run rest = ("+", name)

-- _PARAMS_DICT_MODIFIERS_MATCH, of a name without line ends: the modifiers and the key
unfoldable pub match_modifiers : String → String × String
match_modifiers name = let (run, rest) = modifier_run name in keyed name run rest

abbrev has_code : ℕ → List ℕ → Bool
has_code c [] = false
has_code c (d ∷ ds) = c == d || has_code c ds

abbrev erase_field : String → Fields → Fields
erase_field k end = end
erase_field k (field j v d) =
    let rest = erase_field k d in if str_eq j k then rest else field j v rest

abbrev is_null : Value → Bool
is_null null = true
is_null _ = false

pub record Helper : Type 0 where
  -- `_param_regex`, of the arguments and the value
  pub regex : Value → Value → Result Value
  pub equals : Value → Value → Bool
  -- The key that a value which is no text, list or dict stands for.
  pub key_of : Value → String

abbrev default_of : Value → Result Value
default_of (dict args) = let v = get_or "default" null args in ok (if truthy v then v else str "")
default_of _ = raise (foreign 0)

module _ (helper : Helper) where
  -- r[v] = old; a list or a dict cannot be a key
  copy_to : Value → Value → Fields → Result Fields
  copy_to (str k) old r = ok (put_field k old r)
  copy_to (list _) old r = raise type_error
  copy_to (dict _) old r = raise type_error
  copy_to v old r = ok (put_field (helper.key_of v) old r)

  remove_param : String → Value → Fields → Fields
  remove_param key v r = elim (get_field key r) [
    | none ↦ r
    | some old ↦ if is_null v || helper.equals v old then erase_field key r else r
  ]

  substitute_param : String → Value → Fields → Result Fields
  substitute_param key args r =
      elim (get_field key r) [ none ↦ default_of args | some old ↦ helper.regex args old ] >>= λ v.
      ok (put_field key v r)

  copy_param : String → Value → Fields → Result Fields
  copy_param key v r = elim (get_field key r) [ none ↦ ok r | some old ↦ copy_to v old r ]

  -- One element, by its name and what it gives. The modifiers never hold a brace.
  unfoldable pub apply_param : String → Value → Fields → Result Fields
  unfolding remove_param substitute_param copy_param copy_to
  apply_param name v r =
      let (modifiers, key) = match_modifiers name in
      let ms = codes modifiers in
      if has_code b'+' ms
      then ok (put_field key v r)
      else if has_code b'-' ms
      then ok (remove_param key v r)
      else if has_code b'~' ms
      then substitute_param key v r
      else if has_code b'=' ms
      then copy_param key v r
      else ok r

  -- An element of the list: the first pair of a dict.
  unfoldable pub apply_element : Value → Fields → Result Fields
  apply_element (dict (field name v rest)) r = apply_param name v r
  apply_element (dict end) r = raise (foreign 1)
  apply_element _ r = raise (foreign 0)

  -- The loop over the elements.
  unfoldable pub build_params : List Value → Fields → Result Fields
  build_params [] r = ok r
  build_params (elt ∷ elts) r = apply_element elt r >>= λ r'. build_params elts r'

  -- `_build_params_dict`, of its list, and of the dict that it changes
  unfoldable pub build_params_dict : Value → Value → Result Fields
  build_params_dict (list elts) r = build_params (items elts) (dict_or_empty r)
  build_params_dict cfg r = ok (dict_or_empty r)
