-- ===== src/Notifiers/Delivery.antt =====
-- dwho/classes/notifiers.py: which notifications are selected, and how they are run, at once and
-- strictly by `send`, or leniently by a call.
use dwho.Base.{
  ◌&&◌, ◌||◌, not, String, Bool, true, false, none, some, List, [], ◌∷◌, if◌then◌else◌, Result, ok,
  raise, value_error, type_error, not_implemented, all, ◌>>=◌ as and_then,
}
use dwho.Base.Dict.{lookup, is_in}
use dwho.Base.Value.{Value, cons, str, list, null, bool, items, truthy, get_or}
use dwho.Base.Text.{codes}
use dwho.Notifiers.{
  Registry, handlers_in, is_tag, add_tag, parse_tags, Notification, Push, general_of,
}

-- notification['notifiers']
unfoldable pub handlers_of : {H : Type 0} → Registry H → Notification → List H
handlers_of registry n = elim n.scheme [ none ↦ [] | some s ↦ handlers_in (lookup s registry) ]

abbrev pub intersects : List String → List String → Bool
intersects [] ts = false
intersects (t ∷ us) ts = is_in t ts || intersects us ts

-- The tag rule of `_select`, for the tags asked for and those of the notification.
unfoldable pub is_picked : List String → List String → Bool
is_picked tags own =
    is_in "always" own || (is_in "all" tags && is_in "never" own) || intersects tags own

module _ {H : Type 0} (registry : Registry H) (implements_send : H → Bool) where
  -- The checks of a strict selection on the notifiers of a notification.
  unfoldable pub check_handlers : List H → Result (Unit {0})
  check_handlers [] = raise value_error
  check_handlers (h ∷ hs) = if all implements_send (h ∷ hs) then ok tt else raise not_implemented

  unfoldable pub select_tagged : Bool → List String → Notification → List String → Result Bool
  select_tagged strict tags n own =
      if is_picked tags own
      then (if strict
          then and_then (check_handlers (handlers_of registry n)) (λ _. ok true)
          else ok true)
      else ok false

  unfoldable pub select_known : Bool → List String → Notification → Result Bool
  select_known strict tags n = and_then (general_of n.cfg) (λ general.
      if truthy (get_or "enabled" (bool true) general)
      then elim n.tags [ none ↦ raise type_error | some own ↦ select_tagged strict tags n own ]
      else ok false)

  -- One turn of the loop of `_select`.
  unfoldable pub select_one : Bool → Push → List String → String → Result Bool
  select_one strict p tags name = elim (lookup name p.notifications) [
    | none ↦ if strict then raise value_error else ok false
    | some n ↦ select_known strict tags n
  ]

  unfoldable pub select_names : Bool → Push → List String → List String → Result (List String)
  select_names strict p tags [] = ok []
  select_names strict p tags (name ∷ names) = and_then (select_one strict p tags name) (λ chosen.
      and_then (select_names strict p tags names)
        (λ rest. ok (if chosen then name ∷ rest else rest)))

  abbrev pub nonempty : List String → Result (List String)
  nonempty [] = raise value_error
  nonempty (n ∷ ns) = ok (n ∷ ns)

  -- `_select`
  unfoldable pub select : Bool → Push → List String → List String → Result (List String)
  select strict p tags names =
      and_then (select_names strict p tags names) (λ sel. if strict then nonempty sel else ok sel)

-- if any(not isinstance(tag, string_types) or not STRICT_TAGS.match(tag) for tag in tags)
abbrev pub are_tags : List Value → Bool
are_tags [] = true
are_tags (str s ∷ vs) = is_tag (codes s) && are_tags vs
are_tags (_ ∷ vs) = false

abbrev pub tag_set : List Value → List String → List String
tag_set [] r = r
tag_set (str s ∷ vs) r = tag_set vs (add_tag s r)
tag_set (_ ∷ vs) r = tag_set vs r

abbrev pub is_null : Value → Bool
is_null null = true
is_null _ = false

-- The names of a list, all of which are texts here.
abbrev pub text_items : List Value → List String
text_items [] = []
text_items (str s ∷ vs) = s ∷ text_items vs
text_items (_ ∷ vs) = text_items vs

module _ (has_len : Value → Bool) where
  abbrev pub strict_tags : Value → Result (List String)
  strict_tags (list vs) =
      if truthy (list vs) && are_tags (items vs)
      then ok (tag_set (items vs) [])
      else raise value_error
  strict_tags _ = raise value_error

  -- The tags that `_run` goes by.
  unfoldable pub run_tags : Bool → Value → Result (List String)
  run_tags strict tags =
      if strict && not (is_null tags) then strict_tags tags else parse_tags has_len tags

  abbrev is_name_argument : Value → Bool
  is_name_argument (str s) = truthy (str s)
  is_name_argument (list vs) = truthy (list vs)
  is_name_argument _ = false

  abbrev listed_names : Value → List String → List String
  listed_names (list (cons v vs)) known = text_items (v ∷ items vs)
  listed_names _ known = known

  abbrev one_name : Value → List String → List String
  one_name (str s) known = s ∷ []
  one_name v known = listed_names v known

  -- The names that `_run` goes by: those asked for, or all that are loaded.
  unfoldable pub run_names : Bool → Value → List String → Result (List String)
  run_names strict names known =
      if strict && not (is_null names) && not (is_name_argument names)
      then raise value_error
      else ok (if has_len names then one_name names known else listed_names names known)
