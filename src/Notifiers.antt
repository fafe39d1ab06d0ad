-- ===== src/Notifiers.antt =====
-- dwho/classes/notifiers.py: the registry of notifiers, tags, and the notifications that a process
-- has loaded. `H` is the type of a notifier object, `Delivery` runs the selected ones, and
-- `Handlers`, `Processes` and `Subprocess` are the notifiers of the library. Files, YAML and the splitting of URIs are outside.
pub mod Delivery
pub mod Running
pub mod Selection
pub mod Acknowledged
pub mod Handlers
pub mod Closing
pub mod Processes
pub mod Reaping
pub mod Subprocess
pub mod Environment
pub mod Loading
use dwho.Base.{
  ℕ, suc, ◌&&◌, ◌||◌, ◌==◌, leb, String, Bool, true, false, Option, none, some, List, [], ◌∷◌, ◌++◌,
  if◌then◌else◌, Result, ok, raise, value_error, type_error, key_error, not_implemented, foreign,
  ◌>>=◌, str_eq, length, is_some,
}
use dwho.Base.Dict.{Dict, lookup, insert, is_in}
use dwho.Base.Value.{
  Value, Items, Fields, end, field, str, list, dict, null, bool, int, float, bytes, object, items,
  truthy, get_or, get_field,
}
use dwho.Base.Text.{codes, is_digit, is_alpha, is_word, strip, lower}

-- What a method that None, a text or a list lacks raises.
abbrev pub attribute_error : ℕ
attribute_error = 0

-- NOTIFIERS: the notifier objects of each URI scheme
abbrev pub Registry : Type 0 → Type 0
Registry H = Dict (List H)

abbrev pub handlers_in : {H : Type 0} → Option (List H) → List H
handlers_in none = []
handlers_in (some hs) = hs

-- for scheme in schemes: ...
unfoldable pub register_all : {H : Type 0} → List String → H → Registry H → Registry H
register_all [] h r = r
register_all (s ∷ ss) h r =
    register_all ss h (insert (lower s) (handlers_in (lookup (lower s) r) ++ (h ∷ [])) r)

-- PARSE_TAGS and STRICT_TAGS, of a text without a line end behind it
abbrev is_alnum : ℕ → Bool
is_alnum c = is_alpha c || is_digit c

abbrev tag_rest : List ℕ → Bool
tag_rest [] = false
tag_rest (c ∷ []) = is_alnum c
tag_rest (c ∷ d ∷ cs) = (is_word c || c == b'-' || c == b'.') && tag_rest (d ∷ cs)

unfoldable pub is_tag : List ℕ → Bool
is_tag [] = false
is_tag (c ∷ cs) = is_alnum c && leb 2 (length cs) && leb (length cs) 30 && tag_rest cs

-- r.add(tag), for a set in the order of its first additions
abbrev pub add_tag : String → List String → List String
add_tag t r = if is_in t r then r else r ++ (t ∷ [])

-- helpers.has_len is outside: it tells whether a value is a text that is not empty.
module _ (has_len : Value → Bool) where
  -- One turn of the loop of `_parse_tags`; only a text can be stripped.
  unfoldable pub tag_of : Value → Result (Option String)
  tag_of (str s) =
      if has_len (str s) && is_tag (codes (strip s)) then ok (some (strip s)) else ok none
  tag_of v = if has_len v then raise (foreign attribute_error) else ok none

  unfoldable pub add_tags : List Value → List String → Result (List String)
  add_tags [] r = ok r
  add_tags (v ∷ vs) r = do t ← tag_of v; add_tags vs (elim t [ none ↦ r | some s ↦ add_tag s r ])

  abbrev or_all : List String → List String
  or_all [] = "all" ∷ []
  or_all (t ∷ ts) = t ∷ ts

  -- `_parse_tags`
  unfoldable pub parse_tags : Value → Result (List String)
  parse_tags (list vs) = do r ← add_tags (items vs) []; ok (or_all r)
  parse_tags _ = ok ("all" ∷ [])

-- self.notifications[name]. The notifiers are those of the scheme at the time of use, since the
-- registry's list is shared; none for a notification that was not loaded to its end.
pub record Notification : Type 0 where
  pub cfg : Value
  pub template : Option String
  pub tags : Option (List String)
  pub scheme : Option String

pub record Push : Type 0 where
  pub notifications : Dict Notification
  pub notif_names : List String

-- cfg['general'], where its `get` is called next
unfoldable pub general_of : Value → Result Fields
general_of (dict d) = elim (get_field "general" d) [
  | none ↦ raise key_error
  | some g ↦ elim g [ dict e ↦ ok e | _ ↦ raise (foreign attribute_error) ]
]
general_of _ = raise type_error

-- A `.yml` file of the directory: its name without the ending, and its content.
pub record ConfigFile : Type 0 where
  pub name : String
  pub content : Result Value

-- What `load` asks of the outside: the text of a template, if there is such a file, and the scheme
-- of a URI.
pub record Files : Type 0 where
  pub has_len : Value → Bool
  pub template : Value → Result (Option String)
  pub scheme : Value → Result String

abbrev pub unloaded : Value → Notification
unloaded cfg = record { cfg = cfg; template = none; tags = none; scheme = none }

unfoldable pub store : String → Notification → Push → Push
store name n p = record p { notifications = insert name n p.notifications }

abbrev item : String → Fields → Result Value
item k d = elim (get_field k d) [ none ↦ raise key_error | some v ↦ ok v ]

-- if cfg['general'].get('template') and os.path.isfile(...)
abbrev read_template : Files → Fields → Result (Option String)
read_template files general =
    if truthy (get_or "template" null general)
    then files.template (get_or "template" null general)
    else ok none

module _ {H : Type 0} (registry : Registry H) (files : Files) where
  abbrev check_scheme : Result String → Result String
  check_scheme (raise e) = raise e
  check_scheme (ok s) =
      if is_some (lookup (lower s) registry) then ok (lower s) else raise not_implemented

  -- The rest of the load of one file, once it stands in the dict: what each step writes, stays.
  unfoldable pub load_scheme : String → Fields → Notification → Push → Result (Unit {0}) × Push
  load_scheme name general n p =
      elim (item "uri" general >>= λ uri. check_scheme (files.scheme uri)) [
        | raise e ↦ (raise e, p)
        | ok s ↦ (ok tt, store name (record n { scheme = some s }) p)
      ]

  unfoldable pub load_template : String → Fields → Notification → Push → Result (Unit {0}) × Push
  unfolding load_scheme
  load_template name general n p = elim (read_template files general) [
    | raise e ↦ (raise e, p)
    | ok t ↦ let n' = record n { template = t } in load_scheme name general n' (store name n' p)
  ]

  unfoldable pub load_tags : String → Notification → Push → Result (Unit {0}) × Push
  unfolding load_template
  load_tags name n p = elim (general_of n.cfg) [
    | raise e ↦ (raise e, p)
    | ok general ↦ elim (parse_tags files.has_len (get_or "tags" null general)) [
      | raise e ↦ (raise e, p)
      | ok ts ↦
          let n' = record n { tags = some ts } in load_template name general n' (store name n' p)
    ]
  ]

  unfoldable pub load_file : ConfigFile → Push → Result (Unit {0}) × Push
  load_file f p = elim f.content [
    | raise e ↦ (raise e, p)
    | ok cfg ↦
        load_tags f.name (unloaded cfg)
          (store f.name (unloaded cfg) (record p { notif_names = add_tag f.name p.notif_names }))
  ]

  -- `load`, of the files of a directory
  unfoldable pub load : List ConfigFile → Push → Result (Unit {0}) × Push
  load [] p = (ok tt, p)
  load (f ∷ fs) p =
      let (r, p') = load_file f p in elim r [ raise e ↦ (raise e, p') | ok _ ↦ load fs p' ]

unfoldable pub reset : Push → Push
reset p = record { notifications = []; notif_names = [] }
