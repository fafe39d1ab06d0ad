-- ===== src/Extensions/Inoplugs.antt =====
-- dwho/classes/inoplugs.py: the state of an inotify plug-in and its `init`, and the destination of a
-- file that an event plug-in handles. Paths are lists of code points.
use dwho.Base.{
  ℕ, ◌==◌, String, Bool, true, false, Option, none, some, List, [], ◌∷◌, ◌++◌, if◌then◌else◌,
  Result, ok, raise, type_error, foreign, ◌>>=◌,
}
use dwho.Base.Text.{codes, prefix_of}
use dwho.Base.Value.{
  Value, Fields, end, field, null, list, dict, bool, str, int, pos, negsuc, truthy, get_field,
  get_or, subscript,
}
use dwho.Inotify.Plugs.{inoplug_enabled}
use dwho.Extensions.Plugins.{section_entry, entry_in}

-- DWhoInoPlugBase
pub record Inoplug : Type 0 where
  pub name : String
  pub autostart : Bool
  pub config : Option Fields
  pub enabled : Bool
  pub initialized : Bool
  pub plugconf : Value

-- __init__
unfoldable pub make : String → Inoplug
make name = record {
  name = name;
  autostart = false;
  config = none;
  enabled = false;
  initialized = false;
  plugconf = null;
}

abbrev set_autostart : Option Value → Inoplug → Inoplug
set_autostart none p = p
set_autostart (some v) p = record p { autostart = truthy v }

-- What `init` does with the plug-in's own settings: a dict, a Boolean, or nothing that is valid.
unfoldable pub set_plugconf : Value → Inoplug → Inoplug
set_plugconf (dict d) p =
    set_autostart (get_field "autostart" d)
      (record p { plugconf = dict d; enabled = inoplug_enabled false (dict d) })
set_plugconf (bool b) p = record p { plugconf = bool b; enabled = inoplug_enabled false (bool b) }
set_plugconf conf p = record p { plugconf = conf; enabled = false }

-- config['inotify']['plugins'][name], where there is such an entry
unfoldable pub inotify_entry : String → Fields → Result (Option Value)
inotify_entry name config =
    section_entry "inotify" "plugins" config
    >>= (λ found. elim found [ none ↦ ok none | some plugins ↦ entry_in name plugins ])

abbrev apply_entry : Result (Option Value) → Inoplug → Result (Unit {0}) × Inoplug
apply_entry (raise e) p = (raise e, p)
apply_entry (ok none) p = (ok tt, p)
apply_entry (ok (some conf)) p = (ok tt, set_plugconf conf p)

-- `init`
unfoldable pub init : Fields → Inoplug → Result (Unit {0}) × Inoplug
init config p =
    if p.initialized
    then (ok tt, p)
    else apply_entry (inotify_entry p.name config)
        (record p { initialized = true; config = some config })

-- CACHE_EXPIRE and LOCK_TIMEOUT
abbrev pub cache_expire : Value
cache_expire = int (negsuc 0)

abbrev pub lock_timeout : Value
lock_timeout = int (pos 60)

-- DWhoInotifyEventBase, and the settings that the `init` of an event plug-in takes
pub record Event : Type 0 where
  pub expire : Value
  pub timeout : Value
  pub server_id : Value
  pub inopaths : Value

-- What a method of a dict, asked of a value of another type, raises.
abbrev attribute_error : ℕ
attribute_error = 0

abbrev as_dict : Value → Result Fields
as_dict (dict d) = ok d
as_dict v = raise (foreign attribute_error)

-- `init` of DWhoInotifyEventBase and of DWhoInoEventPlugBase behind that of the plug-in
unfoldable pub init_event : Fields → Result Event
init_event config = do
  inotify ← subscript "inotify" (dict config)
  conf ← as_dict inotify
  general ← subscript "general" (dict config)
  server_id ← subscript "server_id" general
  inopaths ← subscript "paths" inotify
  ok (record {
    expire = get_or "cache_expire" cache_expire conf;
    timeout = get_or "lock_timeout" lock_timeout conf;
    server_id = server_id;
    inopaths = inopaths;
  })

-- v.copy()
abbrev copied : Value → Result Value
copied (dict d) = ok (dict d)
copied (list vs) = ok (list vs)
copied v = raise (foreign attribute_error)

abbrev params_in : String → Value → Result Value
params_in name (dict d) = elim (get_field name d) [ none ↦ ok (dict end) | some v ↦ copied v ]
params_in name v = ok (dict end)

-- `get_event_params`, of the attribute `plugins` of the event, if it has one
unfoldable pub get_event_params : String → Option Value → Result Value
get_event_params name none = ok (dict end)
get_event_params name (some v) = params_in name v

-- not path or path.endswith('/')
abbrev pub ends_in_slash : List ℕ → Bool
ends_in_slash [] = true
ends_in_slash (c ∷ []) = c == b'/'
ends_in_slash (c ∷ d ∷ cs) = ends_in_slash (d ∷ cs)

-- os.path.join(a, b)
unfoldable pub join_path : List ℕ → List ℕ → List ℕ
join_path a b =
    if prefix_of (codes "/") b then b else if ends_in_slash a then a ++ b else a ++ (b'/' ∷ b)

-- path.lstrip('/')
unfoldable pub lstrip_slash : List ℕ → List ℕ
lstrip_slash [] = []
lstrip_slash (c ∷ cs) = let rest = lstrip_slash cs in if c == b'/' then rest else c ∷ cs

-- path[len(root):]
unfoldable pub behind : List ℕ → List ℕ → List ℕ
behind [] path = path
behind (_ ∷ root) [] = []
behind (_ ∷ root) (_ ∷ path) = behind root path

-- `_get_path_all_options`, of `inopaths` and the path that the event belongs to
unfoldable pub path_all_options : Fields → Option String → Option Fields
path_all_options inopaths none = none
path_all_options inopaths (some path) = elim (get_field path inopaths) [
  | none ↦ none
  | some v ↦ elim v [ dict d ↦ some d | _ ↦ none ]
]

abbrev own_options : Option Value → Option Fields
own_options none = none
own_options (some v) = elim v [ dict d ↦ some d | _ ↦ none ]

-- The options of the plug-in among those of the path.
unfoldable pub options_in : String → Option Fields → Result (Option Fields)
options_in name none = ok none
options_in name (some all_options) =
    section_entry "plugins" name all_options >>= λ found. ok (own_options found)

-- `_get_path_options`
unfoldable pub path_options : Fields → String → Option String → Result (Option Fields)
path_options inopaths name cfg_path = options_in name (path_all_options inopaths cfg_path)

abbrev some_fields : Option Fields → Option Fields
some_fields none = none
some_fields (some end) = none
some_fields (some (field k v d)) = some (field k v d)

-- path_options or path_all_options
abbrev pub either : Option Fields → Option Fields → Option Fields
either own all_options = elim (some_fields own) [ none ↦ some_fields all_options | some d ↦ some d ]

abbrev root_codes : Option String → List ℕ
root_codes none = []
root_codes (some path) = codes path

abbrev join_dest : Value → List ℕ → Result (List ℕ)
join_dest (str d) rest = ok (join_path (codes d) (lstrip_slash rest))
join_dest v rest = raise type_error

-- The file under the destination, where there is one and the file is under the path.
unfoldable pub place : List ℕ → List ℕ → Value → Result (List ℕ)
place root file dest =
    if truthy dest
    then (if prefix_of root file then join_dest dest (behind root file) else ok file)
    else ok file

-- if not prefix: return r
unfoldable pub prefixed : List ℕ → List ℕ → List ℕ
prefixed [] r = r
prefixed (c ∷ prefix) r = join_path (join_path (codes "/") (c ∷ prefix)) (lstrip_slash r)

-- The destination by these options: without any, the file itself.
unfoldable pub dest_path : Option Fields → List ℕ → List ℕ → List ℕ → Result (List ℕ)
dest_path none root file prefix = ok file
dest_path (some options) root file prefix =
    place root file (get_or "dest" null options) >>= λ r. ok (prefixed prefix r)

-- `realdstpath`
unfoldable pub realdstpath : Fields → String → Option String → List ℕ → List ℕ → Result (List ℕ)
realdstpath inopaths name cfg_path file prefix = do
  own ← path_options inopaths name cfg_path
  dest_path (either own (path_all_options inopaths cfg_path)) (root_codes cfg_path) file prefix
