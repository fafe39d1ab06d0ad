-- ===== src/Inotify/Config.antt =====
-- dwho/classes/inotify.py: DWhoInotifyConfig, which prepares the `inotify` section and gives each
-- path to the watcher. The flags of pyinotify, pattern files and directories are outside.
use Prim.Native.Nat.{bit_or}
use dwho.Base.{
  ℕ, ◌&&◌, ◌||◌, ◌==◌, ◌&◌, String, Bool, false, Option, none, some, List, [], ◌∷◌, ◌++◌,
  if◌then◌else◌, Result, ok, raise, type_error, configuration_error, foreign, ◌>>=◌, map, is_some,
}
use dwho.Base.Dict.{Dict, lookup, keys, is_in}
use dwho.Base.Value.{
  Value, Items, Fields, nil, cons, end, field, null, bool, str, list, dict, items, truthy, get_or,
  get_field,
}
use Prim.Native.Char.{code}
use dwho.Base.Text.{upper}
use dwho.Inotify.{CfgPath}
use dwho.Inotify.Plugs.{inoplug_enabled}

-- ALL_EVENTS
abbrev pub all_events : List String
all_events =
    "access" ∷ "attrib" ∷ "create" ∷ "close_write" ∷ "close_nowrite" ∷ "delete" ∷ "delete_self"
    ∷ "modify" ∷ "move_self" ∷ "moved_from" ∷ "moved_to" ∷ "open" ∷ []

-- DEFAULT_CONFIG['events']
abbrev default_events : Items
default_events = cons (str "create") (
    cons (str "close_write")
      (cons (str "move_self") (cons (str "moved_to") (cons (str "moved_from") nil))))

-- `valid_event`
unfoldable pub valid_event : Value → Bool
valid_event (str s) = is_in s all_events
valid_event _ = false

abbrev or_else : Option ℕ → Option ℕ → Option ℕ
or_else (some n) o = some n
or_else none o = o

-- `get_flag_value`, with EventsCodes.ALL_FLAGS
unfoldable pub get_flag_value : Dict ℕ → String → Option ℕ
get_flag_value flags name =
    or_else (lookup name flags)
      (or_else (lookup (upper name) flags) (lookup ("IN_" & upper name) flags))

-- The items of a value that a `for` goes through. Those of a text are its characters, none of which
-- is the name of an event.
abbrev pub iterated : Value → Result (List Value)
iterated (list vs) = ok (items vs)
iterated (dict d) = ok (field_names d)
  where
    field_names : Fields → List Value
    field_names end = []
    field_names (field k v rest) = str k ∷ field_names rest
iterated (str s) = raise configuration_error
iterated _ = raise type_error

-- event.startswith('-'), which only a text has
unfoldable pub all_texts : List Value → Result (List String)
all_texts [] = ok []
all_texts (str s ∷ vs) = all_texts vs >>= λ ss. ok (s ∷ ss)
all_texts (_ ∷ vs) = raise (foreign 0)

-- event[1:], where the event starts with '-'
abbrev pub minus_of : String → Option String
minus_of String.[] = none
minus_of (String.◌∷◌ c s) = if code c == b'-' then some s else none

unfoldable pub excluded_of : List String → List String
excluded_of [] = []
excluded_of (s ∷ ss) =
    let rest = excluded_of ss in elim (minus_of s) [ none ↦ rest | some t ↦ t ∷ rest ]

unfoldable pub without : List String → List String → List String
without excluded [] = []
without excluded (s ∷ ss) =
    let rest = without excluded ss in
    if is_some (minus_of s) || is_in s excluded then rest else s ∷ rest

-- The list with its '-' entries, and what they name, taken out.
unfoldable pub apply_minus : List String → List String
apply_minus ss = without (excluded_of ss) ss

unfoldable pub own_events : Value → Result (List Value)
own_events v = do vs ← iterated v; ss ← all_texts vs; ok (map str (apply_minus ss))

-- for event in value['events']: the mask of the path
unfoldable pub event_masks : Dict ℕ → List Value → ℕ → Result ℕ
event_masks flags [] mask = ok mask
event_masks flags (str s ∷ vs) mask =
    if valid_event (str s)
    then elim (get_flag_value flags s) [
      | none ↦ raise type_error
      | some f ↦ event_masks flags vs (bit_or mask f)
    ]
    else raise configuration_error
event_masks flags (_ ∷ vs) mask = raise configuration_error

-- conf['exclude_files'], prepared
abbrev global_files : Value → List Value
global_files (str s) = str s ∷ []
global_files (list vs) = items vs
global_files _ = []

unfoldable pub own_files : Value → Result (List Value)
own_files (str s) = ok (map str (apply_minus (s ∷ [])))
own_files (list vs) = all_texts (items vs) >>= λ ss. ok (map str (apply_minus ss))
own_files _ = raise configuration_error

-- A path of the section, prepared by the first loop.
pub record PathConf : Type 0 where
  pub path : String
  pub plugins : Value
  pub event_mask : ℕ
  pub exclude_filter : Option (String → Bool)
  pub do_glob : Value

pub record Outside (P W : Type 0) : Type 0 where
  pub flags : Dict ℕ
  -- helpers.load_patterns_from_file
  pub load_patterns_from_file : Value → List String
  -- pyinotify.ExcludeFilter
  pub exclude_filter : List String → String → Bool
  pub make_dirs : String → W → W

-- The section, after its own defaults: its plugins, its events and its exclude files.
pub record Section : Type 0 where
  pub plugins : Value
  pub events : Value
  pub exclude_files : List Value
  pub paths : Fields

unfoldable pub default_plugins : List String → Fields
default_plugins [] = end
default_plugins (n ∷ ns) = field n (bool false) (default_plugins ns)

unfoldable pub section : List String → Fields → Result Section
unfolding default_plugins
section names conf = elim (get_field "paths" conf) [
  | none ↦ raise configuration_error
  | some v ↦ elim v [
    | dict paths ↦ ok (record {
      plugins = get_or "plugins" (dict (default_plugins names)) conf;
      events = get_or "events" (list default_events) conf;
      exclude_files = global_files (get_or "exclude_files" null conf);
      paths = paths;
    })
    | _ ↦ raise configuration_error
  ]
]

module _ {P W : Type 0} (outside : Outside P W) (registry : Dict P) where
  events_of : Section → Fields → Result (List Value)
  events_of s value = elim (get_field "events" value) [
    | none ↦ iterated s.events
    | some v ↦ own_events v
  ]

  files_of : Section → Fields → Result (List Value)
  files_of s value = elim (get_field "exclude_files" value) [
    | none ↦ ok s.exclude_files
    | some v ↦ own_files v
  ]

  some_events : List Value → Result (List Value)
  some_events [] = raise configuration_error
  some_events (v ∷ vs) = ok (v ∷ vs)

  -- r.update(pattern); a set is held without repeats, in the order of its insertions
  unfoldable pub update_set : List String → List String → List String
  update_set r [] = r
  update_set r (x ∷ xs) = update_set (if is_in x r then r else r ++ (x ∷ [])) xs

  unfoldable pub load_each : List Value → List String → List String
  load_each [] r = r
  load_each (x ∷ xs) r = load_each xs (update_set r (outside.load_patterns_from_file x))

  -- `load_exclude_patterns`, of a list
  unfoldable pub load_exclude_patterns : List Value → Option (String → Bool)
  unfolding update_set load_each
  load_exclude_patterns exclude_files = elim (load_each exclude_files []) [
    | [] ↦ none
    | x ∷ xs ↦ some (outside.exclude_filter (x ∷ xs))
  ]

  filter_of : List Value → Option (String → Bool)
  unfolding load_exclude_patterns
  filter_of [] = none
  filter_of (v ∷ vs) = load_exclude_patterns (v ∷ vs)

  -- One turn of the first loop over the paths.
  unfoldable pub prepare_path : Section → String → Value → Result PathConf
  unfolding events_of files_of some_events filter_of
  prepare_path s path (dict value) = do
    events ← events_of s value
    events' ← some_events events
    mask ← event_masks outside.flags events' 0
    files ← files_of s value
    ok (record {
      path = path;
      plugins = get_or "plugins" s.plugins value;
      event_mask = mask;
      exclude_filter = filter_of files;
      do_glob = get_or "glob" null value;
    })
  prepare_path s path _ = raise type_error

  unfoldable pub prepare_paths : Section → Fields → Result (List PathConf)
  prepare_paths s end = ok []
  prepare_paths s (field path value rest) = do
    p ← prepare_path s path value
    ps ← prepare_paths s rest
    ok (p ∷ ps)

  -- conf['plugins'].get(plugin), of a dict
  abbrev pub global_option : Value → String → Result Value
  global_option (dict d) name = ok (get_or name null d)
  global_option _ name = raise (foreign 0)

  -- for plugin, options in iteritems(value['plugins'])
  unfoldable pub path_plugins : Value → Fields → Result (List P)
  path_plugins conf end = ok []
  path_plugins conf (field name options rest) = do
    given ← global_option conf name
    later ← path_plugins conf rest
    ok (
        if inoplug_enabled false given && inoplug_enabled (truthy options) options
        then elim (lookup name registry) [ none ↦ later | some p ↦ p ∷ later ]
        else later)

  abbrev pub plugins_of : Value → Value → Result (List P)
  plugins_of conf (dict d) = path_plugins conf d
  plugins_of conf v = if truthy v then raise (foreign 0) else ok []

  -- One turn of the second loop: what is given to the watcher.
  unfoldable pub cfg_path : Section → PathConf → Result (CfgPath P)
  cfg_path s p = do
    plugins ← plugins_of s.plugins p.plugins
    ok (record {
      path = p.path;
      event_mask = p.event_mask;
      plugins = plugins;
      do_glob = p.do_glob;
      exclude_filter = p.exclude_filter;
    })

  -- The second loop: what the watcher has been given, and the outside.
  unfoldable pub give_paths :
      Section → List PathConf → List (CfgPath P) × W → Result (Unit {0}) × (List (CfgPath P) × W)
  give_paths s [] state = (ok tt, state)
  give_paths s (p ∷ ps) (given, w) = elim (cfg_path s p) [
    | raise e ↦ (raise e, (given, w))
    | ok c ↦ give_paths s ps (given ++ (c ∷ []), outside.make_dirs p.path w)
  ]

  unfoldable pub prepared : Fields → Result (Section × List PathConf)
  prepared conf = do s ← section (keys registry) conf; ps ← prepare_paths s s.paths; ok (s, ps)

  -- DWhoInotifyConfig.__call__: nothing is given to the watcher before every path is prepared.
  unfoldable pub configure :
      Fields → List (CfgPath P) × W → Result (Unit {0}) × (List (CfgPath P) × W)
  unfolding prepared
  configure conf state = elim (prepared conf) [
    | raise e ↦ (raise e, state)
    | ok (s, ps) ↦ give_paths s ps state
  ]
