-- ===== src/Extensions/Facade.antt =====
-- dwho/config.py: the global lifecycle of a service. What extensions and the inotify instance do is
-- the parameter `Extensions` of the runtime, over the state `W` of the world; signals and the
-- logger are outside.
use dwho.Base.{
  ◌&&◌, String, Bool, true, false, Option, none, some, List, [], ◌∷◌, ◌++◌, map, if◌then◌else◌,
  Result, ok, str_eq, ◌>>=◌ as and_then,
}
use dwho.Base.Exec.{Exec, pure, lift, gets, ◌>>=◌, ◌>>◌}
use dwho.Base.Value.{Value, Fields, null, dict, get_field, get_or, put_field, subscript}
use dwho.Extensions.Plugins.{entry_in}
use dwho.Configuration.{Libraries}
use dwho.Configuration
use dwho.Configuration.Reading.{Files, read_conf_data, import_sections, config_import_sections}
use dwho.Runtime.{
  Extensions, Extension, Call, extension_module, plugin, inoplug, make_inotify, configure_inotify,
  init_inotify, start_inotify, stop_inotify, init, safe_init, at_start, at_stop,
}

-- MODULES, PLUGINS, INOPLUGS, DWHO_THREADS, _INOTIFY, _SOFTNAME and _SOFTVER, the world, and the
-- calls made so far.
pub record Service (W : Type 0) : Type 0 where
  pub modules : List String
  pub plugins : List String
  pub inoplugs : List String
  pub threads : List Call
  pub inotify : Bool
  pub softname : String
  pub softver : String
  pub world : W
  pub calls : List Call

-- `set_softname` and `set_softver`, with `helpers.has_len`
unfoldable pub set_softname : {W : Type 0} → (String → Bool) → String → Service W → Service W
set_softname has_len name s =
    if str_eq s.softname "" && has_len name then record s { softname = name } else s

unfoldable pub set_softver : {W : Type 0} → (String → Bool) → String → Service W → Service W
set_softver has_len version s =
    if str_eq s.softver "" && has_len version then record s { softver = version } else s

module _ {W : Type 0} (ext : Extensions W) where
  unfoldable pub call : Call → Exec (Service W) (Unit {0})
  call c s =
      let (result, w) = ext.perform c s.world in
      (result, record s { world = w; calls = s.calls ++ (c ∷ []) })

  -- DWHO_THREADS.append(callback)
  unfoldable pub add_thread : Call → Exec (Service W) (Unit {0})
  add_thread c s = (ok tt, record s { threads = s.threads ++ (c ∷ []) })

  unfoldable pub make_calls : List Call → Exec (Service W) (Unit {0})
  make_calls [] = pure tt
  make_calls (c ∷ cs) = do call c; make_calls cs

  -- `stop`: the first callback that raises ends it
  unfoldable pub stop : Exec (Service W) (Unit {0})
  stop = do threads ← gets (λ s. s.threads); make_calls threads

  -- `init_modules`
  unfoldable pub init_modules : Exec (Service W) (Unit {0})
  init_modules = do
    names ← gets (λ s. s.modules)
    make_calls (map (λ name. init (extension_module name)) names)

  -- init, and for an enabled one safe_init and then the registered cleanup
  unfoldable pub bring_up : Extension → Exec (Service W) (Unit {0})
  bring_up e = do
    call (init e)
    enabled ← gets (λ s. ext.enabled e s.world)
    if enabled then (do call (safe_init e); add_thread (at_stop e)) else pure tt

  unfoldable pub bring_up_all : List Extension → Exec (Service W) (Unit {0})
  bring_up_all [] = pure tt
  bring_up_all (e ∷ es) = do bring_up e; bring_up_all es

  -- `init_plugins`
  unfoldable pub init_plugins : Exec (Service W) (Unit {0})
  init_plugins = do names ← gets (λ s. s.plugins); bring_up_all (map plugin names)

  -- `init_inotify`
  unfoldable pub init_inoplugs : Exec (Service W) (Unit {0})
  init_inoplugs = do
    call init_inotify
    names ← gets (λ s. s.inoplugs)
    bring_up_all (map inoplug names)

  unfoldable pub start_one : Extension → Exec (Service W) (Unit {0})
  start_one e = do
    wanted ← gets (λ s. ext.enabled e s.world && ext.autostart e s.world)
    if wanted then call (at_start e) else pure tt

  unfoldable pub start_all : List Extension → Exec (Service W) (Unit {0})
  start_all [] = pure tt
  start_all (e ∷ es) = do start_one e; start_all es

  -- `start_plugins`
  unfoldable pub start_plugins : Exec (Service W) (Unit {0})
  start_plugins = do names ← gets (λ s. s.plugins); start_all (map plugin names)

  -- `start_inoplugs`
  unfoldable pub start_inoplugs : Exec (Service W) (Unit {0})
  start_inoplugs = do names ← gets (λ s. s.inoplugs); start_all (map inoplug names)

  -- `start_inotify`
  unfoldable pub start_watching : Exec (Service W) (Unit {0})
  start_watching = do
    opened ← gets (λ s. s.inotify)
    if opened then (do start_inoplugs; call start_inotify) else pure tt

  -- _INOTIFY = inotify.DWhoInotify()
  unfoldable pub has_inotify : Exec (Service W) (Unit {0})
  has_inotify s = (ok tt, record s { inotify = true })

  -- The section `inotify` that DWhoInotifyConfig makes.
  unfoldable pub open_inotify : (Value → Value) → Fields → Exec (Service W) Fields
  open_inotify prepared conf = elim (get_field "inotify" conf) [
    | none ↦ pure conf
    | some section ↦ do
      call make_inotify
      has_inotify
      add_thread stop_inotify
      call configure_inotify
      pure (put_field "inotify" (prepared section) conf)
  ]

  module _ (files : Files) (libraries : Libraries) (prepared : Value → Value) where
    -- `parse_conf`
    unfoldable pub parse_conf : Bool → Fields → Exec (Service W) Fields
    parse_conf load_creds conf = do
      parsed ← lift (Configuration.parse_conf libraries (dict conf) load_creds)
      open_inotify prepared parsed

    abbrev parse_by :
        Option (Fields → Exec (Service W) Fields) → Bool → Fields → Exec (Service W) Fields
    parse_by none load_creds conf = parse_conf load_creds conf
    parse_by (some parser) load_creds conf = parser conf

    abbrev is_null : Value → Bool
    is_null null = true
    is_null _ = false

    abbrev set_option : String → Fields → Option Value → Fields
    set_option key options none = options
    set_option key options (some v) = put_field key v options

    -- if getattr(options, key, None) is None and key in conf['general']: ...
    abbrev fill_option : String → Fields → Fields → Result Fields
    fill_option key conf options =
        if is_null (get_or key null options)
        then and_then (and_then (subscript "general" (dict conf)) (entry_in key))
            (λ found. ok (set_option key options found))
        else ok options

    -- The options that are None take the values of the general section.
    unfoldable pub fill_options : List String → Fields → Fields → Result Fields
    fill_options [] conf options = ok options
    fill_options (key ∷ keys) conf options =
        and_then (fill_option key conf options) (fill_options keys conf)

    -- What `load_conf` returns: the configuration, or the options with it.
    abbrev loaded : List String → Option Fields → Fields → Result Fields
    loaded default_options none conf = ok conf
    loaded default_options (some options) conf =
        and_then (fill_options default_options conf options)
          (λ filled. ok (put_field "configuration" (dict conf) filled))

    -- `load_conf`, behind the handlers of signals
    unfoldable pub load_conf :
        List String
        → String
        → Option Fields
        → Option (Fields → Exec (Service W) Fields)
        → Bool
        → Option String
        → Value
        → Exec (Service W) Fields
    load_conf default_options xfile options parser load_creds envvar custom = do
      read ← lift (read_conf_data files libraries xfile envvar custom)
      parsed ← parse_by parser load_creds read
      conf ← lift (import_sections files config_import_sections parsed)
      init_modules
      init_plugins
      opened ← gets (λ s. s.inotify)
      if opened then init_inoplugs else pure tt
      lift (loaded default_options options conf)
