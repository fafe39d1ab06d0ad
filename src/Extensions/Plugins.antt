-- ===== src/Extensions/Plugins.antt =====
-- dwho/classes/plugins.py: the state of a plug-in and its `init`, and the names of databases that
-- the SQL bases of plug-ins prepare.
use dwho.Base.{
  ℕ, String, Bool, true, false, Option, none, some, if◌then◌else◌, Result, ok, ◌≡◌, refl,
  Bool-cases, inl, inr, subst, sym, ap, ◌>>=◌ as and_then,
}
use dwho.Base.Exec.{Exec, lift, ◌>>=◌, ◌>>◌, Keeps, Keeps-bind}
use dwho.Base.Text.{codes, prefix_of}
use dwho.Base.Value.{
  Value, Fields, end, field, null, dict, str, truthy, get_field, contains, subscript,
}
use dwho.Abstract.Database.{Database, prepare_name}

-- DWhoPluginBase
pub record Plugin : Type 0 where
  pub name : String
  pub autostart : Bool
  pub config : Option Fields
  pub enabled : Bool
  pub initialized : Bool
  pub plugconf : Value
  pub server_id : Value

-- __init__
unfoldable pub make : String → String → Plugin
make name fqdn = record {
  name = name;
  autostart = true;
  config = none;
  enabled = true;
  initialized = false;
  plugconf = null;
  server_id = str fqdn;
}

-- config['general']['server_id']
abbrev pub server_id_of : Fields → Result Value
server_id_of config = and_then (subscript "general" (dict config)) (subscript "server_id")

-- section[name], where there is such an entry
unfoldable pub entry_in : String → Value → Result (Option Value)
entry_in name section =
    and_then (contains name section)
      (λ found. if found then and_then (subscript name section) (λ v. ok (some v)) else ok none)

-- config[key][name], where there is such an entry
unfoldable pub section_entry : String → String → Fields → Result (Option Value)
section_entry key name config = elim (get_field key config) [
  | none ↦ ok none
  | some section ↦ entry_in name section
]

abbrev set_autostart : Option Value → Exec Plugin (Unit {0})
set_autostart none p = (ok tt, p)
set_autostart (some v) p = (ok tt, record p { autostart = truthy v })

abbrev set_enabled : Option Value → Exec Plugin (Unit {0})
set_enabled none p = (ok tt, p)
set_enabled (some v) p = (ok tt, record p { enabled = truthy v })

-- What `init` does with the plug-in's own settings, if any.
unfoldable pub set_plugconf : Option Value → Exec Plugin (Unit {0})
set_plugconf none p = (ok tt, p)
set_plugconf (some conf) p =
    (do
      autostart ← lift (entry_in "autostart" conf)
      set_autostart autostart
      enabled ← lift (entry_in "enabled" conf)
      set_enabled enabled)
      (record p { plugconf = conf })

abbrev set_server_id : Value → Exec Plugin (Unit {0})
set_server_id v p = (ok tt, record p { server_id = v })

-- The plug-in's own settings in the configuration.
unfoldable pub load_plugconf : String → Fields → Exec Plugin (Unit {0})
load_plugconf name config = lift (section_entry "plugins" name config) >>= set_plugconf

unfoldable pub with_server_id : String → Fields → Value → Exec Plugin (Unit {0})
with_server_id name config server_id = set_server_id server_id >>= λ _. load_plugconf name config

-- `init` of a plug-in that is not initialized, once it is marked so
unfoldable pub init_body : String → Fields → Exec Plugin (Unit {0})
init_body name config = lift (server_id_of config) >>= with_server_id name config

-- `init`
unfoldable pub init : Fields → Exec Plugin (Unit {0})
init config p =
    if p.initialized
    then (ok tt, p)
    else init_body p.name config (record p { initialized = true; config = some config })

-- key[7:]
abbrev drop7 : String → String
drop7
      (String.◌∷◌ _ (
        String.◌∷◌ _
          (String.◌∷◌ _ (String.◌∷◌ _ (String.◌∷◌ _ (String.◌∷◌ _ (String.◌∷◌ _ s))))))) =
    s
drop7 s = String.[]

-- for key in iterkeys(config['general']): ..., of the SQL bases
unfoldable pub prepare_names : {C K W : Type 0} → ℕ → Fields → Database C K W → Database C K W
prepare_names me end s = s
prepare_names me (field key v general) s =
    prepare_names me general
      (if prefix_of (codes "db_uri_") (codes key) then prepare_name me (drop7 key) s else s)

abbrev IsInitialized : Plugin → Type 0
IsInitialized p = p.initialized ≡ true

set_autostart-Keeps : (v : Option Value) → Keeps IsInitialized (set_autostart v)
set_autostart-Keeps none p h = h
set_autostart-Keeps (some v) p h = h

set_enabled-Keeps : (v : Option Value) → Keeps IsInitialized (set_enabled v)
set_enabled-Keeps none p h = h
set_enabled-Keeps (some v) p h = h

set_plugconf-Keeps : (conf : Option Value) → Keeps IsInitialized (set_plugconf conf)
unfolding set_plugconf
set_plugconf-Keeps none p h = h
set_plugconf-Keeps (some conf) p h =
    Keeps-bind {P = IsInitialized} (lift (entry_in "autostart" conf)) _ (λ _ k. k)
      (λ v. Keeps-bind {P = IsInitialized} (set_autostart v) _ (set_autostart-Keeps v) (λ _.
        Keeps-bind {P = IsInitialized} (lift (entry_in "enabled" conf)) _ (λ _ k. k)
          set_enabled-Keeps))
      (record p { plugconf = conf }) h

load_plugconf-Keeps :
    (name : String) (config : Fields) → Keeps IsInitialized (load_plugconf name config)
unfolding load_plugconf
load_plugconf-Keeps name config =
    Keeps-bind {P = IsInitialized} (lift (section_entry "plugins" name config)) set_plugconf
      (λ _ k. k) set_plugconf-Keeps

with_server_id-Keeps :
    (name : String) (config : Fields) (v : Value)
    → Keeps IsInitialized (with_server_id name config v)
unfolding with_server_id
with_server_id-Keeps name config v =
    Keeps-bind {P = IsInitialized} (set_server_id v) (λ _. load_plugconf name config) (λ _ k. k)
      (λ _. load_plugconf-Keeps name config)

init_body-Keeps : (name : String) (config : Fields) → Keeps IsInitialized (init_body name config)
unfolding init_body
init_body-Keeps name config =
    Keeps-bind {P = IsInitialized} (lift (server_id_of config)) (with_server_id name config)
      (λ _ k. k) (with_server_id-Keeps name config)

init-IsInitialized : (config : Fields) (p : Plugin) → IsInitialized (init config p).1
unfolding init
init-IsInitialized config p = elim (Bool-cases p.initialized) [
  | inl before ↦ subst (λ b. IsInitialized (start b).1) (sym before) before
  | inr now ↦
      subst (λ b. IsInitialized (start b).1) (sym now) (init_body-Keeps p.name config _ refl)
]
  where
    start : Bool → Result (Unit {0}) × Plugin
    start b =
        if b
        then (ok tt, p)
        else init_body p.name config (record p { initialized = true; config = some config })

init_initialized : (config : Fields) (p : Plugin) → IsInitialized p → init config p ≡ (ok tt, p)
unfolding init
init_initialized config p h =
    ap
      (λ b.
        if b
        then (ok tt, p)
        else init_body p.name config (record p { initialized = true; config = some config }))
      h

-- A second `init`, of any configuration, returns and changes nothing, also where the first one
-- raised half-way.
pub init_twice :
    (config config' : Fields) (p : Plugin)
    → init config' (init config p).1 ≡ (ok tt, (init config p).1)
init_twice config config' p =
    init_initialized config' (init config p).1 (init-IsInitialized config p)
