-- ===== src/Extensions/Modules.antt =====
-- dwho/classes/modules.py: the state of an extension module, its `init`, and the commands that it
-- registers for its routes. The compiler of regular expressions, the attributes of the module and
-- the registrar are parameters; `R` is a compiled expression.
use dwho.Base.{
  ℕ, String, Bool, true, false, Option, none, some, List, [], ◌∷◌, if◌then◌else◌, Result, ok, raise,
  type_error, foreign, ◌>>=◌ as and_then,
}
use dwho.Base.Exec.{Exec, pure, lift, ◌>>=◌, ◌>>◌}
use dwho.Base.Value.{
  Value, Fields, end, field, null, dict, list, nil, cons, put_field, bool, str, truthy, items,
  get_field, get_or, subscript,
}
use dwho.Abstract.Database.{Database}
use dwho.Extensions.Plugins.{server_id_of, section_entry, entry_in, prepare_names}

-- What `value.get` of a value that is no dict, or an attribute that the module lacks, raises.
abbrev attribute_error : ℕ
attribute_error = 0

-- DWhoModuleBase
pub record Module : Type 0 where
  pub name : String
  pub config : Option Fields
  pub charset : Value
  pub content_type : Value
  pub initialized : Bool
  pub modconf : Value
  pub server_id : Value

-- __init__
unfoldable pub make : String → String → Module
make name fqdn = record {
  name = name;
  config = none;
  charset = str "utf-8";
  content_type = str "application/json";
  initialized = false;
  modconf = null;
  server_id = str fqdn;
}

pub data RouteName (R : Type 0) : Type 0 where
  plain : Value → RouteName R
  pattern_of : R → RouteName R

-- The lifecycle hooks of a route, as the attributes of the module that they are
pub record Hooks : Type 0 where
  pub safe_init : Option String
  pub at_start : Option String
  pub at_stop : Option String

-- What `registrar` is called with.
pub record Command (R : Type 0) : Type 0 where
  pub op : Value
  pub hooks : Hooks
  pub name : RouteName R
  pub handler : String
  pub static : Bool
  pub root : Value
  pub replacement : Value
  pub charset : Value
  pub content_type : Value
  pub to_auth : Value
  pub to_log : Bool

pub record Host (R W : Type 0) : Type 0 where
  -- re.compile(v)
  pub compile : Value → Result R
  -- hasattr(self, name)
  pub has_attribute : String → Bool
  pub register : Command R → Exec W (Unit {0})

abbrev pub no_hooks : Hooks
no_hooks = record { safe_init = none; at_start = none; at_stop = none }

-- v or other
abbrev or_else : Value → Value → Value
or_else v other = if truthy v then v else other

abbrev keys_of : Fields → List Value
keys_of end = []
keys_of (field k v d) = str k ∷ keys_of d

-- [op], of a text
abbrev pub ops_of : Value → Result (List Value)
ops_of (str s) = ok (str s ∷ [])
ops_of (list vs) = ok (items vs)
ops_of (dict d) = ok (keys_of d)
ops_of _ = raise type_error

abbrev pub fields_of : Value → Result Fields
fields_of (dict d) = ok d
fields_of _ = raise (foreign attribute_error)

module _ {R W : Type 0} (host : Host R W) where
  -- getattr(self, v)
  abbrev attribute : Value → Result String
  attribute (str name) =
      if host.has_attribute name then ok name else raise (foreign attribute_error)
  attribute _ = raise type_error

  abbrev handler_of : Fields → Result String
  handler_of value = and_then (subscript "handler" (dict value)) attribute

  abbrev route_name : Fields → Result (RouteName R)
  route_name value = elim (get_field "regexp" value) [
    | none ↦ ok (plain (or_else (get_or "name" null value) null))
    | some regexp ↦ and_then (host.compile regexp) (λ r. ok (pattern_of r))
  ]

  -- The command of a route, without its hooks and for all of its operations.
  unfoldable pub command_of : Module → Fields → Result (Command R)
  command_of m value = and_then (handler_of value) (λ handler. and_then (route_name value) (λ name.
      ok (record {
        op =
            if truthy (get_or "static" null value)
            then str "GET"
            else or_else (get_or "op" null value) (str "GET");
        hooks = no_hooks;
        name = name;
        handler = handler;
        static = truthy (get_or "static" null value);
        root = or_else (get_or "root" null value) null;
        replacement = or_else (get_or "replacement" null value) null;
        charset = or_else (get_or "charset" null value) m.charset;
        content_type = or_else (get_or "content_type" null value) m.content_type;
        to_auth = get_or "auth" null value;
        to_log = truthy (get_or "log" (bool true) value);
      })))

  -- The attribute of one hook: its own name, or the one that the route gives.
  abbrev hook_of : String → Value → Result (Option String)
  hook_of x (bool true) = and_then (attribute (str x)) (λ name. ok (some name))
  hook_of x v = if truthy v then and_then (attribute v) (λ name. ok (some name)) else ok none

  unfoldable pub hooks_of : Fields → Result Hooks
  hooks_of value = and_then (hook_of "safe_init" (get_or "safe_init" null value)) (λ safe_init.
      and_then (hook_of "at_start" (get_or "at_start" null value)) (λ at_start.
        and_then (hook_of "at_stop" (get_or "at_stop" null value)) (λ at_stop.
          ok (record { safe_init = safe_init; at_start = at_start; at_stop = at_stop }))))

  -- The operations behind the first: without hooks.
  unfoldable pub register_rest : Command R → List Value → Exec W (Unit {0})
  register_rest cmd [] = pure tt
  register_rest cmd (op ∷ ops) =
      host.register (record cmd { op = op; hooks = no_hooks }) >> register_rest cmd ops

  -- for i, op in enumerate(cmd_args['op']): ...
  unfoldable pub register_ops : Command R → Fields → List Value → Exec W (Unit {0})
  register_ops cmd value [] = pure tt
  register_ops cmd value (op ∷ ops) = lift (hooks_of value) >>= λ hooks.
      host.register (record cmd { op = op; hooks = hooks }) >> register_rest cmd ops

  -- One route.
  unfoldable pub register_route : Module → Value → Exec W (Unit {0})
  register_route m route = do
    value ← lift (fields_of route)
    cmd ← lift (command_of m value)
    ops ← lift (ops_of cmd.op)
    register_ops cmd value ops

  -- `_register_commands`
  unfoldable pub register_commands : Module → Fields → Exec W (Unit {0})
  register_commands m end = pure tt
  register_commands m (field key route routes) =
      register_route m route >> register_commands m routes

  abbrev set_module : Module → Exec (Module × W) (Unit {0})
  set_module m (_, w) = (ok tt, (m, w))

  abbrev the_module : Exec (Module × W) Module
  the_module (m, w) = (ok m, (m, w))

  abbrev with_charset : Option Value → Module → Module
  with_charset none m = m
  with_charset (some v) m = record m { charset = v }

  abbrev with_content_type : Option Value → Module → Module
  with_content_type none m = m
  with_content_type (some v) m = record m { content_type = v }

  -- if 'charset' in section: ...; if 'content_type' in section: ...
  unfoldable pub set_types : Value → Exec (Module × W) (Unit {0})
  set_types section = do
    charset ← lift (entry_in "charset" section)
    m ← the_module
    set_module (with_charset charset m)
    content_type ← lift (entry_in "content_type" section)
    m' ← the_module
    set_module (with_content_type content_type m')

  abbrev registered : Module → Result (Unit {0}) × W → Result (Unit {0}) × (Module × W)
  registered m (r, w) = (r, (m, w))

  -- The routes of the module's settings, where they are a dict.
  unfoldable pub add_routes : Option Value → Exec (Module × W) (Unit {0})
  add_routes (some (dict routes)) (m, w) = registered m (register_commands m routes w)
  add_routes _ s = (ok tt, s)

  -- What `init` does with the module's own settings, if any.
  unfoldable pub set_modconf : Option Value → Exec (Module × W) (Unit {0})
  set_modconf none = pure tt
  set_modconf (some conf) = do
    m ← the_module
    set_module (record m { modconf = conf })
    set_types conf
    routes ← lift (entry_in "routes" conf)
    add_routes routes

  unfoldable pub init_body : String → Fields → Exec (Module × W) (Unit {0})
  init_body name config = do
    server_id ← lift (server_id_of config)
    m ← the_module
    set_module (record m { server_id = server_id })
    set_types (get_or "general" null config)
    conf ← lift (section_entry "modules" name config)
    set_modconf conf

  -- `init`
  unfoldable pub init : Fields → Exec (Module × W) (Unit {0})
  init config (m, w) =
      if m.initialized
      then (ok tt, (m, w))
      else init_body m.name config (record m { initialized = true; config = some config }, w)

-- `init` of DWhoModuleSQLBase, behind that of the module
unfoldable pub init_sql : {C K W : Type 0} → ℕ → Fields → Database C K W → Database C K W
init_sql me general s = prepare_names me general s

abbrev own_directories : Option Value → Value
own_directories (some (str s)) = list (cons (str s) nil)
own_directories (some (list vs)) = list vs
own_directories _ = list nil

-- The directories of the templates of a DWhoModuleWebBase: those of the general section, unless the
-- module's settings give some; and those settings then.
unfoldable pub web_directories : Value → Fields → Fields × Value
web_directories general end = (end, general)
web_directories general (field k v modconf) =
    let own = own_directories (get_field "web_directories" (field k v modconf)) in
    (put_field "web_directories" own (field k v modconf), if truthy own then own else general)
