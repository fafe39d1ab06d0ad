-- ===== src/Tests/Extensions.antt =====
-- Plug-ins, extension modules and the loader at concrete inputs.
use dwho.Base.{
  ℕ, String, true, false, Option, none, some, List, [], ◌∷◌, ◌++◌, ◌&◌, if◌then◌else◌, Result, ok,
  raise, runtime_error, value_error, ◌≡◌, refl, str_eq,
}
use dwho.Base.Dict.{lookup, insert, erase}
use dwho.Base.Text.{codes}
use dwho.Base.Value.{Value, Fields, end, field, null, dict, str, bool, list, nil, cons}
use dwho.Extensions.Plugins
use dwho.Extensions.Inoplugs
use dwho.Extensions.Inoplugs.{realdstpath, lstrip_slash, behind}
use dwho.Extensions.Modules
use dwho.Extensions.Modules.{Module, Command, register_commands}
use dwho.Extensions.Routes.{keeping, Registered, register_commands-Registered}
use dwho.Extensions.Loader
use dwho.Extensions.Loader.{System, Importer, load_dir}
use dwho.Extensions.Loading.{Outcome, load_dir-Outcome}

runs : Unit {0}
unfolding Plugins.make Plugins.init Plugins.init_body Plugins.with_server_id Plugins.load_plugconf
    Plugins.section_entry Plugins.entry_in Plugins.set_plugconf Inoplugs.join_path
    Inoplugs.lstrip_slash Inoplugs.behind Inoplugs.path_all_options Inoplugs.path_options
    Inoplugs.options_in Inoplugs.place Inoplugs.prefixed Inoplugs.dest_path Inoplugs.realdstpath
    Modules.make Modules.command_of Modules.hooks_of Modules.register_rest Modules.register_ops
    Modules.register_route Modules.register_commands Loader.is_source Loader.module_name
    Loader.finish Loader.run_module Loader.load_source Loader.load_file Loader.load_files
    Loader.load_dir lookup insert erase
runs = tt

abbrev config : Fields
config =
    field "general" (dict (field "server_id" (str "node") end))
      (field "plugins" (dict (field "mail" (dict (field "enabled" (bool false) end)) end)) end)

-- The own settings of a plug-in turn it off, and leave the start as it was.
plugin_off : Plugins.init config (Plugins.make "mail" "host") ≡ (
  ok tt,
  record {
    name = "mail";
    autostart = true;
    config = some config;
    enabled = false;
    initialized = true;
    plugconf = dict (field "enabled" (bool false) end);
    server_id = str "node";
  },
)
unfolding runs
plugin_off = refl

abbrev options : Fields
options = field "dest" (str "/out") end

abbrev inopaths : Fields
inopaths = field "/in" (dict options) end

-- A file of a watched directory, to a destination and to one behind a prefix.
moved_file : realdstpath inopaths "copy" (some "/in") (codes "/in/a/b") [] ≡ ok (codes "/out/a/b")
unfolding runs
moved_file = refl

prefixed_file :
    realdstpath inopaths "copy" (some "/in") (codes "/in/a/b") (codes "node")
    ≡ ok (codes "/node/out/a/b")
unfolding runs
prefixed_file = refl

abbrev web : Module
web = Modules.make "web" "host"

abbrev compile : Value → Result ℕ
compile v = raise value_error

-- A route for two operations, with a hook.
abbrev routes : Fields
routes =
    field "status"
      (dict (
        field "handler" (str "status") (
          field "op" (list (cons (str "GET") (cons (str "POST") nil)))
            (field "at_start" (bool true) end))))
      end

abbrev command : Value → Option String → Command ℕ
command op at_start = record {
  op = op;
  hooks = record { safe_init = none; at_start = at_start; at_stop = none };
  name = Modules.plain null;
  handler = "status";
  static = false;
  root = null;
  replacement = null;
  charset = str "utf-8";
  content_type = str "application/json";
  to_auth = null;
  to_log = true;
}

abbrev commands : List (Command ℕ)
commands = command (str "GET") (some "at_start") ∷ command (str "POST") none ∷ []

route_registered :
    register_commands (keeping compile (λ name. true)) web routes [] ≡ (ok tt, commands)
unfolding runs
route_registered = refl

register_commands-Registered_example :
    (added : List (Command ℕ)) × (commands ≡ [] ++ added)
    × Registered compile (λ name. true) web routes added
unfolding runs
register_commands-Registered_example =
    register_commands-Registered compile (λ name. true) web routes [] commands refl

-- A module is its number; the second one fails in its code.
abbrev importer : Importer String (List String)
importer = record {
  has_loader = λ name path. true;
  module_from_spec = λ name path. ok name;
  exec_module = λ m s. (
    if str_eq m "plug.b" then raise runtime_error else ok tt,
    record s { world = s.world ++ (m ∷ []) },
  );
  listdir = λ path. ok ("a.py" ∷ "README" ∷ ".x.py" ∷ "b.py" ∷ []);
  join = λ a b. a & ("/" & b);
  abspath = λ path. path;
}

abbrev known : System String (List String)
known = record { modules = ("plug.b", "old") ∷ []; world = [] }

-- A module that is there already is not run again.
loaded_once : load_dir importer "plug" "dir" known ≡ (
  ok (("plug.a", "plug.a") ∷ ("plug.b", "old") ∷ []),
  record { modules = ("plug.b", "old") ∷ ("plug.a", "plug.a") ∷ []; world = "plug.a" ∷ [] },
)
unfolding runs
loaded_once = refl

abbrev unknown : System String (List String)
unknown = record { modules = []; world = [] }

failing_code : load_dir importer "plug" "dir" unknown ≡ (
  raise runtime_error,
  record { modules = ("plug.a", "plug.a") ∷ []; world = "plug.a" ∷ "plug.b" ∷ [] },
)
unfolding runs
failing_code = refl

load_dir-Outcome_example :
    Outcome importer "plug"
      ("a.py" ∷ "README" ∷ ".x.py" ∷ "b.py" ∷ [])
      (load_dir importer "plug" "dir" unknown)
load_dir-Outcome_example = load_dir-Outcome importer "plug" "dir" unknown refl
