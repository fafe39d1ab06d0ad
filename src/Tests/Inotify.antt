-- ===== src/Tests/Inotify.antt =====
-- The watcher at concrete inputs.
use dwho.Base.{ℕ, ◌+◌, String, ◌≡◌, refl, true, false, [], ◌∷◌, none, some, ok}
use dwho.Base.Value.{Fields, str, pos, null, bool, list, dict, nil, cons, end, field, negsuc}
use dwho.Base.Dict.{Dict, lookup, insert, erase, keys}
use dwho.Base.Text
use dwho.Inotify.{CfgPath}
use dwho.Inotify.Watches
use dwho.Inotify.Watches.{System, Inotify, Command, add, rem, get_cfg_path, is_under, rem_path, run}
use dwho.Inotify.Config
use dwho.Inotify.Config.{Outside, configure}
use dwho.Inotify.Plugs
use dwho.Inotify.Enabling.{AllEnabled, plugins_conf, configure-AllEnabled}

-- The watch manager watches the path and excludes one below it.
abbrev system : System ℕ ℕ
system = record {
  abspath = λ p. p;
  add_watch = λ c w. (some ((c.path, pos w) ∷ ("/srv/skip", negsuc 1) ∷ []), w + 1);
  rm_watch = λ p w. (true, w);
  kill_workers = λ w. w;
}

abbrev path : String → ℕ → CfgPath ℕ
path p n = record {
  path = p;
  event_mask = n;
  plugins = n ∷ [];
  do_glob = null;
  exclude_filter = none;
}

abbrev start : Inotify ℕ ℕ
start = record { cfg_paths = []; killed = false; scanned = false; world = 1 }

abbrev watching : Inotify ℕ ℕ
watching = record {
  cfg_paths =
      ("/srv", path "/srv" 1) ∷ ("/srv/in", path "/srv/in" 2) ∷ ("/srvs", path "/srvs" 3) ∷ [];
  killed = false;
  scanned = false;
  world = 4;
}

runs : Unit {0}
unfolding lookup insert erase Text.rstrip_code Text.upper is_under Watches.depth Watches.insert_deep
    Watches.sort_deep Watches.first_root get_cfg_path Watches.add_watched Watches.add_path
    Watches.drop_under Watches.removed rem_path Watches.turn run Config.valid_event
    Config.get_flag_value Config.all_texts Config.excluded_of Config.without Config.apply_minus
    Config.own_events Config.event_masks Config.own_files Config.section Config.prepare_path
    Config.prepare_paths Config.path_plugins Config.cfg_path Config.give_paths Config.prepared
    configure Plugs.inoplug_enabled
runs = tt

run_adds :
    run system
      (some (add (path "/srv" 1))
        ∷ some (add (path "/srv/in" 2))
        ∷ some (add (path "/srvs" 3))
        ∷ [])
      start
    ≡ (ok tt, watching)
unfolding runs
run_adds = refl

nested_wins : get_cfg_path system watching.cfg_paths "/srv/in/a" ≡ some (path "/srv/in" 2)
unfolding runs
nested_wins = refl

sibling_kept : keys (rem_path system (path "/srv" 1) watching).cfg_paths ≡ "/srvs" ∷ []
unfolding runs
sibling_kept = refl

abbrev outside : Outside ℕ ℕ
outside = record {
  flags =
      ("IN_CREATE", 256)
      ∷ ("IN_OPEN", 32)
      ∷ ("IN_CLOSE_WRITE", 8)
      ∷ ("IN_MOVE_SELF", 2048)
      ∷ ("IN_MOVED_TO", 128)
      ∷ ("IN_MOVED_FROM", 64)
      ∷ [];
  load_patterns_from_file = λ f. [];
  exclude_filter = λ patterns path. false;
  make_dirs = λ p w. w + 1;
}

-- The path asks for both plug-ins; the section enables one.
abbrev conf : Fields
conf = field "plugins" (dict (field "scan" (bool true) (field "log" (bool false) end))) (
    field "paths"
      (dict (
        field "/srv"
          (dict (
            field "plugins" (dict (field "scan" (bool true) (field "log" (bool true) end))) (
              field "events"
                (list (cons (str "create") (cons (str "open") (cons (str "-open") nil)))) end)))
          end))
      end)

abbrev registry : Dict ℕ
registry = ("scan", 1) ∷ ("log", 2) ∷ []

configured : configure outside registry conf ([], 0) ≡ (
  ok tt,
  (
    record {
      path = "/srv";
      event_mask = 256;
      plugins = 1 ∷ [];
      do_glob = null;
      exclude_filter = none;
    }
        ∷ [],
    1,
  ),
)
unfolding runs
configured = refl

configure-AllEnabled_example :
    AllEnabled outside registry
      (plugins_conf outside registry conf)
      (configure outside registry conf ([], 0)).1.0
configure-AllEnabled_example = configure-AllEnabled outside registry conf 0
