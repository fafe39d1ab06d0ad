-- ===== src/Inotify/Plugs.antt =====
-- dwho/classes/inotify.py: the plug-ins that handle an event, DWhoInotifyPlugs, and the handler
-- that gives them to the worker pool, DWhoInotifyEventHandler.
use dwho.Base.Dict.{is_in}
use dwho.Base.{◌&&◌, String, Bool, false, Option, none, some, List, [], ◌∷◌, if◌then◌else◌}
use dwho.Base.Value.{Value, Fields, bool, dict, get_or, null}
use dwho.Base.Exec.{Exec}
use dwho.Inotify.{CfgPath}

abbrev is_true : Value → Bool
is_true (bool b) = b
is_true _ = false

-- inoplug_enabled of dwho/classes/inoplugs.py
unfoldable pub inoplug_enabled : Bool → Value → Bool
inoplug_enabled default (dict d) = is_true (get_or "enabled" (bool default) d)
inoplug_enabled default options = is_true options

-- What DWhoInotifyPlugs asks of a plug-in object: whether it is enabled, its name, and its call.
pub record Plugin (P W : Type 0) : Type 0 where
  pub enabled : P → W → Bool
  pub name : P → String
  pub call : P → Exec W (Unit {0})

module _ {P W : Type 0} (plugin : Plugin P W) (plugins_conf : Fields) where
  -- not plugin.enabled or not inoplug_enabled(...): continue
  unfoldable pub is_run : P → W → Bool
  is_run p w =
      plugin.enabled p w && inoplug_enabled false (get_or (plugin.name p) null plugins_conf)

  -- One turn of the loop of `run`: an exception of the plug-in is logged.
  unfoldable pub run_one : P → W → W
  run_one p w = if is_run p w then (plugin.call p w).1 else w

  -- DWhoInotifyPlugs.run, without the flag that it sets at its end
  unfoldable pub run_plugins : List P → W → W
  run_plugins [] w = w
  run_plugins (p ∷ ps) w = run_plugins ps (run_one p w)

abbrev pub named : {P W : Type 0} → Plugin P W → List String → List P → List P
named plugin include [] = []
named plugin include (p ∷ ps) =
    let rest = named plugin include ps in if is_in (plugin.name p) include then p ∷ rest else rest

-- The exclude filter of a call: none given, the value False, or a filter.
pub data Exclude : Type 0 where
  default disabled : Exclude
  filter : (String → Bool) → Exclude

unfoldable pub is_excluded : Exclude → Option (String → Bool) → String → Bool
is_excluded disabled own file = false
is_excluded (filter f) own file = f file
is_excluded default none file = false
is_excluded default (some f) file = f file

-- `call_plugins`: the work item for the pool, if any. `pathname` is the event's, if it has one that
-- the file system can encode.
unfoldable pub call_plugins :
    {P W : Type 0}
    → Plugin P W
    → List String
    → Exclude
    → CfgPath P
    → Option String
    → Option (CfgPath P × String)
call_plugins plugin include exclude c pathname = elim pathname [
  | none ↦ none
  | some file ↦
      let c' = record c {
        plugins = elim include [ [] ↦ c.plugins | i ∷ is ↦ named plugin (i ∷ is) c.plugins ];
      } in
      elim c'.plugins [
        | [] ↦ none
        | p ∷ ps ↦ if is_excluded exclude c.exclude_filter file then none else some (c', file)
      ]
]
