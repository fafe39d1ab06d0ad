-- ===== src/Inotify.antt =====
-- dwho/classes/inotify.py: `Watches` holds the watched paths of DWhoInotify and its commands, `Manager`
-- the watch manager below it, `Config` what DWhoInotifyConfig makes of a section, and `Plugs` the calls
-- of plug-ins. pyinotify, the file system and plug-in code are parameters.
pub mod Watches
pub mod Deepest
pub mod Removal
pub mod Config
pub mod Plugs
pub mod Enabling
pub mod Manager
pub mod Walking
pub mod Coverage
use dwho.Base.{ℕ, String, Bool, Option, List}
use dwho.Base.Value.{Value}

-- DWhoInotifyCfgPath, over the type `P` of plug-in objects
pub record CfgPath (P : Type 0) : Type 0 where
  pub path : String
  pub event_mask : ℕ
  pub plugins : List P
  pub do_glob : Value
  pub exclude_filter : Option (String → Bool)
