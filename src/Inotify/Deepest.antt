-- ===== src/Inotify/Deepest.antt =====
-- dwho/classes/inotify.py: an event goes to the deepest watched path that it is under.
use dwho.Base.{◌≤◌, String, true, List, [], ◌∷◌, ◌≡◌, Has, All}
use dwho.Base.Dict.{Dict, keys}
use dwho.Inotify.{CfgPath}
use dwho.Inotify.Watches.{System, is_under, depth}

module _ {P W : Type 0} (system : System P W) where
  -- Each root is at least as deep as those behind it.
  abbrev IsDescending : List String → Type 0
  IsDescending [] = Unit
  IsDescending (r ∷ rs) = All (λ q. depth system q ≤ depth system r) rs × IsDescending rs

  -- The path's root: a watched path that it is under, at least as deep as any other.
  pub record IsRoot (cfg_paths : Dict (CfgPath P)) (path root : String) : Type 0 where
    pub watched : Has root (keys cfg_paths)
    pub under : is_under (system.abspath root) (system.abspath path) ≡ true
    pub deepest :
        (q : String)
        → Has q (keys cfg_paths)
        → is_under (system.abspath q) (system.abspath path) ≡ true
        → depth system q ≤ depth system root
