-- ===== src/Inotify/Watches.antt =====
-- dwho/classes/inotify.py: the watched paths of DWhoInotify, and the commands of its thread.
use dwho.Base.{
  ℕ, ◌||◌, ◌&◌, leb, String, Bool, true, false, Option, none, some, List, [], ◌∷◌, if◌then◌else◌,
  Result, ok, raise, foreign, is_some, str_eq, length,
}
use dwho.Base.Dict.{Dict, lookup, insert, erase, keys}
use dwho.Base.Value.{ℤ, pos, negsuc}
use dwho.Base.Text.{codes, prefix_of, rstrip_code}
use dwho.Inotify.{CfgPath}

-- path == root or path.startswith(root.rstrip(os.sep) + os.sep)
unfoldable pub is_under : String → String → Bool
is_under root path =
    str_eq path root || prefix_of (codes (rstrip_code b'/' root & "/")) (codes path)

pub data Command (P : Type 0) : Type 0 where
  add : CfgPath P → Command P
  rem : CfgPath P → Command P
  -- A mode that is neither.
  other : Command P

pub record Inotify (P W : Type 0) : Type 0 where
  pub cfg_paths : Dict (CfgPath P)
  pub killed : Bool
  -- scan_event.is_set()
  pub scanned : Bool
  pub world : W

-- What the watcher asks of the outside. `None` of the watch manager is a WatchManagerError.
pub record System (P W : Type 0) : Type 0 where
  pub abspath : String → String
  pub add_watch : CfgPath P → W → Option (Dict ℤ) × W
  -- rm_watch(get_wd(path), rec = True, quiet = False)
  pub rm_watch : String → W → Bool × W
  pub kill_workers : W → W

module _ {P W : Type 0} (system : System P W) where
  -- len(os.path.abspath(p))
  unfoldable pub depth : String → ℕ
  depth p = length (codes (system.abspath p))

  unfoldable pub insert_deep : String → List String → List String
  insert_deep p [] = p ∷ []
  insert_deep p (q ∷ qs) =
      let rest = insert_deep p qs in if leb (depth q) (depth p) then p ∷ q ∷ qs else q ∷ rest

  -- sorted(cfg_paths, key = ..., reverse = True): equal keys keep their order.
  unfoldable pub sort_deep : List String → List String
  sort_deep [] = []
  sort_deep (p ∷ ps) = insert_deep p (sort_deep ps)

  -- The first of the roots that the path is under.
  unfoldable pub first_root : String → List String → Option String
  first_root path [] = none
  first_root path (r ∷ rs) =
      let later = first_root path rs in if is_under (system.abspath r) path then some r else later

  -- `get_cfg_path`
  unfoldable pub get_cfg_path : Dict (CfgPath P) → String → Option (CfgPath P)
  get_cfg_path cfg_paths path =
      elim (first_root (system.abspath path) (sort_deep (keys cfg_paths))) [
        | none ↦ none
        | some r ↦ lookup r cfg_paths
      ]

  -- for wpath, wcode in iteritems(wdd): ...
  unfoldable pub add_watched : CfgPath P → Dict ℤ → Dict (CfgPath P) → Dict (CfgPath P)
  add_watched c [] d = d
  add_watched c ((path, pos wd) ∷ wdd) d = add_watched c wdd (insert path c d)
  add_watched c ((path, negsuc _) ∷ wdd) d = add_watched c wdd d

  -- `__add_watch`
  unfoldable pub add_path : CfgPath P → Inotify P W → Inotify P W
  add_path c i =
      let (wdd, w) = system.add_watch c i.world in
      elim wdd [
        | none ↦ record i { world = w }
        | some d ↦ record i { cfg_paths = add_watched c d i.cfg_paths; world = w }
      ]

  -- del self.cfg_paths[path], for each path under the root
  unfoldable pub drop_under : String → List String → Dict (CfgPath P) → Dict (CfgPath P)
  drop_under root [] d = d
  drop_under root (p ∷ ps) d =
      drop_under root ps (if is_under root (system.abspath p) then erase p d else d)

  unfoldable pub removed : CfgPath P → Bool × W → Inotify P W → Inotify P W
  removed c (true, w) i = record i {
    cfg_paths = drop_under (system.abspath c.path) (keys i.cfg_paths) i.cfg_paths;
    world = w;
  }
  removed c (false, w) i = record i { world = w }

  -- `__rem_watch`
  unfoldable pub rem_path : CfgPath P → Inotify P W → Inotify P W
  rem_path c i =
      if is_some (lookup c.path i.cfg_paths)
      then removed c (system.rm_watch c.path i.world) i
      else i

  -- One turn of the loop of `run`: the command that the queue gives within its time, if any. An
  -- invalid mode raises out of the thread.
  unfoldable pub turn : Option (Command P) → Inotify P W → Result (Unit {0}) × Inotify P W
  turn none i = (ok tt, record i { scanned = true })
  turn (some (add c)) i = (ok tt, add_path c (record i { scanned = false }))
  turn (some (rem c)) i = (ok tt, rem_path c (record i { scanned = false }))
  turn (some other) i = (raise (foreign 2), record i { scanned = false })

  -- The turns of `run` with these answers of the queue, as long as the thread is not killed.
  unfoldable pub run : List (Option (Command P)) → Inotify P W → Result (Unit {0}) × Inotify P W
  run [] i = (ok tt, i)
  run (a ∷ answers) i =
      let (r, i') = turn a i in
      let later = run answers i' in
      if i.killed then (ok tt, i) else elim r [ ok _ ↦ later | raise e ↦ (raise e, i') ]

  -- `stop`
  unfoldable pub stop : Inotify P W → Inotify P W
  stop i = record {
    cfg_paths = [];
    killed = true;
    scanned = true;
    world = system.kill_workers i.world;
  }
