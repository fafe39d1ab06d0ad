-- ===== src/Inotify/Manager.antt =====
-- dwho/classes/inotify.py: DWhoInotifyWatchManager, which puts watches on paths and on the directories
-- below them. The kernel, globbing and the tree of directories are parameters, as they stand at the
-- time of a call; the encoding of a path as text is outside.
use Prim.Native.Nat.{bit_and, bit_or}
use dwho.Base.{
  ℕ, ◌==◌, ◌&&◌, String, Bool, true, false, Option, none, some, List, [], ◌∷◌, ◌++◌, if◌then◌else◌,
}
use dwho.Base.Dict.{Dict, insert}
use dwho.Base.Value.{ℤ, pos, negsuc, truthy}
use dwho.Inotify.{CfgPath}
use dwho.Inotify.Watches.{System}

-- pyinotify.Watch, without the function that processes its events
pub record Watch : Type 0 where
  pub wd : ℕ
  pub path : String
  pub mask : ℕ
  pub auto_add : Bool
  pub exclude_filter : String → Bool

-- Directories side by side, each with those below it that are no links.
pub data Forest : Type 0 where
  leaf : Forest
  dir : String → Forest → Forest → Forest

pub record Kernel (W : Type 0) : Type 0 where
  -- inotify_add_watch(fd, path, mask)
  pub inotify_add_watch : String → ℕ → W → ℤ × W
  pub in_create : ℕ
  pub normpath : String → String
  pub iglob : String → List String
  -- What os.walk(path) comes to, no directory where it cannot be listed; none for a link, and where
  -- there is no directory.
  pub tree : String → Option Forest

-- _wmd, _exclude_filter, and the world
pub record Manager (W : Type 0) : Type 0 where
  pub wmd : List (ℕ × Watch)
  pub exclude_filter : String → Bool
  pub world : W

-- What `add_watch` returns, or the WatchManagerError with what it has so far.
pub data Added : Type 0 where
  watched failed : Dict ℤ → Added

-- Arguments of `add_watch`.
pub record Options : Type 0 where
  pub mask : ℕ
  pub rec : Bool
  pub auto_add : Bool
  pub do_glob : Bool
  pub quiet : Bool
  pub exclude_filter : Option (String → Bool)

-- A path, or a list of paths.
pub data Param : Type 0 where
  one : String → Param
  many : List String → Param

-- `__format_param`
unfoldable pub format_param : Param → List String
format_param (one p) = p ∷ []
format_param (many ps) = ps

-- d[wd] = watch
unfoldable pub put_watch : ℕ → Watch → List (ℕ × Watch) → List (ℕ × Watch)
put_watch wd watch [] = (wd, watch) ∷ []
put_watch wd watch ((k, v) ∷ d) = if k == wd then (k, watch) ∷ d else (k, v) ∷ put_watch wd watch d

-- The loop of `__walk_rec` over os.walk(top, topdown = True): what is below an excluded directory is
-- not walked.
unfoldable pub walk : (String → Bool) → Forest → List String
walk exclude leaf = []
walk exclude (dir root dirs rest) =
    let below = walk exclude dirs in
    root ∷ ((if exclude root then [] else below) ++ walk exclude rest)

-- What `add_watch` returns for a path that is excluded.
abbrev pub excluded_code : ℤ
excluded_code = negsuc 1

module _ {W : Type 0} (kernel : Kernel W) where
  -- if auto_add and not mask & pyinotify.IN_CREATE: ...
  unfoldable pub full_mask : Bool → ℕ → ℕ
  full_mask auto_add mask =
      if auto_add && bit_and mask kernel.in_create == 0 then bit_or mask kernel.in_create else mask

  -- Behind the kernel's answer in `__add_watch`.
  unfoldable pub insert_watch : (ℕ → Watch) → ℤ × W → Manager W → ℤ × Manager W
  insert_watch watch (negsuc n, w) m = (negsuc n, record m { world = w })
  insert_watch watch (pos wd, w) m =
      (pos wd, record m { wmd = put_watch wd (watch wd) m.wmd; world = w })

  -- `__add_watch`
  unfoldable pub add_one : Options → (String → Bool) → String → Manager W → ℤ × Manager W
  add_one o exclude rpath m =
      let path = kernel.normpath rpath in
      let mask = full_mask o.auto_add o.mask in
      insert_watch
        (λ wd. record {
          wd = wd;
          path = path;
          mask = mask;
          auto_add = o.auto_add;
          exclude_filter = exclude;
        })
        (kernel.inotify_add_watch path mask m.world) m

  -- `__glob`
  unfoldable pub globbed : Bool → String → List String
  globbed do_glob path = if do_glob then kernel.iglob path else path ∷ []

  -- `__walk_rec`
  unfoldable pub walk_rec : Bool → (String → Bool) → String → List String
  walk_rec rec exclude top =
      if rec then elim (kernel.tree top) [ none ↦ top ∷ [] | some t ↦ walk exclude t ] else top ∷ []

  -- The paths that the loops of `add_watch` come to, in their order.
  unfoldable pub walk_each : Bool → (String → Bool) → List String → List String
  walk_each rec exclude [] = []
  walk_each rec exclude (apath ∷ apaths) =
      walk_rec rec exclude apath ++ walk_each rec exclude apaths

  unfoldable pub rpaths : Options → (String → Bool) → List String → List String
  rpaths o exclude [] = []
  rpaths o exclude (npath ∷ npaths) =
      walk_each o.rec exclude (globbed o.do_glob npath) ++ rpaths o exclude npaths

  -- The body of the loops of `add_watch`.
  unfoldable pub add_each :
      Options → (String → Bool) → List String → Dict ℤ → Manager W → Added × Manager W
  add_each o exclude [] ret m = (watched ret, m)
  add_each o exclude (rpath ∷ rest) ret m = elim (exclude rpath) [
    | true ↦ add_each o exclude rest (insert rpath excluded_code ret) m
    | false ↦
        let (wd, m') = add_one o exclude rpath m in
        elim wd [
          | pos n ↦ add_each o exclude rest (insert rpath (pos n) ret) m'
          | negsuc n ↦ elim o.quiet [
            | true ↦ add_each o exclude rest (insert rpath (negsuc n) ret) m'
            | false ↦ (failed (insert rpath (negsuc n) ret), m')
          ]
        ]
  ]

  abbrev pub own_filter : Options → Manager W → String → Bool
  own_filter o m = elim o.exclude_filter [ none ↦ m.exclude_filter | some f ↦ f ]

  -- `add_watch`
  unfoldable pub add_watch : Param → Options → Manager W → Added × Manager W
  add_watch path o m =
      add_each o (own_filter o m) (rpaths o (own_filter o m) (format_param path)) [] m

  -- The options that `__add_watch` of DWhoInotify gives.
  abbrev pub options_of : {P : Type 0} → CfgPath P → Options
  options_of c = record {
    mask = c.event_mask;
    rec = true;
    auto_add = true;
    do_glob = truthy c.do_glob;
    quiet = false;
    exclude_filter = c.exclude_filter;
  }

  abbrev pub added_paths : Added × Manager W → Option (Dict ℤ) × Manager W
  added_paths (watched d, m) = (some d, m)
  added_paths (failed d, m) = (none, m)

  -- The watcher over this watch manager.
  abbrev pub watcher :
      {P : Type 0}
      → (String → String)
      → (String → Manager W → Bool × Manager W)
      → (Manager W → Manager W)
      → System P (Manager W)
  watcher abspath rm_watch kill_workers = record {
    abspath = abspath;
    add_watch = λ c m. added_paths (add_watch (one c.path) (options_of c) m);
    rm_watch = rm_watch;
    kill_workers = kill_workers;
  }
