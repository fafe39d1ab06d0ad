-- ===== src/Tests/Manager.antt =====
-- The watch manager at concrete inputs.
use dwho.Base.{
  ℕ, ◌+◌, String, true, false, none, some, [], ◌∷◌, if◌then◌else◌, ◌≡◌, refl, ◌↔◌, Has, str_eq,
  ◌&&◌, not,
}
use dwho.Base.Dict.{lookup, insert, is_in}
use dwho.Base.Value.{pos, negsuc, null, truthy}
use dwho.Inotify.{CfgPath}
use dwho.Inotify.Watches
use dwho.Inotify.Watches.{Inotify, add_path}
use dwho.Inotify.Manager
use dwho.Inotify.Manager.{Forest, leaf, dir, Kernel, Manager, watcher, globbed}
use dwho.Inotify.Walking.{WalkedFrom, walked, excluded, walked-WalkedFrom}
use dwho.Inotify.Coverage.{succeeded, lookup-add_path}

-- The kernel counts its descriptors, and refuses one path.
abbrev kernel : Kernel ℕ
kernel = record {
  inotify_add_watch = λ path mask n. (if str_eq path "/bad" then negsuc 0 else pos n, n + 1);
  in_create = 256;
  normpath = λ p. p;
  iglob = λ p. [];
  tree = λ p.
      if str_eq p "/srv"
      then some
          (dir "/srv" (dir "/srv/a" leaf (dir "/srv/tmp" (dir "/srv/tmp/x" leaf leaf) leaf)) leaf)
      else none;
}

abbrev manager : Manager ℕ
manager = record { wmd = []; exclude_filter = λ p. false; world = 1 }

abbrev path : String → CfgPath ℕ
path p = record {
  path = p;
  event_mask = 8;
  plugins = 1 ∷ [];
  do_glob = null;
  exclude_filter = some (λ q. str_eq q "/srv/tmp");
}

abbrev start : Inotify ℕ (Manager ℕ)
start = record { cfg_paths = []; killed = false; scanned = false; world = manager }

abbrev add : CfgPath ℕ → Inotify ℕ (Manager ℕ)
add c = add_path (watcher kernel (λ p. p) (λ p m. (true, m)) (λ m. m)) c start

runs : Unit {0}
unfolding lookup insert Manager.put_watch Manager.walk Manager.full_mask Manager.insert_watch
    Manager.add_one Manager.globbed Manager.walk_rec Manager.walk_each Manager.rpaths
    Manager.add_each Manager.format_param Manager.add_watch Watches.add_watched add_path
runs = tt

-- The excluded directory gets no watch, and what is below it is not walked.
tree_added : (add (path "/srv")).cfg_paths ≡ ("/srv", path "/srv") ∷ ("/srv/a", path "/srv") ∷ []
unfolding runs
tree_added = refl

refused : (add (path "/bad")).cfg_paths ≡ []
unfolding runs
refused = refl

lookup-add_path_example : lookup "/srv/a" (add (path "/srv")).cfg_paths ≡ (
    if succeeded kernel (path "/srv") manager
      && is_in "/srv/a" (walked kernel (path "/srv") manager)
      && not (excluded kernel (path "/srv") manager "/srv/a")
    then some (path "/srv")
    else lookup "/srv/a" start.cfg_paths)
lookup-add_path_example =
    lookup-add_path kernel (λ p. p) (λ p m. (true, m)) (λ m. m) (path "/srv") start "/srv/a"

walked-WalkedFrom_example : Has "/srv/tmp" (walked kernel (path "/srv") manager) ↔ (
    (apath : String) × Has apath (globbed kernel (truthy null) "/srv")
    × WalkedFrom kernel (excluded kernel (path "/srv") manager) apath "/srv/tmp")
walked-WalkedFrom_example = walked-WalkedFrom kernel (path "/srv") manager "/srv/tmp"
