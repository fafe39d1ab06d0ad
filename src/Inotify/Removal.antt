-- ===== src/Inotify/Removal.antt =====
-- dwho/classes/inotify.py: what the removal of a watch leaves.
use dwho.Base.Dict.{Dict}
use dwho.Inotify.Watches.{Inotify}
