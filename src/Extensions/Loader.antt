-- ===== src/Extensions/Loader.antt =====
-- dwho/classes/libloader.py: loading the modules of a directory. `sys.modules` is a dict; importlib
-- and the file system are parameters; `M` is a module.
use dwho.Base.{
  ℕ, String, ◌&◌, Bool, Option, none, some, List, [], ◌∷◌, length, leb, ◌&&◌, ◌||◌, not,
  if◌then◌else◌, Result, ok, raise, key_error, import_error,
}
use dwho.Base.Dict.{Dict, lookup, insert, erase}
use dwho.Base.Exec.{Exec, pure, fail, lift, gets, ◌>>=◌}
use dwho.Base.Text.{codes, prefix_of}

-- sys.modules, and the world that the code of modules acts on
pub record System (M W : Type 0) : Type 0 where
  pub modules : Dict M
  pub world : W

pub record Importer (M W : Type 0) : Type 0 where
  -- Whether `spec_from_file_location(name, path)` gives a spec with a loader.
  pub has_loader : String → String → Bool
  pub module_from_spec : String → String → Result M
  -- spec.loader.exec_module(module)
  pub exec_module : M → Exec (System M W) (Unit {0})
  pub listdir : String → Result (List String)
  pub join : String → String → String
  pub abspath : String → String

-- s.endswith(p), on code points
abbrev ends_with : List ℕ → List ℕ → Bool
ends_with p [] = prefix_of p []
ends_with p (c ∷ s) = (prefix_of p (c ∷ s) && prefix_of (c ∷ s) p) || ends_with p s

-- The files that `load_dir` does not skip.
unfoldable pub is_source : String → Bool
is_source xfile =
    not (prefix_of (codes ".") (codes xfile))
    && not (ends_with (codes "__init__.py") (codes xfile))
    && ends_with (codes ".py") (codes xfile)

-- os.path.splitext(xfile)[0], of a file that is not skipped: all but the last three characters
abbrev stem : String → String
stem String.[] = ""
stem (String.◌∷◌ c s) = if leb (length (codes s)) 2 then "" else String.◌∷◌ c (stem s)

-- '.'.join([xtype, ...])
unfoldable pub module_name : String → String → String
module_name xtype xfile = xtype & ("." & stem xfile)

abbrev pub found : {M : Type 0} → Option M → Result M
found none = raise key_error
found (some module_of) = ok module_of

module _ {M W : Type 0} where
  -- The module of this name after its code ran: on a raise, the name is taken out again.
  unfoldable pub finish : String → Result (Unit {0}) × System M W → Result M × System M W
  finish name (ok _, s) = (found (lookup name s.modules), s)
  finish name (raise e, s) = (raise e, record s { modules = erase name s.modules })

module _ {M W : Type 0} (importer : Importer M W) where
  -- The module is in `sys.modules` while its code runs.
  unfoldable pub run_module : String → M → Exec (System M W) M
  run_module name m s =
      finish name (importer.exec_module m (record s { modules = insert name m s.modules }))

  -- `_load_source`
  unfoldable pub load_source : String → String → Exec (System M W) M
  load_source name path =
      if importer.has_loader name path
      then lift (importer.module_from_spec name path) >>= run_module name
      else fail import_error

  abbrev pub load_new : String → String → Option M → Exec (System M W) M
  load_new name path (some m) = pure m
  load_new name path none = load_source name (importer.abspath path)

  -- The module of one file: that of `sys.modules`, if its name is there.
  unfoldable pub load_file : String → String → String → Exec (System M W) M
  load_file xtype path xfile =
      gets (λ s. lookup (module_name xtype xfile) s.modules)
      >>= load_new (module_name xtype xfile) (importer.join path xfile)

  -- for xfile in os.listdir(path): ...
  unfoldable pub load_files : String → String → List String → Dict M → Exec (System M W) (Dict M)
  load_files xtype path [] r = pure r
  load_files xtype path (xfile ∷ files) r =
      if is_source xfile
      then load_file xtype path xfile
        >>= (λ m. load_files xtype path files (insert (module_name xtype xfile) m r))
      else load_files xtype path files r

  -- `load_dir`
  unfoldable pub load_dir : String → String → Exec (System M W) (Dict M)
  load_dir xtype path = lift (importer.listdir path) >>= (λ files. load_files xtype path files [])
