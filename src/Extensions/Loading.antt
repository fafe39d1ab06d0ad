-- ===== src/Extensions/Loading.antt =====
-- dwho/classes/libloader.py: how `load_dir` ends.
use dwho.Base.{
  String, Bool, true, false, Option, none, some, List, [], ◌∷◌, ◌||◌, not, if◌then◌else◌, Result,
  Exc, ok, raise, import_error, ◌≡◌, refl, arith, eq_refl, is_some, Has, here, later, not-Has-nil,
  all, Bool-cases, inl, inr, sym, ◌∙◌,
}
use dwho.Base.Dict.{Dict, lookup, insert, lookup-erase, lookup-insert}
use dwho.Base.Exec.{Exec, continue, fail, lift, ◌>>=◌}
use dwho.Extensions.Loader.{
  System, Importer, is_source, module_name, found, finish, run_module, load_source, load_new,
  load_file, load_files, load_dir,
}

true-false : true ≡ false → ⊥
true-false h = cc

module _ {M W : Type 0} (importer : Importer M W) where
  found-none : (m : Option M) {e : Exc} → found m ≡ raise e → m ≡ none
  found-none none h = refl
  found-none (some m) h = cc

  finish-forgotten :
      (name : String) (ran : Result (Unit {0}) × System M W) {e : Exc}
      → (finish name ran).0 ≡ raise e
      → lookup name (finish name ran).1.modules ≡ none
  unfolding finish
  finish-forgotten name (ok _, s) h = found-none (lookup name s.modules) h
  finish-forgotten name (raise e, s) h = rw (lookup-erase name name s.modules, eq_refl name)

  made-forgotten :
      (name : String) (made : Result M) (s : System M W) {e : Exc}
      → lookup name s.modules ≡ none
      → ((lift made >>= run_module importer name) s).0 ≡ raise e
      → lookup name ((lift made >>= run_module importer name) s).1.modules ≡ none
  unfolding run_module
  made-forgotten name (raise e) s fresh h = fresh
  made-forgotten name (ok m) s fresh h =
      finish-forgotten name
        (importer.exec_module m (record s { modules = insert name m s.modules })) h

  load_source-forgotten :
      (name path : String) (s : System M W) {e : Exc}
      → lookup name s.modules ≡ none
      → (load_source importer name path s).0 ≡ raise e
      → lookup name (load_source importer name path s).1.modules ≡ none
  unfolding load_source
  load_source-forgotten name path s {e} fresh h = either (importer.has_loader name path) h
    where
      source : Bool → Exec (System M W) M
      source b =
          if b
          then lift (importer.module_from_spec name path) >>= run_module importer name
          else fail import_error

      either : (b : Bool) → (source b s).0 ≡ raise e → lookup name (source b s).1.modules ≡ none
      either true h' = made-forgotten name (importer.module_from_spec name path) s fresh h'
      either false h' = fresh

  load_file-forgotten :
      (xtype path xfile : String) (s : System M W) {e : Exc}
      → (load_file importer xtype path xfile s).0 ≡ raise e
      → lookup (module_name xtype xfile) (load_file importer xtype path xfile s).1.modules ≡ none
  unfolding load_file
  load_file-forgotten xtype path xfile s {e} h = by_entry (lookup name s.modules) refl h
    where
      name : String
      name = module_name xtype xfile

      by_entry :
          (m : Option M)
          → lookup name s.modules ≡ m
          → (load_new importer name (importer.join path xfile) m s).0 ≡ raise e
          → lookup name (load_new importer name (importer.join path xfile) m s).1.modules ≡ none
      by_entry none fresh h' =
          load_source-forgotten name (importer.abspath (importer.join path xfile)) s fresh h'
      by_entry (some m) known h' = cc

  abbrev IsIn : String → Dict M → Type 0
  IsIn name r = is_some (lookup name r) ≡ true

  -- What loading these files behind others comes to: all of them are loaded and those before are
  -- kept, or the name of one of them is not in `sys.modules`.
  abbrev Progress : String → List String → Dict M → Result (Dict M) × System M W → Type 0
  Progress xtype files before (ok r, s) =
      ((name : String) → IsIn name before → IsIn name r)
      × ((xfile : String)
          → Has xfile files
          → is_source xfile ≡ true
          → IsIn (module_name xtype xfile) r)
  Progress xtype files before (raise e, s) =
      (xfile : String) × Has xfile files
      × (is_source xfile ≡ true)
      × (lookup (module_name xtype xfile) s.modules ≡ none)

  IsIn-insert : (name k : String) (m : M) (r : Dict M) → IsIn name r → IsIn name (insert k m r)
  IsIn-insert name k m r h = rw (lookup-insert k name m r) (ground (arith, h))

  IsIn-inserted : (name : String) (m : M) (r : Dict M) → IsIn name (insert name m r)
  IsIn-inserted name m r = rw (lookup-insert name name m r, eq_refl name)

  -- A file that is skipped.
  Progress-skipped :
      (xtype xfile : String) (files : List String) (r : Dict M) (out : Result (Dict M) × System M W)
      → is_source xfile ≡ false
      → Progress xtype files r out
      → Progress xtype (xfile ∷ files) r out
  Progress-skipped xtype xfile files r (ok r', s) skipped h = (h.0, at)
    where
      at : (x : String) → Has x (xfile ∷ files) → is_source x ≡ true → IsIn (module_name xtype x) r'
      at x here source = absurd (true-false (sym source ∙ skipped))
      at x (later m) source = h.1 x m source
  Progress-skipped xtype xfile files r (raise e, s) skipped (x, m, source, gone) =
      (x, later m, source, gone)

  -- A file that is loaded.
  Progress-loaded :
      (xtype xfile : String) (files : List String) (r : Dict M) (m : M)
      (out : Result (Dict M) × System M W)
      → Progress xtype files (insert (module_name xtype xfile) m r) out
      → Progress xtype (xfile ∷ files) r out
  Progress-loaded xtype xfile files r m (ok r', s) h =
      ((λ name k. h.0 name (IsIn-insert name (module_name xtype xfile) m r k)), at)
    where
      at : (x : String) → Has x (xfile ∷ files) → is_source x ≡ true → IsIn (module_name xtype x) r'
      at x here source = h.0 (module_name xtype x) (IsIn-inserted (module_name xtype x) m r)
      at x (later among) source = h.1 x among source
  Progress-loaded xtype xfile files r m (raise e, s) (x, among, source, gone) =
      (x, later among, source, gone)

  load_files-Progress :
      (xtype path : String) (files : List String) (r : Dict M) (s : System M W)
      → Progress xtype files r (load_files importer xtype path files r s)
  unfolding load_files
  load_files-Progress xtype path [] r s = ((λ name h. h), (λ xfile h. absurd (not-Has-nil h)))
  load_files-Progress xtype path (xfile ∷ files) r s =
      by_test (λ r' s'. load_files-Progress xtype path files r' s') (is_source xfile) refl
    where
      Others : Type 0
      Others =
          (r' : Dict M) (s' : System M W)
          → Progress xtype files r' (load_files importer xtype path files r' s')

      behind : M → Exec (System M W) (Dict M)
      behind m = load_files importer xtype path files (insert (module_name xtype xfile) m r)

      by_result :
          Others
          → (one : Result M × System M W)
          → ((e : Exc) → one.0 ≡ raise e → lookup (module_name xtype xfile) one.1.modules ≡ none)
          → is_source xfile ≡ true
          → Progress xtype (xfile ∷ files) r (continue one.0 behind one.1)
      by_result others (ok m, s') forgotten source =
          Progress-loaded xtype xfile files r m (behind m s')
            (others (insert (module_name xtype xfile) m r) s')
      by_result others (raise e, s') forgotten source = (xfile, here, source, forgotten e refl)

      by_test :
          Others
          → (b : Bool) → is_source xfile ≡ b
          → Progress xtype (xfile ∷ files) r (
              (if b
                  then load_file importer xtype path xfile >>= behind
                  else load_files importer xtype path files r)
                s)
      by_test others true source =
          by_result others (load_file importer xtype path xfile s)
            (λ e h. load_file-forgotten xtype path xfile s h) source
      by_test others false skipped =
          Progress-skipped xtype xfile files r (load_files importer xtype path files r s) skipped
            (others r s)

  -- The dict has the module of every source file among these.
  abbrev pub has_modules : String → Dict M → List String → Bool
  has_modules xtype r files =
      all (λ xfile. not (is_source xfile) || is_some (lookup (module_name xtype xfile) r)) files

  -- A dict with the modules of the files, or a raise, with the name of a source file among them that
  -- is not in `sys.modules`.
  abbrev pub Outcome : String → List String → Result (Dict M) × System M W → Type 0
  Outcome xtype files (ok r, s) = has_modules xtype r files ≡ true
  Outcome xtype files (raise e, s) =
      (xfile : String) × Has xfile files
      × (is_source xfile ≡ true)
      × (lookup (module_name xtype xfile) s.modules ≡ none)

  has_modules-lookup :
      (xtype : String) (r : Dict M) (files : List String)
      → ((xfile : String)
          → Has xfile files
          → is_source xfile ≡ true
          → IsIn (module_name xtype xfile) r)
      → has_modules xtype r files ≡ true
  has_modules-lookup xtype r [] h = refl
  has_modules-lookup xtype r (xfile ∷ files) h =
      let others = has_modules-lookup xtype r files (λ x among. h x (later among)) in
      elim (Bool-cases (is_source xfile)) [
        | inl source ↦ rw (source, h xfile here source) others
        | inr skipped ↦ rw skipped others
      ]

  Progress-Outcome :
      (xtype : String) (files : List String) (out : Result (Dict M) × System M W)
      → Progress xtype files [] out
      → Outcome xtype files out
  Progress-Outcome xtype files (ok r, s) h = has_modules-lookup xtype r files h.1
  Progress-Outcome xtype files (raise e, s) h = h

  -- `load_dir` of a directory that is listed either returns a dict with the module of every source
  -- file, or it raises, and the name of one of the source files is not left in `sys.modules`.
  pub load_dir-Outcome :
      (xtype path : String) (s : System M W) {files : List String}
      → importer.listdir path ≡ ok files
      → Outcome xtype files (load_dir importer xtype path s)
  unfolding load_dir
  load_dir-Outcome xtype path s {files} listed = rw listed (
      Progress-Outcome xtype files (load_files importer xtype path files [] s)
        (load_files-Progress xtype path files [] s))
