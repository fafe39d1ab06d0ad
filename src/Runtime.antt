-- ===== src/Runtime.antt =====
-- dwho/runtime.py: `DWhoRuntime`, an explicit application lifecycle. What the extensions and the
-- inotify instance do when they are called is a parameter (`Extensions`), over the state `W` of
-- the world that they act on; the calls made are kept in order.
pub mod Stopping
pub mod Invariant
pub mod Rollback
use dwho.Base.{
  ℕ, String, Bool, true, false, ◌&&◌, ◌||◌, not, Option, none, some, List, [], ◌∷◌, ◌++◌, map, all,
  if◌then◌else◌, Exc, Result, ok, raise, value_error, runtime_error,
}
use dwho.Base.Exec.{Exec, pure, gets, ◌>>=◌, ◌>>◌, continue}

pub data Extension : Type 0 where
  extension_module plugin inoplug : String → Extension

-- The calls that the runtime makes of code that is not its own.
pub data Call : Type 0 where
  make_inotify configure_inotify init_inotify start_inotify stop_inotify : Call
  init safe_init at_start at_stop : Extension → Call

pub data Phase : Type 0 where
  new initializing ready starting running stopped : Phase

pub record Extensions (W : Type 0) : Type 0 where
  pub perform : Call → W → Result (Unit {0}) × W
  pub enabled : Extension → W → Bool
  pub autostart : Extension → W → Bool
  -- Not initialized, and not adopted by a runtime.
  pub is_fresh : Extension → W → Bool
  pub adopt : Extension → W → W

-- The runtime, with `modules`, `plugins` and `inoplugs` as the keys of its dicts, the world, and
-- the calls made so far.
pub record Runtime (W : Type 0) : Type 0 where
  pub modules : List String
  pub plugins : List String
  pub inoplugs : List String
  pub has_registrar : Bool
  pub inotify : Bool
  pub callbacks : List Call
  pub state : Phase
  pub world : W
  pub calls : List Call

abbrev pub is_new : Phase → Bool
is_new new = true
is_new _ = false

abbrev pub is_ready : Phase → Bool
is_ready ready = true
is_ready _ = false

abbrev pub is_stopped : Phase → Bool
is_stopped stopped = true
is_stopped _ = false

abbrev pub is_empty {ℓ} : {A : Type ℓ} → List A → Bool
is_empty [] = true
is_empty (_ ∷ _) = false

module _ {W : Type 0} where
  -- __init__
  unfoldable pub make : List String → List String → List String → Bool → W → Runtime W
  make modules plugins inoplugs has_registrar world = record {
    modules = modules;
    plugins = plugins;
    inoplugs = inoplugs;
    has_registrar = has_registrar;
    inotify = false;
    callbacks = [];
    state = new;
    world = world;
    calls = [];
  }

  abbrev pub extensions : Runtime W → List Extension
  extensions r = map extension_module r.modules ++ (map plugin r.plugins ++ map inoplug r.inoplugs)

  -- self.state = phase
  unfoldable pub set_state : Phase → Exec (Runtime W) (Unit {0})
  set_state p r = (ok tt, record r { state = p })

  -- self._callbacks.append(callback)
  unfoldable pub register : Call → Exec (Runtime W) (Unit {0})
  register c r = (ok tt, record r { callbacks = r.callbacks ++ c ∷ [] })

  -- self.inotify = factory()
  unfoldable pub has_inotify : Exec (Runtime W) (Unit {0})
  has_inotify r = (ok tt, record r { inotify = true })

  abbrev pub adopt_all : Extensions W → List Extension → W → W
  adopt_all ext [] w = w
  adopt_all ext (e ∷ es) w = adopt_all ext es (ext.adopt e w)

-- if first_error is None: first_error = error
abbrev pub keep_first {ℓ} : {A : Type ℓ} → Option Exc → Result A → Option Exc
keep_first (some e) result = some e
keep_first none (ok a) = none
keep_first none (raise e) = some e

-- if first_error is not None: raise first_error
abbrev pub raise_first {ℓ} : {S : Type ℓ} → Option Exc × S → Result (Unit {0}) × S
raise_first (none, r) = (ok tt, r)
raise_first (some e, r) = (raise e, r)

module _ {W : Type 0} (ext : Extensions W) where
  unfoldable pub call : Call → Exec (Runtime W) (Unit {0})
  call c r =
      let (result, w) = ext.perform c r.world in
      (result, record r { world = w; calls = r.calls ++ c ∷ [] })

  -- The loop over the registered cleanups in `stop`, with the first error so far.
  unfoldable pub run_callbacks : List Call → Option Exc → Runtime W → Option Exc × Runtime W
  run_callbacks [] first r = (first, r)
  run_callbacks (c ∷ cs) first r =
      let (result, r') = call c r in run_callbacks cs (keep_first first result) r'

  unfoldable pub stop : Exec (Runtime W) (Unit {0})
  stop r =
      if is_stopped r.state
      then (ok tt, r)
      else raise_first
          (run_callbacks r.callbacks none (record r { state = stopped; callbacks = [] }))

  -- `try: body; self.state = phase; except BaseException: self._cleanup_after_failure(); raise`
  unfoldable pub finish : Phase → Result (Unit {0}) × Runtime W → Result (Unit {0}) × Runtime W
  finish phase (ok _, r) = set_state phase r
  finish phase (raise e, r) = (raise e, (stop r).1)

  unfoldable pub init_modules : List String → Exec (Runtime W) (Unit {0})
  init_modules [] = pure tt
  init_modules (name ∷ names) = do call (init (extension_module name)); init_modules names

  -- plugin.init(...), and for an enabled one the registered cleanup and then safe_init.
  unfoldable pub bring_up : Extension → Exec (Runtime W) (Unit {0})
  bring_up e = do
    call (init e)
    enabled ← gets (λ r. ext.enabled e r.world)
    if enabled then (do register (at_stop e); call (safe_init e)) else pure tt

  unfoldable pub bring_up_all : List Extension → Exec (Runtime W) (Unit {0})
  bring_up_all [] = pure tt
  bring_up_all (e ∷ es) = do bring_up e; bring_up_all es

  -- The inotify instance, where the configuration has that section.
  unfoldable pub open_inotify : Bool → Exec (Runtime W) (Unit {0})
  open_inotify false = pure tt
  open_inotify true = do
    call make_inotify
    has_inotify
    register stop_inotify
    call configure_inotify

  -- What stands after it: the inotify plugins come up only with an instance.
  unfoldable pub open_inoplugs : Bool → List Extension → Exec (Runtime W) (Unit {0})
  open_inoplugs false es = pure tt
  open_inoplugs true es = do call init_inotify; bring_up_all es

  unfoldable pub initialize_body : Bool → Exec (Runtime W) (Unit {0})
  initialize_body wants_inotify = do
    open_inotify wants_inotify
    modules ← gets (λ r. r.modules)
    init_modules modules
    plugins ← gets (λ r. r.plugins)
    bring_up_all (map plugin plugins)
    inoplugs ← gets (λ r. r.inoplugs)
    opened ← gets (λ r. r.inotify)
    open_inoplugs opened (map inoplug inoplugs)

  -- `wants_inotify` is `'inotify' in configuration`.
  unfoldable pub initialize : Bool → Exec (Runtime W) (Unit {0})
  initialize wants_inotify r =
      if not (is_new r.state)
      then (raise runtime_error, r)
      else if not (is_empty r.modules) && not r.has_registrar
      then (raise value_error, r)
      else if not (all (λ e. ext.is_fresh e r.world) (extensions r))
      then (raise value_error, r)
      else finish ready (
          initialize_body wants_inotify
            (record r { state = initializing; world = adopt_all ext (extensions r) r.world }))

  unfoldable pub start_extension : Extension → Exec (Runtime W) (Unit {0})
  start_extension e = do
    wanted ← gets (λ r. ext.enabled e r.world && ext.autostart e r.world)
    if wanted then call (at_start e) else pure tt

  unfoldable pub start_extensions : List Extension → Exec (Runtime W) (Unit {0})
  start_extensions [] = pure tt
  start_extensions (e ∷ es) = do start_extension e; start_extensions es

  unfoldable pub start_watching : Bool → List Extension → Exec (Runtime W) (Unit {0})
  start_watching false es = pure tt
  start_watching true es = do start_extensions es; call start_inotify

  unfoldable pub start_body : Exec (Runtime W) (Unit {0})
  start_body = do
    plugins ← gets (λ r. r.plugins)
    start_extensions (map plugin plugins)
    inoplugs ← gets (λ r. r.inoplugs)
    opened ← gets (λ r. r.inotify)
    start_watching opened (map inoplug inoplugs)

  unfoldable pub start : Exec (Runtime W) (Unit {0})
  start r =
      if not (is_ready r.state)
      then (raise runtime_error, r)
      else finish running (start_body (record r { state = starting }))
