-- ===== src/Runtime/Invariant.antt =====
-- dwho/runtime.py: while the runtime works, what it brings up has its cleanup registered.
use mathlib.Core.List.{append-nil}
use dwho.Base.{
  ◌≡◌, Bool, true, false, List, [], ◌∷◌, ◌++◌, map, String, if◌then◌else◌, inl, inr, ◌≢◌, Has,
  Has-append, Has-append_left, Has-append_right, here, subst, Has-singleton, ◌&&◌,
}
use dwho.Base.Exec.{Exec, Keeps, Keeps-bind, ◌>>=◌, pure}
use dwho.Runtime.{
  Extensions, Runtime, Call, Extension, is_stopped, call, safe_init, at_stop, stop_inotify, init,
  at_start, make_inotify, configure_inotify, init_inotify, start_inotify, extension_module, plugin,
  inoplug, register, init_modules, bring_up, bring_up_all, open_inotify, has_inotify, open_inoplugs,
  initialize_body, start_extension, start_extensions, start_watching, start_body,
}

-- What was brought up has its cleanup made or registered, and so has the inotify instance; a
-- registered cleanup brings nothing up.
pub record IsSound {W : Type 0} (r : Runtime W) : Type 0 where
  pub balanced :
      (e : Extension) → Has (safe_init e) r.calls → Has (at_stop e) (r.calls ++ r.callbacks)
  pub watched : r.inotify ≡ true → Has stop_inotify (r.calls ++ r.callbacks)
  pub clean : (e : Extension) → ¬ Has (safe_init e) r.callbacks

-- While the runtime works, it is not stopped.
pub record IsWorking {W : Type 0} (r : Runtime W) : Type 0 where
  pub sound : IsSound r
  pub live : is_stopped r.state ≡ false

-- Between two calls of its methods, a stopped runtime has no cleanup left.
pub record IsConsistent {W : Type 0} (r : Runtime W) : Type 0 where
  pub sound : IsSound r
  pub settled : is_stopped r.state ≡ true → r.callbacks ≡ []

-- More calls made, and more cleanups registered.
Has-more :
    {A : Type 0} {a : A} (xs ys us vs : List A)
    → Has a (xs ++ ys)
    → Has a ((xs ++ us) ++ (ys ++ vs))
Has-more xs ys us vs h = elim (Has-append xs h) [
  | inl l ↦ Has-append_left (ys ++ vs) (Has-append_left us l)
  | inr r ↦ Has-append_right (xs ++ us) (Has-append_left vs r)
]

module _ {W : Type 0} (ext : Extensions W) where
  call-IsWorking :
      (c : Call) (r : Runtime W)
      → ((e : Extension) → c ≡ safe_init e → Has (at_stop e) r.callbacks)
      → IsWorking r
      → IsWorking (call ext c r).1
  unfolding call
  call-IsWorking c r covered h = record {
    sound = record {
      balanced = λ e made. elim (Has-append r.calls made) [
        | inl old ↦
            rw (← append-nil r.callbacks)
              (Has-more r.calls r.callbacks (c ∷ []) [] (h.sound.balanced e old))
        | inr now ↦ Has-append_right (r.calls ++ c ∷ []) (covered e (Has-singleton now))
      ];
      watched = λ w.
          rw (← append-nil r.callbacks)
            (Has-more r.calls r.callbacks (c ∷ []) [] (h.sound.watched w));
      clean = h.sound.clean;
    };
    live = h.live;
  }

  abbrev pub Works : Exec (Runtime W) (Unit {0}) → Type 0
  Works m = Keeps IsWorking m

  seq-Works :
      (m : Exec (Runtime W) (Unit {0})) (f : Unit {0} → Exec (Runtime W) (Unit {0}))
      → Works m
      → ((a : Unit {0}) → Works (f a))
      → Works (m >>= f)
  seq-Works m f km kf = Keeps-bind m f km kf

  pure-Works : Works (pure tt)
  pure-Works r h = h

  call-Works : (c : Call) → ((e : Extension) → c ≢ safe_init e) → Works (call ext c)
  call-Works c other r h = call-IsWorking c r (λ e p. absurd (other e p)) h

  if-Works :
      (b : Bool) (m n : Exec (Runtime W) (Unit {0}))
      → Works m
      → Works n
      → Works (if b then m else n)
  if-Works true m n km kn = km
  if-Works false m n km kn = kn

  register-IsWorking :
      (c : Call) (r : Runtime W)
      → ((e : Extension) → c ≢ safe_init e)
      → IsWorking r
      → IsWorking (register c r).1
  unfolding register
  register-IsWorking c r other h = record {
    sound = record {
      balanced = λ e made.
          rw (← append-nil r.calls)
            (Has-more r.calls r.callbacks [] (c ∷ []) (h.sound.balanced e made));
      watched = λ w.
          rw (← append-nil r.calls) (Has-more r.calls r.callbacks [] (c ∷ []) (h.sound.watched w));
      clean = λ e made. elim (Has-append r.callbacks made) [
        | inl old ↦ h.sound.clean e old
        | inr now ↦ other e (Has-singleton now)
      ];
    };
    live = h.live;
  }

  enable-Works :
      (e : Extension) → Works (λ r. (register (at_stop e) >>= λ _. call ext (safe_init e)) r)
  unfolding register
  enable-Works e r h =
      call-IsWorking (safe_init e) (register (at_stop e) r).1
        (λ e' p.
          let same : e ≡ e' = cc in
          subst (λ x. Has (at_stop x) (r.callbacks ++ at_stop e ∷ [])) same
            (Has-append_right r.callbacks here))
        (register-IsWorking (at_stop e) r (λ e' p. cc) h)

  bring_up-Works : (e : Extension) → Works (bring_up ext e)
  unfolding bring_up
  bring_up-Works e =
      seq-Works (call ext (init e)) _ (call-Works (init e) (λ e' p. cc))
        (λ _ r. if-Works (ext.enabled e r.world) _ (pure tt) (enable-Works e) pure-Works r)

  bring_up_all-Works : (es : List Extension) → Works (bring_up_all ext es)
  unfolding bring_up_all
  bring_up_all-Works [] = pure-Works
  bring_up_all-Works (e ∷ es) =
      seq-Works (bring_up ext e) _ (bring_up-Works e) (λ _. bring_up_all-Works es)

  init_modules-Works : (names : List String) → Works (init_modules ext names)
  unfolding init_modules
  init_modules-Works [] = pure-Works
  init_modules-Works (n ∷ ns) =
      seq-Works (call ext (init (extension_module n))) _
        (call-Works (init (extension_module n)) (λ e p. cc)) (λ _. init_modules-Works ns)

  -- The instance and its cleanup come together.
  watch-IsWorking :
      (r : Runtime W)
      → IsWorking r
      → IsWorking (record r { inotify = true; callbacks = r.callbacks ++ stop_inotify ∷ [] })
  watch-IsWorking r h =
      let s = register-IsWorking stop_inotify r (λ e p. cc) h in
      record {
        sound = record {
          balanced = unfold register in s.sound.balanced;
          watched = λ w. Has-append_right r.calls (Has-append_right r.callbacks here);
          clean = unfold register in s.sound.clean;
        };
        live = h.live;
      }

  open_inotify-Works : (b : Bool) → Works (open_inotify ext b)
  unfolding open_inotify has_inotify register
  open_inotify-Works false = pure-Works
  open_inotify-Works true =
      seq-Works (call ext make_inotify) _ (call-Works make_inotify (λ e p. cc))
        (λ _ r h. call-Works configure_inotify (λ e p. cc) _ (watch-IsWorking r h))

  open_inoplugs-Works : (b : Bool) (es : List Extension) → Works (open_inoplugs ext b es)
  unfolding open_inoplugs
  open_inoplugs-Works false es = pure-Works
  open_inoplugs-Works true es =
      seq-Works (call ext init_inotify) _ (call-Works init_inotify (λ e p. cc))
        (λ _. bring_up_all-Works es)

  pub initialize_body-Works : (b : Bool) → Works (initialize_body ext b)
  unfolding initialize_body
  initialize_body-Works b = seq-Works (open_inotify ext b) _ (open_inotify-Works b) (λ _ r.
      seq-Works (init_modules ext r.modules) _ (init_modules-Works r.modules)
        (λ _ r'.
          seq-Works (bring_up_all ext (map plugin r'.plugins)) _
            (bring_up_all-Works (map plugin r'.plugins))
            (λ _ r''. open_inoplugs-Works r''.inotify (map inoplug r''.inoplugs) r'') r')
        r)

  start_extension-Works : (e : Extension) → Works (start_extension ext e)
  unfolding start_extension
  start_extension-Works e r =
      if-Works (ext.enabled e r.world && ext.autostart e r.world) (call ext (at_start e)) (pure tt)
        (call-Works (at_start e) (λ e' p. cc)) pure-Works r

  start_extensions-Works : (es : List Extension) → Works (start_extensions ext es)
  unfolding start_extensions
  start_extensions-Works [] = pure-Works
  start_extensions-Works (e ∷ es) =
      seq-Works (start_extension ext e) _ (start_extension-Works e) (λ _. start_extensions-Works es)

  start_watching-Works : (b : Bool) (es : List Extension) → Works (start_watching ext b es)
  unfolding start_watching
  start_watching-Works false es = pure-Works
  start_watching-Works true es =
      seq-Works (start_extensions ext es) _ (start_extensions-Works es)
        (λ _. call-Works start_inotify (λ e p. cc))

  pub start_body-Works : Works (start_body ext)
  unfolding start_body
  start_body-Works r =
      seq-Works (start_extensions ext (map plugin r.plugins)) _
        (start_extensions-Works (map plugin r.plugins))
        (λ _ r'. start_watching-Works r'.inotify (map inoplug r'.inoplugs) r') r
