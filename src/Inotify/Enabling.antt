-- ===== src/Inotify/Enabling.antt =====
-- dwho/classes/inotify.py: a path can restrict the plug-ins that are enabled for all, and not more.
use dwho.Base.{
  ◌&&◌, String, Bool, true, false, some, List, [], ◌∷◌, ◌++◌, if◌then◌else◌, ok, raise, foreign,
  ◌≡◌, refl, arith, All, Bool-cases, Option-cases, Result-cases, inl, inr, >>=-eq-ok, ok-injective,
  subst, sym, ◌∙◌,
}
use dwho.Base.Dict.{Dict, lookup, keys}
use dwho.Base.Value.{Value, Fields, end, field, dict, null, get_or, truthy}
use dwho.Inotify.{CfgPath}
use dwho.Inotify.Plugs.{inoplug_enabled}
use dwho.Inotify.Config.{
  Outside, Section, PathConf, section, prepare_paths, path_plugins, plugins_of, cfg_path,
  give_paths, configure, global_option, prepared, default_plugins,
}

module _ {P W : Type 0} (outside : Outside P W) (registry : Dict P) where
  -- A plug-in that is registered under a name that the section enables.
  pub record IsEnabled (conf : Value) (p : P) : Type 0 where
    pub name : String
    pub plugins : Fields
    pub given : conf ≡ dict plugins
    pub registered : lookup name registry ≡ some p
    pub enabled : inoplug_enabled false (get_or name null plugins) ≡ true

  global_option-eq-ok :
      (conf : Value) (name : String) {v : Value}
      → global_option outside registry conf name ≡ ok v
      → (d : Fields) × (conf ≡ dict d) × (get_or name null d ≡ v)
  global_option-eq-ok (dict d) name h = (d, refl, ok-injective h)
  global_option-eq-ok _ name h = absurd (ground arith)

  path_plugins-IsEnabled :
      (conf : Value) (d : Fields) {ps : List P}
      → path_plugins outside registry conf d ≡ ok ps
      → All (IsEnabled conf) ps
  unfolding path_plugins
  path_plugins-IsEnabled conf end h = subst (All (IsEnabled conf)) (ok-injective h) tt
  path_plugins-IsEnabled conf (field name options rest) h =
      let (given, found, h') = >>=-eq-ok (global_option outside registry conf name) _ h in
      let (others, made, h'') = >>=-eq-ok (path_plugins outside registry conf rest) _ h' in
      let ih = path_plugins-IsEnabled conf rest made in
      elim (Bool-cases (inoplug_enabled false given && inoplug_enabled (truthy options) options)) [
        | inr off ↦ subst (All (IsEnabled conf)) (ok-injective (rw off at h'')) ih
        | inl on ↦ elim (Option-cases (lookup name registry)) [
          | inl unknown ↦ subst (All (IsEnabled conf)) (ok-injective (rw (on, unknown) at h'')) ih
          | inr (p, known) ↦
              let (d, is_dict, value) = global_option-eq-ok conf name found in
              let allowed : inoplug_enabled false given ≡ true = ground arith in
              subst (All (IsEnabled conf)) (ok-injective (rw (on, known) at h'')) (
                record {
                  name = name;
                  plugins = d;
                  given = is_dict;
                  registered = known;
                  enabled = rw value allowed;
                },
                ih,
              )
        ]
      ]

  -- The plug-ins of what is given to the watcher.
  abbrev pub AllEnabled : Value → List (CfgPath P) → Type 0
  AllEnabled conf = All (λ c. All (IsEnabled conf) c.plugins)

  without_dict :
      (conf : Value) (b : Bool) {ps : List P}
      → (if b then raise (foreign 0) else ok []) ≡ ok ps
      → All (IsEnabled conf) ps
  without_dict conf true h = absurd (ground arith)
  without_dict conf false h = subst (All (IsEnabled conf)) (ok-injective h) tt

  plugins_of-IsEnabled :
      (conf v : Value) {ps : List P}
      → plugins_of outside registry conf v ≡ ok ps
      → All (IsEnabled conf) ps
  plugins_of-IsEnabled conf (dict d) h = path_plugins-IsEnabled conf d h
  plugins_of-IsEnabled conf v h = without_dict conf (truthy v) h

  cfg_path-IsEnabled :
      (s : Section) (p : PathConf) {c : CfgPath P}
      → cfg_path outside registry s p ≡ ok c
      → All (IsEnabled s.plugins) c.plugins
  unfolding cfg_path
  cfg_path-IsEnabled s p h =
      let (ps, made, h') = >>=-eq-ok (plugins_of outside registry s.plugins p.plugins) _ h in
      subst (λ (c : CfgPath P). All (IsEnabled s.plugins) c.plugins) (ok-injective h')
        (plugins_of-IsEnabled s.plugins p.plugins made)

  snoc-AllEnabled :
      (conf : Value) (cs : List (CfgPath P)) (c : CfgPath P)
      → AllEnabled conf cs
      → All (IsEnabled conf) c.plugins
      → AllEnabled conf (cs ++ (c ∷ []))
  snoc-AllEnabled conf [] c h one = (one, tt)
  snoc-AllEnabled conf (x ∷ cs) c h one = (h.0, snoc-AllEnabled conf cs c h.1 one)

  give_paths-AllEnabled :
      (s : Section) (ps : List PathConf) (given : List (CfgPath P)) (w : W)
      → AllEnabled s.plugins given
      → AllEnabled s.plugins (give_paths outside registry s ps (given, w)).1.0
  unfolding give_paths
  give_paths-AllEnabled s [] given w h = h
  give_paths-AllEnabled s (p ∷ ps) given w h = elim (Result-cases (cfg_path outside registry s p)) [
    | inr (e, failed) ↦ rw (give_paths, failed) h
    | inl (c, made) ↦
        rw (give_paths, made)
          (give_paths-AllEnabled s ps (given ++ (c ∷ [])) (outside.make_dirs p.path w)
            (snoc-AllEnabled s.plugins given c h (cfg_path-IsEnabled s p made)))
  ]

  -- The enabling of plug-ins that a section stands for.
  abbrev pub plugins_conf : Fields → Value
  plugins_conf conf = get_or "plugins" (dict (default_plugins (keys registry))) conf

  section-plugins :
      (conf : Fields) {s : Section}
      → section (keys registry) conf ≡ ok s
      → s.plugins ≡ plugins_conf conf
  unfolding section
  section-plugins conf h = ground arith

  -- However the configuration of a section ends, each plug-in of each path that the watcher has been
  -- given is registered under a name that the section's own `plugins` enable: what the path says can
  -- only take plug-ins away.
  pub configure-AllEnabled :
      (conf : Fields) (w : W)
      → AllEnabled (plugins_conf conf) (configure outside registry conf ([], w)).1.0
  unfolding configure prepared
  configure-AllEnabled conf w = elim (Result-cases (prepared outside registry conf)) [
    | inr (e, failed) ↦ rw (configure, failed) tt
    | inl ((s, ps), made) ↦
        let (s', sectioned, h) = >>=-eq-ok (section (keys registry) conf) _ made in
        let (ps', paths, h') = >>=-eq-ok (prepare_paths outside registry s' s'.paths) _ h in
        let same : s'.plugins ≡ s.plugins = ground arith in
        rw (configure, made)
          (subst (λ v. AllEnabled v (give_paths outside registry s ps ([], w)).1.0)
            (sym same ∙ section-plugins conf sectioned) (give_paths-AllEnabled s ps [] w tt))
  ]
