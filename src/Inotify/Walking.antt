-- ===== src/Inotify/Walking.antt =====
-- dwho/classes/inotify.py: which paths `__walk_rec` and the loops of `add_watch` come to.
use mathlib.Core.List.{append-nil}
use dwho.Base.{
  String, Bool, true, false, Option, none, some, List, [], ◌∷◌, ◌++◌, if◌then◌else◌, ◌≡◌, refl, ◌↔◌,
  inl, inr, Has, here, later, Has-append_left, Has-append_right, Has-append, sym, not-Has-nil,
  subst, Has-singleton,
}
use dwho.Base.Value.{truthy}
use dwho.Inotify.{CfgPath}
use dwho.Inotify.Manager.{
  Forest, leaf, dir, walk, Kernel, Manager, walk_rec, walk_each, rpaths, globbed, options_of,
  own_filter,
}

-- A directory that is reached through directories none of which is excluded.
pub data Reached (exclude : String → Bool) : Forest → String → Type 0 where
  top : {root : String} {dirs rest : Forest} → Reached exclude (dir root dirs rest) root
  below :
      {root path : String} {dirs rest : Forest}
      → exclude root ≡ false
      → Reached exclude dirs path
      → Reached exclude (dir root dirs rest) path
  beside :
      {root path : String} {dirs rest : Forest}
      → Reached exclude rest path
      → Reached exclude (dir root dirs rest) path

module _ (exclude : String → Bool) where
  Has-walk-Reached :
      (forest : Forest) (path : String)
      → Has path (walk exclude forest)
      → Reached exclude forest path
  unfolding walk
  Has-walk-Reached leaf path h = absurd (not-Has-nil h)
  Has-walk-Reached (dir root dirs rest) path here = top
  Has-walk-Reached (dir root dirs rest) path (later h) =
      elim (Has-append (if exclude root then [] else walk exclude dirs) h) [
        | inr k ↦ beside (Has-walk-Reached rest path k)
        | inl k ↦ below_root (exclude root) refl (Has-walk-Reached dirs path) k
      ]
    where
      below_root :
          (b : Bool)
          → exclude root ≡ b
          → (Has path (walk exclude dirs) → Reached exclude dirs path)
          → Has path (if b then [] else walk exclude dirs)
          → Reached exclude (dir root dirs rest) path
      below_root true e reach k = absurd (not-Has-nil k)
      below_root false e reach k = below e (reach k)

  Reached-Has-walk :
      {forest : Forest} {path : String}
      → Reached exclude forest path
      → Has path (walk exclude forest)
  unfolding walk
  Reached-Has-walk top = here
  Reached-Has-walk (below open_ h) = rw open_ (later (Has-append_left _ (Reached-Has-walk h)))
  Reached-Has-walk (beside h) = later (Has-append_right _ (Reached-Has-walk h))

-- What the walk of one path comes to: the path itself, where it is no directory or a link, and else
-- what is reached from it.
pub data WalkedFrom {W : Type 0} (kernel : Kernel W) (exclude : String → Bool) (apath : String)
    : String → Type 0 where
  alone : kernel.tree apath ≡ none → WalkedFrom kernel exclude apath apath
  reached :
      {path : String} (forest : Forest)
      → kernel.tree apath ≡ some forest
      → Reached exclude forest path
      → WalkedFrom kernel exclude apath path

module _ {W : Type 0} (kernel : Kernel W) (exclude : String → Bool) where
  walk_rec-WalkedFrom :
      (apath path : String)
      → Has path (walk_rec kernel true exclude apath) ↔ WalkedFrom kernel exclude apath path
  unfolding walk_rec
  walk_rec-WalkedFrom apath path = (by_tree (kernel.tree apath) refl, back path)
    where
      by_tree :
          (t : Option Forest)
          → kernel.tree apath ≡ t
          → Has path (elim t [ none ↦ apath ∷ [] | some f ↦ walk exclude f ])
          → WalkedFrom kernel exclude apath path
      by_tree none e h = subst (WalkedFrom kernel exclude apath) (Has-singleton h) (alone e)
      by_tree (some f) e h = reached f e (Has-walk-Reached exclude f path h)

      back :
          (p : String)
          → WalkedFrom kernel exclude apath p
          → Has p (walk_rec kernel true exclude apath)
      back p (alone e) = rw e here
      back p (reached f e h) = rw e (Reached-Has-walk exclude h)

  walk_each-WalkedFrom :
      (apaths : List String) (path : String)
      → Has path (walk_each kernel true exclude apaths)
        ↔ ((apath : String) × Has apath apaths × WalkedFrom kernel exclude apath path)
  unfolding walk_each
  walk_each-WalkedFrom [] path = ((λ h. absurd (not-Has-nil h)), (λ h. absurd (not-Has-nil h.1)))
  walk_each-WalkedFrom (apath ∷ apaths) path =
      let (front, back) = walk_rec-WalkedFrom apath path in
      let (fronts, backs) = walk_each-WalkedFrom apaths path in
      (
        (λ h. elim (Has-append (walk_rec kernel true exclude apath) h) [
          | inl k ↦ (apath, here, front k)
          | inr k ↦ let (x, among, from) = fronts k in (x, later among, from)
        ]),
        (λ h. by_place back backs h.0 h.1 h.2),
      )
    where
      by_place :
          (WalkedFrom kernel exclude apath path → Has path (walk_rec kernel true exclude apath))
          → (((x : String) × Has x apaths × WalkedFrom kernel exclude x path)
              → Has path (walk_each kernel true exclude apaths))
          → (x : String) → Has x (apath ∷ apaths)
          → WalkedFrom kernel exclude x path
          → Has path (walk_rec kernel true exclude apath ++ walk_each kernel true exclude apaths)
      by_place back backs x here from = Has-append_left _ (back from)
      by_place back backs x (later h) from = Has-append_right _ (backs (x, h, from))

-- The paths that the watch manager goes through for a configuration.
abbrev pub walked : {P W : Type 0} → Kernel W → CfgPath P → Manager W → List String
walked kernel c m =
    rpaths kernel (options_of kernel c) (own_filter kernel (options_of kernel c) m) (c.path ∷ [])

abbrev pub excluded : {P W : Type 0} → Kernel W → CfgPath P → Manager W → String → Bool
excluded kernel c m = own_filter kernel (options_of kernel c) m

-- The watch manager goes through exactly the paths that the configured one stands for, and, from such
-- a path that is a directory, through those that are reached by directories none of which is excluded:
-- through nothing below an excluded directory.
pub walked-WalkedFrom :
    {P W : Type 0} (kernel : Kernel W) (c : CfgPath P) (m : Manager W) (path : String)
    → Has path (walked kernel c m) ↔ (
        (apath : String) × Has apath (globbed kernel (truthy c.do_glob) c.path)
        × WalkedFrom kernel (excluded kernel c m) apath path)
unfolding rpaths
walked-WalkedFrom kernel c m path =
    subst
      (λ ps. Has path ps ↔ (
        (apath : String) × Has apath (globbed kernel (truthy c.do_glob) c.path)
        × WalkedFrom kernel (excluded kernel c m) apath path))
      (sym (
        append-nil
          (walk_each kernel true (excluded kernel c m) (globbed kernel (truthy c.do_glob) c.path))))
      (walk_each-WalkedFrom kernel (excluded kernel c m) (globbed kernel (truthy c.do_glob) c.path)
        path)
