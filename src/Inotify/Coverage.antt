-- ===== src/Inotify/Coverage.antt =====
-- dwho/classes/inotify.py: which paths DWhoInotify watches behind an `add` command.
use dwho.Base.{
  ℕ, ◌&&◌, not, String, Bool, true, false, Option, none, some, List, [], ◌∷◌, if◌then◌else◌,
  is_some, ◌≡◌, refl, arith, eq_iff, ◌∙◌,
}
use dwho.Base.Dict.{Dict, lookup, insert, IsDistinct, lookup-insert, insert-IsDistinct, is_in}
use dwho.Base.Value.{ℤ, pos, negsuc}
use dwho.Inotify.{CfgPath}
use dwho.Inotify.Watches.{Inotify, System, add_watched, add_path}
use dwho.Inotify.Walking.{walked, excluded}
use dwho.Inotify.Manager.{
  Kernel, Manager, Options, Added, watched, failed, one, add_one, add_each, add_watch, options_of,
  watcher, excluded_code, added_paths, format_param,
}

abbrev is_pos : Option ℤ → Bool
is_pos (some (pos _)) = true
is_pos _ = false

lookup-add_watched :
    {P W : Type 0} (system : System P W) (c : CfgPath P) (p : String) (wdd : Dict ℤ)
    (d : Dict (CfgPath P))
    → IsDistinct wdd
    → lookup p (add_watched system c wdd d) ≡ (if is_pos (lookup p wdd) then some c else lookup p d)
unfolding add_watched lookup
lookup-add_watched system c p [] d h = refl
lookup-add_watched system c p ((k, pos n) ∷ wdd) d h =
    ground (arith, lookup-add_watched system c p wdd (insert k c d) h.1, lookup-insert k p c d)
lookup-add_watched system c p ((k, negsuc n) ∷ wdd) d h =
    ground (arith, lookup-add_watched system c p wdd d h.1, eq_iff k p, h.0)

module _ {W : Type 0} (kernel : Kernel W) (o : Options) (exclude : String → Bool) (p : String) where
  -- What is known of `p` behind the loop over these paths.
  abbrev Looked : List String → Dict ℤ → Added × Manager W → Type 0
  Looked rest ret (failed d, m) = Unit
  Looked rest ret (watched d, m) =
      IsDistinct d
      × (is_pos (lookup p d) ≡ (if is_in p rest then not (exclude p) else is_pos (lookup p ret)))

  Looked-excluded :
      (rpath : String) (rest : List String) (ret : Dict ℤ) (out : Added × Manager W)
      → exclude rpath ≡ true
      → Looked rest (insert rpath excluded_code ret) out
      → Looked (rpath ∷ rest) ret out
  Looked-excluded rpath rest ret (failed d, m) h looked = tt
  Looked-excluded rpath rest ret (watched d, m) h looked =
      (looked.0, ground (arith, looked.1, lookup-insert rpath p excluded_code ret, eq_iff rpath p))

  Looked-watched :
      (rpath : String) (n : ℕ) (rest : List String) (ret : Dict ℤ) (out : Added × Manager W)
      → exclude rpath ≡ false
      → Looked rest (insert rpath (pos n) ret) out
      → Looked (rpath ∷ rest) ret out
  Looked-watched rpath n rest ret (failed d, m) h looked = tt
  Looked-watched rpath n rest ret (watched d, m) h looked =
      (looked.0, ground (arith, looked.1, lookup-insert rpath p (pos n) ret, eq_iff rpath p))

  -- What the loop does with the kernel's answer.
  abbrev on_code : String → List String → Dict ℤ → ℤ × Manager W → Added × Manager W
  on_code rpath rest ret (wd, m') = elim wd [
    | pos n ↦ add_each kernel o exclude rest (insert rpath (pos n) ret) m'
    | negsuc n ↦ elim o.quiet [
      | true ↦ add_each kernel o exclude rest (insert rpath (negsuc n) ret) m'
      | false ↦ (failed (insert rpath (negsuc n) ret), m')
    ]
  ]

  Looked-on_code :
      (rpath : String) (rest : List String) (ret : Dict ℤ) (one_added : ℤ × Manager W)
      → o.quiet ≡ false
      → exclude rpath ≡ false
      → ((n : ℕ) (m : Manager W)
          → Looked rest
              (insert rpath (pos n) ret)
              (add_each kernel o exclude rest (insert rpath (pos n) ret) m))
      → Looked (rpath ∷ rest) ret (on_code rpath rest ret one_added)
  Looked-on_code rpath rest ret (pos n, m) loud open_ others =
      Looked-watched rpath n rest ret _ open_ (others n m)
  Looked-on_code rpath rest ret (negsuc n, m) loud open_ others = rw loud tt

  add_each-Looked :
      (rest : List String) (ret : Dict ℤ) (m : Manager W)
      → o.quiet ≡ false
      → IsDistinct ret
      → Looked rest ret (add_each kernel o exclude rest ret m)
  unfolding add_each
  add_each-Looked [] ret m loud distinct = (distinct, refl)
  add_each-Looked (rpath ∷ rest) ret m loud distinct =
      by_filter (exclude rpath) refl
        (λ n m'.
          add_each-Looked rest (insert rpath (pos n) ret) m' loud
            (insert-IsDistinct rpath (pos n) ret distinct))
        (add_each-Looked rest (insert rpath excluded_code ret) m loud
          (insert-IsDistinct rpath excluded_code ret distinct))
    where
      by_filter :
          (b : Bool)
          → exclude rpath ≡ b
          → ((n : ℕ) (m' : Manager W)
              → Looked rest
                  (insert rpath (pos n) ret)
                  (add_each kernel o exclude rest (insert rpath (pos n) ret) m'))
          → Looked rest
              (insert rpath excluded_code ret)
              (add_each kernel o exclude rest (insert rpath excluded_code ret) m)
          → Looked (rpath ∷ rest) ret (elim b [
            | true ↦ add_each kernel o exclude rest (insert rpath excluded_code ret) m
            | false ↦ on_code rpath rest ret (add_one kernel o exclude rpath m)
          ])
      by_filter true shut others skipped =
          Looked-excluded rpath rest ret
            (add_each kernel o exclude rest (insert rpath excluded_code ret) m) shut skipped
      by_filter false open_ others skipped =
          Looked-on_code rpath rest ret (add_one kernel o exclude rpath m) loud open_ others

if-and :
    {A : Type 0} (a a' : A) (x y : Bool) {b : Bool}
    → b ≡ (if x then y else false)
    → (if b then a else a') ≡ (if x && y then a else a')
if-and a a' true y h = rw h
if-and a a' false y h = rw h

-- Whether `add_watch` returned, and the paths that it went through.
abbrev pub succeeded : {P W : Type 0} → Kernel W → CfgPath P → Manager W → Bool
succeeded kernel c m =
    is_some (added_paths kernel (add_watch kernel (one c.path) (options_of kernel c) m)).0

module _ {P W : Type 0} (kernel : Kernel W) (abspath : String → String)
    (rm_watch : String → Manager W → Bool × Manager W) (kill_workers : Manager W → Manager W) where
  -- Behind an `add` command the configuration of the command stands under exactly the paths that the
  -- watch manager went through and does not exclude, if it could watch all of these, and under none
  -- otherwise; every other path has the configuration that it had.
  pub lookup-add_path :
      (c : CfgPath P) (i : Inotify P (Manager W)) (p : String)
      → lookup p (add_path (watcher kernel abspath rm_watch kill_workers) c i).cfg_paths ≡ (
          if succeeded kernel c i.world
            && is_in p (walked kernel c i.world)
            && not (excluded kernel c i.world p)
          then some c
          else lookup p i.cfg_paths)
  unfolding add_path add_watch format_param lookup
  lookup-add_path c i p =
      by_added (add_watch kernel (one c.path) o i.world)
        (add_each-Looked kernel o exclude p (walked kernel c i.world) [] i.world refl tt)
    where
      o : Options
      o = options_of kernel c

      exclude : String → Bool
      exclude = excluded kernel c i.world

      by_added :
          (out : Added × Manager W)
          → Looked kernel o exclude p (walked kernel c i.world) [] out
          → lookup p
              (elim (added_paths kernel out).0 as (λ _. Inotify P (Manager W)) [
                | none ↦ record i { world = (added_paths kernel out).1 }
                | some d ↦ record i {
                  cfg_paths =
                      add_watched (watcher kernel abspath rm_watch kill_workers) c d i.cfg_paths;
                  world = (added_paths kernel out).1;
                }
              ]).cfg_paths
            ≡ (if is_some (added_paths kernel out).0
                  && is_in p (walked kernel c i.world)
                  && not (exclude p)
                then some c
                else lookup p i.cfg_paths)
      by_added (failed d, m) looked = refl
      by_added (watched d, m) looked =
          lookup-add_watched (watcher kernel abspath rm_watch kill_workers) c p d i.cfg_paths
            looked.0
          ∙ if-and (some c) (lookup p i.cfg_paths) (is_in p (walked kernel c i.world))
              (not (exclude p)) looked.1
