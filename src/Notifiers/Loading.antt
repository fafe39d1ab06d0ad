-- ===== src/Notifiers/Loading.antt =====
-- dwho/classes/notifiers.py: the names that are known are those of the notifications.
use dwho.Base.{
  String, true, ◌||◌, some, List, [], ◌∷◌, ◌++◌, is_some, str_eq, eq_iff, eq_refl, ◌≡◌, refl, arith,
  Bool-cases, Result-cases, inl, inr, subst, ◌>>=◌,
}
use dwho.Base.Dict.{lookup, lookup-insert, is_in}
use dwho.Base.Value.{Fields, get_or, null}
use dwho.Notifiers.{
  Registry, Notification, Push, ConfigFile, Files, unloaded, store, add_tag, load, load_file,
  load_tags, load_template, load_scheme, general_of, parse_tags, item, check_scheme, read_template,
}

-- A name is known exactly where a notification has it.
pub record IsConsistent (p : Push) : Type 0 where
  pub known : (m : String) → is_in m p.notif_names ≡ is_some (lookup m p.notifications)

is_in-append : (m : String) (xs ys : List String) → is_in m (xs ++ ys) ≡ (is_in m xs || is_in m ys)
is_in-append m [] ys = refl
is_in-append m (x ∷ xs) ys = ground (arith, is_in-append m xs ys)

is_in-add_tag : (m t : String) (r : List String) → is_in m (add_tag t r) ≡ (str_eq t m || is_in m r)
is_in-add_tag m t r = elim (Bool-cases (is_in t r)) [
  | inl old ↦ rw old (elim (Bool-cases (str_eq t m)) [
    | inl same ↦ rw same (subst (λ x. is_in x r ≡ true) ((eq_iff t m).0 same) old)
    | inr other ↦ rw other refl
  ])
  | inr new ↦ rw new (ground (arith, is_in-append m r (t ∷ [])))
]

store-IsConsistent :
    (name : String) (n : Notification) (p : Push)
    → IsConsistent p
    → is_in name p.notif_names ≡ true
    → IsConsistent (store name n p)
unfolding store
store-IsConsistent name n p c old = record {
  known = λ m. rw lookup-insert (elim (Bool-cases (str_eq name m)) [
    | inl same ↦ rw same (subst (λ x. is_in x p.notif_names ≡ true) ((eq_iff name m).0 same) old)
    | inr other ↦ rw other (c.known m)
  ]);
}

added-IsConsistent :
    (name : String) (n : Notification) (p : Push)
    → IsConsistent p
    → IsConsistent (store name n (record p { notif_names = add_tag name p.notif_names }))
unfolding store
added-IsConsistent name n p c = record {
  known = λ m.
      rw (lookup-insert, is_in-add_tag m name p.notif_names)
        (elim (Bool-cases (str_eq name m)) [
          | inl same ↦ rw same refl
          | inr other ↦ rw other (c.known m)
        ]);
}

module _ {H : Type 0} (registry : Registry H) (files : Files) where
  load_scheme-IsConsistent :
      (name : String) (general : Fields) (n : Notification) (p : Push)
      → IsConsistent p
      → is_in name p.notif_names ≡ true
      → IsConsistent (load_scheme registry files name general n p).1
  unfolding load_scheme
  load_scheme-IsConsistent name general n p c old =
      elim (Result-cases
        (item "uri" general >>= λ uri. check_scheme registry files (files.scheme uri))) [
          | inr (e, failed) ↦ rw (load_scheme, failed) c
          | inl (s, found) ↦ rw (load_scheme, found) (store-IsConsistent name _ p c old)
        ]

  load_template-IsConsistent :
      (name : String) (general : Fields) (n : Notification) (p : Push)
      → IsConsistent p
      → is_in name p.notif_names ≡ true
      → IsConsistent (load_template registry files name general n p).1
  unfolding load_template
  load_template-IsConsistent name general n p c old =
      elim (Result-cases (read_template files general)) [
        | inr (e, failed) ↦ rw (load_template, failed) c
        | inl (t, found) ↦
            rw (load_template, found)
              (load_scheme-IsConsistent name general (record n { template = t }) _
                (store-IsConsistent name _ p c old) (unfold store in old))
      ]

  load_tags-IsConsistent :
      (name : String) (n : Notification) (p : Push)
      → IsConsistent p
      → is_in name p.notif_names ≡ true
      → IsConsistent (load_tags registry files name n p).1
  unfolding load_tags
  load_tags-IsConsistent name n p c old = elim (Result-cases (general_of n.cfg)) [
    | inr (e, failed) ↦ rw (load_tags, failed) c
    | inl (general, found) ↦
        elim (Result-cases (parse_tags files.has_len (get_or "tags" null general))) [
          | inr (e, failed) ↦ rw (load_tags, found, failed) c
          | inl (ts, parsed) ↦
              rw (load_tags, found, parsed)
                (load_template-IsConsistent name general (record n { tags = some ts }) _
                  (store-IsConsistent name _ p c old) (unfold store in old))
        ]
  ]

  load_file-IsConsistent :
      (f : ConfigFile) (p : Push) → IsConsistent p → IsConsistent (load_file registry files f p).1
  unfolding load_file
  load_file-IsConsistent f p c = elim (Result-cases f.content) [
    | inr (e, failed) ↦ rw (load_file, failed) c
    | inl (cfg, parsed) ↦
        rw (load_file, parsed)
          (load_tags-IsConsistent f.name (unloaded cfg) _
            (added-IsConsistent f.name (unloaded cfg) p c)
            (unfold store in (rw (is_in-add_tag f.name f.name p.notif_names, eq_refl f.name) refl)))
  ]

  -- However `load` ends, also where a file makes it raise, the known names are exactly those of the
  -- notifications that stand in the dict afterwards.
  pub load-IsConsistent :
      (fs : List ConfigFile) (p : Push) → IsConsistent p → IsConsistent (load registry files fs p).1
  unfolding load
  load-IsConsistent [] p c = c
  load-IsConsistent (f ∷ fs) p c =
      let (r, p') = load_file registry files f p in
      elim (Result-cases (load_file registry files f p).0) [
        | inr (e, failed) ↦ rw (load, failed) (load_file-IsConsistent f p c)
        | inl (u, loaded) ↦
            rw (load, loaded) (load-IsConsistent fs _ (load_file-IsConsistent f p c))
      ]
