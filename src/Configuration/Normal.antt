-- ===== src/Configuration/Normal.antt =====
-- dwho/configuration.py: what the steps of `parse_conf` make of the general section.
use dwho.Base.{
  ◌≤◌, ◌||◌, ltb, String, Bool, true, false, some, is_some, ok, ◌≡◌, refl, arith, str_eq, eq_refl,
  >>=-eq-ok, ok-injective, Bool-cases, inl, inr, ◌∙◌, sym, ap,
}
use dwho.Base.Value.{
  Value, Items, Fields, null, int, list, ℤ, pos, negsuc, truthy, get_field, get_field-put_field,
  get_or, put_field,
}
use dwho.Configuration.{
  Libraries, default_falsy, default_missing, at_most_ten, default_auth, set_directories, set_levels,
  set_chars, set_workers, normalize, subdir_levels, max_body_size, max_requests, max_life_time,
}

-- The options with a default or a bound.
abbrev pub is_default : String → Bool
is_default k =
    (str_eq "max_body_size" k
      || (str_eq "max_workers" k
          || (str_eq "max_requests" k
              || (str_eq "max_life_time" k
                  || (str_eq "auth_basic" k
                      || (str_eq "auth_basic_file" k
                          || (str_eq "subdir_levels" k
                              || (str_eq "subdir_chars" k || str_eq "web_directories" k))))))))

-- The options that `parse_conf` may write.
abbrev pub is_option : String → Bool
is_option k = str_eq "server_id" k || is_default k

abbrev pub AtMostTen : ℤ → Type 0
AtMostTen (pos n) = n ≤ 10
AtMostTen (negsuc n) = Unit

at_most_ten-AtMostTen : (z : ℤ) → AtMostTen (at_most_ten z)
at_most_ten-AtMostTen (pos n) = elim (Bool-cases (ltb 10 n)) [
  | inl above ↦ rw above (omega arith)
  | inr below ↦ rw below (ground arith)
]
at_most_ten-AtMostTen (negsuc n) = tt

pub put_field-kept :
    (key k : String) (v : Value) (d : Fields)
    → str_eq key k ≡ false
    → get_field k (put_field key v d) ≡ get_field k d
put_field-kept key k v d h = get_field-put_field key k v d ∙ rw h

pub put_field_self :
    (key : String) (v : Value) (d : Fields) → get_field key (put_field key v d) ≡ some v
put_field_self key v d = get_field-put_field key key v d ∙ rw (eq_refl)

default_falsy-kept :
    (key k : String) (v : Value) (d : Fields)
    → str_eq key k ≡ false
    → get_field k (default_falsy key v d) ≡ get_field k d
unfolding default_falsy
default_falsy-kept key k v d h = elim (Bool-cases (truthy (get_or key null d))) [
  | inl set ↦ rw set
  | inr unset ↦ rw unset (put_field-kept key k v d h)
]

default_missing-kept :
    (key k : String) (v : Value) (d : Fields)
    → str_eq key k ≡ false
    → get_field k (default_missing key v d) ≡ get_field k d
unfolding default_missing
default_missing-kept key k v d h = elim (Bool-cases (is_some (get_field key d))) [
  | inl set ↦ rw set
  | inr unset ↦ rw unset (put_field-kept key k v d h)
]

default_auth-kept :
    (k : String) (d : Fields)
    → str_eq "auth_basic_file" k ≡ false
    → str_eq "auth_basic" k ≡ false
    → get_field k (default_auth d) ≡ get_field k d
unfolding default_auth
default_auth-kept k d h h' = elim (Bool-cases (is_some (get_field "auth_basic_file" d))) [
  | inl set ↦ rw set
  | inr unset ↦ rw unset (
      put_field-kept "auth_basic_file" k null (put_field "auth_basic" null d) h
      ∙ put_field-kept "auth_basic" k null d h')
]

default_missing-some :
    (key : String) (v : Value) (d : Fields)
    → is_some (get_field key (default_missing key v d)) ≡ true
unfolding default_missing
default_missing-some key v d = elim (Bool-cases (is_some (get_field key d))) [
  | inl set ↦ rw (set, set)
  | inr unset ↦ rw (unset, put_field_self key v d)
]

module _ (libraries : Libraries) where
  -- The general section that `parse_conf` returns, of one that it was given.
  pub record IsNormal (before after : Fields) : Type 0 where
    pub server_id : Value
    pub has_server_id : get_field "server_id" after ≡ some server_id
    pub domain : libraries.valid_domain server_id ≡ true
    pub levels : ℤ
    pub has_levels : get_field "subdir_levels" after ≡ some (int levels)
    pub few_levels : AtMostTen levels
    pub directories : Items
    pub has_directories : get_field "web_directories" after ≡ some (list directories)
    pub has_auth : is_some (get_field "auth_basic" after) ≡ true
    pub kept : (k : String) → is_option k ≡ false → get_field k after ≡ get_field k before

  -- Up to the number of workers, and up to the levels of directories.
  set_workers-kept :
      (k : String) (g : Fields) {g' : Fields}
      → set_workers libraries g ≡ ok g'
      → str_eq "max_workers" k ≡ false
      → get_field k g' ≡ get_field k g
  unfolding set_workers
  set_workers-kept k g h other =
      let (workers, _, h') =
        >>=-eq-ok (libraries.get_nb_workers (get_or "max_workers" null g)) _ h in
      ap (get_field k) (sym (ok-injective h')) ∙ put_field-kept "max_workers" k workers g other

  set_levels-some :
      (g : Fields) {g' : Fields}
      → set_levels libraries g ≡ ok g'
      → (z : ℤ) × (g' ≡ put_field "subdir_levels" (int (at_most_ten z)) g)
  unfolding set_levels
  set_levels-some g h =
      let (z, _, h') = >>=-eq-ok (libraries.to_int (get_or "subdir_levels" subdir_levels g)) _ h in
      (z, sym (ok-injective h'))

  -- The last steps of `normalize`.
  abbrev finish : Fields → Fields
  finish g = set_directories (default_missing "auth_basic" null (set_chars libraries g))

  finish-kept :
      (k : String) (g : Fields)
      → str_eq "web_directories" k ≡ false
      → str_eq "auth_basic" k ≡ false
      → str_eq "subdir_chars" k ≡ false
      → get_field k (finish g) ≡ get_field k g
  unfolding set_directories set_chars
  finish-kept k g h1 h2 h3 =
      put_field-kept "web_directories" k _ _ h1
      ∙ (default_missing-kept "auth_basic" k null (set_chars libraries g) h2
          ∙ put_field-kept "subdir_chars" k _ g h3)

  finish-directories :
      (g : Fields) → (vs : Items) × (get_field "web_directories" (finish g) ≡ some (list vs))
  unfolding set_directories
  finish-directories g = (_, put_field_self "web_directories" (list _) _)

  finish-auth : (g : Fields) → is_some (get_field "auth_basic" (finish g)) ≡ true
  unfolding set_directories
  finish-auth g =
      ap is_some (put_field-kept "web_directories" "auth_basic" _ _ refl)
      ∙ default_missing-some "auth_basic" null (set_chars libraries g)

  abbrev with_defaults : Fields → Fields
  with_defaults g =
      default_auth
        (default_falsy "max_life_time" max_life_time (default_falsy "max_requests" max_requests g))

  with_defaults-kept :
      (k : String) (g : Fields)
      → str_eq "auth_basic_file" k ≡ false
      → str_eq "auth_basic" k ≡ false
      → str_eq "max_life_time" k ≡ false
      → str_eq "max_requests" k ≡ false
      → get_field k (with_defaults g) ≡ get_field k g
  with_defaults-kept k g h1 h2 h3 h4 =
      default_auth-kept k _ h1 h2
      ∙ (default_falsy-kept "max_life_time" k max_life_time _ h3
          ∙ default_falsy-kept "max_requests" k max_requests g h4)

  normalize-eq-ok :
      (g : Fields) {after : Fields}
      → normalize libraries g ≡ ok after
      → (g1 : Fields) × (z : ℤ) × (set_workers libraries
            (default_falsy "max_body_size" max_body_size g)
          ≡ ok g1)
        × (after ≡ finish (put_field "subdir_levels" (int (at_most_ten z)) (with_defaults g1)))
  unfolding normalize
  normalize-eq-ok g h =
      let (g1, workers, h1) =
        >>=-eq-ok (set_workers libraries (default_falsy "max_body_size" max_body_size g)) _ h in
      let (g2, levels, h2) = >>=-eq-ok (set_levels libraries (with_defaults g1)) _ h1 in
      let (z, set) = set_levels-some (with_defaults g1) levels in
      (g1, z, workers, sym (ok-injective h2) ∙ ap finish set)

  normalize-kept :
      (k : String) (g : Fields) {after : Fields}
      → normalize libraries g ≡ ok after
      → is_default k ≡ false
      → get_field k after ≡ get_field k g
  normalize-kept k g {after} h other =
      let (g1, z, workers, written) = normalize-eq-ok g h in
      ap (get_field k) written
      ∙ (finish-kept k _ (ground arith) (ground arith) (ground arith)
          ∙ (put_field-kept "subdir_levels" k _ _ (ground arith)
              ∙ (with_defaults-kept k g1 (ground arith) (ground arith) (ground arith) (ground arith)
                  ∙ (set_workers-kept k _ workers (ground arith)
                      ∙ default_falsy-kept "max_body_size" k max_body_size g (ground arith)))))

  pub normalize-IsNormal :
      (server_id : Value) (g : Fields) {after : Fields}
      → libraries.valid_domain server_id ≡ true
      → normalize libraries (put_field "server_id" server_id g) ≡ ok after
      → IsNormal g after
  normalize-IsNormal server_id g domain h =
      let before = put_field "server_id" server_id g in
      let (g1, z, workers, written) = normalize-eq-ok before h in
      let leveled = put_field "subdir_levels" (int (at_most_ten z)) (with_defaults g1) in
      let (directories, found) = finish-directories leveled in
      record {
        server_id = server_id;
        has_server_id =
            normalize-kept "server_id" before h refl ∙ put_field_self "server_id" server_id g;
        domain = domain;
        levels = at_most_ten z;
        has_levels =
            ap (get_field "subdir_levels") written
            ∙ (finish-kept "subdir_levels" leveled refl refl refl
                ∙ put_field_self "subdir_levels" _ _);
        few_levels = at_most_ten-AtMostTen z;
        directories = directories;
        has_directories = ap (get_field "web_directories") written ∙ found;
        has_auth = ap (λ g'. is_some (get_field "auth_basic" g')) written ∙ finish-auth leveled;
        kept = λ k other.
            normalize-kept k before h (ground arith)
            ∙ put_field-kept "server_id" k server_id g (ground arith);
      }
