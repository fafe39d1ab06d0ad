-- ===== src/Configuration/Parsing.antt =====
-- dwho/configuration.py: what `parse_conf` makes of the general section, and what it leaves alone.
use dwho.Base.{
  ◌||◌, String, Bool, true, false, Option, none, some, ok, ◌≡◌, refl, arith, str_eq, guard,
  >>=-eq-ok, ok-injective, configuration_error, Bool-cases, inl, inr, ◌∙◌, sym, ap, subst,
}
use dwho.Base.Value.{Value, Fields, null, dict, get_field, get_or, put_field}
use dwho.Configuration.Normal.{put_field-kept, put_field_self, IsNormal, normalize-IsNormal}
use dwho.Configuration.{
  Libraries, validate_configuration, credentials_from, checked, set_credentials, get_server_id,
  normalize, set_general, general_fields, conf_fields, load_credentials, parse_conf,
}

module _ (libraries : Libraries) where
  credentials_from-kept :
      (load_creds : Bool) (found : Option Value) (k : String) (conf : Fields) {conf' : Fields}
      → credentials_from libraries load_creds found conf ≡ ok conf'
      → str_eq "credentials" k ≡ false
      → get_field k conf' ≡ get_field k conf
  unfolding credentials_from
  credentials_from-kept true (some credentials) k conf h other =
      let (v, _, h') =
        >>=-eq-ok (load_credentials libraries credentials (get_or "_config_directory" null conf)) _
          h in
      ap (get_field k) (sym (ok-injective h')) ∙ put_field-kept "credentials" k v conf other
  credentials_from-kept true none k conf h other = ap (get_field k) (sym (ok-injective h))
  credentials_from-kept false found k conf h other = ap (get_field k) (sym (ok-injective h))

  set_credentials-kept :
      (load_creds : Bool) (k : String) (conf : Fields) {conf' : Fields}
      → set_credentials libraries load_creds conf ≡ ok conf'
      → str_eq "credentials" k ≡ false
      → get_field k conf' ≡ get_field k conf
  unfolding set_credentials
  set_credentials-kept load_creds k conf h other =
      credentials_from-kept load_creds (get_field "credentials" conf) k conf h other

  get_field-dict :
      (k : String) (d g : Fields) → get_or k null d ≡ dict g → get_field k d ≡ some (dict g)
  get_field-dict k Fields.end g h = absurd (ground arith)
  get_field-dict k (Fields.field j v d) g h = elim (Bool-cases (str_eq j k)) [
    | inl same ↦ rw same (ap some (rw same at h))
    | inr other ↦ rw other (get_field-dict k d g (rw other at h))
  ]

  general_fields-eq-ok : (v : Value) {g : Fields} → general_fields libraries v ≡ ok g → v ≡ dict g
  general_fields-eq-ok v h = ground arith

  conf_fields-eq-ok :
      (v : Value) {conf : Fields} → conf_fields libraries v ≡ ok conf → v ≡ dict conf
  conf_fields-eq-ok v h = ground arith

  checked-domain :
      (v : Value) {server_id : Value}
      → checked libraries v ≡ ok server_id
      → libraries.valid_domain server_id ≡ true
  unfolding checked
  checked-domain v h = elim (Bool-cases (libraries.valid_domain v)) [
    | inl valid ↦ subst (λ s. libraries.valid_domain s ≡ true) (ok-injective (rw valid at h)) valid
    | inr not_so ↦ absurd (cc (rw not_so at h))
  ]

  get_server_id-domain :
      (v : Value) {server_id : Value}
      → get_server_id libraries v ≡ ok server_id
      → libraries.valid_domain server_id ≡ true
  unfolding get_server_id
  get_server_id-domain (dict g) h = checked-domain _ h
  get_server_id-domain v h = absurd (ground arith)

  set_general-IsNormal :
      (conf : Fields) {after : Fields}
      → set_general libraries conf ≡ ok after
      → (g g' : Fields) × (get_field "general" conf ≡ some (dict g))
        × (after ≡ put_field "general" (dict g') conf)
        × IsNormal libraries g g'
  unfolding set_general
  set_general-IsNormal conf h =
      let general = get_or "general" null conf in
      let (server_id, served, h1) = >>=-eq-ok (get_server_id libraries general) _ h in
      let (g, is_dict, h2) = >>=-eq-ok (general_fields libraries general) _ h1 in
      let (g', normal, h3) =
        >>=-eq-ok (normalize libraries (put_field "server_id" server_id g)) _ h2 in
      (
        g,
        g',
        get_field-dict "general" conf g (general_fields-eq-ok general is_dict),
        sym (ok-injective h3),
        normalize-IsNormal libraries server_id g (get_server_id-domain general served) normal,
      )

  -- Where `parse_conf` returns, it was given a dict with a dict as its general section. The general
  -- section that it returns has a server id that is a valid domain, a whole number of at most ten
  -- levels of directories, a list of web directories and an entry `auth_basic`, and its options
  -- that `parse_conf` does not set are as they were. So is every other section but the credentials.
  pub parse_conf-IsNormal :
      (v : Value) (load_creds : Bool) {after : Fields}
      → parse_conf libraries v load_creds ≡ ok after
      → (before g g' : Fields) × (v ≡ dict before)
        × (get_field "general" before ≡ some (dict g))
        × (get_field "general" after ≡ some (dict g'))
        × IsNormal libraries g g'
        × ((k : String)
            → str_eq "general" k || str_eq "credentials" k ≡ false
            → get_field k after ≡ get_field k before)
  unfolding parse_conf
  parse_conf-IsNormal v load_creds h =
      let (_, _, h1) = >>=-eq-ok (guard (libraries.is_mapping v) configuration_error) _ h in
      let (before, is_dict, h2) = >>=-eq-ok (conf_fields libraries v) _ h1 in
      let (_, _, h3) = >>=-eq-ok (validate_configuration libraries before) _ h2 in
      let (conf, loaded, h4) = >>=-eq-ok (set_credentials libraries load_creds before) _ h3 in
      let (g, g', found, written, normal) = set_general-IsNormal conf h4 in
      (
        before,
        g,
        g',
        conf_fields-eq-ok v is_dict,
        sym (set_credentials-kept load_creds "general" before loaded refl) ∙ found,
        ap (get_field "general") written ∙ put_field_self "general" (dict g') conf,
        normal,
        λ k other.
            ap (get_field k) written
            ∙ (put_field-kept "general" k (dict g') conf (ground arith)
                ∙ set_credentials-kept load_creds k before loaded (ground arith)),
      )
