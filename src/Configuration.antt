-- ===== src/Configuration.antt =====
-- dwho/configuration.py: the preparation of configuration data. The schema validator, YAML, the
-- merging of dicts, the domain check and the number of workers are third-party, and parameters.
pub mod Normal
pub mod Parsing
pub mod Reading
use Prim.Native.Char.{Char, code}
use dwho.Base.{
  ℕ, ◌==◌, ltb, String, Bool, true, false, Option, none, some, List, [], ◌∷◌, if◌then◌else◌,
  is_some, Result, ok, raise, key_error, foreign, configuration_error, ◌>>=◌, ◌>>◌, guard,
}
use dwho.Base.Value.{
  Value, Items, Fields, end, field, null, int, str, list, dict, nil, cons, ℤ, pos, negsuc, truthy,
  get_field, get_or, put_field,
}

-- What a number's method or a text's, asked of a value of another type, raises.
abbrev attribute_error : ℕ
attribute_error = 0

pub record Libraries : Type 0 where
  -- xys.validate(data, MAPPING_SCHEMA), and xys.validate(..., CONFIG_SCHEMA) of the known fields
  pub is_mapping : Value → Bool
  pub is_known : String → Bool
  pub are_valid_fields : Fields → Bool
  pub getfqdn : String
  pub valid_domain : Value → Bool
  -- helpers.get_nb_workers(v, xmin = 1, default = MAX_WORKERS)
  pub get_nb_workers : Value → Result Value
  -- helpers.section_from_yaml_file(name, config_dir = directory)
  pub section_from_yaml_file : String → Value → Result Value
  -- int(v), and str(v)
  pub to_int : Value → Result ℤ
  pub text_of : Value → String

-- MAX_BODY_SIZE, MAX_REQUESTS, MAX_LIFE_TIME, SUBDIR_LEVELS and SUBDIR_CHARS
abbrev pub max_body_size : Value
max_body_size = int (pos 8388608)

abbrev pub max_requests : Value
max_requests = int (pos 0)

abbrev pub max_life_time : Value
max_life_time = int (pos 0)

abbrev pub subdir_levels : Value
subdir_levels = int (pos 0)

abbrev subdir_chars : Value
subdir_chars = str "abcdef0123456789"

-- if not d.get(key): d[key] = value
unfoldable pub default_falsy : String → Value → Fields → Fields
default_falsy key value d = if truthy (get_or key null d) then d else put_field key value d

-- if key not in d: d[key] = value
unfoldable pub default_missing : String → Value → Fields → Fields
default_missing key value d = if is_some (get_field key d) then d else put_field key value d

abbrev has_char : ℕ → Items → Bool
has_char c nil = false
has_char c (cons (str (String.◌∷◌ d _)) vs) = if code d == c then true else has_char c vs
has_char c (cons _ vs) = has_char c vs

-- set(s), held as a list with each character once; the order of a set is not observed
unfoldable pub char_set : String → Items
char_set String.[] = nil
char_set (String.◌∷◌ c s) =
    let rest = char_set s in
    if has_char (code c) rest then rest else cons (str (String.◌∷◌ c String.[])) rest

-- if levels > 10: levels = 10
abbrev pub at_most_ten : ℤ → ℤ
at_most_ten (pos n) = if ltb 10 n then pos 10 else pos n
at_most_ten (negsuc n) = negsuc n

-- if 'auth_basic_file' not in general: ...
unfoldable pub default_auth : Fields → Fields
default_auth g =
    if is_some (get_field "auth_basic_file" g)
    then g
    else put_field "auth_basic_file" null (put_field "auth_basic" null g)

abbrev directories_of : Option Value → Items
directories_of (some (str s)) = cons (str s) nil
directories_of (some (list vs)) = vs
directories_of _ = nil

-- if 'web_directories' in general: ...
unfoldable pub set_directories : Fields → Fields
set_directories g =
    put_field "web_directories" (list (directories_of (get_field "web_directories" g))) g

module _ (libraries : Libraries) where
  -- {key: value for key, value in data.items() if key in schema}
  unfoldable pub known_fields : Fields → Fields
  known_fields end = end
  known_fields (field k v d) =
      let rest = known_fields d in if libraries.is_known k then field k v rest else rest

  -- `validate_fields` and `validate_configuration`
  unfoldable pub validate_configuration : Fields → Result (Unit {0})
  validate_configuration conf =
      guard (libraries.are_valid_fields (known_fields conf)) configuration_error

  abbrev text_or_dict : Value → Value → Result Value
  text_or_dict (str name) directory = libraries.section_from_yaml_file name directory
  text_or_dict credentials directory = ok credentials

  -- `load_credentials`
  unfoldable pub load_credentials : Value → Value → Result Value
  load_credentials credentials directory = text_or_dict credentials directory

  unfoldable pub credentials_from : Bool → Option Value → Fields → Result Fields
  credentials_from true (some credentials) conf = do
    v ← load_credentials credentials (get_or "_config_directory" null conf)
    ok (put_field "credentials" v conf)
  credentials_from load_creds found conf = ok conf

  -- if load_creds and 'credentials' in conf: ...
  unfoldable pub set_credentials : Bool → Fields → Result Fields
  set_credentials load_creds conf = credentials_from load_creds (get_field "credentials" conf) conf

  unfoldable pub checked : Value → Result Value
  checked server_id =
      if libraries.valid_domain server_id then ok server_id else raise configuration_error

  -- `get_server_id`, of conf['general']
  unfoldable pub get_server_id : Value → Result Value
  get_server_id (dict g) =
      let given = get_or "server_id" null g in
      checked (if truthy given then given else str libraries.getfqdn)
  get_server_id _ = raise (foreign attribute_error)

  -- int(general['subdir_levels']), at most 10
  unfoldable pub set_levels : Fields → Result Fields
  set_levels g = do
    levels ← libraries.to_int (get_or "subdir_levels" subdir_levels g)
    ok (put_field "subdir_levels" (int (at_most_ten levels)) g)

  -- set(str(general['subdir_chars']))
  unfoldable pub set_chars : Fields → Fields
  set_chars g =
      put_field "subdir_chars"
        (list (char_set (libraries.text_of (get_or "subdir_chars" subdir_chars g)))) g

  unfoldable pub set_workers : Fields → Result Fields
  set_workers g = do
    workers ← libraries.get_nb_workers (get_or "max_workers" null g)
    ok (put_field "max_workers" workers g)

  -- The options of the general section, behind its server id.
  unfoldable pub normalize : Fields → Result Fields
  normalize g = do
    g1 ← set_workers (default_falsy "max_body_size" max_body_size g)
    g2 ← set_levels (
        default_auth (
          default_falsy "max_life_time" max_life_time
            (default_falsy "max_requests" max_requests g1)))
    ok (set_directories (default_missing "auth_basic" null (set_chars g2)))

  abbrev pub general_fields : Value → Result Fields
  general_fields (dict g) = ok g
  general_fields _ = raise (foreign attribute_error)

  unfoldable pub set_general : Fields → Result Fields
  set_general conf = do
    let general = get_or "general" null conf
    server_id ← get_server_id general
    g ← general_fields general
    g' ← normalize (put_field "server_id" server_id g)
    ok (put_field "general" (dict g') conf)

  abbrev pub conf_fields : Value → Result Fields
  conf_fields (dict conf) =
      if is_some (get_field "general" conf) then ok conf else raise configuration_error
  conf_fields _ = raise configuration_error

  -- `parse_conf`, with the module's own defaults
  unfoldable pub parse_conf : Value → Bool → Result Fields
  parse_conf v load_creds = do
    guard (libraries.is_mapping v) configuration_error
    conf ← conf_fields v
    validate_configuration conf
    conf' ← set_credentials load_creds conf
    set_general conf'
