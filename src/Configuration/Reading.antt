-- ===== src/Configuration/Reading.antt =====
-- dwho/configuration.py: `import_conf_files`, `read_conf_data` and `read_conf`. Files, YAML, the
-- environment and the merging of dicts are parameters, as they stand at the time of the call.
use dwho.Base.{
  String, Bool, Option, none, some, List, [], ◌∷◌, ◌&◌, if◌then◌else◌, Result, ok, raise, key_error,
  type_error, configuration_error, ◌>>=◌,
}
use dwho.Base.Value.{
  Value, Fields, end, field, null, str, list, dict, items, truthy, get_field, get_or, put_field,
}
use dwho.Configuration.{Libraries, parse_conf}

pub record Files : Type 0 where
  pub exists : String → Bool
  -- open(xfile, 'r') and helpers.load_yaml
  pub load_file : String → Result Value
  pub load_text : String → Result Value
  -- os.path.dirname(os.path.abspath(xfile))
  pub directory : String → String
  -- helpers.load_conf_yaml_file(name, directory)
  pub load_conf_yaml_file : Value → Value → Result Value
  pub merge : Value → Value → Result Value
  -- os.environ.get(name)
  pub environ : String → Option String

-- CONFIG_IMPORT_SECTIONS
abbrev pub config_import_sections : List String
config_import_sections = "modules" ∷ "plugins" ∷ []

abbrev keys_of : Fields → List Value
keys_of end = []
keys_of (field k v d) = str k ∷ keys_of d

-- A text is one file; a list or a dict is walked through.
abbrev import_list : Value → Result (List Value)
import_list (str s) = ok (str s ∷ [])
import_list (list vs) = ok (items vs)
import_list (dict d) = ok (keys_of d)
import_list _ = raise type_error

module _ (files : Files) where
  abbrev config_directory : Fields → Result Value
  config_directory conf = elim (get_field "_config_directory" conf) [
    | none ↦ raise key_error
    | some v ↦ ok v
  ]

  abbrev or_empty : Value → Value
  or_empty v = if truthy v then v else dict end

  -- for import_file in import_files: ...
  unfoldable pub import_each : String → List Value → Fields → Result Fields
  import_each name [] conf = ok conf
  import_each name (f ∷ fs) conf = do
    directory ← config_directory conf
    loaded ← files.load_conf_yaml_file f directory
    merged ← files.merge loaded (or_empty (get_or name null conf))
    import_each name fs (put_field name merged conf)

  -- `import_conf_files`
  unfoldable pub import_conf_files : String → Fields → Result Fields
  import_conf_files name conf =
      let given = get_or ("import_" & name) null conf in
      if truthy given then import_list given >>= (λ fs. import_each name fs conf) else ok conf

  unfoldable pub import_sections : List String → Fields → Result Fields
  import_sections [] conf = ok conf
  import_sections (name ∷ names) conf = do
    conf' ← import_conf_files name conf
    import_sections names conf'

  module _ (libraries : Libraries) where
    -- `validate_mapping`
    abbrev mapping : Value → Result Fields
    mapping (dict d) = if libraries.is_mapping (dict d) then ok d else raise configuration_error
    mapping _ = raise configuration_error

    abbrev merged_mapping : Value → Result Fields
    merged_mapping (dict d) = ok d
    merged_mapping _ = raise type_error

    -- if custom_file: ...
    unfoldable pub merge_custom : Value → Value → Fields → Result Fields
    merge_custom custom directory conf =
        if truthy custom
        then (do
          loaded ← files.load_conf_yaml_file custom directory
          merged ← files.merge loaded (dict conf)
          conf' ← merged_mapping merged
          ok (put_field "_config_directory" directory conf'))
        else ok conf

    unfoldable pub read_file : String → Value → Result Fields
    read_file xfile custom = do
      loaded ← files.load_file xfile
      conf ← mapping loaded
      let directory = str (files.directory xfile)
      merge_custom custom directory (put_field "_config_directory" directory conf)

    unfoldable pub read_text : Option String → Result Fields
    read_text none = ok (field "_config_directory" null end)
    read_text (some s) =
        if truthy (str s)
        then (do
          loaded ← files.load_text s
          conf ← mapping loaded
          ok (put_field "_config_directory" null conf))
        else ok (field "_config_directory" null end)

    abbrev from_environ : Option String → Option String
    from_environ none = none
    from_environ (some name) = if truthy (str name) then files.environ name else none

    -- `read_conf_data`
    unfoldable pub read_conf_data : String → Option String → Value → Result Fields
    read_conf_data xfile envvar custom =
        if files.exists xfile then read_file xfile custom else read_text (from_environ envvar)

    abbrev run_parser : Option (Fields → Result Fields) → Bool → Fields → Result Fields
    run_parser none load_creds conf = parse_conf libraries (dict conf) load_creds
    run_parser (some parser) load_creds conf = parser conf

    -- `read_conf`
    unfoldable pub read_conf :
        String → Option (Fields → Result Fields) → Bool → Option String → Value → Result Fields
    read_conf xfile parser load_creds envvar custom = do
      conf ← read_conf_data xfile envvar custom
      parsed ← run_parser parser load_creds conf
      import_sections config_import_sections parsed
