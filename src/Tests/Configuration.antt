-- ===== src/Tests/Configuration.antt =====
-- Configuration at concrete inputs.
use dwho.Base.{
  String, true, false, none, some, List, [], ◌∷◌, ◌≡◌, refl, Result, ok, raise, value_error,
  type_error, configuration_error, ◌||◌, str_eq, if◌then◌else◌,
}
use dwho.Base.Value.{
  Value, Items, Fields, end, field, null, int, str, list, dict, nil, cons, pos, ℤ, get_field,
}
use dwho.Base.Value
use dwho.Configuration
use dwho.Configuration.{Libraries, parse_conf}
use dwho.Configuration.Normal.{IsNormal}
use dwho.Configuration.Parsing.{parse_conf-IsNormal}
use dwho.Configuration.Reading
use dwho.Configuration.Reading.{Files, read_conf}

abbrev number : Value → Result ℤ
number (int z) = ok z
number (str s) = if str_eq s "12" then ok (pos 12) else raise value_error
number _ = raise type_error

abbrev text : Value → String
text (str s) = s
text _ = "?"

abbrev libraries : Libraries
libraries = record {
  is_mapping = λ v. true;
  is_known = λ k. str_eq k "general";
  are_valid_fields = λ d. true;
  getfqdn = "host";
  valid_domain = λ v. str_eq (text v) "host";
  get_nb_workers = λ v. ok (int (pos 1));
  section_from_yaml_file = λ name directory. ok (str name);
  to_int = number;
  text_of = text;
}

abbrev conf : Value
conf = dict (
    field "general"
      (dict (
        field "subdir_levels" (str "12")
          (field "web_directories" (str "/srv") (field "own" (str "x") end))))
      (field "other" (str "y") end))

runs : Unit {0}
unfolding Value.put_field Configuration.default_falsy Configuration.default_missing
    Configuration.char_set Configuration.default_auth Configuration.set_directories
    Configuration.known_fields Configuration.validate_configuration Configuration.load_credentials
    Configuration.credentials_from Configuration.set_credentials Configuration.checked
    Configuration.get_server_id Configuration.set_levels Configuration.set_chars
    Configuration.set_workers Configuration.normalize Configuration.set_general parse_conf
    Reading.import_each Reading.import_conf_files Reading.import_sections Reading.merge_custom
    Reading.read_file Reading.read_text Reading.read_conf_data read_conf
runs = tt

abbrev letters : List String → Items
letters [] = nil
letters (s ∷ ss) = cons (str s) (letters ss)

abbrev normal : Fields
normal = field "subdir_levels" (int (pos 10)) (
    field "web_directories" (list (cons (str "/srv") nil)) (
      field "own" (str "x") (
        field "server_id" (str "host") (
          field "max_body_size" (int (pos 8388608)) (
            field "max_workers" (int (pos 1)) (
              field "max_requests" (int (pos 0)) (
                field "max_life_time" (int (pos 0)) (
                  field "auth_basic" null (
                    field "auth_basic_file" null (
                      field "subdir_chars"
                        (list (
                          letters (
                            "a" ∷ "b" ∷ "c" ∷ "d" ∷ "e" ∷ "f" ∷ "0" ∷ "1" ∷ "2" ∷ "3" ∷ "4" ∷ "5"
                            ∷ "6" ∷ "7" ∷ "8" ∷ "9" ∷ [])))
                        end))))))))))

abbrev parsed : Fields
parsed = field "general" (dict normal) (field "other" (str "y") end)

parse_run : parse_conf libraries conf false ≡ ok parsed
unfolding runs
parse_run = refl

parse_conf-IsNormal_example :
    (before g g' : Fields) × (conf ≡ dict before)
    × (get_field "general" before ≡ some (dict g))
    × (get_field "general" parsed ≡ some (dict g'))
    × IsNormal libraries g g'
    × ((k : String)
        → str_eq "general" k || str_eq "credentials" k ≡ false
        → get_field k parsed ≡ get_field k before)
parse_conf-IsNormal_example = parse_conf-IsNormal libraries conf false parse_run

no_general : parse_conf libraries (dict end) false ≡ raise configuration_error
unfolding runs
no_general = refl

abbrev files : Files
files = record {
  exists = λ name. str_eq name "/etc/dwho.yml";
  load_file =
      λ name. ok (dict (field "general" (dict end) (field "import_modules" (str "m.yml") end)));
  load_text = λ s. raise value_error;
  directory = λ name. "/etc";
  load_conf_yaml_file = λ name directory. ok (str (text name));
  merge = λ a b. ok a;
  environ = λ name. none;
}

-- The imported section stands in the result.
imported :
    (read_conf files libraries "/etc/dwho.yml" (some (λ d. ok d)) false none null)
    ≡ ok (
        field "general" (dict end) (
          field "import_modules"
            (str "m.yml")
            (field "_config_directory" (str "/etc") (field "modules" (str "m.yml") end))))
unfolding runs
imported = refl

missing_file :
    read_conf files libraries "/none" none false (some "CONF") null ≡ raise configuration_error
unfolding runs
missing_file = refl
