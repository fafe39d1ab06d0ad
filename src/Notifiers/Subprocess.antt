-- ===== src/Notifiers/Subprocess.antt =====
-- dwho/classes/notifiers.py: what DWhoNotifierSubprocess makes of its configuration and its template:
-- the arguments and the environment of the process. `str.format`, dotenv files, the `%s` of a value
-- and the variables of `send` are outside.
use dwho.Base.{
  ◌||◌, ◌==◌, ℕ, ◌&◌, String, Bool, true, false, Option, none, some, List, [], ◌∷◌, ◌++◌,
  if◌then◌else◌, Result, ok, raise, value_error, type_error, key_error, ◌>>=◌ as and_then,
}
use dwho.Base.Value.{
  Value, Fields, end, field, str, list, dict, nil, cons, int, pos, null, truthy, items, get_field,
  get_or, put_field, dict_or_empty,
}
use dwho.Base.Text.{codes}
use dwho.Base.Exec.{Exec, lift, ◌>>=◌}
use dwho.Abstract.Params.{Helper, build_params}
use dwho.Notifiers.{general_of}
use dwho.Notifiers.Running.{uri_of}
use dwho.Notifiers.Handlers.{lenient}
use dwho.Notifiers.Processes.{Launch, Processes, supervise}

pub record Shell (W : Type 0) : Type 0 where
  pub helper : Helper
  -- x.format(**xvars)
  pub format : String → Fields → Result String
  -- dotenv_values(envfile)
  pub dotenv : Value → Result Fields
  -- '%s' % v, and ','.join(tags)
  pub text_of : Value → String
  pub join_tags : Value → Result String
  -- '%s' % getfqdn()
  pub hostname : String
  -- The variables of `send` before those that it is given.
  pub variables : String → Exec W Fields
  -- urisup.uri_help_split(uri), and the path of what it gives
  pub path_of : Value → Exec W Value

-- d.update(e)
unfoldable pub update : Fields → Fields → Fields
update end d = d
update (field k v e) d = update e (put_field k v d)

abbrev has : ℕ → List ℕ → Bool
has c [] = false
has c (d ∷ ds) = c == d || has c ds

-- '{' in x and '}' in x
abbrev pub is_template : String → Bool
is_template x = if has b'{' (codes x) then has b'}' (codes x) else false

-- [{key: val} for key, val in d.items()]
abbrev pub elements : Fields → List Value
elements end = []
elements (field k v d) = dict (field k v end) ∷ elements d

-- tpl.get('timeout', cfg.get('timeout', DEFAULT_TIMEOUT))
abbrev pub timeout_of : Fields → Fields → Value
timeout_of cfg tpl = get_or "timeout" (get_or "timeout" (int (pos 30)) cfg) tpl

module _ {W : Type 0} (shell : Shell W) where
  abbrev formatted : String → Fields → Result String
  formatted x xvars = if is_template x then shell.format x xvars else ok x

  -- for x in values: ... r.append(x); None where one is no text
  unfoldable pub append_args : List Value → Fields → List Value → Result (Option (List Value))
  append_args [] xvars r = ok (some r)
  append_args (str x ∷ values) xvars r =
      and_then (formatted x xvars) (λ text. append_args values xvars (r ++ (str text ∷ [])))
  append_args (_ ∷ values) xvars r = ok none

  -- One of the two blocks of `_mk_args`.
  unfoldable pub extend_args : Value → Fields → List Value → Result (Option (List Value))
  extend_args (list xs) xvars r = append_args (items xs) xvars r
  extend_args given xvars r = if truthy given then ok none else ok (some r)

  -- `_mk_args`
  unfoldable pub mk_args : List Value → Value → Value → Fields → Result (Option (List Value))
  mk_args args cargs targs xvars =
      and_then (extend_args cargs xvars args)
        (λ r. elim r [ none ↦ ok none | some args' ↦ extend_args targs xvars args' ])

  abbrev update_from : Result Fields → Fields → Fields
  update_from (ok d) r = update d r
  update_from (raise e) r = r

  -- `_load_envfile`, of a list: a file that cannot be read is passed over
  unfoldable pub load_envfile : List Value → Fields → Fields
  load_envfile [] r = r
  load_envfile (f ∷ files) r = load_envfile files (update_from (shell.dotenv f) r)

  -- One of the two blocks of `_mk_env` on files: None where they are no list.
  unfoldable pub file_elements : Value → Option (List Value)
  file_elements (list files) = some (elements (load_envfile (items files) end))
  file_elements given = if truthy given then none else some []

  unfoldable pub env_elements : Value → Option (List Value)
  env_elements (dict d) = some (elements d)
  env_elements (list xs) = some (items xs)
  env_elements given = if truthy given then none else some []

  -- r = tenv.copy(); None where it is no dict
  abbrev own_env : Value → Option Fields
  own_env (dict d) = some d
  own_env given = if truthy given then none else some end

  -- `_mk_env`: a part of another type gives the empty dict.
  unfoldable pub mk_env : Value → Value → Value → Value → Result Fields
  mk_env cenvfiles tenvfiles cenv tenv = elim (file_elements tenvfiles) [
    | none ↦ ok end
    | some first ↦ elim (file_elements cenvfiles) [
      | none ↦ ok end
      | some second ↦ elim (env_elements cenv) [
        | none ↦ ok end
        | some third ↦ elim (own_env tenv) [
          | none ↦ ok end
          | some r ↦ build_params shell.helper (first ++ (second ++ third)) r
        ]
      ]
    ]
  ]

  -- xvars[name]
  abbrev pub variable : Fields → String → Result Value
  variable xvars name = elim (get_field name xvars) [ none ↦ raise key_error | some v ↦ ok v ]

  -- The entries that show a variable, and those variables.
  abbrev pub shown : List (String × String)
  shown =
      ("DWHO_NOTIFIER_GMTIME", "_GMTIME_")
      ∷ ("DWHO_NOTIFIER_NAME", "_NAME_")
      ∷ ("DWHO_NOTIFIER_TIME", "_TIME_")
      ∷ ("DWHO_NOTIFIER_TIMESTAMP", "_TIMESTAMP_")
      ∷ ("DWHO_NOTIFIER_SERVER_ID", "_SERVER_ID_")
      ∷ ("DWHO_NOTIFIER_SOFTNAME", "_SOFTNAME_")
      ∷ ("DWHO_NOTIFIER_SOFTVER", "_SOFTVER_")
      ∷ ("DWHO_NOTIFIER_UUID", "_UUID_")
      ∷ []

  unfoldable pub put_shown : List (String × String) → Fields → Fields → Result Fields
  put_shown [] xvars env = ok env
  put_shown ((key, name) ∷ rest) xvars env =
      and_then (variable xvars name)
        (λ v. put_shown rest xvars (put_field key (str (shell.text_of v)) env))

  -- `_set_default_env`
  unfoldable pub set_default_env : Fields → Fields → Result Fields
  set_default_env xvars env = and_then (and_then (variable xvars "_TAGS_") shell.join_tags) (λ tags.
      put_shown shown xvars (
        put_field "DWHO_NOTIFIER_TAGS" (str tags) (
          put_field "DWHO_NOTIFIER_HOSTNAME" (str shell.hostname)
            (put_field "DWHO_NOTIFIER" (str "true") env))))

  abbrev joined : String → List Value → Result String
  joined s [] = ok s
  joined s (str x ∷ xs) = joined (s & (":" & x)) xs
  joined s (_ ∷ xs) = raise type_error

  -- os.path.pathsep.join(search_paths)
  abbrev join_paths : List Value → Result String
  join_paths [] = ok ""
  join_paths (str x ∷ xs) = joined x xs
  join_paths (_ ∷ xs) = raise type_error

  -- if cfg.get('search_paths'): ...
  unfoldable pub add_path : Value → Fields → Result Fields
  add_path (list (cons x xs)) env =
      and_then (join_paths (x ∷ items xs)) (λ path. ok (put_field "PATH" (str path) env))
  add_path given env = ok env

  -- What the template gives under the key, where it gives something and the configuration does not
  -- disallow it, and the other value where it does not.
  abbrev allowed : String → Value → String → Fields → Fields → Value
  allowed ban other key cfg tpl =
      let given = get_or key null tpl in
      if truthy given then (if truthy (get_or ban null cfg) then other else given) else other

  -- The environment and what Popen is called with, where there are arguments.
  unfoldable pub launch_with : Fields → Value → Value → Fields → Option (List Value) → Result Launch
  launch_with cfg tenvfiles tenv xvars none = raise value_error
  launch_with cfg tenvfiles tenv xvars (some args) =
      and_then (mk_env (get_or "envfiles" null cfg) tenvfiles (get_or "env" null cfg) tenv) (λ env.
        and_then (add_path (get_or "search_paths" null cfg) env) (λ env'.
          and_then (set_default_env xvars env')
            (λ full. ok (record { args = args; env = full; workdir = get_or "workdir" null cfg }))))

  -- What stands in `_execute` between the path and the process.
  unfoldable pub prepare : Value → Fields → Fields → Fields → Result Launch
  prepare path cfg tpl nvars =
      let xvars = update nvars (dict_or_empty (get_or "vars" null tpl)) in
      let targs = allowed "disallow-args" null "args" cfg tpl in
      let tenv = allowed "disallow-env" (dict end) "env" cfg tpl in
      let tenvfiles = allowed "disallow-env" (list nil) "envfile" cfg tpl in
      and_then (mk_args (path ∷ []) (get_or "args" null cfg) targs xvars)
        (launch_with cfg tenvfiles tenv xvars)

  module _ (processes : Processes W) where
    abbrev run_launch : Bool → Value → Launch → Exec W Value
    run_launch strict timeout launch = supervise processes strict timeout launch

    -- DWhoNotifierSubprocess._execute, of the path of the URI
    unfoldable pub execute : Bool → Value → Fields → Value → Fields → Exec W Value
    execute strict path cfg tpl nvars w =
        if truthy path
        then (lift (prepare path cfg (dict_or_empty tpl) nvars)
              >>= run_launch strict (timeout_of cfg (dict_or_empty tpl)))
            w
        else (lenient strict (raise value_error), w)

    -- DWhoNotifierSubprocess.send
    unfoldable pub send : String → Fields → Value → Fields → Exec W Value
    send name cfg tpl nvars = do
      variables ← shell.variables name
      uri ← lift (and_then (general_of (dict cfg)) uri_of)
      path ← shell.path_of uri
      execute true path cfg tpl (update nvars variables)
