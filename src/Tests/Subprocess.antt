-- ===== src/Tests/Subprocess.antt =====
-- The subprocess notifier at concrete inputs: a process that ends after 100 milliseconds of a clock
-- that is the whole outside.
use dwho.Base.{
  ℕ, ◌+◌, ◌*◌, leb, String, true, false, some, [], ◌∷◌, ◌≡◌, refl, arith, Result, ok, raise,
  foreign, type_error, if◌then◌else◌,
}
use dwho.Base.Value.{
  Value, Fields, end, field, str, list, dict, nil, cons, null, bool, int, pos, truthy,
}
use dwho.Base.Value
use dwho.Abstract.Params
use dwho.Abstract.Params.{Helper}
use dwho.Notifiers.Processes
use dwho.Notifiers.Handlers
use dwho.Notifiers.Processes.{Launch, Processes}
use dwho.Notifiers.Subprocess
use dwho.Notifiers.Subprocess.{Shell, prepare, execute}
use dwho.Notifiers.Reaping.{Documented, Waited, wait_process-Waited}

abbrev milliseconds : Value → Result ℕ
milliseconds (int (pos n)) = ok (n * 1000)
milliseconds _ = raise type_error

abbrev processes : Processes ℕ
processes = record {
  spawn = λ launch w. (ok tt, w);
  start_readers = λ w. (ok tt, w);
  poll = λ w. (leb 100 w, w);
  clock = λ w. (w, w);
  sleep = λ n w. n + w;
  wait = λ w. if leb 100 w then w else 100;
  terminate = λ w. w;
  kill = λ w. w;
  is_failed = λ w. false;
  stop_readers = λ w. w;
  join_readers = λ w. w;
  duration = milliseconds;
}

documented : Documented processes
documented = record {
  now = λ w. w;
  clock_now = λ w. refl;
  clock_later = λ w. omega arith;
  poll_later = λ w. omega arith;
  sleep_later = λ n w. omega arith;
  has_ended = λ w. leb 100 w;
  wait_ended = λ w. ground arith;
  join_ended = λ w h. h;
}

abbrev text : Value → String
text (str s) = s
text _ = "?"

abbrev shell : Shell ℕ
shell = record {
  helper = record { regex = λ args v. ok v; equals = λ v w. false; key_of = λ v. "" };
  format = λ x xvars. ok (text (Value.get_or "_NAME_" null xvars));
  dotenv = λ f. raise (foreign 5);
  text_of = text;
  join_tags = λ tags. ok (text tags);
  hostname = "h";
  variables = λ name w. (ok end, w);
  path_of = λ uri w. (ok uri, w);
}

-- The variables of a notification named `deploy`.
abbrev variables : Fields
variables = field "_GMTIME_" (str "g") (
    field "_NAME_" (str "deploy") (
      field "_TAGS_" (str "all") (
        field "_TIME_" (str "t") (
          field "_TIMESTAMP_" (str "0") (
            field "_SERVER_ID_" (str "s") (
              field "_SOFTNAME_" (str "")
                (field "_SOFTVER_" (str "") (field "_UUID_" (str "u") end))))))))

abbrev config : Fields
config =
    field "args" (list (cons (str "-n") nil))
      (field "env" (list (cons (dict (field "= LANG" (str "LC_ALL") end)) nil)) end)

-- The template names itself another notification.
abbrev template : Fields
template = field "args" (list (cons (str "{_NAME_}") nil)) (
    field "vars" (dict (field "_NAME_" (str "forged") end)) (
      field "env" (dict (field "DWHO_NOTIFIER_NAME" (str "forged") (field "LANG" (str "C") end)))
        end))

runs : Unit {0}
unfolding Value.put_field Params.match_modifiers Params.apply_param Params.apply_element
    Params.build_params Subprocess.update Subprocess.append_args Subprocess.extend_args
    Subprocess.mk_args Subprocess.load_envfile Subprocess.file_elements Subprocess.env_elements
    Subprocess.mk_env Subprocess.put_shown Subprocess.set_default_env Subprocess.add_path
    Subprocess.launch_with prepare Processes.wait_loop Processes.wait_process Processes.observe
    Processes.put_down Processes.reap Processes.supervise execute Handlers.lenient
runs = tt

abbrev launch : Launch
launch = record {
  args = str "/bin/hook" ∷ str "-n" ∷ str "deploy" ∷ [];
  env = field "DWHO_NOTIFIER_NAME" (str "deploy") (
      field "LANG" (str "C") (
        field "LC_ALL" (str "C") (
          field "DWHO_NOTIFIER" (str "true") (
            field "DWHO_NOTIFIER_HOSTNAME" (str "h") (
              field "DWHO_NOTIFIER_TAGS" (str "all") (
                field "DWHO_NOTIFIER_GMTIME" (str "g") (
                  field "DWHO_NOTIFIER_TIME" (str "t") (
                    field "DWHO_NOTIFIER_TIMESTAMP" (str "0") (
                      field "DWHO_NOTIFIER_SERVER_ID" (str "s") (
                        field "DWHO_NOTIFIER_SOFTNAME" (str "") (
                          field "DWHO_NOTIFIER_SOFTVER" (str "")
                            (field "DWHO_NOTIFIER_UUID" (str "u") end))))))))))));
  workdir = null;
}

prepared : prepare shell (str "/bin/hook") config template variables ≡ ok launch
unfolding runs
prepared = refl

wait_process-Waited_example :
    Waited processes (documented.now 20 + 30) (Processes.wait_process processes 30 20)
wait_process-Waited_example = wait_process-Waited processes documented 30 20

-- The wait is over before the process.
wait_process_late : Processes.wait_process processes 30 20 ≡ (some false, 50)
unfolding runs
wait_process_late = refl

strict_run :
    execute shell processes true (str "/bin/hook") config (dict template) variables 20
    ≡ (ok (bool true), 120)
unfolding runs
strict_run = refl
