-- ===== src/Tests/Notifiers.antt =====
-- Notifications at concrete inputs, over an outside that counts what is sent.
use dwho.Base.{
  ℕ, zero, suc, ◌+◌, String, ◌≡◌, refl, Bool, true, false, [], ◌∷◌, none, some, ok, raise, foreign,
}
use dwho.Base.Value.{Value, str, int, pos, null, list, dict, nil, cons, end, field, truthy}
use dwho.Base.Dict.{lookup, insert}
use dwho.Base.Text
use dwho.Notifiers
use dwho.Notifiers.{Registry, Notification, Push, ConfigFile, Files, load, parse_tags, is_tag}
use dwho.Notifiers.Delivery
use dwho.Notifiers.Delivery.{run_names, run_tags, select_one, handlers_of}
use dwho.Notifiers.Running
use dwho.Notifiers.Running.{Outside, send, plan}
use dwho.Notifiers.Acknowledged.{due, handler_count}
use dwho.Notifiers.Loading.{IsConsistent, load-IsConsistent}
use dwho.Notifiers.Handlers.{Message, redis_send}
use dwho.Notifiers.Closing.{Closed, redis_send-Closed}
use dwho.Redis.{Client}

abbrev has_len : Value → Bool
has_len (str s) = truthy (str s)
has_len _ = false

-- Handler 0 only has the legacy call.
abbrev outside : Outside ℕ ℕ
outside = record {
  has_len = has_len;
  implements_send = λ h. elim h [ zero ↦ false | suc _ ↦ true ];
  variables = λ xvars tags w. (ok xvars, w);
  render = λ t vars w. (ok (str t), w);
  render_uri = λ uri vars w. (ok uri, w);
  split_uri = λ uri w. (ok uri, w);
  send = λ h name cfg tpl vars w. (ok (int (pos h)), w + 1);
  call = λ h name cfg uri tpl vars w. (ok tt, w + 1);
  enqueue = λ h name cfg uri tpl vars w. (ok tt, w + 1);
  start_pool = λ w. (ok tt, w);
  is_killable = λ w. (ok true, w);
  kill_all = λ w. (ok tt, w);
}

abbrev registry : Registry ℕ
registry = ("http", 3 ∷ 4 ∷ []) ∷ ("old", 3 ∷ 0 ∷ []) ∷ []

abbrev config : String → Value
config uri = dict (
    field "general" (dict (field "uri" (str uri) (field "tags" (list (cons (str "ops") nil)) end)))
      end)

abbrev files : Files
files = record { has_len = has_len; template = λ v. ok none; scheme = λ uri. ok "HTTP" }

abbrev hook : ConfigFile
hook = record { name = "hook"; content = ok (config "http://h/") }

abbrev broken : ConfigFile
broken = record { name = "broken"; content = ok (dict (field "general" (dict end) end)) }

abbrev empty : Push
empty = record { notifications = []; notif_names = [] }

abbrev ops : Notification
ops = record {
  cfg = config "http://h/";
  template = none;
  tags = some ("ops" ∷ []);
  scheme = some "http";
}

abbrev pushed : Push
pushed = record {
  notifications = ("hook", ops) ∷ ("old", record ops { scheme = some "old" }) ∷ [];
  notif_names = "hook" ∷ "old" ∷ [];
}

runs : Unit {0}
unfolding lookup insert Text.lower Text.lstrip Text.rstrip Text.strip is_tag parse_tags
    Notifiers.tag_of Notifiers.add_tags Notifiers.general_of Notifiers.store load
    Notifiers.load_file Notifiers.load_tags Notifiers.load_template Notifiers.load_scheme
    handlers_of Delivery.is_picked Delivery.check_handlers Delivery.select_tagged
    Delivery.select_known select_one Delivery.select_names Delivery.select run_tags run_names
    Running.add_reply Running.with_uri Running.prepare Running.acknowledge Running.send_each
    Running.send_one Running.send_all plan send handler_count due
runs = tt

tags_example :
    parse_tags has_len (list (cons (str " ops-1 ") (cons (str "x") (cons (int (pos 3)) nil))))
    ≡ ok ("ops-1" ∷ [])
unfolding runs
tags_example = refl

-- The second file has no URI: it stays half loaded.
load_partly :
    (load registry files (hook ∷ broken ∷ []) empty).1.notif_names ≡ "hook" ∷ "broken" ∷ []
unfolding runs
load_partly = refl

empty-IsConsistent : IsConsistent empty
empty-IsConsistent = record { known = λ m. unfold lookup in refl }

load-IsConsistent_example : IsConsistent (load registry files (hook ∷ broken ∷ []) empty).1
load-IsConsistent_example =
    load-IsConsistent registry files (hook ∷ broken ∷ []) empty empty-IsConsistent

-- The server gives no reply.
abbrev silent : Client ℕ ℕ
silent = record {
  from_url = λ url w. (ok 1, w);
  send = λ c command w. (raise (foreign 7), w);
  scan = λ c cursor pattern w. (ok (0, []), w);
  disconnect = λ c w. (ok tt, w + 1);
}

abbrev event : Message
event = record {
  stream = false;
  key = str "k";
  payload = str "{}";
  maxlen = null;
  settings = field "url" (str "redis://h/0") end;
}

redis_send-Closed_example : Closed silent event (redis_send silent event 0)
redis_send-Closed_example = redis_send-Closed silent event 0
