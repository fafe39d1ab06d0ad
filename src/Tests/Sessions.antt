-- ===== src/Tests/Sessions.antt =====
-- The sessions at concrete inputs.
use dwho.Base.{
  ◌*◌, ◌≡◌, refl, String, none, some, [], ◌∷◌, arith, ok, raise, runtime_error, is_some, str_eq,
  if◌then◌else◌,
}
use dwho.Base.Dict.{lookup, insert, erase}
use dwho.Base.Value.{end, int, pos, str, null}
use dwho.Sessions.Ttl.{check_ttl}
use dwho.Sessions.Clock.{Clock, now, second}
use dwho.Sessions.Backend.{memory_backend}
use dwho.Sessions.Memory.{Memory}
use mathlib.Core.Option
use dwho.Sessions.Memory
use dwho.Sessions.Memory.View
use dwho.Sessions.Memory.Bounds.{IsValid, methods-IsValid}
use dwho.Sessions.Memory.Contract.{TouchSpec, touch-TouchSpec, read-delete-view}
use dwho.Sessions.Manager
use dwho.Sessions.Manager.{Libraries, Manager, World, Session, SessionGrant, record_of}
use dwho.Sessions.Manager.Renewal
use dwho.Sessions.Manager.Reading
use dwho.Sessions.Manager.Creation
use dwho.Sessions.Manager.RoundTrip

-- The clock moves by a second at each call.
abbrev clock : Clock
clock = record { readings = λ i. i * second; taken = 0 }

abbrev one_held : Memory
one_held = record { capacity = 1; clock = clock; values = ("a", ("v", 5 * second)) ∷ [] }

one_held-IsValid : IsValid one_held
unfolding lookup
one_held-IsValid = record { positive = omega arith; bounded = omega arith; distinct = (refl, tt) }

methods-IsValid_example :
    IsValid (Memory.create "b" "w" (int (pos 10)) one_held).1
    × IsValid (Memory.read "b" one_held).1
    × IsValid (Memory.touch "b" (int (pos 10)) one_held).1
    × IsValid (Memory.delete "b" one_held).1
methods-IsValid_example = methods-IsValid "b" "w" (int (pos 10)) one_held one_held-IsValid

ten : check_ttl (int (pos 10)) ≡ ok 10
unfolding check_ttl
ten = refl

-- The table is full until the entry expires.
full : (Memory.create "b" "w" (int (pos 10)) one_held).0 ≡ raise runtime_error
unfolding Memory.create Memory.read_entry Memory.purge lookup erase check_ttl
full = refl

touch-TouchSpec_example : TouchSpec "a" 10 one_held (Memory.touch "a" (int (pos 10)) one_held)
touch-TouchSpec_example = touch-TouchSpec "a" (int (pos 10)) 10 one_held ten

read-delete-view_example :
    ((Memory.read "a" one_held).0
      ≡ ok (Option.map (λ e. e.0) (View.view one_held (now one_held.clock) "a")))
    × (View.view (Memory.read "a" one_held).1 (9 * second) "b"
        ≡ View.view one_held (9 * second) "b")
    × ((Memory.delete "a" one_held).0 ≡ ok (is_some (lookup "a" one_held.values)))
    × (View.view (Memory.delete "a" one_held).1 (9 * second) "b"
        ≡ (if str_eq "a" "b" then none else View.view one_held (9 * second) "b"))
unfolding Memory.read Memory.read_entry lookup
read-delete-view_example =
    read-delete-view "a" one_held (9 * second) "b" (record { at = λ i lt. omega arith })

abbrev manager : Manager
manager = record { prefix = "app:session:"; idle_ttl = 10; absolute_ttl = 15 }

-- The manager's clock and the backend's both move by a second at each call.
abbrev start : World Memory
start = record {
  store = record { capacity = 2; clock = clock; values = [] };
  clock = clock;
  drawn = 0;
}

abbrev the_token : String
the_token = "aaaaaaaaaaaaaaaaaaaaaaaaaaaaaaaaaaaaaaaaaaa"

-- JSON of the one record that the runs below write.
abbrev libraries : Libraries
libraries = record {
  dumps = λ v. ok "{}";
  loads = λ s. ok (record_of (str "ann") end 0 (15 * second));
  decode = λ b. ok "";
  sha256 = λ s. "digest";
  token = λ n. the_token;
}

abbrev the_session : Session
the_session = RoundTrip.session_at libraries manager (str "ann") end 0

abbrev the_grant : SessionGrant
the_grant = record { token = the_token; session = the_session; expires_at = 10 * second }

abbrev created : World Memory
created = record {
  store = record {
    capacity = 2;
    clock = record clock { taken = 1 };
    values = ("app:session:digest", ("{}", 10 * second)) ∷ [];
  };
  clock = record clock { taken = 1 };
  drawn = 1;
}

runs : Unit {0}
unfolding Manager.create Manager.encode Manager.decode_session Manager.session_of Manager.is_subject
    Manager.allocate Manager.try_create Manager.key_of Manager.token_pattern Memory.create
    Memory.read_entry Memory.purge Memory.read Memory.touch Memory.delete lookup insert erase
    check_ttl Manager.read Manager.read_key Manager.load Manager.valid_expiry Manager.expiry
    Manager.expire Manager.renew Manager.renew_session Manager.renew_at Manager.revoke
runs = tt

create_runs :
    Manager.create libraries memory_backend manager (str "ann") null start ≡ (ok the_grant, created)
unfolding runs
create_runs = refl

read-create_example :
    ((Manager.read libraries memory_backend manager (str the_token) created).0
      ≡ ok (some the_session))
    × (the_session.subject ≡ str "ann")
read-create_example =
    RoundTrip.read-create libraries manager (str "ann") null end start created the_grant refl
      (λ s h. refl) ten create_runs (omega arith) (omega arith)

read-revoke_example :
    Manager.read libraries memory_backend manager
      (str the_token)
      (Manager.revoke libraries memory_backend manager (str the_token) created).1
    ≡ (ok none, (Manager.revoke libraries memory_backend manager (str the_token) created).1)
read-revoke_example = RoundTrip.read-revoke libraries manager (str the_token) created

read_once : World Memory
read_once = (Manager.read libraries memory_backend manager (str the_token) created).1

-- At 15 seconds the session is over, though the backend still holds it.
abbrev late : World Memory
late = record created { clock = record clock { taken = 15 } }

abbrev renewed : SessionGrant
renewed = record the_grant { expires_at = 12 * second }

renew_world : World Memory
renew_world = (Manager.renew libraries memory_backend manager (str the_token) created).1

renew_runs :
    Manager.renew libraries memory_backend manager (str the_token) created
    ≡ (ok (some renewed), renew_world)
unfolding runs renew_world
renew_runs = refl

renew-RenewedFrom_example :
    Renewal.RenewedFrom libraries memory_backend manager the_token created renewed
renew-RenewedFrom_example =
    Renewal.renew-RenewedFrom libraries memory_backend manager the_token created renew_runs
