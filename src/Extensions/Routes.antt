-- ===== src/Extensions/Routes.antt =====
-- dwho/classes/modules.py: the commands that `_register_commands` gives a registrar which takes
-- every command.
use mathlib.Core.List.{append-nil, append_assoc}
use dwho.Base.{String, Bool, List, [], ◌∷◌, ◌++◌, map, Result, ok, ◌≡◌, refl, ap, sym, ◌∙◌}
use dwho.Base.Exec.{lift, bind-eq-ok, ◌>>=◌}
use dwho.Base.Value.{Value, Fields, end, field}
use dwho.Extensions.Modules.{
  Module, Hooks, Command, Host, no_hooks, ops_of, fields_of, command_of, hooks_of, register_rest,
  register_ops, register_route, register_commands,
}

module _ {R : Type 0} (compile : Value → Result R) (has_attribute : String → Bool) where
  -- A registrar that keeps the commands in order.
  abbrev pub keeping : Host R (List (Command R))
  keeping = record {
    compile = compile;
    has_attribute = has_attribute;
    register = λ c log. (ok tt, log ++ (c ∷ []));
  }

  -- The commands of one route: one for each operation, with the hooks at the first.
  abbrev pub commands : Command R → Hooks → List Value → List (Command R)
  commands cmd hooks [] = []
  commands cmd hooks (op ∷ ops) =
      record cmd { op = op; hooks = hooks } ∷ map (λ o. record cmd { op = o; hooks = no_hooks }) ops

  register_rest_lem :
      (cmd : Command R) (ops : List Value) (log : List (Command R))
      → register_rest keeping cmd ops log
        ≡ (ok tt, log ++ map (λ o. record cmd { op = o; hooks = no_hooks }) ops)
  unfolding register_rest
  register_rest_lem cmd [] log = rw append-nil
  register_rest_lem cmd (op ∷ ops) log =
      let c = record cmd { op = op; hooks = no_hooks } in
      register_rest_lem cmd ops (log ++ (c ∷ [])) ∙ rw (append_assoc log (c ∷ []))

  -- The hooks that the first command of a route has.
  abbrev HooksFor : Fields → List Value → Hooks → Type 0
  HooksFor value [] hooks = hooks ≡ no_hooks
  HooksFor value (_ ∷ _) hooks = hooks_of keeping value ≡ ok hooks

  register_ops_lem :
      (cmd : Command R) (value : Fields) (ops : List Value) (log log' : List (Command R))
      → register_ops keeping cmd value ops log ≡ (ok tt, log')
      → (hooks : Hooks) × HooksFor value ops hooks × (log' ≡ log ++ commands cmd hooks ops)
  unfolding register_ops
  register_ops_lem cmd value [] log log' h =
      (no_hooks, refl, sym (ap (λ r. r.1) h) ∙ sym (append-nil log))
  register_ops_lem cmd value (op ∷ ops) log log' h =
      let register_both = λ (hooks : Hooks). (λ (w : List (Command R)).
        register_rest keeping cmd ops (w ++ (record cmd { op = op; hooks = hooks } ∷ []))) in
      let (hooks, found, h') = bind-eq-ok (lift (hooks_of keeping value)) register_both log h in
      let c = record cmd { op = op; hooks = hooks } in
      (
        hooks,
        found,
        ap (λ r. r.1) (sym h' ∙ register_rest_lem cmd ops (log ++ (c ∷ [])))
            ∙ append_assoc log (c ∷ []) _,
      )

  register_route_lem :
      (m : Module) (given : Value) (log log' : List (Command R))
      → register_route keeping m given log ≡ (ok tt, log')
      → (value : Fields) × (cmd : Command R) × (ops : List Value) × (hooks : Hooks) × (fields_of
            given
          ≡ ok value)
        × (command_of keeping m value ≡ ok cmd)
        × (ops_of cmd.op ≡ ok ops)
        × HooksFor value ops hooks
        × (log' ≡ log ++ commands cmd hooks ops)
  unfolding register_route
  register_route_lem m given log log' h =
      let with_ops = λ (value : Fields) (cmd : Command R) (ops : List Value).
        register_ops keeping cmd value ops in
      let with_command =
        λ (value : Fields) (cmd : Command R). lift (ops_of cmd.op) >>= with_ops value cmd in
      let with_value =
        λ (value : Fields). lift (command_of keeping m value) >>= with_command value in
      let (value, is_dict, h1) = bind-eq-ok (lift (fields_of given)) with_value log h in
      let (cmd, made, h2) =
        bind-eq-ok (lift (command_of keeping m value)) (with_command value) log h1 in
      let (ops, listed, h3) = bind-eq-ok (lift (ops_of cmd.op)) (with_ops value cmd) log h2 in
      let (hooks, found, written) = register_ops_lem cmd value ops log log' h3 in
      (value, cmd, ops, hooks, is_dict, made, listed, found, written)

  -- What the routes of a module make of it: for each route, in order, a command for each of its
  -- operations, in order, the first one with the hooks of the route and the others without any.
  pub data Registered (m : Module) : Fields → List (Command R) → Type 0 where
    no_route : Registered m end []
    route :
        (key : String) {given : Value} {value routes : Fields} {cmd : Command R} {ops : List Value}
        (hooks : Hooks) {rest : List (Command R)}
        → fields_of given ≡ ok value
        → command_of keeping m value ≡ ok cmd
        → ops_of cmd.op ≡ ok ops
        → HooksFor value ops hooks
        → Registered m routes rest
        → Registered m (field key given routes) (commands cmd hooks ops ++ rest)

  -- Where `_register_commands` returns, to a registrar that takes every command, it has registered
  -- behind the commands that were there what the routes make, in their order: a command for each
  -- operation of each route, the first one with the hooks of the route and the others without any.
  pub register_commands-Registered :
      (m : Module) (routes : Fields) (log log' : List (Command R))
      → register_commands keeping m routes log ≡ (ok tt, log')
      → (added : List (Command R)) × (log' ≡ log ++ added) × Registered m routes added
  unfolding register_commands
  register_commands-Registered m end log log' h =
      ([], sym (ap (λ r. r.1) h) ∙ sym (append-nil log), no_route)
  register_commands-Registered m (field key given routes) log log' h =
      let one = register_route keeping m given log in
      let (_, went, h') =
        bind-eq-ok (register_route keeping m given) (λ _. register_commands keeping m routes) log
          h in
      let (value, cmd, ops, hooks, is_dict, made, listed, found, written) =
        register_route_lem m given log one.1 (λ i. (went i, one.1)) in
      let (added, behind, others) = register_commands-Registered m routes one.1 log' h' in
      (
        commands cmd hooks ops ++ added,
        behind ∙ (ap (λ l. l ++ added) written ∙ append_assoc log (commands cmd hooks ops) added),
        route key hooks is_dict made listed found others,
      )
