-- ===== src/Notifiers/Running.antt =====
-- dwho/classes/notifiers.py: `_run`, `send` and the call of DWhoPushNotifications. Templates, clocks
-- and the notifier objects are a parameter over the state `W` of the outside.
use dwho.Base.{
  ℕ, zero, suc, not, String, Bool, true, false, Option, none, some, List, [], ◌∷◌, ◌++◌,
  if◌then◌else◌, Result, ok, raise, runtime_error, key_error, ◌>>=◌ as and_then,
}
use dwho.Base.Dict.{Dict, lookup, insert}
use dwho.Base.Value.{Value, Fields, str, dict, null, truthy, get_or, get_field, put_field}
use dwho.Base.Exec.{Exec, pure, fail, lift, ◌>>=◌, ◌>>◌}
use dwho.Notifiers.{Registry, Notification, Push, general_of}
use dwho.Notifiers.Delivery.{handlers_of, select, run_tags, run_names}

pub record Outside (H W : Type 0) : Type 0 where
  pub has_len : Value → Bool
  pub implements_send : H → Bool
  -- `nvars` for the caller's variables and the tags, without `_NAME_`.
  pub variables : Fields → List String → Exec W Fields
  -- json.loads of the rendered template, and the rendered URI.
  pub render : String → Fields → Exec W Value
  pub render_uri : Value → Fields → Exec W Value
  pub split_uri : Value → Exec W Value
  -- `send` and the call of a notifier: the name, the configuration, the URI's parts for the call, the
  -- template, the variables.
  pub send : H → String → Value → Value → Fields → Exec W Value
  pub call : H → String → Value → Value → Value → Fields → Exec W (Unit {0})
  pub enqueue : H → String → Value → Value → Value → Fields → Exec W (Unit {0})
  pub start_pool : Exec W (Unit {0})
  pub is_killable : Exec W Bool
  pub kill_all : Exec W (Unit {0})

-- results.setdefault(name, []).append(result)
unfoldable pub add_reply : String → Value → Dict (List Value) → Dict (List Value)
add_reply name v r =
    insert name (elim (lookup name r) [ none ↦ v ∷ [] | some vs ↦ vs ++ (v ∷ []) ]) r

-- cfg['general']['uri'] = uri, in a copy
unfoldable pub with_uri : Value → Value → Result Value
with_uri uri cfg = and_then (general_of cfg) (λ general. elim cfg [
  | dict d ↦ ok (dict (put_field "general" (dict (put_field "uri" uri general)) d))
  | v ↦ ok v
])

-- cfg['general']['uri']
abbrev pub uri_of : Fields → Result Value
uri_of general = elim (get_field "uri" general) [ none ↦ raise key_error | some v ↦ ok v ]

module _ {H W : Type 0} (outside : Outside H W) (registry : Registry H) where
  render_template : Option String → Fields → Exec W Value
  render_template none vars = pure null
  render_template (some t) vars = if truthy (str t) then outside.render t vars else pure null

  -- What both runs make of a notification before its notifiers are called: the template, the
  -- configuration with its rendered URI, and the parts of that URI.
  unfoldable pub prepare : Notification → Fields → Exec W (Value × Value × Value)
  unfolding render_template
  prepare n vars = do
    tpl ← render_template n.template vars
    general ← lift (general_of n.cfg)
    given ← lift (uri_of general)
    rendered ← outside.render_uri given vars
    cfg ← lift (with_uri rendered n.cfg)
    uri ← outside.split_uri rendered
    pure (tpl, cfg, uri)

  -- if not result: raise RuntimeError
  unfoldable pub acknowledge : Value → Exec W (Unit {0})
  acknowledge result = if truthy result then pure tt else fail runtime_error

  -- The notifiers of one notification, strictly.
  unfoldable pub send_each :
      List H → String → Value → Value → Fields → Dict (List Value) → Exec W (Dict (List Value))
  send_each [] name cfg tpl vars results = pure results
  send_each (h ∷ hs) name cfg tpl vars results = do
    result ← outside.send h name cfg tpl vars
    acknowledge result
    send_each hs name cfg tpl vars (add_reply name result results)

  unfoldable pub send_one : Push → Fields → String → Dict (List Value) → Exec W (Dict (List Value))
  send_one p vars name results = elim (lookup name p.notifications) [
    | none ↦ fail key_error
    | some n ↦ do
      let vars' = put_field "_NAME_" (str name) vars
      (tpl, cfg, uri) ← prepare n vars'
      send_each (handlers_of registry n) name cfg tpl vars' results
  ]

  unfoldable pub send_all :
      Push → Fields → List String → Dict (List Value) → Exec W (Dict (List Value))
  send_all p vars [] results = pure results
  send_all p vars (name ∷ names) results = do
    results' ← send_one p vars name results
    send_all p vars names results'

  -- The names and tags that a run is for, and the selection of it.
  unfoldable pub plan : Bool → Push → Value → Value → Result (List String × List String)
  plan strict p names tags = and_then (run_names outside.has_len strict names p.notif_names) (λ ns.
      and_then (run_tags outside.has_len strict tags) (λ ts.
        and_then (select registry outside.implements_send strict p ts ns) (λ sel. ok (sel, ts))))

  -- `send`: the strict run
  unfoldable pub send : Push → Fields → Value → Value → Exec W (Dict (List Value))
  send p xvars names tags = do
    (sel, ts) ← lift (plan true p names tags)
    vars ← outside.variables xvars ts
    send_all p vars sel []

  -- The notifiers of one notification, leniently: at once, or on the worker pool.
  unfoldable pub call_each :
      Bool → List H → String → Value → Value → Value → Fields → Exec W (Unit {0})
  call_each is_async [] name cfg uri tpl vars = pure tt
  call_each is_async (h ∷ hs) name cfg uri tpl vars = do
    (if is_async then outside.enqueue else outside.call) h name cfg uri tpl vars
    call_each is_async hs name cfg uri tpl vars

  unfoldable pub call_one : Push → Fields → String → Exec W (Unit {0})
  call_one p vars name = elim (lookup name p.notifications) [
    | none ↦ fail key_error
    | some n ↦ do
      let vars' = put_field "_NAME_" (str name) vars
      (tpl, cfg, uri) ← prepare n vars'
      general ← lift (general_of cfg)
      call_each (truthy (get_or "async" null general)) (handlers_of registry n) name cfg uri tpl
          vars'
  ]

  unfoldable pub call_all : Push → Fields → List String → Exec W (Unit {0})
  call_all p vars [] = pure tt
  call_all p vars (name ∷ names) = call_one p vars name >>= λ _. call_all p vars names

-- self.workerpool is not None, with the state of the outside.
pub record Pooled (W : Type 0) : Type 0 where
  pub pool : Bool
  pub world : W

module _ {H W : Type 0} (outside : Outside H W) (registry : Registry H) where
  unfoldable pub on_world : {A : Type 0} → Exec W A → Exec (Pooled W) A
  on_world call s = let (r, w) = call s.world in (r, record s { world = w })

  set_pool : Bool → Exec (Pooled W) (Unit {0})
  set_pool b s = (ok tt, record s { pool = b })

  -- if not self.workerpool: self.workerpool = WorkerPool(...)
  unfoldable pub open_pool : Exec (Pooled W) (Unit {0})
  unfolding on_world set_pool
  open_pool s = (if s.pool then pure tt else (on_world outside.start_pool >>= λ _. set_pool true)) s

  unfoldable pub close_pool : Bool → Exec (Pooled W) (Unit {0})
  unfolding on_world set_pool
  close_pool killable =
      if killable then (on_world outside.kill_all >>= λ _. set_pool false) else pure tt

  -- while self.workerpool: ..., on fuel; false where the fuel ends before it.
  unfoldable pub drain : ℕ → Exec (Pooled W) Bool
  drain zero s = (ok (not s.pool), s)
  drain (suc fuel) s =
      let round =
        on_world outside.is_killable >>= λ killable. (close_pool killable >>= λ _. drain fuel) in
      if s.pool then round s else (ok true, s)

  -- The lenient run; true where it has come to its end.
  unfoldable pub run : ℕ → Push → Fields → Value → Value → Exec (Pooled W) Bool
  run fuel p xvars names tags = do
    (sel, ts) ← lift (plan outside registry false p names tags)
    vars ← on_world (outside.variables xvars ts)
    open_pool
    on_world (call_all outside registry p vars sel)
    drain fuel

  -- `__call__`: an exception is logged, and the call returns.
  unfoldable pub call : ℕ → Push → Fields → Value → Value → Pooled W → Bool × Pooled W
  call fuel p xvars names tags s =
      let (r, s') = run fuel p xvars names tags s in
      elim r [ ok ended ↦ (ended, s') | raise e ↦ (true, s') ]
