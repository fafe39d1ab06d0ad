-- ===== src/Notifiers/Selection.antt =====
-- dwho/classes/notifiers.py: what a strict selection demands, and that `send` rejects a notifier
-- without `send` before it sends anything.
use dwho.Base.{
  String, Bool, true, false, some, List, [], ◌∷◌, if◌then◌else◌, ok, raise, Exc, all, ◌≡◌, ◌≢◌,
  refl, arith, All, Has, here, later, All-Has, ap, sym, ◌∙◌, >>=-eq-ok, ok-injective, Bool-cases,
  Option-cases, Result-cases, inl, inr, subst,
}
use dwho.Base.Dict.{lookup}
use dwho.Base.Value.{Value, Fields}
use dwho.Notifiers.{Registry, Notification, Push}
use dwho.Notifiers.Delivery.{
  handlers_of, check_handlers, select_tagged, select_known, select_one, select_names, select,
  run_names, run_tags, nonempty,
}
use dwho.Notifiers.Running.{Outside, plan, send}

module _ {H : Type 0} (registry : Registry H) (implements_send : H → Bool) (p : Push) where
  -- A notification of the name is loaded, has a notifier, and all of its notifiers have `send`.
  pub record IsSendable (name : String) : Type 0 where
    pub notification : Notification
    pub found : lookup name p.notifications ≡ some notification
    pub handled : handlers_of registry notification ≢ []
    pub implemented : all implements_send (handlers_of registry notification) ≡ true

  check_handlers-eq-ok :
      (hs : List H)
      → check_handlers registry implements_send hs ≡ ok tt
      → (hs ≢ []) × (all implements_send hs ≡ true)
  unfolding check_handlers
  check_handlers-eq-ok [] h = absurd (ground arith)
  check_handlers-eq-ok (x ∷ xs) h = elim (Bool-cases (all implements_send (x ∷ xs))) [
    | inl good ↦ (λ e. cc, good)
    | inr bad ↦ absurd (ground arith)
  ]

  select_known-Strict :
      (tags : List String) (n : Notification) {b : Bool}
      → select_known registry implements_send true tags n ≡ ok b
      → (select_known registry implements_send false tags n ≡ ok b)
        × (b ≡ true → check_handlers registry implements_send (handlers_of registry n) ≡ ok tt)
  unfolding select_known select_tagged
  select_known-Strict tags n h = (ground arith, λ e. ground arith)

  select_one-Strict :
      (tags : List String) (name : String) {b : Bool}
      → select_one registry implements_send true p tags name ≡ ok b
      → (select_one registry implements_send false p tags name ≡ ok b)
        × (b ≡ true → IsSendable name)
  unfolding select_one
  select_one-Strict tags name {b} h = elim (Option-cases (lookup name p.notifications)) [
    | inl unknown ↦ absurd (ground arith)
    | inr (n, known) ↦
        let (lenient, ready) = select_known-Strict tags n (rw (select_one, known) at h) in
        (
          rw (select_one, known) lenient,
          λ chosen.
              let (handled, implemented) =
                check_handlers-eq-ok (handlers_of registry n) (ready chosen) in
              record {
                notification = n;
                found = known;
                handled = handled;
                implemented = implemented;
              },
        )
  ]

  All-cons_if :
      (b : Bool) (name : String) (names : List String)
      → (b ≡ true → IsSendable name)
      → All IsSendable names
      → All IsSendable (if b then name ∷ names else names)
  All-cons_if true name names one rest = (one refl, rest)
  All-cons_if false name names one rest = rest

  select_names-Strict :
      (tags names : List String) {sel : List String}
      → select_names registry implements_send true p tags names ≡ ok sel
      → (select_names registry implements_send false p tags names ≡ ok sel) × All IsSendable sel
  unfolding select_names
  select_names-Strict tags [] h = (h, subst (All IsSendable) (ok-injective h) tt)
  select_names-Strict tags (name ∷ names) {sel} h =
      let (b, one, h') = >>=-eq-ok (select_one registry implements_send true p tags name) _ h in
      let (rest, others, h'') =
        >>=-eq-ok (select_names registry implements_send true p tags names) _ h' in
      let (lenient, sendable) = select_one-Strict tags name one in
      let (lenients, sendables) = select_names-Strict tags names others in
      (
        rw (lenient, lenients) h'',
        subst (All IsSendable) (ok-injective h'') (All-cons_if b name rest sendable sendables),
      )

  -- A strict selection that succeeds is not empty, each notification in it is loaded and has
  -- notifiers that all have `send`, and a lenient selection is the same.
  pub select-IsSendable :
      (tags names : List String) {sel : List String}
      → select registry implements_send true p tags names ≡ ok sel
      → (sel ≢ [])
        × All IsSendable sel
        × (select registry implements_send false p tags names ≡ ok sel)
  unfolding select
  select-IsSendable tags names {sel} h =
      let (found, made, h') =
        >>=-eq-ok (select_names registry implements_send true p tags names) _ h in
      let (lenient, sendable) = select_names-Strict tags names made in
      let (filled, same) = nonempty-eq-ok found h' in
      (
        filled,
        subst (All IsSendable) same sendable,
        subst (λ sel. select registry implements_send false p tags names ≡ ok sel) same
            (rw (select, lenient) refl),
      )
    where
      nonempty-eq-ok :
          (found : List String) {sel : List String}
          → nonempty registry implements_send found ≡ ok sel
          → (sel ≢ []) × (found ≡ sel)
      nonempty-eq-ok [] h = absurd (ground arith)
      nonempty-eq-ok (x ∷ xs) h = (λ e. cc, ok-injective h)

  Has-cons_if :
      (b : Bool) (name other : String) {rest : List String}
      → Has name rest
      → Has name (if b then other ∷ rest else rest)
  Has-cons_if true name other h = later h
  Has-cons_if false name other h = h

  -- A lenient selection keeps each name that is picked.
  Has-select_names :
      (tags : List String) (name : String) (names : List String) {sel : List String}
      → select_one registry implements_send false p tags name ≡ ok true
      → select_names registry implements_send false p tags names ≡ ok sel
      → Has name names
      → Has name sel
  unfolding select_names
  Has-select_names tags name [] picked h m = elim m [ ]
  Has-select_names tags name (_ ∷ names) picked h here =
      let (b, one, h') = >>=-eq-ok (select_one registry implements_send false p tags name) _ h in
      let (rest, others, h'') =
        >>=-eq-ok (select_names registry implements_send false p tags names) _ h' in
      let chosen : b ≡ true = ok-injective (sym one ∙ picked) in
      subst (Has name) (ok-injective h'') (rw chosen here)
  Has-select_names tags name (other ∷ names) picked h (later m) =
      let (b, one, h') = >>=-eq-ok (select_one registry implements_send false p tags other) _ h in
      let (rest, others, h'') =
        >>=-eq-ok (select_names registry implements_send false p tags names) _ h' in
      subst (Has name) (ok-injective h'')
        (Has-cons_if b name other (Has-select_names tags name names picked others m))

  select_names-raise :
      (tags names : List String) (name : String) (n : Notification)
      → Has name names
      → select_one registry implements_send false p tags name ≡ ok true
      → lookup name p.notifications ≡ some n
      → all implements_send (handlers_of registry n) ≡ false
      → (e : Exc) × (select_names registry implements_send true p tags names ≡ raise e)
  select_names-raise tags names name n member picked known bad =
      elim (Result-cases (select_names registry implements_send true p tags names)) [
        | inr refused ↦ refused
        | inl (sel, made) ↦
            let (lenient, sendable) = select_names-Strict tags names made in
            let s =
              All-Has IsSendable sendable
                (Has-select_names tags name names picked lenient member) in
            let same : s.notification ≡ n = cc (s.found, known) in
            absurd (
              ground (
                arith,
                s.implemented,
                ap (λ (m : Notification). all implements_send (handlers_of registry m)) same,
              ))
      ]

-- A notifier without `send` among those of a notification that is asked for, enabled and picked by
-- its tags makes `send` raise, and nothing is sent: the outside is as it was.
pub send-legacy :
    {H W : Type 0} (outside : Outside H W) (registry : Registry H) (p : Push) (xvars : Fields)
    (names tags : Value) (w : W) (ns ts : List String) (name : String) (n : Notification)
    → run_names outside.has_len true names p.notif_names ≡ ok ns
    → run_tags outside.has_len true tags ≡ ok ts
    → Has name ns
    → select_one registry outside.implements_send false p ts name ≡ ok true
    → lookup name p.notifications ≡ some n
    → all outside.implements_send (handlers_of registry n) ≡ false
    → (e : Exc) × (send outside registry p xvars names tags w ≡ (raise e, w))
unfolding send plan select
send-legacy outside registry p xvars names tags w ns ts name n named tagged member picked known
      bad =
    let (e, refused) =
      select_names-raise registry outside.implements_send p ts ns name n member picked known bad in
    (e, rw (named, tagged, refused) refl)
