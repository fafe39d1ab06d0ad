-- ===== src/Redis/Scan.antt =====
-- dwho/adapters/redis.py: what `keys` collects, and which servers the replies are from.
use dwho.Base.{
  ℕ, zero, suc, ◌||◌, ◌==◌, String, Bool, true, false, Option, some, List, [], ◌∷◌, ◌++◌,
  if◌then◌else◌, ok, str_eq, eq_iff, ◌≡◌, refl, arith, length, inl, inr, Bool-cases, Result-cases,
  ap, ◌∙◌, subst, ◌≤◌,
}
use dwho.Base.Dict.{Dict, keys, is_in}
use dwho.Base.Value.{Value}
use dwho.Base.Exec.{Exec, ◌>>=◌, bind-eq-ok, pure}
use dwho.Redis.{Client, Server, selected}
use dwho.Redis.Commands.{add_new, scan_keys, gather, broadcast, conn_of, add_reply}

-- No key stands twice.
abbrev pub NoRepeats : List String → Type 0
NoRepeats [] = Unit
NoRepeats (k ∷ ks) = (is_in k ks ≡ false) × NoRepeats ks

abbrev pub concat : List (List String) → List String
concat [] = []
concat (b ∷ bs) = b ++ concat bs

abbrev collect : List (List String) → List String → List String
collect [] found = found
collect (b ∷ bs) found = collect bs (add_new b found)

or_assoc : (a b c : Bool) → ((a || b) || c) ≡ (a || (b || c))
or_assoc true b c = refl
or_assoc false b c = refl

is_in-append : (k : String) (xs ys : List String) → is_in k (xs ++ ys) ≡ (is_in k xs || is_in k ys)
is_in-append k [] ys = refl
is_in-append k (x ∷ xs) ys =
    ground (arith, is_in-append k xs ys, or_assoc (str_eq x k) (is_in k xs) (is_in k ys))

is_in-add_new :
    (k : String) (batch found : List String)
    → is_in k (add_new batch found) ≡ (is_in k found || is_in k batch)
unfolding add_new
is_in-add_new k [] found = ground arith
is_in-add_new k (j ∷ batch) found = elim (Bool-cases (is_in j found)) [
  | inl old ↦
      rw (old, is_in-add_new k batch found)
        (elim (Bool-cases (str_eq j k)) [
          | inl same ↦
              let e : is_in k found ≡ true =
                subst (λ x. is_in x found ≡ true) ((eq_iff j k).0 same) old in
              rw e refl
          | inr other ↦ rw other refl
        ])
  | inr new ↦
      rw (new, is_in-add_new k batch (found ++ (j ∷ [])), is_in-append k found (j ∷ []))
        (ground arith)
]

snoc-NoRepeats :
    (k : String) (ks : List String) → NoRepeats ks → is_in k ks ≡ false → NoRepeats (ks ++ (k ∷ []))
snoc-NoRepeats k [] h new = (refl, tt)
snoc-NoRepeats k (j ∷ ks) (first, h) new = (
  rw (is_in-append j ks (k ∷ [])) (ground (arith, first, eq_iff j k, eq_iff k j)),
  snoc-NoRepeats k ks h (ground arith),
)

add_new-NoRepeats : (batch found : List String) → NoRepeats found → NoRepeats (add_new batch found)
unfolding add_new
add_new-NoRepeats [] found h = h
add_new-NoRepeats (j ∷ batch) found h = elim (Bool-cases (is_in j found)) [
  | inl old ↦ rw old (add_new-NoRepeats batch found h)
  | inr new ↦ rw new (add_new-NoRepeats batch (found ++ (j ∷ [])) (snoc-NoRepeats j found h new))
]

collect-NoRepeats :
    (bs : List (List String)) (found : List String) → NoRepeats found → NoRepeats (collect bs found)
collect-NoRepeats [] found h = h
collect-NoRepeats (b ∷ bs) found h =
    collect-NoRepeats bs (add_new b found) (add_new-NoRepeats b found h)

is_in-collect :
    (k : String) (bs : List (List String)) (found : List String)
    → is_in k (collect bs found) ≡ (is_in k found || is_in k (concat bs))
is_in-collect k [] found = ground arith
is_in-collect k (b ∷ bs) found =
    rw (is_in-collect k bs (add_new b found), is_in-add_new k b found, is_in-append k b (concat bs))
      (or_assoc (is_in k found) (is_in k b) (is_in k (concat bs)))

module _ {C W : Type 0} (client : Client C W) (own : Dict (Server C)) (c : C)
    (pattern : Value) where
  -- The server answers from the cursor on with these batches, and the last with cursor 0.
  pub data Scans : ℕ → W → List (List String) → W → Type 0 where
    last :
        {cursor : ℕ} {w w' : W} {batch : List String}
        → client.scan c cursor pattern w ≡ (ok (0, batch), w')
        → Scans cursor w (batch ∷ []) w'
    more :
        {cursor n : ℕ} {w w' w'' : W} {batch : List String} {bs : List (List String)}
        → client.scan c cursor pattern w ≡ (ok (suc n, batch), w')
        → Scans (suc n) w' bs w''
        → Scans cursor w (batch ∷ bs) w''

  scan_keys-last :
      (fuel cursor : ℕ) (w w' : W) (batch found : List String)
      → client.scan c cursor pattern w ≡ (ok (0, batch), w')
      → scan_keys client own (suc fuel) c pattern cursor found w
        ≡ (ok (some (add_new batch found)), w')
  unfolding scan_keys
  scan_keys-last fuel cursor w w' batch found h = rw h refl

  scan_keys-more :
      (fuel cursor n : ℕ) (w w' : W) (batch found : List String)
      → client.scan c cursor pattern w ≡ (ok (suc n, batch), w')
      → scan_keys client own (suc fuel) c pattern cursor found w
        ≡ scan_keys client own fuel c pattern (suc n) (add_new batch found) w'
  unfolding scan_keys
  scan_keys-more fuel cursor n w w' batch found h =
      let on : (suc n == 0) ≡ false = ground arith in rw h (rw on refl)

  scan_keys-collect :
      (fuel : ℕ) {cursor : ℕ} {w w' : W} {bs : List (List String)} (found : List String)
      → length bs ≤ fuel
      → Scans cursor w bs w'
      → scan_keys client own fuel c pattern cursor found w ≡ (ok (some (collect bs found)), w')
  scan_keys-collect zero found enough (last h) = absurd (omega (arith, enough))
  scan_keys-collect zero found enough (more h rest) = absurd (omega (arith, enough))
  scan_keys-collect (suc fuel) {cursor} {w} {w'} found enough (last {batch} h) =
      scan_keys-last fuel cursor w w' batch found h
  scan_keys-collect (suc fuel) {cursor} {w} {bs = b ∷ bs} found enough (more {n} {w' = v} h rest) =
      scan_keys-more fuel cursor n w v b found h
      ∙ scan_keys-collect fuel (add_new b found) (omega (arith, enough)) rest

  -- Where a server answers the SCAN loop with these batches, the loop returns with at least as
  -- much fuel as there are batches: no key twice, and exactly the keys of the batches.
  pub scan_keys-NoRepeats :
      {w w' : W} {bs : List (List String)} (fuel : ℕ)
      → length bs ≤ fuel
      → Scans 0 w bs w'
      → (ks : List String) × (scan_keys client own fuel c pattern 0 [] w ≡ (ok (some ks), w'))
        × NoRepeats ks
        × ((k : String) → is_in k ks ≡ is_in k (concat bs))
  scan_keys-NoRepeats {bs} fuel enough run = (
    collect bs [],
    scan_keys-collect fuel [] enough run,
    collect-NoRepeats bs [] tt,
    λ k. is_in-collect k bs [],
  )

-- The names of the servers that the prefix selects, in the order of the dict.
unfoldable pub chosen : {C : Type 0} → Option String → Dict (Server C) → List String
chosen prefix [] = []
chosen prefix ((name, server) ∷ rest) =
    let later = chosen prefix rest in if selected prefix name then name ∷ later else later

paired : {A B : Type 0} {a : A} (p : A × B) → p.0 ≡ a → p ≡ (a, p.1)
paired p e = ap (λ x. (x, p.1)) e

module _ {C W A : Type 0} where
  -- A loop over the servers that returns has a reply of exactly the servers that the prefix
  -- selects, in the order of the dict.
  pub broadcast-chosen :
      (prefix : Option String) (call : C → Exec W A) (servers : Dict (Server C)) (w w' : W)
      {r : Dict A}
      → broadcast prefix call servers w ≡ (ok r, w')
      → keys r ≡ chosen prefix servers
  unfolding broadcast gather chosen
  broadcast-chosen prefix call [] w w' {r} h =
      let e : [] ≡ r = ground arith in subst (λ d. keys d ≡ []) e refl
  broadcast-chosen prefix call ((name, server) ∷ rest) w w' {r} h =
      elim (Bool-cases (selected prefix name)) [
        | inl picked ↦
            let (c, found, h1) = bind-eq-ok (conn_of server) _ w (rw (picked, gather) at h) in
            let (a, called, h2) = bind-eq-ok (λ v. (call c >>= λ a. pure (some a)) v) _ _ h1 in
            let (d, rest_done, h3) = bind-eq-ok (broadcast prefix call rest) _ _ h2 in
            let ih : keys d ≡ chosen prefix rest =
              broadcast-chosen prefix call rest _ _ (paired _ rest_done) in
            elim (Result-cases (call c (conn_of server w).1).0) [
              | inr (e, failed) ↦ absurd (ground arith)
              | inl (v, replied) ↦
                  let one : a ≡ some v = ground arith in
                  let all_of : r ≡ add_reply name a d = ground arith in
                  rw (picked, all_of, one) (ap (◌∷◌ name) ih)
            ]
        | inr skipped ↦
            rw skipped (broadcast-chosen prefix call rest w w' (rw (skipped, gather) at h))
      ]
