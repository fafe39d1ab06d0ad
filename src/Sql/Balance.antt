-- ===== src/Sql/Balance.antt =====
-- dwho/classes/objects.py: numbers, orders and pages of a statement have no `?` mark.
use dwho.Base.{
  subst, >>=-eq-ok, ok-injective, ℕ, zero, suc, ◌&◌, String, List, [], ◌∷◌, ok, ◌≡◌, refl, arith,
  inl, inr, Bool-cases, ltb, ◌/◌, ◌%◌, All,
}
use dwho.Base.Value.{Value, nil, cons, null, int, str, list, items, pos, negsuc, truthy}
use dwho.Base.Text.{codes}
use dwho.Sql.Words.{
  upper, codes_eq, join, marks, marks-text, decimal, digit, digit_texts, pick, decimal_from,
}
use dwho.Sql.Clauses.{
  identifier, order_parts, prepare_order, direction, unpack_pair, prepare_limit, prepare_offset,
}
use dwho.Sql.Placeholders.{identifier-eq-ok}
use dwho.Sql.Statements.{order_clause, page_clause}

-- No mark at all.
abbrev pub IsFree : String → Type 0
IsFree s = marks (codes s) ≡ 0

pick-IsFree : (ss : List String) (n : ℕ) → All IsFree ss → IsFree (pick ss n)
pick-IsFree [] n h = unfold marks in refl
pick-IsFree (s ∷ ss) zero h = h.0
pick-IsFree (s ∷ ss) (suc n) h = pick-IsFree ss n h.1

digit-IsFree : (n : ℕ) → IsFree (digit n)
unfolding digit marks
digit-IsFree n =
    pick-IsFree digit_texts n
      (refl, (refl, (refl, (refl, (refl, (refl, (refl, (refl, (refl, tt)))))))))

decimal_from-IsFree : (fuel n : ℕ) → IsFree (decimal_from fuel n)
unfolding decimal_from
decimal_from-IsFree zero n = unfold marks in refl
decimal_from-IsFree (suc fuel) n = elim (Bool-cases (ltb n 10)) [
  | inl small ↦ rw small (digit-IsFree n)
  | inr large ↦ rw large (
      omega (
        arith,
        marks-text (decimal_from fuel (n / 10)) (digit (n % 10)),
        decimal_from-IsFree fuel (n / 10),
        digit-IsFree (n % 10),
      ))
]

prepare_limit-IsFree : (v : Value) {s : String} → prepare_limit v ≡ ok s → IsFree s
unfolding prepare_limit decimal
prepare_limit-IsFree (int (pos n)) h =
    let word : IsFree " LIMIT " = unfold marks in refl in
    subst IsFree (ok-injective h) (
      omega
        (arith, word, marks-text " LIMIT " (decimal_from (suc n) n), decimal_from-IsFree (suc n) n))
prepare_limit-IsFree (int (negsuc n)) h = absurd (ground arith)
prepare_limit-IsFree _ h = absurd (ground arith)

prepare_offset-IsFree : (v : Value) {s : String} → prepare_offset v ≡ ok s → IsFree s
unfolding prepare_offset decimal
prepare_offset-IsFree (int (pos n)) h =
    let word : IsFree " OFFSET " = unfold marks in refl in
    subst IsFree (ok-injective h) (
      omega (
        arith,
        word,
        marks-text " OFFSET " (decimal_from (suc n) n),
        decimal_from-IsFree (suc n) n,
      ))
prepare_offset-IsFree (int (negsuc n)) h = absurd (ground arith)
prepare_offset-IsFree _ h = absurd (ground arith)

pub page_clause-IsFree :
    (limit offset : Value) {s : String} → page_clause limit offset ≡ ok s → IsFree s
unfolding page_clause
page_clause-IsFree null offset h = subst IsFree (ok-injective h) (unfold marks in refl)
page_clause-IsFree limit null h = prepare_limit-IsFree limit h
page_clause-IsFree limit offset h =
    let (l, made, h') = >>=-eq-ok (prepare_limit limit) _ h in
    let (o, made', h'') = >>=-eq-ok (prepare_offset offset) _ h' in
    subst IsFree (ok-injective h'') (
      omega (
        arith,
        marks-text l o,
        prepare_limit-IsFree limit made,
        prepare_offset-IsFree offset made',
      ))

direction-IsFree : (v : Value) {s : String} → direction v ≡ ok s → IsFree s
unfolding direction
direction-IsFree (str s) h =
    let u = upper (codes s) in
    elim (Bool-cases (codes_eq u (codes "ASC"))) [
      | inl asc ↦ subst IsFree (ok-injective (rw (asc, direction) at h)) (unfold marks in refl)
      | inr other ↦ elim (Bool-cases (codes_eq u (codes "DESC"))) [
        | inl desc ↦
            subst IsFree (ok-injective (rw (other, desc, direction) at h)) (unfold marks in refl)
        | inr none_ ↦ absurd (ground arith)
      ]
    ]
direction-IsFree _ h = absurd (ground arith)

IsFree-join : (sep : String) (ps : List String) → IsFree sep → All IsFree ps → IsFree (join sep ps)
unfolding join
IsFree-join sep [] s h = unfold marks in refl
IsFree-join sep (p ∷ []) s h = h.0
IsFree-join sep (p ∷ q ∷ ps) s h =
    let rest = join sep (q ∷ ps) in
    omega (
      arith,
      s,
      h.0,
      marks-text p (sep & rest),
      marks-text sep rest,
      IsFree-join sep (q ∷ ps) s h.1,
    )

order_parts-IsFree : (vs : List Value) {ps : List String} → order_parts vs ≡ ok ps → All IsFree ps
unfolding order_parts
order_parts-IsFree [] h = subst (All IsFree) (ok-injective h) tt
order_parts-IsFree (v ∷ vs) h =
    let ((k, d), paired, h1) = >>=-eq-ok (unpack_pair v) _ h in
    let (name, good, h2) = >>=-eq-ok (identifier k) _ h1 in
    let (way, ordered, h3) = >>=-eq-ok (direction d) _ h2 in
    let (parts, made, h4) = >>=-eq-ok (order_parts vs) _ h3 in
    let space : IsFree " " = unfold marks in refl in
    subst (All IsFree) (ok-injective h4) (
      omega (
        arith,
        space,
        marks-text name (" " & way),
        marks-text " " way,
        identifier-eq-ok k good,
        direction-IsFree d ordered,
      ),
      order_parts-IsFree vs made,
    )

ordered :
    (parts : List String) {s : String}
    → All IsFree parts
    → " ORDER BY " & join ", " parts ≡ s
    → IsFree s
ordered parts free e =
    let word : IsFree " ORDER BY " = unfold marks in refl in
    let comma : IsFree ", " = unfold marks in refl in
    subst IsFree e (
      omega
        (arith, word, marks-text " ORDER BY " (join ", " parts), IsFree-join ", " parts comma free))

prepare_order-IsFree : (v : Value) {s : String} → prepare_order v ≡ ok s → IsFree s
unfolding prepare_order
prepare_order-IsFree (str c) h =
    let (parts, made, h') =
      >>=-eq-ok (order_parts (list (cons (str c) (cons (str "ASC") nil)) ∷ [])) _ h in
    ordered parts (order_parts-IsFree _ made) (ok-injective h')
prepare_order-IsFree (list vs) h =
    let (parts, made, h') = >>=-eq-ok (order_parts (items vs)) _ h in
    ordered parts (order_parts-IsFree (items vs) made) (ok-injective h')
prepare_order-IsFree _ h = absurd (ground arith)

pub order_clause-IsFree : (v : Value) {s : String} → order_clause v ≡ ok s → IsFree s
unfolding order_clause
order_clause-IsFree v h = elim (Bool-cases (truthy v)) [
  | inl some_order ↦ prepare_order-IsFree v (rw (some_order, order_clause) at h)
  | inr no_order ↦
      subst IsFree (ok-injective (rw (no_order, order_clause) at h)) (unfold marks in refl)
]
