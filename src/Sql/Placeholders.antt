-- ===== src/Sql/Placeholders.antt =====
-- dwho/classes/objects.py: every value is bound to a `?` mark of the text, and every mark has one.
use dwho.Base.{
  >>=-eq-ok, ok-injective, subst, ℕ, zero, suc, ◌&◌, String, List, [], ◌∷◌, ok, ◌≡◌, refl, arith,
  length, length-append, All, inl, inr, Bool-cases,
}
use dwho.Base.Value.{Value, Fields, nil, cons, end, field, null, str, list, dict, items}
use dwho.Base.Text.{codes}
use dwho.Sql.Words.{is_identifier, join, marks_list, marks, marks-text, marks-identifier}
use dwho.Sql.Clauses.{
  Bound, identifier, condition_part, condition_parts, texts, bound_values, prepare_condition,
  like_parts, prepare_cond_like,
}

-- As many marks in the text as values.
abbrev pub IsBalanced : String → List Value → Type 0
IsBalanced q vs = marks (codes q) ≡ length vs

pub identifier-eq-ok : (v : Value) {s : String} → identifier v ≡ ok s → marks (codes s) ≡ 0
unfolding identifier
identifier-eq-ok (str s) {s = s'} h = elim (Bool-cases (is_identifier s)) [
  | inl good ↦
      let same : s ≡ s' = ground arith in
      subst (λ x. marks (codes x) ≡ 0) same (marks-identifier s good)
  | inr bad ↦ absurd (ground arith)
]
identifier-eq-ok _ h = absurd (ground arith)

mark_one : marks (codes "?") ≡ 1
unfolding marks
mark_one = refl

pub marks-join : (n : ℕ) → marks (codes (join ", " (marks_list n))) ≡ n
unfolding join marks_list marks
marks-join zero = refl
marks-join (suc zero) = refl
marks-join (suc (suc n)) =
    let rest = join ", " (marks_list (suc n)) in
    let sep : marks (codes ", ") ≡ 0 = refl in
    omega
      (arith, mark_one, sep, marks-text "?" (", " & rest), marks-text ", " rest, marks-join (suc n))

pub scalar-IsBalanced : (key : String) → marks (codes key) ≡ 0 → marks (codes (key & " = ?")) ≡ 1
unfolding marks
scalar-IsBalanced key h =
    let eq : marks (codes " = ?") ≡ 1 = refl in omega (arith, eq, marks-text key " = ?", h)

condition_part-IsBalanced :
    (key : String) (value : Value)
    → marks (codes key) ≡ 0
    → IsBalanced (condition_part key value).0 (condition_part key value).1
unfolding condition_part
condition_part-IsBalanced key (list nil) h = unfold marks in refl
condition_part-IsBalanced key (list (cons v vs)) h =
    let n = suc (length (items vs)) in
    let inner = join ", " (marks_list n) in
    let a : marks (codes " IN(") ≡ 0 = unfold marks in refl in
    let b : marks (codes ") ") ≡ 0 = unfold marks in refl in
    omega (
      arith,
      a,
      b,
      h,
      marks-text key (" IN(" & (inner & ") ")),
      marks-text " IN(" (inner & ") "),
      marks-text inner ") ",
      marks-join n,
    )
condition_part-IsBalanced key null h =
    let e : marks (codes " IS NULL") ≡ 0 = unfold marks in refl in
    omega (arith, e, h, marks-text key " IS NULL")
condition_part-IsBalanced key _ h = scalar-IsBalanced key h

-- Every clause of the list is balanced.
abbrev AllBalanced : List Bound → Type 0
AllBalanced = All (λ p. IsBalanced p.0 p.1)

join-IsBalanced :
    (sep : String) (ps : List Bound)
    → marks (codes sep) ≡ 0
    → AllBalanced ps
    → IsBalanced (join sep (texts ps)) (bound_values ps)
unfolding join
join-IsBalanced sep [] s h = unfold marks in refl
join-IsBalanced sep (p ∷ []) s h = omega (arith, h.0, length-append p.1 [])
join-IsBalanced sep (p ∷ q ∷ ps) s h =
    let rest = join sep (texts (q ∷ ps)) in
    omega (
      arith,
      s,
      h.0,
      marks-text p.0 (sep & rest),
      marks-text sep rest,
      join-IsBalanced sep (q ∷ ps) s h.1,
      length-append p.1 (bound_values (q ∷ ps)),
    )

condition_parts-AllBalanced :
    (d : Fields) {ps : List Bound} → condition_parts d ≡ ok ps → AllBalanced ps
unfolding condition_parts
condition_parts-AllBalanced end h = subst AllBalanced (ok-injective h) tt
condition_parts-AllBalanced (field key value rest) h =
    let (name, good, h') = >>=-eq-ok (identifier (str key)) _ h in
    let (parts, made, h'') = >>=-eq-ok (condition_parts rest) _ h' in
    subst AllBalanced (ok-injective h'') (
      condition_part-IsBalanced name value (identifier-eq-ok (str key) good),
      condition_parts-AllBalanced rest made,
    )

-- A condition that is prepared has as many `?` marks as values to bind.
pub prepare_condition-IsBalanced :
    (elements : Value) {q : String} {vs : List Value}
    → prepare_condition elements ≡ ok (q, vs)
    → IsBalanced q vs
unfolding prepare_condition
prepare_condition-IsBalanced (dict d) {q} {vs} h =
    let (parts, made, h') = >>=-eq-ok (condition_parts d) _ h in
    let and_free : marks (codes " AND ") ≡ 0 = unfold marks in refl in
    subst (λ (p : Bound). IsBalanced p.0 p.1) (ok-injective h')
      (join-IsBalanced " AND " parts and_free (condition_parts-AllBalanced d made))
prepare_condition-IsBalanced _ h = absurd (ground arith)

like_parts-AllBalanced :
    (cs : List Value) (value : String) {ps : List Bound}
    → like_parts cs value ≡ ok ps
    → AllBalanced ps
unfolding like_parts
like_parts-AllBalanced [] value h = subst AllBalanced (ok-injective h) tt
like_parts-AllBalanced (c ∷ cs) value h =
    let (name, good, h') = >>=-eq-ok (identifier c) _ h in
    let (parts, made, h'') = >>=-eq-ok (like_parts cs value) _ h' in
    let one : marks (codes " LIKE ? ESCAPE '!'") ≡ 1 = unfold marks in refl in
    subst AllBalanced (ok-injective h'') (
      omega (arith, one, marks-text name " LIKE ? ESCAPE '!'", identifier-eq-ok c good),
      like_parts-AllBalanced cs value made,
    )

-- So has a search.
pub prepare_cond_like-IsBalanced :
    (columns value : Value) {q : String} {vs : List Value}
    → prepare_cond_like columns value ≡ ok (q, vs)
    → IsBalanced q vs
unfolding prepare_cond_like
prepare_cond_like-IsBalanced (list columns) (str value) {q} {vs} h =
    let (parts, made, h') = >>=-eq-ok (like_parts (items columns) value) _ h in
    let or_free : marks (codes " OR ") ≡ 0 = unfold marks in refl in
    subst (λ (p : Bound). IsBalanced p.0 p.1) (ok-injective h')
      (join-IsBalanced " OR " parts or_free (like_parts-AllBalanced (items columns) value made))
prepare_cond_like-IsBalanced (list columns) _ h = absurd (ground arith)
prepare_cond_like-IsBalanced _ _ h = absurd (ground arith)
