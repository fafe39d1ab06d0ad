-- ===== src/Sql/Filters.antt =====
-- dwho/classes/objects.py: the clauses of a statement have as many `?` marks as values to bind.
use dwho.Base.{
  subst, >>=-eq-ok, ok-injective, suc, ◌&◌, String, List, [], ◌∷◌, Option, ok, ◌≡◌, refl, arith,
  length, inl, inr, ap, ◌∙◌, not, ◌&&◌, Bool-cases, ◌==◌, str_eq, All,
}
use dwho.Base.Value.{Value, Fields, end, field, list, dict, items, str, truthy}
use dwho.Base.Text.{codes}
use dwho.Sql.Words.{join, marks, marks-text}
use dwho.Sql.Clauses.{Bound, identifier, identifiers, validate_columns_values, prepare_condition}
use dwho.Sql.Placeholders.{
  IsBalanced, identifier-eq-ok, scalar-IsBalanced, prepare_condition-IsBalanced,
}
use dwho.Sql.Balance.{IsFree}
use dwho.Sql.Statements.{
  Clause, or_empty, where_clause, and_clause, assignments, counted, star_or_identifier,
}

pub where_clause-IsBalanced :
    (d : Fields) {q : String} {vs : Option (List Value)}
    → where_clause d ≡ ok (q, vs)
    → IsBalanced q (or_empty vs)
unfolding where_clause
where_clause-IsBalanced end {q} {vs} h =
    subst (λ (p : Clause). IsBalanced p.0 (or_empty p.1)) (ok-injective h) (unfold marks in refl)
where_clause-IsBalanced (field k v rest) {q} {vs} h =
    let ((c, cs), made, h') = >>=-eq-ok (prepare_condition (dict (field k v rest))) _ h in
    let word : IsFree " WHERE " = unfold marks in refl in
    subst (λ (p : Clause). IsBalanced p.0 (or_empty p.1)) (ok-injective h')
      (omega (arith, word, marks-text " WHERE " c, prepare_condition-IsBalanced _ made))

pub and_clause-IsBalanced :
    (d : Fields) {q : String} {vs : List Value} → and_clause d ≡ ok (q, vs) → IsBalanced q vs
unfolding and_clause
and_clause-IsBalanced end {q} {vs} h =
    subst (λ (p : Bound). IsBalanced p.0 p.1) (ok-injective h) (unfold marks in refl)
and_clause-IsBalanced (field k v rest) {q} {vs} h =
    let ((c, cs), made, h') = >>=-eq-ok (prepare_condition (dict (field k v rest))) _ h in
    let opened : IsFree " AND (" = unfold marks in refl in
    let closed : IsFree ")" = unfold marks in refl in
    subst (λ (p : Bound). IsBalanced p.0 p.1) (ok-injective h')
      (omega (
        arith,
        opened,
        closed,
        marks-text " AND (" (c & ")"),
        marks-text c ")",
        prepare_condition-IsBalanced _ made,
      ))

identifiers-IsFree :
    (vs : List Value) {names : List String}
    → identifiers vs ≡ ok names
    → All IsFree names × (length names ≡ length vs)
unfolding identifiers
identifiers-IsFree [] h =
    subst (λ names. All IsFree names × (length names ≡ 0)) (ok-injective h) (tt, refl)
identifiers-IsFree (v ∷ vs) h =
    let (name, good, h') = >>=-eq-ok (identifier v) _ h in
    let (names, made, h'') = >>=-eq-ok (identifiers vs) _ h' in
    let (free, same) = identifiers-IsFree vs made in
    subst (λ names. All IsFree names × (length names ≡ suc (length vs))) (ok-injective h'')
      ((identifier-eq-ok v good, free), ap suc same)

-- The columns that pass are free of marks, and as many as the values.
pub validate-eq-ok :
    (columns values : Value) {names : List String} {vs : List Value}
    → validate_columns_values columns values ≡ ok (names, vs)
    → All IsFree names × (length names ≡ length vs)
unfolding validate_columns_values
validate-eq-ok (list cs) (list vs) {names} {vs = vs'} h =
    elim (Bool-cases (length (items cs) == length (items vs) && not (length (items cs) == 0))) [
      | inl good ↦
          let (ns, made, h') =
            >>=-eq-ok (identifiers (items cs)) _ (rw (good, validate_columns_values) at h) in
          let (free, same) = identifiers-IsFree (items cs) made in
          let equal : length (items cs) ≡ length (items vs) = ground arith in
          subst (λ (p : List String × List Value). All IsFree p.0 × (length p.0 ≡ length p.1))
            (ok-injective h') (free, same ∙ equal)
      | inr bad ↦ absurd (ground arith)
    ]
validate-eq-ok (list cs) _ h = absurd (ground arith)
validate-eq-ok _ _ h = absurd (ground arith)

pub assignments-IsBalanced :
    (names : List String)
    → All IsFree names
    → marks (codes (join ", " (assignments names))) ≡ length names
unfolding join
assignments-IsBalanced [] h = unfold marks in refl
assignments-IsBalanced (n ∷ []) h = scalar-IsBalanced n h.0
assignments-IsBalanced (n ∷ m ∷ ns) h =
    let rest = join ", " (assignments (m ∷ ns)) in
    let comma : IsFree ", " = unfold marks in refl in
    omega (
      arith,
      comma,
      marks-text (n & " = ?") (", " & rest),
      marks-text ", " rest,
      scalar-IsBalanced n h.0,
      assignments-IsBalanced (m ∷ ns) h.1,
    )

pub counted-IsFree : (column : Value) {c : String} → counted column ≡ ok c → IsFree c
unfolding counted star_or_identifier
counted-IsFree column h = elim (Bool-cases (truthy column)) [
  | inr no_column ↦
      subst IsFree (ok-injective (rw (no_column, counted) at h)) (unfold marks in refl)
  | inl given ↦ named column (rw (given, counted) at h)
]
  where
    named : (v : Value) {c : String} → star_or_identifier v ≡ ok c → IsFree c
    named (str s) h = elim (Bool-cases (str_eq s "*")) [
      | inl star ↦
          subst IsFree (ok-injective (rw (star, star_or_identifier) at h)) (unfold marks in refl)
      | inr other ↦ identifier-eq-ok (str s) (rw (other, star_or_identifier) at h)
    ]
    named v h = identifier-eq-ok v h
