-- ===== src/Sql/Binding.antt =====
-- dwho/classes/objects.py: each statement has as many `?` marks as values to bind.
use dwho.Base.{
  subst, >>=-eq-ok, ok-injective, ◌&◌, String, List, Result, ok, ◌≡◌, refl, arith, length,
  length-append,
}
use dwho.Base.Value.{Value, Fields}
use dwho.Base.Text.{codes}
use dwho.Sql.Words.{join, marks_list, marks, marks-text}
use dwho.Sql.Clauses.{validate_columns_values, prepare_cond_like}
use dwho.Sql.Placeholders.{IsBalanced, marks-join, prepare_cond_like-IsBalanced}
use dwho.Sql.Balance.{IsFree, page_clause-IsFree, order_clause-IsFree}
use dwho.Sql.Statements.{
  Statement, or_empty, where_clause, order_clause, page_clause, and_clause, get_statement,
  get_all_statement, search_statement, exists_statement, create_statement, update_statement,
  delete_statement, assignments, get_count_statement, counted,
}
use dwho.Sql.Filters.{
  where_clause-IsBalanced, and_clause-IsBalanced, validate-eq-ok, assignments-IsBalanced,
  counted-IsFree,
}

-- What a method is asked for: the arguments that go into its statement.
pub data Request : Type 0 where
  get_one : List String → Value → Fields → Request
  count : Value → Fields → Request
  get_many : List String → Value → Value → Value → Fields → Request
  find : Value → Value → List String → Value → Value → Value → Fields → Request
  test : Fields → Request
  insert : Value → Value → Request
  change : Value → Value → Fields → Request
  remove : Fields → Request

unfoldable pub statement_of : String → Request → Result Statement
statement_of table (get_one columns order d) = get_statement table columns order d
statement_of table (count column d) = get_count_statement table column d
statement_of table (get_many columns order limit offset d) =
    get_all_statement table columns order limit offset d
statement_of table (find cs v columns order limit offset d) =
    search_statement table cs v columns order limit offset d
statement_of table (test d) = exists_statement table d
statement_of table (insert columns values) = create_statement table columns values
statement_of table (change columns values d) = update_statement table columns values d
statement_of table (remove d) = delete_statement table d

-- The values of a statement, one for each of its marks.
abbrev pub IsBound : Statement → Type 0
IsBound s = IsBalanced s.text (or_empty s.values)

-- For a table name without a `?`, each of the eight statements that the methods build, whatever
-- the arguments, has exactly as many `?` marks in its text as values to bind.
pub statement_of-IsBound :
    (table : String) (r : Request) {s : Statement}
    → marks (codes table) ≡ 0
    → statement_of table r ≡ ok s
    → IsBound s
unfolding statement_of
statement_of-IsBound table (get_one columns order d) t h =
    unfold get_statement in
    let ((q, vs), filtered, h1) = >>=-eq-ok (where_clause d) _ h in
    let (o, sorted, h2) = >>=-eq-ok (order_clause order) _ h1 in
    let a : IsFree "SELECT ${columns} FROM " = unfold marks in refl in
    let z : IsFree " LIMIT 1" = unfold marks in refl in
    subst IsBound (ok-injective h2) (
      omega (
        arith,
        a,
        z,
        t,
        marks-text "SELECT ${columns} FROM " (table & (q & (o & " LIMIT 1"))),
        marks-text table (q & (o & " LIMIT 1")),
        marks-text q (o & " LIMIT 1"),
        marks-text o " LIMIT 1",
        where_clause-IsBalanced d filtered,
        order_clause-IsFree order sorted,
      ))
statement_of-IsBound table (count column d) t h =
    unfold get_count_statement in
    let (c, counts, h1) = >>=-eq-ok (counted column) _ h in
    let ((q, vs), filtered, h2) = >>=-eq-ok (where_clause d) _ h1 in
    let opened : IsFree "SELECT COUNT(" = unfold marks in refl in
    let from : IsFree ") FROM " = unfold marks in refl in
    let one_row : IsFree " LIMIT 1" = unfold marks in refl in
    subst IsBound (ok-injective h2) (
      omega (
        arith,
        t,
        opened,
        from,
        one_row,
        marks-text "SELECT COUNT(" (c & (") FROM " & (table & (q & " LIMIT 1")))),
        marks-text c (") FROM " & (table & (q & " LIMIT 1"))),
        marks-text ") FROM " (table & (q & " LIMIT 1")),
        marks-text table (q & " LIMIT 1"),
        marks-text q " LIMIT 1",
        counted-IsFree column counts,
        where_clause-IsBalanced d filtered,
      ))
statement_of-IsBound table (get_many columns order limit offset d) t h =
    unfold get_all_statement in
    let ((q, vs), filtered, h1) = >>=-eq-ok (where_clause d) _ h in
    let (o, sorted, h2) = >>=-eq-ok (order_clause order) _ h1 in
    let (p, paged, h3) = >>=-eq-ok (page_clause limit offset) _ h2 in
    let select : IsFree "SELECT ${columns} FROM " = unfold marks in refl in
    subst IsBound (ok-injective h3) (
      omega (
        arith,
        t,
        select,
        marks-text "SELECT ${columns} FROM " (table & (q & (o & p))),
        marks-text table (q & (o & p)),
        marks-text q (o & p),
        marks-text o p,
        where_clause-IsBalanced d filtered,
        order_clause-IsFree order sorted,
        page_clause-IsFree limit offset paged,
      ))
statement_of-IsBound table (find cols v columns order limit offset d) t h =
    unfold search_statement in
    let ((c, cs), searched, h1) = >>=-eq-ok (prepare_cond_like cols v) _ h in
    let ((q, vs), filtered, h2) = >>=-eq-ok (and_clause d) _ h1 in
    let (o, sorted, h3) = >>=-eq-ok (order_clause order) _ h2 in
    let (p, paged, h4) = >>=-eq-ok (page_clause limit offset) _ h3 in
    let select : IsFree "SELECT ${columns} FROM " = unfold marks in refl in
    let opened : IsFree " WHERE (" = unfold marks in refl in
    let closed : IsFree ")" = unfold marks in refl in
    subst IsBound (ok-injective h4) (
      omega (
        arith,
        t,
        select,
        opened,
        closed,
        marks-text "SELECT ${columns} FROM " (table & (" WHERE (" & (c & (")" & (q & (o & p)))))),
        marks-text table (" WHERE (" & (c & (")" & (q & (o & p))))),
        marks-text " WHERE (" (c & (")" & (q & (o & p)))),
        marks-text c (")" & (q & (o & p))),
        marks-text ")" (q & (o & p)),
        marks-text q (o & p),
        marks-text o p,
        length-append cs vs,
        prepare_cond_like-IsBalanced cols v searched,
        and_clause-IsBalanced d filtered,
        order_clause-IsFree order sorted,
        page_clause-IsFree limit offset paged,
      ))
statement_of-IsBound table (test d) t h =
    unfold exists_statement in
    let ((q, vs), filtered, h1) = >>=-eq-ok (where_clause d) _ h in
    let select : IsFree "SELECT 1 FROM " = unfold marks in refl in
    let one_row : IsFree " LIMIT 1" = unfold marks in refl in
    subst IsBound (ok-injective h1) (
      omega (
        arith,
        t,
        select,
        one_row,
        marks-text "SELECT 1 FROM " (table & (q & " LIMIT 1")),
        marks-text table (q & " LIMIT 1"),
        marks-text q " LIMIT 1",
        where_clause-IsBalanced d filtered,
      ))
statement_of-IsBound table (insert columns values) t h =
    unfold create_statement in
    let ((names, vs), valid, h1) = >>=-eq-ok (validate_columns_values columns values) _ h in
    let m = join ", " (marks_list (length names)) in
    let into : IsFree "INSERT INTO " = unfold marks in refl in
    let opened : IsFree " (${columns}) VALUES (" = unfold marks in refl in
    let closed : IsFree ")" = unfold marks in refl in
    subst IsBound (ok-injective h1) (
      omega (
        arith,
        t,
        into,
        opened,
        closed,
        marks-text "INSERT INTO " (table & (" (${columns}) VALUES (" & (m & ")"))),
        marks-text table (" (${columns}) VALUES (" & (m & ")")),
        marks-text " (${columns}) VALUES (" (m & ")"),
        marks-text m ")",
        marks-join (length names),
        (validate-eq-ok columns values valid).1,
      ))
statement_of-IsBound table (change columns values d) t h =
    unfold update_statement in
    let ((names, vs), valid, h1) = >>=-eq-ok (validate_columns_values columns values) _ h in
    let ((q, cs), filtered, h2) = >>=-eq-ok (where_clause d) _ h1 in
    let (free, same) = validate-eq-ok columns values valid in
    let a = join ", " (assignments names) in
    let command : IsFree "UPDATE " = unfold marks in refl in
    let setter : IsFree " SET " = unfold marks in refl in
    subst IsBound (ok-injective h2) (
      omega (
        arith,
        t,
        command,
        setter,
        marks-text "UPDATE " (table & (" SET " & (a & q))),
        marks-text table (" SET " & (a & q)),
        marks-text " SET " (a & q),
        marks-text a q,
        length-append vs (or_empty cs),
        assignments-IsBalanced names free,
        same,
        where_clause-IsBalanced d filtered,
      ))
statement_of-IsBound table (remove d) t h =
    unfold delete_statement in
    let ((q, vs), filtered, h1) = >>=-eq-ok (where_clause d) _ h in
    let command : IsFree "DELETE FROM " = unfold marks in refl in
    subst IsBound (ok-injective h1) (
      omega (
        arith,
        t,
        command,
        marks-text "DELETE FROM " (table & q),
        marks-text table q,
        where_clause-IsBalanced d filtered,
      ))
