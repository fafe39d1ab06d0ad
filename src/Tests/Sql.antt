-- ===== src/Tests/Sql.antt =====
-- The SQL object at concrete inputs, over a cursor that logs the statements it is sent.
use dwho.Base.{◌≡◌, refl, true, false, List, [], ◌∷◌, ◌++◌, none, some, ok, ◌↔◌, length}
use dwho.Base.Value.{Value, Fields, str, int, pos, null, list, nil, cons, end, field}
use dwho.Base.Exec.{pure}
use dwho.Base.Text.{codes}
use dwho.Sql
use dwho.Sql.Words.{marks, is_identifier, decimal}
use dwho.Sql.Statements.{Statement, update_statement, create_statement, search_statement}
use dwho.Sql.Queries.{Table, Cursor, create, update, get_all, Answer, absent}
use dwho.Sql.Binding.{statement_of, statement_of-IsBound, change}
use dwho.Sql.Like.{like_pattern-Matches, read_glob, Matches, IsInside}
use dwho.Sql.Clauses.{like_pattern, prepare_limit}

abbrev users : Table
users = record { name = "users"; columns = "id" ∷ "name" ∷ []; prepare = λ c v. v }

abbrev log_cursor : Cursor (List Statement)
log_cursor = record {
  connect = pure tt;
  escape = λ s. s;
  query = λ s log. (ok tt, log ++ (s ∷ []));
  fetchone = pure none;
  fetchone_count = pure (some 2);
  fetchall = pure [];
  commit = pure tt;
  lastrowid = λ log. int (pos 7);
  rowcount = length;
}

abbrev columns : Value
columns = list (cons (str "name") (cons (str "age") nil))

abbrev values : Value
values = list (cons (str "o'neil") (cons (int (pos 41)) nil))

abbrev conditions : Fields
conditions = field "id" (list (cons (int (pos 1)) (cons (int (pos 2)) nil))) (field "left" null end)

abbrev updated : Statement
updated = record {
  text = "UPDATE users SET name = ?, age = ? WHERE id IN(?, ?)  AND left IS NULL";
  columns = none;
  values = some (str "o'neil" ∷ int (pos 41) ∷ int (pos 1) ∷ int (pos 2) ∷ []);
}

builds : Unit {0}
unfolding Sql.Words.identifier_from is_identifier Sql.Words.join Sql.Words.marks_list
    Sql.Words.replace Sql.Words.upper decimal Sql.Words.decimal_from Sql.Words.digit marks
    Sql.Clauses.identifier Sql.Clauses.condition_part Sql.Clauses.condition_parts
    Sql.Clauses.prepare_condition Sql.Clauses.escape_like like_pattern Sql.Clauses.like_parts
    Sql.Clauses.prepare_cond_like Sql.Clauses.direction Sql.Clauses.unpack_pair
    Sql.Clauses.order_parts Sql.Clauses.prepare_order prepare_limit Sql.Clauses.prepare_offset
    Sql.Clauses.identifiers Sql.Clauses.validate_columns_values Sql.Statements.where_clause
    Sql.Statements.order_clause Sql.Statements.page_clause Sql.Statements.and_clause
    create_statement update_statement search_statement statement_of Sql.Queries.send create update
    Sql.Statements.get_all_statement get_all Sql.Queries.answer_all
builds = tt

update_text : update_statement "users" columns values conditions ≡ ok updated
unfolding builds
update_text = refl

limit_text : prepare_limit (int (pos 120)) ≡ ok " LIMIT 120"
unfolding builds
limit_text = refl

get_all_none :
    (get_all users log_cursor true (str "name") (int (pos 5)) null [] end []).0 ≡ ok absent
unfolding builds
get_all_none = refl

statement_of-IsBound_example :
    marks (codes updated.text)
    ≡ length (str "o'neil" ∷ int (pos 41) ∷ int (pos 1) ∷ int (pos 2) ∷ [])
statement_of-IsBound_example =
    statement_of-IsBound "users" (change columns values conditions) {s = updated}
      (unfold builds in refl) (unfold builds in refl)

like_pattern-Matches_example :
    (gs : _) × (read_glob false (codes (like_pattern "5%!")) ≡ some gs)
    × (Matches gs (codes "a 5%! b") ↔ IsInside (codes "5%!") (codes "a 5%! b"))
like_pattern-Matches_example = like_pattern-Matches "5%!" (codes "a 5%! b")
