-- ===== src/Sql/Statements.antt =====
-- dwho/classes/objects.py: what each method hands to the cursor. `escape` is the cursor's.
use dwho.Base.{
  ◌&◌, String, List, [], ◌∷◌, ◌++◌, Option, none, some, if◌then◌else◌, Result, ok, ◌>>=◌, length,
  map, str_eq,
}
use dwho.Base.Value.{Value, Fields, end, field, null, str, dict, truthy}
use dwho.Sql.Words.{join, marks_list}
use dwho.Sql.Clauses.{
  Bound, identifier, prepare_condition, prepare_cond_like, prepare_order, prepare_limit,
  prepare_offset, validate_columns_values,
}

-- The arguments of `cursor.query`: the text, the columns for `${columns}`, the values to bind.
pub record Statement : Type 0 where
  pub text : String
  pub columns : Option (List String)
  pub values : Option (List Value)

abbrev pub Clause : Type 0
Clause = String × Option (List Value)

-- if conditions: ...
unfoldable pub where_clause : Fields → Result Clause
where_clause end = ok ("", none)
where_clause (field k v rest) = do
  (q, vs) ← prepare_condition (dict (field k v rest))
  ok (" WHERE " & q, some vs)

-- if order: ...
unfoldable pub order_clause : Value → Result String
order_clause order = if truthy order then prepare_order order else ok ""

-- if limit is not None: ..., and the offset only then.
unfoldable pub page_clause : Value → Value → Result String
page_clause null offset = ok ""
page_clause limit null = prepare_limit limit
page_clause limit offset = do l ← prepare_limit limit; o ← prepare_offset offset; ok (l & o)

-- if not columns: columns = self.COLUMNS
abbrev pub columns_or : List String → List String → List String
columns_or [] known = known
columns_or (c ∷ cs) known = c ∷ cs

unfoldable pub get_statement : String → List String → Value → Fields → Result Statement
get_statement table columns order conditions = do
  (q, vs) ← where_clause conditions
  o ← order_clause order
  ok (record {
    text = "SELECT ${columns} FROM " & (table & (q & (o & " LIMIT 1")));
    columns = some columns;
    values = vs;
  })

-- `*` is the only column name that is no identifier.
unfoldable pub star_or_identifier : Value → Result String
star_or_identifier (str s) = if str_eq s "*" then ok "*" else identifier (str s)
star_or_identifier v = identifier v

-- The column of a count: `*` for none.
unfoldable pub counted : Value → Result String
counted column = if truthy column then star_or_identifier column else ok "*"

unfoldable pub get_count_statement : String → Value → Fields → Result Statement
get_count_statement table column conditions = do
  c ← counted column
  (q, vs) ← where_clause conditions
  ok (record {
    text = "SELECT COUNT(" & (c & (") FROM " & (table & (q & " LIMIT 1"))));
    columns = none;
    values = vs;
  })

unfoldable pub get_all_statement :
    String → List String → Value → Value → Value → Fields → Result Statement
get_all_statement table columns order limit offset conditions = do
  (q, vs) ← where_clause conditions
  o ← order_clause order
  p ← page_clause limit offset
  ok (record {
    text = "SELECT ${columns} FROM " & (table & (q & (o & p)));
    columns = some columns;
    values = vs;
  })

-- if conditions: query += " AND (...)", and its values stand behind those of the search.
unfoldable pub and_clause : Fields → Result Bound
and_clause end = ok ("", [])
and_clause (field k v rest) = do
  (q, vs) ← prepare_condition (dict (field k v rest))
  ok (" AND (" & (q & ")"), vs)

unfoldable pub search_statement :
    String → Value → Value → List String → Value → Value → Value → Fields → Result Statement
search_statement table scolumns svalue columns order limit offset conditions = do
  (c, cs) ← prepare_cond_like scolumns svalue
  (q, vs) ← and_clause conditions
  o ← order_clause order
  p ← page_clause limit offset
  ok (record {
    text = "SELECT ${columns} FROM " & (table & (" WHERE (" & (c & (")" & (q & (o & p))))));
    columns = some columns;
    values = some (cs ++ vs);
  })

unfoldable pub exists_statement : String → Fields → Result Statement
exists_statement table conditions = do
  (q, vs) ← where_clause conditions
  ok (record { text = "SELECT 1 FROM " & (table & (q & " LIMIT 1")); columns = none; values = vs })

unfoldable pub create_statement : String → Value → Value → Result Statement
create_statement table columns values = do
  (names, vs) ← validate_columns_values columns values
  ok (record {
    text =
        "INSERT INTO "
        & (table & (" (${columns}) VALUES (" & (join ", " (marks_list (length names)) & ")")));
    columns = some names;
    values = some vs;
  })

abbrev pub assignments : List String → List String
assignments = map (λ name. name & " = ?")

abbrev pub or_empty : Option (List Value) → List Value
or_empty none = []
or_empty (some vs) = vs

unfoldable pub update_statement : String → Value → Value → Fields → Result Statement
update_statement table columns values conditions = do
  (names, vs) ← validate_columns_values columns values
  (q, cs) ← where_clause conditions
  ok (record {
    text = "UPDATE " & (table & (" SET " & (join ", " (assignments names) & q)));
    columns = none;
    values = some (vs ++ or_empty cs);
  })

unfoldable pub delete_statement : String → Fields → Result Statement
delete_statement table conditions = do
  (q, vs) ← where_clause conditions
  ok (record { text = "DELETE FROM " & (table & q); columns = none; values = vs })
