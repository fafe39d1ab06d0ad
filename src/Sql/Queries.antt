-- ===== src/Sql/Queries.antt =====
-- dwho/classes/objects.py: the methods that run a statement. The connection (`connect`) and the
-- cursor are a parameter over the state `D` of the database connection.
use dwho.Base.{
  ℕ, String, Bool, true, false, List, [], ◌∷◌, Option, none, some, Result, ok, raise, key_error,
  ◌>>=◌ as and_then, is_some,
}
use dwho.Base.Value.{Value, Fields}
use dwho.Base.Exec.{Exec, pure, lift, gets, ◌>>=◌, ◌>>◌}
use dwho.Base.Dict.{Dict, lookup, insert}
use dwho.Sql.Statements.{
  Statement, columns_or, get_statement, get_count_statement, get_all_statement, search_statement,
  exists_statement, create_statement, update_statement, delete_statement,
}

-- A row by column names; a count is a row of one number.
abbrev pub Row : Type 0
Row = Dict Value

pub record Cursor (D : Type 0) : Type 0 where
  pub connect : Exec D (Unit {0})
  pub escape : String → String
  pub query : Statement → Exec D (Unit {0})
  pub fetchone : Exec D (Option Row)
  pub fetchone_count : Exec D (Option ℕ)
  pub fetchall : Exec D (List Row)
  pub commit : Exec D (Unit {0})
  pub lastrowid : D → Value
  pub rowcount : D → ℕ

-- What a read method returns: `False`, what the cursor gave, or dicts of prepared columns.
pub data Answer (A : Type 0) : Type 0 where
  absent : Answer A
  raw : A → Answer A
  prepared : A → Answer A

prepare_column : (String → Value → Value) → String → Option Value → Row → Result Row
prepare_column prepare c none r = raise key_error
prepare_column prepare c (some v) r = ok (insert c (prepare c v) r)

-- for column in columns: r[column] = self.db_prepare_column(row[column], column)
unfoldable pub prepare_row : (String → Value → Value) → List String → Row → Row → Result Row
unfolding prepare_column
prepare_row prepare [] row r = ok r
prepare_row prepare (c ∷ cs) row r =
    and_then (prepare_column prepare c (lookup c row) r) (λ r'. prepare_row prepare cs row r')

unfoldable pub prepare_rows : (String → Value → Value) → List String → List Row → Result (List Row)
prepare_rows prepare cs [] = ok []
prepare_rows prepare cs (row ∷ rows) =
    and_then (prepare_row prepare cs row [])
      (λ r. and_then (prepare_rows prepare cs rows) (λ rs. ok (r ∷ rs)))

-- The class attributes, and `db_prepare_column` of the subclass.
pub record Table : Type 0 where
  pub name : String
  pub columns : List String
  pub prepare : String → Value → Value

module _ (t : Table) {D : Type 0} (cursor : Cursor D) where
  -- self.connect(), the builders, and the query; a builder that raises sends nothing.
  unfoldable pub send : Result Statement → Exec D (Unit {0})
  send statement = do cursor.connect; s ← lift statement; cursor.query s

  unfoldable pub answer_one : Bool → List String → Option Row → Result (Answer Row)
  answer_one to_dict columns none = ok absent
  answer_one false columns (some row) = ok (raw row)
  answer_one true columns (some row) =
      and_then (prepare_row t.prepare columns row []) (λ r. ok (prepared r))

  unfoldable pub answer_all : Bool → List String → List Row → Result (Answer (List Row))
  answer_all to_dict columns [] = ok absent
  answer_all false columns (row ∷ rows) = ok (raw (row ∷ rows))
  answer_all true columns (row ∷ rows) =
      and_then (prepare_rows t.prepare columns (row ∷ rows)) (λ r. ok (prepared r))

  unfoldable pub get : Bool → Value → List String → Fields → Exec D (Answer Row)
  get to_dict order columns conditions = do
    let names = columns_or columns t.columns
    send (get_statement (cursor.escape t.name) names order conditions)
    row ← cursor.fetchone
    lift (answer_one to_dict names row)

  unfoldable pub get_count : Value → Fields → Exec D ℕ
  get_count column conditions = do
    send (get_count_statement (cursor.escape t.name) column conditions)
    res ← cursor.fetchone_count
    pure (elim res [ none ↦ 0 | some n ↦ n ])

  unfoldable pub get_all :
      Bool → Value → Value → Value → List String → Fields → Exec D (Answer (List Row))
  get_all to_dict order limit offset columns conditions = do
    let names = columns_or columns t.columns
    send (get_all_statement (cursor.escape t.name) names order limit offset conditions)
    rows ← cursor.fetchall
    lift (answer_all to_dict names rows)

  unfoldable pub search :
      Value
      → Value
      → Bool
      → Value
      → Value
      → Value
      → List String
      → Fields
      → Exec D (Answer (List Row))
  search scolumns svalue to_dict order limit offset columns conditions = do
    let names = columns_or columns t.columns
    send (
        search_statement (cursor.escape t.name) scolumns svalue names order limit offset conditions)
    rows ← cursor.fetchall
    lift (answer_all to_dict names rows)

  unfoldable pub exists : Fields → Exec D Bool
  exists conditions = do
    send (exists_statement (cursor.escape t.name) conditions)
    row ← cursor.fetchone
    pure (is_some row)

  unfoldable pub create : Value → Value → Exec D Value
  create columns values = do
    send (create_statement (cursor.escape t.name) columns values)
    cursor.commit
    gets cursor.lastrowid

  unfoldable pub update : Value → Value → Fields → Exec D ℕ
  update columns values conditions = do
    send (update_statement (cursor.escape t.name) columns values conditions)
    cursor.commit
    gets cursor.rowcount

  unfoldable pub delete : Fields → Exec D ℕ
  delete conditions = do
    send (delete_statement (cursor.escape t.name) conditions)
    cursor.commit
    gets cursor.rowcount
