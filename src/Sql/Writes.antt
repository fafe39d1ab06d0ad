-- ===== src/Sql/Writes.antt =====
-- dwho/classes/objects.py: what the writing methods do to the database.
use dwho.Base.{Result, ok, raise, ◌≡◌, arith, Exc}
use dwho.Base.Value.{Value, Fields}
use dwho.Sql.Statements.{Statement, update_statement}
use dwho.Sql.Queries.{Table, Cursor, send, update}

module _ (t : Table) {D : Type 0} (cursor : Cursor D) where
  -- What a write of a statement has done when it returns: it was built, sent once and committed.
  pub record Written (statement : Result Statement) (d d' : D) : Type 0 where
    pub sent : Statement
    pub built : statement ≡ ok sent
    pub connected : (cursor.connect d).0 ≡ ok tt
    pub queried : (cursor.query sent (cursor.connect d).1).0 ≡ ok tt
    pub committed : cursor.commit (cursor.query sent (cursor.connect d).1).1 ≡ (ok tt, d')

  -- An `update` that cannot be built, over a connection that can be made, raises the builder's
  -- error and sends nothing.
  pub update_refused :
      (columns values : Value) (conditions : Fields) (e : Exc) (d d' : D)
      → cursor.connect d ≡ (ok tt, d')
      → update_statement (cursor.escape t.name) columns values conditions ≡ raise e
      → update t cursor columns values conditions d ≡ (raise e, d')
  unfolding update send
  update_refused columns values conditions e d d' c h = ground arith
