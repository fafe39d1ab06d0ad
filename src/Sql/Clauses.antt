-- ===== src/Sql/Clauses.antt =====
-- dwho/classes/objects.py: the `_prepare_*` helpers. A clause comes back as its text, with the
-- values that the cursor binds to its `?` marks, or raises.
use Prim.Native.String.{String}
use dwho.Base.{
  ◌&◌, ◌&&◌, not, List, [], ◌∷◌, ◌++◌, ◌==◌, if◌then◌else◌, Result, ok, raise, value_error,
  type_error, ◌>>=◌, length, map,
}
use dwho.Base.Value.{
  Value, Fields, nil, cons, end, field, null, int, str, bytes, list, dict, pos, items,
}
use dwho.Base.Text.{codes}
use dwho.Sql.Words.{is_identifier, join, marks_list, replace, upper, codes_eq, decimal}

-- A text with values to bind.
abbrev pub Bound : Type 0
Bound = String × List Value

-- `_identifier`
unfoldable pub identifier : Value → Result String
identifier (str s) = if is_identifier s then ok s else raise value_error
identifier _ = raise value_error

-- One turn of the loop of `_prepare_condition`.
unfoldable pub condition_part : String → Value → Bound
condition_part key (list nil) = ("1 = 0", [])
condition_part key (list (cons v vs)) = (
  key & (" IN(" & (join ", " (marks_list (length (items (cons v vs)))) & ") ")),
  items (cons v vs),
)
condition_part key null = (key & " IS NULL", [])
condition_part key value = (key & " = ?", value ∷ [])

unfoldable pub condition_parts : Fields → Result (List Bound)
condition_parts end = ok []
condition_parts (field key value rest) = do
  name ← identifier (str key)
  parts ← condition_parts rest
  ok (condition_part name value ∷ parts)

abbrev pub texts : List Bound → List String
texts = map (λ p. p.0)

abbrev pub bound_values : List Bound → List Value
bound_values [] = []
bound_values (p ∷ ps) = p.1 ++ bound_values ps

-- `_prepare_condition`
unfoldable pub prepare_condition : Value → Result Bound
prepare_condition (dict d) = do
  parts ← condition_parts d
  ok (join " AND " (texts parts), bound_values parts)
prepare_condition _ = raise value_error

-- value.replace('!', '!!').replace('%', '!%').replace('_', '!_')
unfoldable pub escape_like : String → String
escape_like s = replace b'_' "!_" (replace b'%' "!%" (replace b'!' "!!" s))

unfoldable pub like_pattern : String → String
like_pattern s = "%" & (escape_like s & "%")

unfoldable pub like_parts : List Value → String → Result (List Bound)
like_parts [] value = ok []
like_parts (c ∷ cs) value = do
  name ← identifier c
  parts ← like_parts cs value
  ok ((name & " LIKE ? ESCAPE '!'", str (like_pattern value) ∷ []) ∷ parts)

-- `_prepare_cond_like`
unfoldable pub prepare_cond_like : Value → Value → Result Bound
prepare_cond_like (list columns) (str value) = do
  parts ← like_parts (items columns) value
  ok (join " OR " (texts parts), bound_values parts)
prepare_cond_like _ _ = raise value_error

-- direction.upper(), where it is ASC or DESC.
unfoldable pub direction : Value → Result String
direction (str s) =
    let u = upper (codes s) in
    if codes_eq u (codes "ASC")
    then ok "ASC"
    else if codes_eq u (codes "DESC")
    then ok "DESC"
    else raise value_error
direction _ = raise value_error

-- `for key, direction in clause`: two items of a list, or the two keys of a dict. A text, or bytes,
-- of two characters unpack as well, and neither ends in a direction.
unfoldable pub unpack_pair : Value → Result (Value × Value)
unpack_pair (list (cons k (cons d nil))) = ok (k, d)
unpack_pair (dict (field k _ (field d _ end))) = ok (str k, str d)
unpack_pair (list _) = raise value_error
unpack_pair (dict _) = raise value_error
unpack_pair (str _) = raise value_error
unpack_pair (bytes _) = raise value_error
unpack_pair _ = raise type_error

unfoldable pub order_parts : List Value → Result (List String)
order_parts [] = ok []
order_parts (v ∷ vs) = do
  (k, d) ← unpack_pair v
  name ← identifier k
  way ← direction d
  parts ← order_parts vs
  ok ((name & (" " & way)) ∷ parts)

-- `_prepare_order`
unfoldable pub prepare_order : Value → Result String
prepare_order (str s) = do
  parts ← order_parts (list (cons (str s) (cons (str "ASC") nil)) ∷ [])
  ok (" ORDER BY " & join ", " parts)
prepare_order (list vs) = do parts ← order_parts (items vs); ok (" ORDER BY " & join ", " parts)
prepare_order _ = raise value_error

-- `_prepare_limit` and `_prepare_offset`: an `int` that is no `bool`, from 0 on.
unfoldable pub prepare_limit : Value → Result String
prepare_limit (int (pos n)) = ok (" LIMIT " & decimal n)
prepare_limit _ = raise value_error

unfoldable pub prepare_offset : Value → Result String
prepare_offset (int (pos n)) = ok (" OFFSET " & decimal n)
prepare_offset _ = raise value_error

unfoldable pub identifiers : List Value → Result (List String)
identifiers [] = ok []
identifiers (v ∷ vs) = do name ← identifier v; names ← identifiers vs; ok (name ∷ names)

-- `_validate_columns_values`: the columns and the values, of the same number, not 0.
unfoldable pub validate_columns_values : Value → Value → Result (List String × List Value)
validate_columns_values (list columns) (list values) =
    if length (items columns) == length (items values) && not (length (items columns) == 0)
    then (do names ← identifiers (items columns); ok (names, items values))
    else raise value_error
validate_columns_values _ _ = raise value_error
