-- ===== src/Base/Value.antt =====
-- The values of a dynamic Python argument, and of decoded JSON or YAML. A float that stands for a
-- time is held in microseconds; `object` is any value of another class, told apart by a number.
use Prim.Native.Nat.{ℕ, zero, suc, ◌+◌}
use Prim.Native.String.{String}
use mathlib.Core.Bool.{Bool, true, false}
use mathlib.Core.Option.{Option, none, some}
use mathlib.Core.List.{List, [], ◌∷◌}
use mathlib.Core.Path.{◌≡◌, refl}
use native.Mathlib.Omega.{arith}
use text.Mathlib.Text.{◌==◌}
use text.Mathlib.TextEquality.{eq_iff}
use dwho.Base.Tests.{if◌then◌else◌, is_some}
use dwho.Base.Text.{codes, infix_of}
use dwho.Base.Exceptions.{Result, ok, raise, type_error, key_error}

-- `negsuc n` is -(n + 1).
pub data ℤ : Type 0 where
  pos : ℕ → ℤ
  negsuc : ℕ → ℤ

pub data Float : Type 0 where
  finite : ℤ → Float
  nan inf : Float

mutual
  pub data Value : Type 0 where
    null : Value
    bool : Bool → Value
    int : ℤ → Value
    float : Float → Value
    str : String → Value
    bytes : List ℕ → Value
    list : Items → Value
    dict : Fields → Value
    object : ℕ → Value

  pub data Items : Type 0 where
    nil : Items
    cons : Value → Items → Items

  pub data Fields : Type 0 where
    end : Fields
    field : String → Value → Fields → Fields

-- d.get(k) of a value's dict, and len(d).
abbrev pub get_field : String → Fields → Option Value
get_field k end = none
get_field k (field j v d) = if j == k then some v else get_field k d

abbrev pub count_fields : Fields → ℕ
count_fields end = 0
count_fields (field j v d) = count_fields d + 1

abbrev pub items : Items → List Value
items nil = []
items (cons v vs) = v ∷ items vs

-- bool(v)
abbrev pub truthy : Value → Bool
truthy null = false
truthy (bool b) = b
truthy (int (pos n)) = elim n [ zero ↦ false | suc _ ↦ true ]
truthy (int (negsuc n)) = true
truthy (float (finite (pos n))) = elim n [ zero ↦ false | suc _ ↦ true ]
truthy (float _) = true
truthy (str s) = if s == "" then false else true
truthy (bytes []) = false
truthy (bytes (_ ∷ _)) = true
truthy (list nil) = false
truthy (list (cons _ _)) = true
truthy (dict end) = false
truthy (dict (field _ _ _)) = true
truthy (object _) = true

-- d.get(k, v) and d[k] = v of a value's dict
abbrev pub get_or : String → Value → Fields → Value
get_or k v end = v
get_or k v (field j w d) = if j == k then w else get_or k v d

unfoldable pub put_field : String → Value → Fields → Fields
put_field k v end = field k v end
put_field k v (field j w d) = if j == k then field j v d else field j w (put_field k v d)

pub get_field-put_field :
    (k j : String) (v : Value) (d : Fields)
    → get_field j (put_field k v d) ≡ (if k == j then some v else get_field j d)
unfolding put_field
get_field-put_field k j v end = refl
get_field-put_field k j v (field i w d) =
    ground (arith, eq_iff k j, eq_iff i k, eq_iff i j, get_field-put_field k j v d)

-- k in v, and v[k], of a text k
abbrev has_str : String → Items → Bool
has_str k nil = false
has_str k (cons (str s) vs) = if s == k then true else has_str k vs
has_str k (cons _ vs) = has_str k vs

abbrev pub contains : String → Value → Result Bool
contains k (dict d) = ok (is_some (get_field k d))
contains k (list vs) = ok (has_str k vs)
contains k (str s) = ok (infix_of (codes k) (codes s))
contains k _ = raise type_error

abbrev pub subscript : String → Value → Result Value
subscript k (dict d) = elim (get_field k d) [ none ↦ raise key_error | some v ↦ ok v ]
subscript k _ = raise type_error

-- v if isinstance(v, dict) else {}
abbrev pub dict_or_empty : Value → Fields
dict_or_empty (dict d) = d
dict_or_empty _ = end
