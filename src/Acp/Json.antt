-- ===== src/Acp/Json.antt =====
-- The decoded JSON values of the wire (`JsonValue` of acp/codec.py), with the views that the
-- client takes of them: `isinstance` tests and `dict.get`.
use drei.Base.{Str, str_eq, ℤ, Bool, List, [], ◌∷◌, Option, none, some, if◌then◌else◌}

-- An object of `json.loads` has each key once. A float is seen only through its truth value
-- (`float true t` is not zero) and its text.
mutual
  pub data JsonValue : Type 0 where
    null : JsonValue
    bool : Bool → JsonValue
    int : ℤ → JsonValue
    float : Bool → Str → JsonValue
    str : Str → JsonValue
    arr : Items → JsonValue
    obj : Fields → JsonValue

  pub data Items : Type 0 where
    nil : Items
    cons : JsonValue → Items → Items

  pub data Fields : Type 0 where
    end : Fields
    field : Str → JsonValue → Fields → Fields

unfoldable pub items : Items → List JsonValue
items nil = []
items (cons v vs) = v ∷ items vs

-- d.get(key): a missing key and a null are both None.
unfoldable pub get : Fields → Str → JsonValue
get end key = null
get (field k v fs) key = if str_eq k key then v else get fs key

-- _as_str
unfoldable pub as_str : JsonValue → Option Str
as_str (str s) = some s
as_str _ = none

-- _as_dict
unfoldable pub as_dict : JsonValue → Fields
as_dict (obj fs) = fs
as_dict _ = end

-- _as_list
unfoldable pub as_list : JsonValue → List JsonValue
unfolding items
as_list (arr vs) = items vs
as_list _ = []

-- The objects among the items.
unfoldable pub objects : List JsonValue → List Fields
objects [] = []
objects (obj fs ∷ rest) = fs ∷ objects rest
objects (_ ∷ rest) = objects rest
