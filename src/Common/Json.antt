-- ===== src/Common/Json.antt =====
-- JSON-like values (`dict[str, Any]`): payloads, results and metadata.
use Prim.Native.String.{String}
use Prim.Native.String.{◌++◌ as ◌<>◌}
use Prim.Native.Nat.{ℕ, zero, suc, ◌/◌, ◌%◌}
use mathlib.Core.Bool.{Bool, true, false, not}
use mathlib.Core.Option.{Option, none, some}
use mathlib.Core.Path.{◌≡◌, refl}
use native.Mathlib.Omega.{arith}
use mathlib.Core.List.{List, [], ◌∷◌}
use ai_employee_os.Common.Equality.{◌==◌, contains, string_eq}
use ai_employee_os.Common.Tests.{ltb, if◌then◌else◌}

-- Numbers, whole or not, are kept as their text.
mutual
  pub data Json : Type 0 where
    null : Json
    boolean : Bool → Json
    number : String → Json
    string : String → Json
    array : Items → Json
    object : Fields → Json

  pub data Items : Type 0 where
    nil : Items
    item : Json → Items → Items

  pub data Fields : Type 0 where
    end : Fields
    field : String → Json → Fields → Fields

-- A UUID is its text, so that `str(id)` is `id`.
abbrev pub Uuid : Type 0
Uuid = String

-- `str(n)`: a number has fewer digits than its successor counts.
abbrev digit : ℕ → String
digit zero = "0"
digit (suc zero) = "1"
digit (suc (suc zero)) = "2"
digit (suc (suc (suc zero))) = "3"
digit (suc (suc (suc (suc zero)))) = "4"
digit (suc (suc (suc (suc (suc zero))))) = "5"
digit (suc (suc (suc (suc (suc (suc zero)))))) = "6"
digit (suc (suc (suc (suc (suc (suc (suc zero))))))) = "7"
digit (suc (suc (suc (suc (suc (suc (suc (suc zero)))))))) = "8"
digit (suc (suc (suc (suc (suc (suc (suc (suc (suc n))))))))) = "9"

abbrev digits : ℕ → ℕ → String
digits zero n = ""
digits (suc fuel) n =
    let more = digits fuel (n / 10) in if ltb n 10 then digit n else more <> digit (n % 10)

unfoldable pub str : ℕ → String
str n = digits (suc n) n

-- `fields.get(key)`, `fields[key] = value`
unfoldable pub get_field : String → Fields → Option Json
get_field key end = none
get_field key (field k v rest) = if key == k then some v else get_field key rest

unfoldable pub set_field : String → Json → Fields → Fields
set_field key value end = field key value end
set_field key value (field k v rest) =
    if key == k then field key value rest else field k v (set_field key value rest)

-- `{**fields, **more}`
unfoldable pub update_fields : Fields → Fields → Fields
update_fields fields end = fields
update_fields fields (field k v more) = update_fields (set_field k v fields) more

-- `bool(value)`, and that of `fields.get(key)`
abbrev pub truthy : Json → Bool
truthy Json.null = false
truthy (Json.boolean b) = b
truthy (Json.number n) = not (contains ("0" ∷ "0.0" ∷ "-0.0" ∷ []) n)
truthy (Json.string s) = not (s == "")
truthy (Json.array Items.nil) = false
truthy (Json.array (Items.item x xs)) = true
truthy (Json.object end) = false
truthy (Json.object (field k v rest)) = true

abbrev pub is_truthy : Option Json → Bool
is_truthy none = false
is_truthy (some v) = truthy v

-- `str(value)`, where `repr` writes a dict or a list
unfoldable pub text_of : (Json → String) → Json → String
text_of repr Json.null = "None"
text_of repr (Json.boolean true) = "True"
text_of repr (Json.boolean false) = "False"
text_of repr (Json.number n) = n
text_of repr (Json.string s) = s
text_of repr (Json.array xs) = repr (Json.array xs)
text_of repr (Json.object fields) = repr (Json.object fields)

-- `value or {}` and `value or []`, where a value of another type counts as empty
abbrev pub fields_of : Option Json → Fields
fields_of (some (Json.object fields)) = fields
fields_of _ = end

abbrev list_of : Items → List Json
list_of Items.nil = []
list_of (Items.item x xs) = x ∷ list_of xs

abbrev pub items_of : Option Json → List Json
items_of (some (Json.array xs)) = list_of xs
items_of _ = []

abbrev pub value_or_null : Option Json → Json
value_or_null none = Json.null
value_or_null (some v) = v

abbrev pub from_text : Option String → Json
from_text none = Json.null
from_text (some s) = Json.string s

pub get_field-set_field :
    (k j : String) (v : Json) (fields : Fields)
    → get_field k (set_field j v fields) ≡ (if k == j then some v else get_field k fields)
unfolding get_field set_field
get_field-set_field k j v end = refl
get_field-set_field k j v (field i w rest) = ground (arith, get_field-set_field k j v rest)
