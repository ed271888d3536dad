-- ===== src/Mcp/Values.antt =====
-- The methods of `serde_json::Value` that the MCP code uses: `get`, `as_array` and `insert` into an
-- object, whose keys are in order.
use percept.Prelude.{String, List, [], ◌∷◌, Option, none, some, if◌then◌else◌}
use percept.Prelude.Eq.{string_eq, ◌=?◌}
use percept.Prelude.Text.{str_le}
use percept.Core.Json.{Value, Items, Fields}

abbrev pub find_field : String → Fields → Option Value
find_field key Fields.end = none
find_field key (Fields.field k v rest) =
    let later = find_field key rest in if k =? key then some v else later

unfoldable pub get : String → Value → Option Value
get key (Value.object fields) = find_field key fields
get key _ = none

abbrev pub items : Items → List Value
items Items.nil = []
items (Items.cons v rest) = v ∷ items rest

unfoldable pub as_array : Value → Option (List Value)
as_array (Value.array vs) = some (items vs)
as_array _ = none

abbrev pub insert_field : String → Value → Fields → Fields
insert_field key v Fields.end = Fields.field key v Fields.end
insert_field key v (Fields.field k w rest) =
    let later = insert_field key v rest in
    if k =? key
    then Fields.field key v rest
    else if str_le key k
    then Fields.field key v (Fields.field k w rest)
    else Fields.field k w later

-- `if let Some(obj) = v.as_object_mut() { obj.insert(key, w); }`.
unfoldable pub set_field : String → Value → Value → Value
set_field key w (Value.object fields) = Value.object (insert_field key w fields)
set_field key w v = v
