-- ===== src/Core/Json.antt =====
-- `serde_json::Value`, by the constructors that the code matches on. A number is opaque: its text, as
-- the code reads none.
use percept.Prelude.{String, Bool}

mutual
  pub data Value : Type 0 where
    null : Value
    bool : Bool → Value
    number : String → Value
    string : String → Value
    array : Items → Value
    object : Fields → Value

  pub data Items : Type 0 where
    nil : Items
    cons : Value → Items → Items

  pub data Fields : Type 0 where
    end : Fields
    field : String → Value → Fields → Fields
