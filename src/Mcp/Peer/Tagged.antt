-- ===== src/Mcp/Peer/Tagged.antt =====
-- On the rows of crates/percept/src/mcp/tools.rs: the field `peer_id` of a JSON value.
use percept.Prelude.{
  String, List, [], ◌∷◌, some, Bool, true, false, if◌then◌else◌, map, ◌≡◌, refl, ap, Bool-cases,
  inl, inr,
}
use percept.Prelude.Eq.{string_eq, ◌=?◌, =?_refl}
use percept.Prelude.Text.{str_le}
use percept.Prelude.Result.{All2}
use percept.Core.Json.{Value, Fields}
use percept.Mcp.Values.{find_field, insert_field, set_field}
use percept.Mcp.Peer.{tag}

-- The fields of an object but those of one key.
abbrev pub without : String → Fields → Fields
without key Fields.end = Fields.end
without key (Fields.field k v rest) =
    let later = without key rest in if k =? key then later else Fields.field k v later

abbrev pub is_object : Value → Bool
is_object (Value.object _) = true
is_object _ = false

-- The field `peer_id` of an object is `t`, whatever it was, and its other fields are as they were; what is
-- no object is left as it is.
pub data Tagged (t : Value) : Value → Value → Type 0 where
  in_object :
      {f g : Fields}
      → find_field "peer_id" g ≡ some t
      → without "peer_id" g ≡ without "peer_id" f
      → Tagged t (Value.object f) (Value.object g)
  as_it_is : {v : Value} → is_object v ≡ false → Tagged t v v

find_field-insert_field :
    (key : String) (t : Value) (f : Fields) → find_field key (insert_field key t f) ≡ some t
find_field-insert_field key t Fields.end = rw (=?_refl key) refl
find_field-insert_field key t (Fields.field k v rest) = elim (Bool-cases (k =? key)) [
  | inl here ↦ rw here (rw (=?_refl key) refl)
  | inr there ↦ elim (Bool-cases (str_le key k)) [
    | inl before ↦ rw there (rw before (rw (=?_refl key) refl))
    | inr behind ↦ rw there (rw behind (rw there (find_field-insert_field key t rest)))
  ]
]

without-insert_field :
    (key : String) (t : Value) (f : Fields) → without key (insert_field key t f) ≡ without key f
without-insert_field key t Fields.end = rw (=?_refl key) refl
without-insert_field key t (Fields.field k v rest) = elim (Bool-cases (k =? key)) [
  | inl here ↦ rw here (rw (=?_refl key) refl)
  | inr there ↦ elim (Bool-cases (str_le key k)) [
    | inl before ↦ rw there (rw before (rw (=?_refl key) (rw there refl)))
    | inr behind ↦
        rw there (rw behind (rw there (ap (Fields.field k v) (without-insert_field key t rest))))
  ]
]

pub set_field-Tagged : (t v : Value) → Tagged t v (set_field "peer_id" t v)
unfolding set_field
set_field-Tagged t (Value.object f) =
    Tagged.in_object (find_field-insert_field "peer_id" t f) (without-insert_field "peer_id" t f)
set_field-Tagged t Value.null = Tagged.as_it_is refl
set_field-Tagged t (Value.bool _) = Tagged.as_it_is refl
set_field-Tagged t (Value.number _) = Tagged.as_it_is refl
set_field-Tagged t (Value.string _) = Tagged.as_it_is refl
set_field-Tagged t (Value.array _) = Tagged.as_it_is refl

pub tag_all-Tagged :
    (id : String) (vs : List Value) → All2 (Tagged (Value.string id)) vs (map (tag id) vs)
tag_all-Tagged id [] = tt
tag_all-Tagged id (v ∷ vs) = (set_field-Tagged (Value.string id) v, tag_all-Tagged id vs)
