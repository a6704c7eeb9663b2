-- ===== src/Json/Canonical.antt =====
-- `canonical_value` of src-tauri/src/operations/canonicalize.rs: the keys of every object, at every
-- depth, in sorted order. The keys of one object are distinct, as a `Map` keeps them.
pub mod Laws
use agent_db.Base.{String, if◌then◌else◌}
use agent_db.Json.{Value, Items, Fields}
use agent_db.Json.TextOrder.{text_le}

pub insert_field : String → Value → Fields → Fields
insert_field k v Fields.end = Fields.field k v Fields.end
insert_field k v (Fields.field j w fs) =
    if text_le k j
    then Fields.field k v (Fields.field j w fs)
    else Fields.field j w (insert_field k v fs)

unfoldable mutual
  pub canonical_value : Value → Value
  canonical_value (Value.array xs) = Value.array (canonical_items xs)
  canonical_value (Value.object fs) = Value.object (canonical_fields fs)
  canonical_value Value.null = Value.null
  canonical_value (Value.bool b) = Value.bool b
  canonical_value (Value.number n) = Value.number n
  canonical_value (Value.string s) = Value.string s

  pub canonical_items : Items → Items
  canonical_items Items.nil = Items.nil
  canonical_items (Items.cons x xs) = Items.cons (canonical_value x) (canonical_items xs)

  pub canonical_fields : Fields → Fields
  canonical_fields Fields.end = Fields.end
  canonical_fields (Fields.field k v fs) = insert_field k (canonical_value v) (canonical_fields fs)
