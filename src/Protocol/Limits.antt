-- ===== src/Protocol/Limits.antt =====
-- dopedb-protocol/src/frame.rs: the structural limits of a control message. The worklist of
-- `validate_json_limits` is a stack, its top first.
pub mod Exact
pub mod Ending
use agent_db.Base.{
  ℕ, zero, suc, ◌+◌, ◌*◌, ◌^◌, ◌-◌, min, List, [], ◌∷◌, ◌++◌, String, len, ltb, if◌then◌else◌,
}
use agent_db.Json.{Value, Items, Fields}

pub data FrameError : Type 0 where
  missing_length_prefix empty_payload : FrameError
  payload_too_large : (actual maximum : ℕ) → FrameError
  length_mismatch : (declared actual : ℕ) → FrameError
  json_depth : (maximum : ℕ) → FrameError
  collection_too_large : (actual maximum : ℕ) → FrameError
  item_budget_exceeded : (maximum : ℕ) → FrameError
  string_too_large : (actual maximum : ℕ) → FrameError
  invalid_json : (line column : ℕ) → FrameError
  invalid_schema : FrameError

-- `out_of_fuel` is no answer of the source.
pub data FrameResult {ℓ} (A : Type ℓ) : Type ℓ where
  ok : A → FrameResult A
  err : FrameError → FrameResult A
  out_of_fuel : FrameResult A

abbrev pub max_json_depth : ℕ
max_json_depth = 32

abbrev pub max_collection_items : ℕ
max_collection_items = 10000

abbrev pub max_json_values : ℕ
max_json_values = 10000

abbrev pub max_string_bytes : ℕ
max_string_bytes = 256 * 1024

infixl 5 ◌then◌
unfoldable pub ◌then◌ {ℓ} : {A : Type ℓ} → FrameResult (Unit {0}) → FrameResult A → FrameResult A
FrameResult.ok _ then next = next
FrameResult.err e then next = FrameResult.err e
FrameResult.out_of_fuel then next = FrameResult.out_of_fuel

unfoldable pub validate_collection_len : ℕ → FrameResult (Unit {0})
validate_collection_len actual =
    if ltb max_collection_items actual
    then FrameResult.err (FrameError.collection_too_large actual max_collection_items)
    else FrameResult.ok tt

unfoldable pub validate_string : String → FrameResult (Unit {0})
validate_string value =
    if ltb max_string_bytes (len value)
    then FrameResult.err (FrameError.string_too_large (len value) max_string_bytes)
    else FrameResult.ok tt

abbrev pub count_items : Items → ℕ
count_items Items.nil = 0
count_items (Items.cons v xs) = suc (count_items xs)

abbrev pub count_fields : Fields → ℕ
count_fields Fields.end = 0
count_fields (Fields.field k v fs) = suc (count_fields fs)

-- The elements of an array, at one depth, on top of a stack.
abbrev pub push_items : Items → ℕ → List (Value × ℕ) → List (Value × ℕ)
push_items Items.nil depth pending = pending
push_items (Items.cons v xs) depth pending = (v, depth) ∷ push_items xs depth pending

abbrev pub push_values : Fields → ℕ → List (Value × ℕ) → List (Value × ℕ)
push_values Fields.end depth pending = pending
push_values (Fields.field k v fs) depth pending = (v, depth) ∷ push_values fs depth pending

-- The keys of an object, the last one first.
unfoldable pub validate_keys : Fields → FrameResult (Unit {0})
validate_keys Fields.end = FrameResult.ok tt
validate_keys (Fields.field k v fs) = validate_keys fs then validate_string k

-- What one round asks of a value, and the stack that it leaves.
unfoldable pub validate_value : Value → FrameResult (Unit {0})
validate_value (Value.string text) = validate_string text
validate_value (Value.array xs) = validate_collection_len (count_items xs)
validate_value (Value.object fs) = validate_collection_len (count_fields fs) then validate_keys fs
validate_value _ = FrameResult.ok tt

abbrev pub push_children : Value → ℕ → List (Value × ℕ) → List (Value × ℕ)
push_children (Value.array xs) depth pending = push_items xs (depth + 1) pending
push_children (Value.object fs) depth pending = push_values fs (depth + 1) pending
push_children _ depth pending = pending

unfoldable pub limits_loop : ℕ → ℕ → List (Value × ℕ) → FrameResult (Unit {0})
limits_loop fuel item_budget [] = FrameResult.ok tt
limits_loop zero item_budget (_ ∷ _) = FrameResult.out_of_fuel
limits_loop (suc fuel) item_budget ((value, depth) ∷ pending) =
    let budget = min (item_budget + 1) (2 ^ 64 - 1) in
    let rest = limits_loop fuel budget (push_children value depth pending) in
    if ltb max_json_depth depth
    then FrameResult.err (FrameError.json_depth max_json_depth)
    else if ltb max_json_values budget
    then FrameResult.err (FrameError.item_budget_exceeded max_json_values)
    else validate_value value then rest

-- The budget ends the loop after one round more than the values that it allows.
unfoldable pub validate_json_limits : Value → FrameResult (Unit {0})
unfolding limits_loop
validate_json_limits value = limits_loop (max_json_values + 1) 0 ((value, 1) ∷ [])
