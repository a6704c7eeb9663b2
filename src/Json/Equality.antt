-- ===== src/Json/Equality.antt =====
-- Rust's `==` on serde_json's values: objects are maps, so their order does not count.
use agent_db.Base.{ℕ, ◌^◌, ◌||◌, Bool, true, false, ◌&&◌, ◌==◌, nat_eq, text_eq}
use agent_db.Json.{Number, Value, Items, Fields}
use agent_db.Json.Canonical.{canonical_value}

abbrev bool_beq : Bool → Bool → Bool
bool_beq true true = true
bool_beq false false = true
bool_beq _ _ = false

-- The bits of the two zeros: f64's `==` holds between them, and otherwise between equal bits.
abbrev is_zero : ℕ → Bool
is_zero n = n == 0 || n == 2 ^ 63

abbrev number_beq : Number → Number → Bool
number_beq (Number.pos_int n) (Number.pos_int m) = n == m
number_beq (Number.neg_int n) (Number.neg_int m) = n == m
number_beq (Number.float n) (Number.float m) = n == m || (is_zero n && is_zero m)
number_beq _ _ = false

unfoldable mutual
  pub same_value : Value → Value → Bool
  same_value Value.null Value.null = true
  same_value (Value.bool a) (Value.bool b) = bool_beq a b
  same_value (Value.number a) (Value.number b) = number_beq a b
  same_value (Value.string a) (Value.string b) = a == b
  same_value (Value.array xs) (Value.array ys) = same_items xs ys
  same_value (Value.object fs) (Value.object gs) = same_fields fs gs
  same_value _ _ = false

  pub same_items : Items → Items → Bool
  same_items Items.nil Items.nil = true
  same_items (Items.cons x xs) (Items.cons y ys) = same_value x y && same_items xs ys
  same_items _ _ = false

  pub same_fields : Fields → Fields → Bool
  same_fields Fields.end Fields.end = true
  same_fields (Fields.field k v fs) (Fields.field j w gs) =
      k == j && same_value v w && same_fields fs gs
  same_fields _ _ = false

unfoldable pub value_beq : Value → Value → Bool
value_beq v w = same_value (canonical_value v) (canonical_value w)
