-- ===== src/Json.antt =====
-- serde_json's `Value`: an object is the list of its entries in iteration order.
pub mod TextOrder
pub mod Canonical
pub mod Equality
use agent_db.Base.{ℕ, Bool, String}

-- serde_json's `Number`: a `u64`, a negative `i64` by its distance below zero, or the bits of a
-- finite `f64`.
pub data Number : Type 0 where
  pos_int neg_int float : ℕ → Number

mutual
  pub data Value : Type 0 where
    null : Value
    bool : Bool → Value
    number : Number → Value
    string : String → Value
    array : Items → Value
    object : Fields → Value

  pub data Fields : Type 0 where
    end : Fields
    field : String → Value → Fields → Fields

  pub data Items : Type 0 where
    nil : Items
    cons : Value → Items → Items
