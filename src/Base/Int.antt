-- ===== src/Base/Int.antt =====
-- Rust's `i64` by its value, and its `to_string`.
use Prim.Native.Nat.{ℕ, suc}
use Prim.Native.String.{String, ◌++◌}
use agent_db.Base.Decimal.{decimal}

pub data ℤ : Type 0 where
  pos negsuc : ℕ → ℤ

unfoldable pub int_text : ℤ → String
int_text (ℤ.pos n) = decimal n
int_text (ℤ.negsuc n) = "-" ++ decimal (suc n)
