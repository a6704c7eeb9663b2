-- ===== src/Protocol/Limits/Exact.antt =====
-- The limits of a control message, said by recursion on the message.
use agent_db.Base.{
  ℕ, zero, suc, ◌+◌, ◌≤◌, ◌<◌, max, ◌≡◌, ◌↔◌, List, [], ◌∷◌, len, ltb, if◌then◌else◌, ◌^◌, ◌-◌, min,
  String, arith,
}
use agent_db.Json.{Value, Items, Fields}
use agent_db.Protocol.Limits.{
  FrameError, FrameResult, max_json_depth, max_json_values, max_collection_items, max_string_bytes,
  count_items, count_fields, push_items, push_values, push_children, validate_string,
  validate_collection_len, validate_keys, validate_value, ◌then◌, limits_loop, validate_json_limits,
}

abbrev mutual
  -- The number of values of a message, itself included.
  pub values : Value → ℕ
  values (Value.array xs) = suc (values_in xs)
  values (Value.object fs) = suc (values_under fs)
  values _ = 1

  values_in : Items → ℕ
  values_in Items.nil = 0
  values_in (Items.cons v xs) = values v + values_in xs

  values_under : Fields → ℕ
  values_under Fields.end = 0
  values_under (Fields.field k v fs) = values v + values_under fs

abbrev mutual
  -- The depth of the nesting, one for a value that holds no other.
  pub levels : Value → ℕ
  levels (Value.array xs) = suc (levels_in xs)
  levels (Value.object fs) = suc (levels_under fs)
  levels _ = 1

  levels_in : Items → ℕ
  levels_in Items.nil = 0
  levels_in (Items.cons v xs) = max (levels v) (levels_in xs)

  levels_under : Fields → ℕ
  levels_under Fields.end = 0
  levels_under (Fields.field k v fs) = max (levels v) (levels_under fs)

abbrev mutual
  -- Every text, key and collection of a message is within its own limit.
  pub Small : Value → Type 0
  Small (Value.string text) = len text ≤ max_string_bytes
  Small (Value.array xs) = (count_items xs ≤ max_collection_items) × SmallItems xs
  Small (Value.object fs) = (count_fields fs ≤ max_collection_items) × SmallFields fs
  Small _ = Unit {0}

  SmallItems : Items → Type 0
  SmallItems Items.nil = Unit {0}
  SmallItems (Items.cons v xs) = Small v × SmallItems xs

  SmallFields : Fields → Type 0
  SmallFields Fields.end = Unit {0}
  SmallFields (Fields.field k v fs) = (len k ≤ max_string_bytes) × Small v × SmallFields fs

abbrev Fitting : List (Value × ℕ) → Type 0
Fitting [] = Unit {0}
Fitting ((v, d) ∷ rest) = (d + levels v ≤ suc max_json_depth) × Small v × Fitting rest

abbrev total : List (Value × ℕ) → ℕ
total [] = 0
total ((v, d) ∷ rest) = values v + total rest

values-pos : (v : Value) → 0 < values v
values-pos (Value.array xs) = omega arith
values-pos (Value.object fs) = omega arith
values-pos Value.null = omega arith
values-pos (Value.bool b) = omega arith
values-pos (Value.number n) = omega arith
values-pos (Value.string s) = omega arith

levels-pos : (v : Value) → 0 < levels v
levels-pos (Value.array xs) = omega arith
levels-pos (Value.object fs) = omega arith
levels-pos Value.null = omega arith
levels-pos (Value.bool b) = omega arith
levels-pos (Value.number n) = omega arith
levels-pos (Value.string s) = omega arith

push_items-total :
    (xs : Items) (d : ℕ) (rest : List (Value × ℕ))
    → total (push_items xs d rest) ≡ values_in xs + total rest
push_items-total Items.nil d rest = omega arith
push_items-total (Items.cons v xs) d rest = omega (arith, push_items-total xs d rest)

push_values-total :
    (fs : Fields) (d : ℕ) (rest : List (Value × ℕ))
    → total (push_values fs d rest) ≡ values_under fs + total rest
push_values-total Fields.end d rest = omega arith
push_values-total (Fields.field k v fs) d rest = omega (arith, push_values-total fs d rest)

push_children-total :
    (v : Value) (d : ℕ) (rest : List (Value × ℕ))
    → suc (total (push_children v d rest)) ≡ values v + total rest
push_children-total (Value.array xs) d rest = omega (arith, push_items-total xs (d + 1) rest)
push_children-total (Value.object fs) d rest = omega (arith, push_values-total fs (d + 1) rest)
push_children-total Value.null d rest = omega arith
push_children-total (Value.bool b) d rest = omega arith
push_children-total (Value.number n) d rest = omega arith
push_children-total (Value.string s) d rest = omega arith

push_items-Fitting :
    (xs : Items) (d : ℕ) (rest : List (Value × ℕ))
    → d ≤ suc max_json_depth
    → Fitting (push_items xs d rest)
      ↔ ((d + levels_in xs ≤ suc max_json_depth) × SmallItems xs × Fitting rest)
push_items-Fitting Items.nil d rest h = ground arith
push_items-Fitting (Items.cons v xs) d rest h = ground (arith, push_items-Fitting xs d rest h)

then_iff :
    (r next : FrameResult (Unit {0}))
    → ((r then next) ≡ FrameResult.ok tt) ↔ ((r ≡ FrameResult.ok tt) × (next ≡ FrameResult.ok tt))
unfolding ◌then◌
then_iff (FrameResult.ok tt) next = ground arith
then_iff (FrameResult.err e) next = ground arith
then_iff FrameResult.out_of_fuel next = ground arith

validate_string_iff :
    (s : String) → (validate_string s ≡ FrameResult.ok tt) ↔ (len s ≤ max_string_bytes)
unfolding validate_string
validate_string_iff s = ground arith

validate_collection_len_iff :
    (n : ℕ) → (validate_collection_len n ≡ FrameResult.ok tt) ↔ (n ≤ max_collection_items)
unfolding validate_collection_len
validate_collection_len_iff n = ground arith

push_values-Fitting :
    (fs : Fields) (d : ℕ) (rest : List (Value × ℕ))
    → d ≤ suc max_json_depth
    → ((validate_keys fs ≡ FrameResult.ok tt) × Fitting (push_values fs d rest))
      ↔ ((d + levels_under fs ≤ suc max_json_depth) × SmallFields fs × Fitting rest)
unfolding validate_keys
push_values-Fitting Fields.end d rest h = ground arith
push_values-Fitting (Fields.field k v fs) d rest h = ground (
  arith,
  push_values-Fitting fs d rest h,
  then_iff (validate_keys fs) (validate_string k),
  validate_string_iff k,
)

push_children-Fitting :
    (v : Value) (d : ℕ) (rest : List (Value × ℕ))
    → d ≤ max_json_depth
    → ((validate_value v ≡ FrameResult.ok tt) × Fitting (push_children v d rest))
      ↔ Fitting ((v, d) ∷ rest)
unfolding validate_value
push_children-Fitting (Value.array xs) d rest h =
    ground (arith, push_items-Fitting xs (d + 1) rest, validate_collection_len_iff (count_items xs))
push_children-Fitting (Value.object fs) d rest h = ground (
  arith,
  push_values-Fitting fs (d + 1) rest,
  validate_collection_len_iff (count_fields fs),
  then_iff (validate_collection_len (count_fields fs)) (validate_keys fs),
)
push_children-Fitting Value.null d rest h = ground arith
push_children-Fitting (Value.bool b) d rest h = ground arith
push_children-Fitting (Value.number n) d rest h = ground arith
push_children-Fitting (Value.string s) d rest h = ground (arith, validate_string_iff s)

-- One round of the loop.
round_iff :
    (depth budget : ℕ) (r rest : FrameResult (Unit {0}))
    → ((if ltb max_json_depth depth
          then FrameResult.err (FrameError.json_depth max_json_depth)
          else if ltb max_json_values budget
          then FrameResult.err (FrameError.item_budget_exceeded max_json_values)
          else r then rest)
        ≡ FrameResult.ok tt)
      ↔ ((depth ≤ max_json_depth)
          × (budget ≤ max_json_values)
          × (r ≡ FrameResult.ok tt)
          × (rest ≡ FrameResult.ok tt))
round_iff depth budget r rest = ground (arith, then_iff r rest)

-- What a round leaves to the rest of the loop.
round_Fitting :
    (budget d : ℕ) (v : Value) (rest : List (Value × ℕ)) {P Q : Type 0}
    → (P ↔ (
        (d ≤ max_json_depth)
        × (budget + 1 ≤ max_json_values)
        × (validate_value v ≡ FrameResult.ok tt)
        × Q))
    → (budget + 1 ≤ max_json_values
        → Q ↔ (
            Fitting (push_children v d rest)
            × (budget + 1 + total (push_children v d rest) ≤ max_json_values)))
    → P ↔ (Fitting ((v, d) ∷ rest) × (budget + total ((v, d) ∷ rest) ≤ max_json_values))
round_Fitting budget d v rest opened later = (
  λ p.
      let (deep, within, local, q) = opened.0 p in
      let (fits, counted) = (later within).0 q in
      (
        (push_children-Fitting v d rest deep).0 (local, fits),
        omega (arith, push_children-total v d rest),
      ),
  λ (fits, counted).
      let deep : d ≤ max_json_depth = omega (arith, fits.0, levels-pos v) in
      let within : budget + 1 ≤ max_json_values = omega (arith, values-pos v) in
      let (local, fits') = (push_children-Fitting v d rest deep).1 fits in
      opened.1 (
        deep,
        within,
        local,
        (later within).1 (fits', omega (arith, push_children-total v d rest)),
      ),
)

limits_loop_iff :
    (fuel budget : ℕ) (stack : List (Value × ℕ))
    → budget ≤ max_json_values
    → max_json_values < budget + fuel
    → (limits_loop fuel budget stack ≡ FrameResult.ok tt)
      ↔ (Fitting stack × (budget + total stack ≤ max_json_values))
unfolding limits_loop
limits_loop_iff fuel budget [] b f = ground arith
limits_loop_iff zero budget ((v, d) ∷ rest) b f = absurd (omega arith)
limits_loop_iff (suc fuel) budget ((v, d) ∷ rest) b f =
    let counted : min (budget + 1) (2 ^ 64 - 1) ≡ budget + 1 = omega arith in
    let later = limits_loop fuel (budget + 1) (push_children v d rest) in
    rw counted (
      round_Fitting budget d v rest (round_iff d (budget + 1) (validate_value v) later)
        (λ within. limits_loop_iff fuel (budget + 1) (push_children v d rest) within (omega arith)))

-- `validate_json_limits` accepts exactly the values that nest at most 32 levels deep, hold at most
-- 10000 values in all, themselves included, and keep every text, key and collection within its own
-- limit.
pub validate_json_limits_iff :
    (v : Value)
    → (validate_json_limits v ≡ FrameResult.ok tt)
      ↔ ((levels v ≤ max_json_depth) × (values v ≤ max_json_values) × Small v)
unfolding validate_json_limits
validate_json_limits_iff v =
    let looped =
      limits_loop_iff (max_json_values + 1) 0 ((v, 1) ∷ []) (omega arith) (omega arith) in
    (
      λ p.
          let (fits, counted) = looped.0 p in
          (omega (arith, fits.0), omega (arith, counted), fits.1),
      λ (deep, counted, small). looped.1 ((omega (arith, deep), small, tt), omega (arith, counted)),
    )
