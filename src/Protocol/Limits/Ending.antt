-- ===== src/Protocol/Limits/Ending.antt =====
-- `validate_json_limits` ends: its budget bounds the number of its rounds.
use agent_db.Base.{
  ℕ, zero, suc, ◌+◌, ◌≤◌, ◌<◌, ◌≡◌, ◌≢◌, inl, inr, List, [], ◌∷◌, len, ltb, if◌then◌else◌, ◌^◌, ◌-◌,
  min, String, Bool, true, false, Bool-cases, arith,
}
use agent_db.Json.{Value, Fields}
use agent_db.Protocol.Limits.{
  FrameError, FrameResult, max_json_depth, max_json_values, max_collection_items, max_string_bytes,
  count_items, count_fields, push_children, validate_string, validate_collection_len, validate_keys,
  validate_value, ◌then◌, limits_loop, validate_json_limits,
}

abbrev Answered : FrameResult (Unit {0}) → Type 0
Answered r = r ≢ FrameResult.out_of_fuel

then-Answered :
    (r next : FrameResult (Unit {0})) → Answered r → Answered next → Answered (r then next)
unfolding ◌then◌
then-Answered (FrameResult.ok tt) next h k = k
then-Answered (FrameResult.err e) next h k = λ same. cc
then-Answered FrameResult.out_of_fuel next h k = h

if-Answered :
    (b : Bool) (r next : FrameResult (Unit {0}))
    → Answered r
    → Answered next
    → Answered (if b then r else next)
if-Answered true r next h k = h
if-Answered false r next h k = k

err-Answered : (e : FrameError) → Answered (FrameResult.err e)
err-Answered e same = cc

validate_string-Answered : (s : String) → Answered (validate_string s)
unfolding validate_string
validate_string-Answered s =
    if-Answered (ltb max_string_bytes (len s)) _ _ (err-Answered _) (λ same. cc)

validate_collection_len-Answered : (n : ℕ) → Answered (validate_collection_len n)
unfolding validate_collection_len
validate_collection_len-Answered n =
    if-Answered (ltb max_collection_items n) _ _ (err-Answered _) (λ same. cc)

validate_keys-Answered : (fs : Fields) → Answered (validate_keys fs)
unfolding validate_keys
validate_keys-Answered Fields.end = λ same. cc
validate_keys-Answered (Fields.field k v fs) =
    then-Answered (validate_keys fs) (validate_string k) (validate_keys-Answered fs)
      (validate_string-Answered k)

validate_value-Answered : (v : Value) → Answered (validate_value v)
unfolding validate_value
validate_value-Answered (Value.array xs) = validate_collection_len-Answered (count_items xs)
validate_value-Answered (Value.object fs) =
    then-Answered (validate_collection_len (count_fields fs)) (validate_keys fs)
      (validate_collection_len-Answered (count_fields fs)) (validate_keys-Answered fs)
validate_value-Answered Value.null = λ same. cc
validate_value-Answered (Value.bool b) = λ same. cc
validate_value-Answered (Value.number n) = λ same. cc
validate_value-Answered (Value.string s) = validate_string-Answered s

limits_loop-Answered :
    (fuel budget : ℕ) (stack : List (Value × ℕ))
    → budget ≤ max_json_values
    → max_json_values < budget + fuel
    → Answered (limits_loop fuel budget stack)
unfolding limits_loop
limits_loop-Answered fuel budget [] b f = λ same. cc
limits_loop-Answered zero budget ((v, d) ∷ rest) b f = absurd (omega arith)
limits_loop-Answered (suc fuel) budget ((v, d) ∷ rest) b f =
    let counted : min (budget + 1) (2 ^ 64 - 1) ≡ budget + 1 = omega arith in
    rw counted (
      if-Answered (ltb max_json_depth d) _ _ (err-Answered _)
        (elim (Bool-cases (ltb max_json_values (budget + 1))) [
          | inl over ↦ rw over (err-Answered _)
          | inr within ↦ rw within (
              then-Answered (validate_value v) _ (validate_value-Answered v) (
                limits_loop-Answered fuel (budget + 1) (push_children v d rest)
                  (ground (arith, within)) (omega arith)))
        ]))

-- `validate_json_limits` ends on every value: the fuel that bounds its loop is never used up.
pub validate_json_limits-Answered : (v : Value) → validate_json_limits v ≢ FrameResult.out_of_fuel
unfolding validate_json_limits
validate_json_limits-Answered v =
    limits_loop-Answered (max_json_values + 1) 0 ((v, 1) ∷ []) (omega arith) (omega arith)
