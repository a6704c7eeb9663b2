-- ===== src/Protocol/Examples.antt =====
-- Concrete runs of the frames, on the message `null` written in two buffers, and of a selector.
use agent_db.Base.{
  zero, suc, ap, String, ℕ, ◌+◌, ◌-◌, ◌≤◌, ◌≡◌, ◌≢◌, ◌↔◌, ◌^◌, min, refl, List, [], ◌∷◌, none, some,
  arith,
}
use agent_db.Json.{Value, Items, Fields}
use agent_db.Protocol.Selector.{
  UuidText, ConnectionSelector, SelectorResult, Nameable, from_str, to_string, from_str-to_string,
}
use agent_db.Protocol.Limits.{
  FrameError, FrameResult, validate_json_limits, max_json_depth, max_json_values, limits_loop,
  validate_value, ◌then◌,
}
use agent_db.Protocol.Limits.Exact.{levels, values, Small, validate_json_limits_iff}
use agent_db.Protocol.Limits.Ending.{validate_json_limits-Answered}
use agent_db.Protocol.Frame.{
  Serde, SerdeJson, Parsed, encode_frame, decode_frame, encode_written, frame_payload, to_writer,
  write, parse_frame_length,
}
use agent_db.Protocol.Frame.Decoding.{Accepted, decode_frame-Accepted}
use agent_db.Protocol.Frame.RoundTrip.{encode_frame-overflow, decode_frame-encode_frame}

abbrev message : Value
message = Value.array (
    Items.cons (Value.string "a")
      (Items.cons (Value.object (Fields.field "k" Value.null Fields.end)) Items.nil))

validate_json_limits_iff_example :
    (validate_json_limits message ≡ FrameResult.ok tt)
    ↔ ((levels message ≤ max_json_depth) × (values message ≤ max_json_values) × Small message)
validate_json_limits_iff_example = validate_json_limits_iff message

validate_json_limits-Answered_example : validate_json_limits message ≢ FrameResult.out_of_fuel
validate_json_limits-Answered_example = validate_json_limits-Answered message

message_counts : (levels message ≡ 3) × (values message ≡ 4)
message_counts = (refl, refl)

abbrev json_null : SerdeJson
json_null = record { from_slice = λ _. Parsed.parsed Value.null }

abbrev null_serde : Serde Value
null_serde = record {
  chunks = λ _. (110 ∷ 117 ∷ []) ∷ (108 ∷ 108 ∷ []) ∷ [];
  failure = λ _. none;
  from_value = some;
  validate_before_encode = validate_json_limits;
}

abbrev null_frame : List ℕ
null_frame = 0 ∷ 0 ∷ 0 ∷ 4 ∷ 110 ∷ 117 ∷ 108 ∷ 108 ∷ []

null_limited : validate_json_limits Value.null ≡ FrameResult.ok tt
null_limited = (validate_json_limits_iff Value.null).1 (omega arith, omega arith, tt)

null_written : encode_frame json_null null_serde Value.null 64 ≡ FrameResult.ok null_frame
unfolding encode_frame encode_written frame_payload to_writer write validate_json_limits limits_loop
    validate_value ◌then◌
null_written = refl

null_read : decode_frame json_null null_serde null_frame 64 ≡ FrameResult.ok Value.null
unfolding decode_frame parse_frame_length ◌then◌
null_read = rw null_limited refl

encode_frame-overflow_example :
    encode_frame json_null null_serde Value.null 3
    ≡ FrameResult.err (FrameError.payload_too_large (min 3 (2 ^ 32 - 1) + 1) (min 3 (2 ^ 32 - 1)))
encode_frame-overflow_example =
    encode_frame-overflow json_null null_serde Value.null 3 null_limited (omega arith)

decode_frame-encode_frame_example :
    decode_frame json_null null_serde null_frame 64 ≡ FrameResult.ok Value.null
decode_frame-encode_frame_example =
    decode_frame-encode_frame json_null null_serde Value.null 64 null_frame (λ json h. cc h)
      null_written

decode_frame-Accepted_example : Accepted json_null null_serde null_frame 64 Value.null
decode_frame-Accepted_example =
    decode_frame-Accepted json_null null_serde null_frame 64 Value.null null_read

-- Ids written in unary.
unfoldable unary : ℕ → String
unary zero = ""
unary (suc n) = String.◌∷◌ "a" (unary n)

unfoldable of_unary : String → ℕ
of_unary String.[] = 0
of_unary (String.◌∷◌ _ s) = suc (of_unary s)

of_unary_lem : (n : ℕ) → of_unary (unary n) ≡ n
unfolding of_unary unary
of_unary_lem zero = refl
of_unary_lem (suc n) = ap suc (of_unary_lem n)

abbrev unary_ids : UuidText
unary_ids = record { parse_str = λ s. some (of_unary s); to_text = unary }

from_str-to_string_example :
    (from_str unary_ids (to_string unary_ids (ConnectionSelector.name "prod"))
      ≡ SelectorResult.ok (ConnectionSelector.name "prod"))
    ↔ Nameable (ConnectionSelector.name "prod")
from_str-to_string_example =
    from_str-to_string unary_ids (λ u. ap some (of_unary_lem u)) (ConnectionSelector.name "prod")
