-- ===== src/Protocol/Frame.antt =====
-- dopedb-protocol/src/frame.rs: length-prefixed frames. Bytes are numbers; lengths are those of a
-- 64-bit `usize`. serde_json is a parameter.
pub mod Writer
pub mod Decoding
pub mod RoundTrip
use agent_db.Base.{
  ℕ, ◌+◌, ◌*◌, ◌^◌, ◌-◌, ◌/◌, ◌%◌, min, List, [], ◌∷◌, ◌++◌, take, length, String, Bool, true,
  false, Option, none, some, ltb, nat_beq, not, if◌then◌else◌,
}
use agent_db.Json.{Value}
use agent_db.Protocol.Limits.{
  FrameError, FrameResult, ◌then◌, validate_string, validate_json_limits,
}

-- What serde_json does with a message type: the buffers that the serializer hands to the writer, one
-- after the other, the place of an error of its own after them, and the typed decoding.
pub record Serde {ℓ} (T : Type ℓ) : Type ℓ where
  pub chunks : T → List (List ℕ)
  pub failure : T → Option (ℕ × ℕ)
  pub from_value : Value → Option T
  pub validate_before_encode : T → FrameResult (Unit {0})

-- serde_json's reader of bytes: a value, or the line and the column of its error.
pub data Parsed : Type 0 where
  parsed : Value → Parsed
  malformed : (line column : ℕ) → Parsed

pub record SerdeJson : Type 0 where
  pub from_slice : List ℕ → Parsed

-- `?` on a result.
infixl 5 ◌>>=◌
abbrev pub ◌>>=◌ {ℓ κ} :
    {A : Type ℓ} {B : Type κ} → FrameResult A → (A → FrameResult B) → FrameResult B
result >>= next = elim result [
  | FrameResult.ok a ↦ next a
  | FrameResult.err e ↦ FrameResult.err e
  | FrameResult.out_of_fuel ↦ FrameResult.out_of_fuel
]

abbrev pub to_be_bytes : ℕ → List ℕ
to_be_bytes n = n / 2 ^ 24 % 256 ∷ n / 2 ^ 16 % 256 ∷ n / 2 ^ 8 % 256 ∷ n % 256 ∷ []

abbrev pub from_be_bytes : (a b c d : ℕ) → ℕ
from_be_bytes a b c d = a * 2 ^ 24 + b * 2 ^ 16 + c * 2 ^ 8 + d

-- `parse_frame_length` on a prefix of four bytes.
unfoldable pub parse_frame_length : (a b c d maximum : ℕ) → FrameResult ℕ
parse_frame_length a b c d maximum =
    let declared = from_be_bytes a b c d in
    if nat_beq declared 0
    then FrameResult.err FrameError.empty_payload
    else if ltb maximum declared
    then FrameResult.err (FrameError.payload_too_large declared maximum)
    else FrameResult.ok declared

pub record BoundedWriter : Type 0 where
  pub bytes : List ℕ
  pub maximum : ℕ
  pub overflowed : Bool

abbrev pub new : ℕ → BoundedWriter
new maximum = record { bytes = []; maximum = maximum; overflowed = false }

-- `write`: the writer after the call, and whether the call succeeds.
unfoldable pub write : List ℕ → BoundedWriter → BoundedWriter × Bool
write buffer writer =
    let remaining = writer.maximum - length writer.bytes in
    if ltb remaining (length buffer)
    then (record writer { bytes = writer.bytes ++ take remaining buffer; overflowed = true }, false)
    else (record writer { bytes = writer.bytes ++ buffer }, true)

-- `serde_json::to_writer`: it ends at the first write that fails, with an error at line and column 0.
unfoldable pub to_writer :
    List (List ℕ) → Option (ℕ × ℕ) → BoundedWriter → BoundedWriter × Option (ℕ × ℕ)
to_writer [] failure writer = (writer, failure)
to_writer (buffer ∷ buffers) failure writer =
    let (written, success) = write buffer writer in
    let rest = to_writer buffers failure written in if success then rest else (written, some (0, 0))

abbrev pub safe_json_error : Parsed → FrameResult Value
safe_json_error (Parsed.parsed json) = FrameResult.ok json
safe_json_error (Parsed.malformed line column) =
    FrameResult.err (FrameError.invalid_json line column)

abbrev pub is_empty : List ℕ → Bool
is_empty [] = true
is_empty (_ ∷ _) = false

module _ (serde_json : SerdeJson) where
  -- The frame of a payload that the writer took whole.
  unfoldable pub frame_payload : (maximum : ℕ) (payload : List ℕ) → FrameResult (List ℕ)
  frame_payload maximum payload =
      if is_empty payload
      then FrameResult.err FrameError.empty_payload
      else safe_json_error (serde_json.from_slice payload) >>= λ json.
          validate_json_limits json
          then (if ltb maximum (length payload)
              then FrameResult.err (FrameError.payload_too_large (length payload) maximum)
              else FrameResult.ok (to_be_bytes (length payload % 2 ^ 32) ++ payload))

  -- What follows the serializer.
  unfoldable pub encode_written :
      (maximum : ℕ) → BoundedWriter × Option (ℕ × ℕ) → FrameResult (List ℕ)
  encode_written maximum (writer, none) = frame_payload maximum writer.bytes
  encode_written maximum (writer, some (line, column)) =
      if writer.overflowed
      then FrameResult.err (FrameError.payload_too_large (min (maximum + 1) (2 ^ 64 - 1)) maximum)
      else FrameResult.err (FrameError.invalid_json line column)

  module _ {ℓ} {T : Type ℓ} (serde : Serde T) where
    unfoldable pub encode_frame : T → (maximum : ℕ) → FrameResult (List ℕ)
    encode_frame value maximum =
        let maximum = min maximum (2 ^ 32 - 1) in
        serde.validate_before_encode value
        then encode_written maximum
            (to_writer (serde.chunks value) (serde.failure value) (new maximum))

    abbrev pub typed : Option T → FrameResult T
    typed none = FrameResult.err FrameError.invalid_schema
    typed (some value) = FrameResult.ok value

    -- A prefix is there where a frame has four bytes.
    unfoldable pub decode_frame : List ℕ → (maximum : ℕ) → FrameResult T
    decode_frame (a ∷ b ∷ c ∷ d ∷ payload) maximum =
        parse_frame_length a b c d maximum >>= λ declared.
        if not (nat_beq declared (length payload))
        then FrameResult.err (FrameError.length_mismatch declared (length payload))
        else safe_json_error (serde_json.from_slice payload) >>= λ json.
            validate_json_limits json then typed (serde.from_value json)
    decode_frame _ maximum = FrameResult.err FrameError.missing_length_prefix

-- `validate_before_encode` of a request: its arguments, and the token of its authentication.
unfoldable pub validate_request :
    (arguments : Value) (token : Option String) → FrameResult (Unit {0})
validate_request arguments none = validate_json_limits arguments
validate_request arguments (some token) = validate_json_limits arguments then validate_string token

-- That of a response: its result and the message of its error, where it has them.
abbrev validate_result : Option Value → FrameResult (Unit {0})
validate_result none = FrameResult.ok tt
validate_result (some result) = validate_json_limits result

abbrev validate_error : Option String → FrameResult (Unit {0})
validate_error none = FrameResult.ok tt
validate_error (some message) = validate_string message

unfoldable pub validate_response :
    (result : Option Value) (message : Option String) → FrameResult (Unit {0})
validate_response result message = validate_result result then validate_error message
