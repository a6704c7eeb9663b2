-- ===== src/Protocol/Frame/RoundTrip.antt =====
-- What the encoder has written, and what the decoder makes of it.
use agent_db.Base.{
  ==_self, nat_eq, ℕ, ◌+◌, ◌-◌, ◌/◌, ◌%◌, ◌^◌, ◌≤◌, ◌<◌, min, ◌≡◌, refl, inl, inr, List, [], ◌∷◌,
  ◌++◌, length, false, Option, none, some, ltb, Bool-cases, arith, ltb→lt,
}
use agent_db.Json.{Value}
use agent_db.Protocol.Limits.{FrameError, FrameResult, ◌then◌, validate_json_limits}
use agent_db.Protocol.Frame.{
  BoundedWriter, Serde, SerdeJson, Parsed, to_be_bytes, from_be_bytes, parse_frame_length, new,
  is_empty, frame_payload, encode_written, safe_json_error, encode_frame, decode_frame,
}
use agent_db.Protocol.Frame.Writer.{concat, to_writer_fits, to_writer_overflows}
use agent_db.Protocol.Frame.Decoding.{then-ok, bind-ok, if-ok, parsed-ok}

from_be_bytes-to_be_bytes :
    (n : ℕ)
    → n < 2 ^ 32
    → from_be_bytes (n / 2 ^ 24 % 256) (n / 2 ^ 16 % 256) (n / 2 ^ 8 % 256) (n % 256) ≡ n
from_be_bytes-to_be_bytes n h = omega arith

parse_frame_length-fits :
    (a b c d maximum n : ℕ)
    → from_be_bytes a b c d ≡ n
    → 0 < n
    → n ≤ maximum
    → parse_frame_length a b c d maximum ≡ FrameResult.ok n
unfolding parse_frame_length
parse_frame_length-fits a b c d maximum n e h k = ground arith

nonempty_pos : (payload : List ℕ) → is_empty payload ≡ false → 0 < length payload
nonempty_pos [] h = cc
nonempty_pos (x ∷ payload) h = omega arith

module _ (serde_json : SerdeJson) where
  frame_payload-ok :
      (maximum : ℕ) (payload frame : List ℕ)
      → frame_payload serde_json maximum payload ≡ FrameResult.ok frame
      → (0 < length payload)
        × (length payload ≤ maximum)
        × (frame ≡ to_be_bytes (length payload % 2 ^ 32) ++ payload)
        × (json : Value) × (serde_json.from_slice payload ≡ Parsed.parsed json)
        × (validate_json_limits json ≡ FrameResult.ok tt)
  unfolding frame_payload
  frame_payload-ok maximum payload frame h =
      let (some_bytes, h1) = if-ok (is_empty payload) _ _ frame h in
      let (json, slice, h2) =
        bind-ok (safe_json_error (serde_json.from_slice payload)) _ frame h1 in
      let (limited, h3) = then-ok (validate_json_limits json) _ frame h2 in
      let (below, built) = if-ok (ltb maximum (length payload)) _ _ frame h3 in
      (
        nonempty_pos payload some_bytes,
        ground (arith, below),
        cc built,
        json,
        parsed-ok (serde_json.from_slice payload) json slice,
        limited,
      )

  encode_written-ok :
      (maximum : ℕ) (writer : BoundedWriter) (failure : Option (ℕ × ℕ)) (frame : List ℕ)
      → encode_written serde_json maximum (writer, failure) ≡ FrameResult.ok frame
      → frame_payload serde_json maximum writer.bytes ≡ FrameResult.ok frame
  unfolding encode_written
  encode_written-ok maximum writer none frame h = h
  encode_written-ok maximum writer (some (line, column)) frame h =
      absurd (elim (Bool-cases writer.overflowed) [
        | inl over ↦ cc (rw over at h)
        | inr apart ↦ cc (rw apart at h)
      ])

  module _ {ℓ} {T : Type ℓ} (serde : Serde T) where
    -- A value whose serialized text is longer than the frame may hold is refused with the length one
    -- past the maximum, once it passes the check before it is serialized. The maximum is at most 2^32 - 1.
    pub encode_frame-overflow :
        (value : T) (maximum : ℕ)
        → serde.validate_before_encode value ≡ FrameResult.ok tt
        → min maximum (2 ^ 32 - 1) < length (concat (serde.chunks value))
        → encode_frame serde_json serde value maximum
          ≡ FrameResult.err (
              FrameError.payload_too_large
                (min maximum (2 ^ 32 - 1) + 1)
                (min maximum (2 ^ 32 - 1)))
    unfolding encode_frame encode_written ◌then◌
    encode_frame-overflow value maximum ready long =
        let m = min maximum (2 ^ 32 - 1) in
        let (full, ran, over, filled) =
          to_writer_overflows (serde.chunks value) (serde.failure value) (new m) (omega arith)
            (omega (arith, long)) in
        let bound : min (m + 1) (2 ^ 64 - 1) ≡ m + 1 = omega arith in
        rw (ready, ran, over, bound) refl

    -- What a frame is that the encoder has written.
    encode_frame-ok :
        (value : T) (maximum : ℕ) (frame : List ℕ)
        → encode_frame serde_json serde value maximum ≡ FrameResult.ok frame
        → frame_payload serde_json (min maximum (2 ^ 32 - 1)) (concat (serde.chunks value))
          ≡ FrameResult.ok frame
    unfolding encode_frame encode_written
    encode_frame-ok value maximum frame h =
        let m = min maximum (2 ^ 32 - 1) in
        let (ready, later) = then-ok (serde.validate_before_encode value) _ frame h in
        elim (Bool-cases (ltb m (length (concat (serde.chunks value))))) [
          | inl long ↦
              let refused = encode_frame-overflow value maximum ready (ltb→lt _ _ long) in
              absurd (cc (h, refused))
          | inr fits ↦
              let bounded : length (concat (serde.chunks value)) ≤ m = ground (arith, fits) in
              encode_written-ok m
                (record { bytes = concat (serde.chunks value); maximum = m; overflowed = false })
                (serde.failure value) frame
                (rw
                  (to_writer_fits (serde.chunks value) (serde.failure value) (new m) (omega arith))
                  at later)
        ]

    -- Where serde_json reads a value back from its own text as that value: what the decoder makes of
    -- a frame that the encoder has written, under the same maximum, is the value that was encoded.
    pub decode_frame-encode_frame :
        (value : T) (maximum : ℕ) (frame : List ℕ)
        → ((json : Value)
            → serde_json.from_slice (concat (serde.chunks value)) ≡ Parsed.parsed json
            → serde.from_value json ≡ some value)
        → encode_frame serde_json serde value maximum ≡ FrameResult.ok frame
        → decode_frame serde_json serde frame maximum ≡ FrameResult.ok value
    unfolding decode_frame ◌then◌
    decode_frame-encode_frame value maximum frame honest h =
        let payload = concat (serde.chunks value) in
        let (positive, bounded, built, json, slice, limited) =
          frame_payload-ok (min maximum (2 ^ 32 - 1)) payload frame
            (encode_frame-ok value maximum frame h) in
        let whole : length payload % 2 ^ 32 ≡ length payload = omega arith in
        let counted =
          parse_frame_length-fits _ _ _ _ maximum (length payload)
            (from_be_bytes-to_be_bytes (length payload) (omega arith)) positive (omega arith) in
        rw (built, whole, counted, ==_self (length payload), slice, limited, honest json slice) refl
