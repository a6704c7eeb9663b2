-- ===== src/Protocol/Frame/Decoding.antt =====
-- What a frame is that the decoder accepts.
use agent_db.Base.{
  ℕ, ◌≤◌, ◌<◌, ◌≡◌, refl, ◌∙◌, List, [], ◌∷◌, length, Bool, true, false, not, Option, none, some,
  nat_beq, if◌then◌else◌, arith,
}
use agent_db.Json.{Value}
use agent_db.Protocol.Limits.{FrameError, FrameResult, ◌then◌, validate_json_limits}
use agent_db.Protocol.Frame.{
  Serde, SerdeJson, Parsed, ◌>>=◌, from_be_bytes, parse_frame_length, safe_json_error, typed,
  decode_frame,
}

pub then-ok {ℓ} :
    {A : Type ℓ} (r : FrameResult (Unit {0})) (next : FrameResult A) (a : A)
    → (r then next) ≡ FrameResult.ok a
    → (r ≡ FrameResult.ok tt) × (next ≡ FrameResult.ok a)
unfolding ◌then◌
then-ok (FrameResult.ok tt) next a h = (refl, h)
then-ok (FrameResult.err e) next a h = cc
then-ok FrameResult.out_of_fuel next a h = cc

pub bind-ok {ℓ κ} :
    {A : Type ℓ} {B : Type κ} (r : FrameResult A) (next : A → FrameResult B) (b : B)
    → (r >>= next) ≡ FrameResult.ok b
    → (a : A) × (r ≡ FrameResult.ok a) × (next a ≡ FrameResult.ok b)
bind-ok (FrameResult.ok a) next b h = (a, refl, h)
bind-ok (FrameResult.err e) next b h = cc
bind-ok FrameResult.out_of_fuel next b h = cc

pub if-ok {ℓ} :
    {A : Type ℓ} (test : Bool) (e : FrameError) (next : FrameResult A) (a : A)
    → (if test then FrameResult.err e else next) ≡ FrameResult.ok a
    → (test ≡ false) × (next ≡ FrameResult.ok a)
if-ok true e next a h = cc
if-ok false e next a h = (refl, h)

pub parsed-ok :
    (p : Parsed) (json : Value) → safe_json_error p ≡ FrameResult.ok json → p ≡ Parsed.parsed json
parsed-ok (Parsed.parsed v) json h = cc
parsed-ok (Parsed.malformed l c) json h = cc

parse_frame_length-ok :
    (a b c d maximum n : ℕ)
    → parse_frame_length a b c d maximum ≡ FrameResult.ok n
    → (from_be_bytes a b c d ≡ n) × (0 < n) × (n ≤ maximum)
unfolding parse_frame_length
parse_frame_length-ok a b c d maximum n h = ground arith

module _ {ℓ} {T : Type ℓ} (serde_json : SerdeJson) (serde : Serde T) where
  -- What the decoder has checked when it accepts a frame as a value.
  pub record Accepted (frame : List ℕ) (maximum : ℕ) (value : T) : Type ℓ where
    pub a : ℕ
    pub b : ℕ
    pub c : ℕ
    pub d : ℕ
    pub payload : List ℕ
    pub json : Value
    pub framed : frame ≡ a ∷ b ∷ c ∷ d ∷ payload
    pub counted : from_be_bytes a b c d ≡ length payload
    pub nonempty : 0 < length payload
    pub bounded : length payload ≤ maximum
    pub read : serde_json.from_slice payload ≡ Parsed.parsed json
    pub limited : validate_json_limits json ≡ FrameResult.ok tt
    pub typed_as : serde.from_value json ≡ some value

  typed-ok :
      (o : Option T) (value : T) → typed serde_json serde o ≡ FrameResult.ok value → o ≡ some value
  typed-ok none value h = cc
  typed-ok (some v) value h = cc

  -- The decoder accepts a frame only as a prefix that states the length of the payload after it, which
  -- is positive and at most the maximum, and a payload that serde_json reads as a value within the
  -- limits that `validate_json_limits` keeps and that has the type asked for.
  pub decode_frame-Accepted :
      (frame : List ℕ) (maximum : ℕ) (value : T)
      → decode_frame serde_json serde frame maximum ≡ FrameResult.ok value
      → Accepted frame maximum value
  unfolding decode_frame
  decode_frame-Accepted [] maximum value h = cc
  decode_frame-Accepted (a ∷ []) maximum value h = cc
  decode_frame-Accepted (a ∷ b ∷ []) maximum value h = cc
  decode_frame-Accepted (a ∷ b ∷ c ∷ []) maximum value h = cc
  decode_frame-Accepted (a ∷ b ∷ c ∷ d ∷ payload) maximum value h =
      let (declared, parsed, h1) = bind-ok (parse_frame_length a b c d maximum) _ value h in
      let (matches, h2) = if-ok (not (nat_beq declared (length payload))) _ _ value h1 in
      let (json, slice, h3) =
        bind-ok (safe_json_error (serde_json.from_slice payload)) _ value h2 in
      let (limited, h4) = then-ok (validate_json_limits json) _ value h3 in
      let (states, positive, below) = parse_frame_length-ok a b c d maximum declared parsed in
      let same : declared ≡ length payload = ground (arith, matches) in
      record {
        a = a;
        b = b;
        c = c;
        d = d;
        payload = payload;
        json = json;
        framed = refl;
        counted = states ∙ same;
        nonempty = omega arith;
        bounded = omega arith;
        read = parsed-ok (serde_json.from_slice payload) json slice;
        limited = limited;
        typed_as = typed-ok (serde.from_value json) value h4;
      }
