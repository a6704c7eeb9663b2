-- ===== src/Operations/Canonicalize.antt =====
-- src-tauri/src/operations/canonicalize.rs: canonical JSON and its SHA-256.
pub mod Laws
use Prim.Native.Char.{Char}
use agent_db.Base.{
  ℕ, zero, suc, ◌/◌, ◌%◌, Bool, true, false, ◌||◌, Option, some, none, List, [], ◌∷◌, String, ◌!=◌,
  text_eq, if◌then◌else◌,
}
use agent_db.Error.{AppError, serialization, config, Result, ok, err, ◌>>=◌, ◌>>◌, reject_if, ok_or}
use agent_db.Json.{Value}
use agent_db.Json.Canonical.{canonical_value}
use agent_db.Operations.Crates.{Crates}

-- The character at a place of `HEX`.
char_of : String → ℕ → Char → Char
char_of String.[] i d = d
char_of (String.◌∷◌ c s) zero d = c
char_of (String.◌∷◌ c s) (suc i) d = char_of s i d

abbrev hex_digit : ℕ → Char
hex_digit n = char_of "0123456789abcdef" n "0"

unfoldable pub lower_hex : List ℕ → String
unfolding char_of
lower_hex [] = ""
lower_hex (byte ∷ bytes) =
    String.◌∷◌ (hex_digit (byte / 16)) (String.◌∷◌ (hex_digit (byte % 16)) (lower_hex bytes))

pub record CanonicalJson : Type 0 where
  pub json : String
  pub sha256 : String

module _ (crates : Crates) where
  open crates use {to_string, from_str, digest}

  unfoldable pub from_value : Value → CanonicalJson
  from_value value =
      let json = to_string (canonical_value value) in
      record { json = json; sha256 = lower_hex (digest json) }

  unfoldable pub from_stored : String → String → Result CanonicalJson
  unfolding from_value
  from_stored json expected_sha256 = do
    value ← ok_or (from_str json) serialization
    let canonical = from_value value
    reject_if (canonical.json != json || canonical.sha256 != expected_sha256)
        (config "stored operation payload failed canonical integrity validation")
    ok canonical

  unfoldable pub into_value : CanonicalJson → Result Value
  into_value canonical = ok_or (from_str canonical.json) serialization

  unfoldable pub canonical_json : Value → String
  unfolding from_value
  canonical_json value = (from_value value).json

  unfoldable pub canonical_hash : Value → String
  unfolding from_value
  canonical_hash value = (from_value value).sha256
