-- ===== src/Operations/Canonicalize/Laws.antt =====
-- Canonical JSON under reordered entries, and the stored form with its integrity check.
use agent_db.Base.{◌≡◌, String, some, arith, text_eq, ==_self, eq_of_!=, Option-cases, inl, inr}
use agent_db.Error.{ok}
use agent_db.Json.{Value}
use agent_db.Json.Canonical.{canonical_value}
use agent_db.Json.Canonical.Laws.{Reordered, canonical_value-Reordered, canonical_value-idempotent}
use agent_db.Operations.Crates.{Crates}
use agent_db.Operations.Canonicalize.{CanonicalJson, from_value, from_stored, into_value}

module _ (crates : Crates) where
  -- Payloads that differ only in the order of object entries have one stored text and one hash.
  pub from_value-Reordered :
      {v w : Value} → Reordered v w → from_value crates v ≡ from_value crates w
  unfolding from_value
  from_value-Reordered r = rw (canonical_value-Reordered r)

  -- serde_json reads back what it printed of a canonical value.
  abbrev pub ReadsBack : Value → Type 0
  ReadsBack v = crates.from_str (crates.to_string (canonical_value v)) ≡ some (canonical_value v)

  from_value-canonical : (v : Value) → from_value crates (canonical_value v) ≡ from_value crates v
  unfolding from_value
  from_value-canonical v = rw (canonical_value-idempotent v)

  reads_json :
      (v : Value)
      → ReadsBack v
      → crates.from_str (from_value crates v).json ≡ some (canonical_value v)
  unfolding from_value
  reads_json v h = h

  -- Where serde_json reads back the canonical value that it printed, the stored form of a payload
  -- passes its integrity check, and yields the canonical payload.
  pub from_stored-from_value :
      (v : Value)
      → ReadsBack v
      → (from_stored crates (from_value crates v).json (from_value crates v).sha256
          ≡ ok (from_value crates v))
        × (into_value crates (from_value crates v) ≡ ok (canonical_value v))
  unfolding from_stored into_value
  from_stored-from_value v h = (
    rw (reads_json v h) (
        ground (
          arith,
          from_value-canonical v,
          ==_self (from_value crates v).json,
          ==_self (from_value crates v).sha256,
        )),
    rw (reads_json v h),
  )

  -- A stored pair that passes the check is the canonical text of what it reads as, with the digest
  -- of that text.
  pub from_stored_sound :
      (json sha : String) {c : CanonicalJson}
      → from_stored crates json sha ≡ ok c
      → (v : Value) × (crates.from_str json ≡ some v)
        × (c ≡ from_value crates v)
        × (c.json ≡ json)
        × (c.sha256 ≡ sha)
  unfolding from_stored
  from_stored_sound json sha h = elim (Option-cases (crates.from_str json)) [
    | inl e ↦ absurd (ground arith)
    | inr (v, e) ↦ (
      v,
      e,
      ground arith,
      ground (arith, eq_of_!= (from_value crates v).json json),
      ground (arith, eq_of_!= (from_value crates v).sha256 sha),
    )
  ]
