-- ===== src/Protocol/Version.antt =====
-- dopedb-protocol/src/version.rs: the protocol version that both peers speak.
use agent_db.Base.{
  ℕ, ◌≤◌, ◌≡◌, refl, ◌⊎◌, inl, inr, max, min, leb, if◌then◌else◌, Bool-cases, arith,
}

pub record ProtocolVersionMismatch : Type 0 where
  pub runtime_min : ℕ
  pub runtime_max : ℕ
  pub client_min : ℕ
  pub client_max : ℕ

pub data Negotiation : Type 0 where
  ok : ℕ → Negotiation
  err : ProtocolVersionMismatch → Negotiation

unfoldable pub negotiate_protocol : ℕ → ℕ → ℕ → ℕ → Negotiation
negotiate_protocol runtime_min runtime_max client_min client_max =
    let lower = max runtime_min client_min in
    let upper = min runtime_max client_max in
    if leb lower upper
    then Negotiation.ok upper
    else Negotiation.err (record {
      runtime_min = runtime_min;
      runtime_max = runtime_max;
      client_min = client_min;
      client_max = client_max;
    })

-- A version that both ranges contain.
abbrev pub Common : ℕ → ℕ → ℕ → ℕ → ℕ → Type 0
Common runtime_min runtime_max client_min client_max v =
    (runtime_min ≤ v) × (v ≤ runtime_max) × (client_min ≤ v) × (v ≤ client_max)

-- Either the greatest version that both peers support is chosen, or they have no version in common
-- and the mismatch reports the four bounds.
pub negotiate_protocol_lem :
    (runtime_min runtime_max client_min client_max : ℕ)
    → ((v : ℕ) × (negotiate_protocol runtime_min runtime_max client_min client_max
          ≡ Negotiation.ok v)
        × Common runtime_min runtime_max client_min client_max v
        × ((w : ℕ) → Common runtime_min runtime_max client_min client_max w → w ≤ v))
      ⊎ ((negotiate_protocol runtime_min runtime_max client_min client_max
            ≡ Negotiation.err (record {
              runtime_min = runtime_min;
              runtime_max = runtime_max;
              client_min = client_min;
              client_max = client_max;
            }))
          × ((w : ℕ) → Common runtime_min runtime_max client_min client_max w → ⊥))
unfolding negotiate_protocol
negotiate_protocol_lem a b c d = elim (Bool-cases (leb (max a c) (min b d))) [
  | inl e ↦ inl (
    min b d,
    rw e refl,
    (ground arith, ground arith, ground arith, ground arith),
    λ w h. ground arith,
  )
  | inr e ↦ inr (rw e refl, λ w h. ground arith)
]
