-- ===== src/Audit/Examples.antt =====
-- Concrete runs of the audit log: two statements on two connections.
use agent_db.Base.{ℕ, ◌≡◌, ◌⊎◌, refl, true, none, some, List, [], ◌∷◌}
use agent_db.Error.{ok}
use agent_db.Engine.{Engine}
use agent_db.Safety.Gate.{QueryKind}
use agent_db.Audit.Chain.{Digests, AuditFields, texts, canonical, compute_hash}
use agent_db.Audit.Chain.Injective.{canonical_injective}
use agent_db.Audit.Log.{
  RecordArgs, AuditEntry, entry_of, fields_of_entry, verify_entries, verify_entries_from,
  verify_chain,
}
use agent_db.Audit.Log.Verified.{Recording, recorded, verify_chain-recorded}
use agent_db.Audit.Log.Tampered.{Collision, SameTexts, verify_entries-SameTexts}

abbrev digests : Digests
digests = record {
  digest = λ _. 7 ∷ [];
  encode = λ _. "07";
  uuid_text = λ _. "id";
  rfc3339 = λ _. "2026-01-01T00:00:00Z";
}

abbrev statement : ℕ → RecordArgs
statement connection_id = record {
  connection_id = connection_id;
  engine = Engine.sqlite;
  agent_prompt = none;
  sql = "DELETE FROM a";
  kind = QueryKind.write;
  action = "executed";
  approved_by = none;
  affected_estimate = none;
  error = none;
}

abbrev recordings : List Recording
recordings =
    record { id = 2; ts = 20; args = statement 6 }
    ∷ record { id = 1; ts = 10; args = statement 5 }
    ∷ []

verify_chain-recorded_example :
    verify_chain digests 5 (recorded digests recordings) ≡ ok (true, none)
verify_chain-recorded_example = verify_chain-recorded digests recordings 5

abbrev entry : AuditEntry
entry = entry_of digests 1 10 (statement 5) none

-- A missing prompt and an empty one are serialized alike.
abbrev unprompted : AuditFields
unprompted = fields_of_entry entry

abbrev prompted : AuditFields
prompted = record unprompted { agent_prompt = some "" }

canonical_injective_example : texts digests unprompted ≡ texts digests prompted
unfolding canonical
canonical_injective_example = canonical_injective digests unprompted prompted refl

verified : verify_entries digests (entry ∷ []) ≡ (true, none)
unfolding verify_entries verify_entries_from compute_hash
verified = refl

verify_entries-SameTexts_example :
    Collision digests (entry ∷ []) (entry ∷ []) ⊎ SameTexts digests (entry ∷ []) (entry ∷ [])
verify_entries-SameTexts_example =
    verify_entries-SameTexts digests (λ _. refl) (entry ∷ []) (entry ∷ []) refl verified verified
      refl
