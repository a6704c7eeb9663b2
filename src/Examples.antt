-- ===== src/Examples.antt =====
-- Concrete runs of the smaller components: sessions, the gate and version negotiation.
use agent_db.Base.{
  ℤ, ℕ, ◌≤◌, ◌≡◌, ◌↔◌, ◌⊎◌, refl, true, false, some, [], ◌∷◌, ◌==◌, nat_eq, leb, arith,
}
use agent_db.Error.{ok}
use agent_db.Broker.Session.{
  BrokerCapability, AuthenticatedSession, SessionRecord, PinnedConnection, SessionAuthentication,
  Codec, BrokerSessionRegistry, new, issue, authenticate, find, insert, remove, issued_record,
  same_token, revoke_connection, keys_of, remove_all,
}
use agent_db.Broker.Session.Laws.{
  authenticate_lem, issue-authenticate, revoke_connection-authenticate,
}
use agent_db.Protocol.Version.{Negotiation, Common, negotiate_protocol, negotiate_protocol_lem}
use agent_db.Safety.Gate.{
  QueryKind, RiskLevel, Classification, SafetySettings, GateDecision, decide, is_mutation,
  decide-auto_run, decide-require_approval,
}

abbrev codec : Codec
codec = record {
  encode = λ _. "0102";
  decode_to_slice = λ _. some (1 ∷ 2 ∷ []);
  from_std = λ ttl. some ttl;
}

abbrev pin : PinnedConnection
pin = record { workspace_id = 1; storage_key = "local"; connection_id = 5; connection_revision = 1 }

abbrev request : SessionAuthentication
request = record { terminal_session_id = 3; token = "0102" }

abbrev issued : BrokerSessionRegistry
issued = (issue codec 3 pin (BrokerCapability.query_run ∷ []) 60 (some (1 ∷ 2 ∷ [])) 10 (new 9)).0

abbrev session : AuthenticatedSession
session = (issued_record codec 9 3 pin (BrokerCapability.query_run ∷ []) 70 (1 ∷ 2 ∷ [])).metadata

issue-authenticate_example : (authenticate codec request 69 issued).1 ≡ ok session
issue-authenticate_example =
    issue-authenticate codec 3 pin (BrokerCapability.query_run ∷ []) 59 60 (1 ∷ 2 ∷ []) 10 69
      (new 9) refl refl (omega arith)

issued_lem : (authenticate codec request 69 issued).1 ≡ ok session
unfolding authenticate issue insert find remove
issued_lem = refl

still_there_lem : (authenticate codec request 69 (revoke_connection 4 issued).0).1 ≡ ok session
unfolding authenticate issue insert find remove revoke_connection keys_of remove_all
still_there_lem = refl

authenticate_lem_example :
    (r : SessionRecord) × (find 3 issued.sessions ≡ some r)
    × (r.metadata ≡ session)
    × ((session.runtime_id == issued.runtime_id) ≡ true)
    × (leb session.expires_at 69 ≡ false)
    × (same_token codec "0102" r.token ≡ true)
authenticate_lem_example = authenticate_lem codec request 69 issued issued_lem

revoke_connection-authenticate_example : (session.connection_id == 4) ≡ false
revoke_connection-authenticate_example =
    revoke_connection-authenticate codec 4 request 69 issued still_there_lem

negotiate_protocol_lem_example :
    ((v : ℕ) × (negotiate_protocol 1 3 2 4 ≡ Negotiation.ok v)
      × Common 1 3 2 4 v
      × ((w : ℕ) → Common 1 3 2 4 w → w ≤ v))
    ⊎ ((negotiate_protocol 1 3 2 4
          ≡ Negotiation.err
              (record { runtime_min = 1; runtime_max = 3; client_min = 2; client_max = 4 }))
        × ((w : ℕ) → Common 1 3 2 4 w → ⊥))
negotiate_protocol_lem_example = negotiate_protocol_lem 1 3 2 4

abbrev settings : SafetySettings
settings = record {
  require_approval = true;
  allow_writes = true;
  wrap_writes_in_tx = true;
  explain_preview = true;
  auto_run_reads = true;
  max_rows = 1000;
  exec_preview_row_limit = ℤ.pos 50000;
}

abbrev write : Classification
write = record {
  kind = QueryKind.write;
  risk = RiskLevel.medium;
  statement_count = 1;
  no_where = false;
  tables = [];
  notes = [];
  rollback_safe = true;
}

decide-auto_run_example :
    (decide settings write ≡ GateDecision.auto_run)
    ↔ ((1 ≤ 1) × (QueryKind.write ≡ QueryKind.read) × (true ≡ true))
decide-auto_run_example = decide-auto_run settings write

decide-require_approval_example : (decide settings write ≡ GateDecision.require_approval) ↔ (
    (1 ≤ 1)
    × (((QueryKind.write ≡ QueryKind.read) × (true ≡ false))
        ⊎ ((is_mutation QueryKind.write ≡ true) × (true ≡ true))))
decide-require_approval_example = decide-require_approval settings write
