-- ===== src/Audit/Log.antt =====
-- src-tauri/src/audit/mod.rs: appending to the log and verifying it. The table is the list of its
-- rows, newest first; `audit_lock` makes `record` one step. Drawn ids and clock readings are arguments.
pub mod Verified
pub mod Tampered
use agent_db.Base.{
  ℕ, suc, ◌+◌, ℤ, Bool, true, false, ◌||◌, Option, some, none, List, [], ◌∷◌, ◌++◌, String, ◌==◌,
  ◌!=◌, text_eq, option_eq, nat_eq, if◌then◌else◌,
}
use agent_db.Error.{db, Result, ok, err, ◌>>=◌}
use agent_db.Engine.{Engine, engine_str, parse_engine, kind_str, parse_kind}
use agent_db.Safety.Gate.{QueryKind}
use agent_db.Operations.Model.{Uuid, DateTime}
use agent_db.Audit.Chain.{Digests, AuditFields, compute_hash}

pub record RecordArgs : Type 0 where
  pub connection_id : Uuid
  pub engine : Engine
  pub agent_prompt : Option String
  pub sql : String
  pub kind : QueryKind
  pub action : String
  pub approved_by : Option String
  pub affected_estimate : Option ℤ
  pub error : Option String

pub record AuditEntry : Type 0 where
  pub id : Uuid
  pub connection_id : Uuid
  pub ts : DateTime
  pub engine : Engine
  pub agent_prompt : Option String
  pub sql : String
  pub kind : QueryKind
  pub action : String
  pub approved_by : Option String
  pub affected_estimate : Option ℤ
  pub error : Option String
  pub prev_hash : Option String
  pub hash : String

-- A row of `audit_log`.
pub record AuditRow : Type 0 where
  pub id : Uuid
  pub connection_id : Uuid
  pub ts : DateTime
  pub engine : String
  pub agent_prompt : Option String
  pub sql : String
  pub kind : String
  pub action : String
  pub approved_by : Option String
  pub affected_estimate : Option ℤ
  pub error : Option String
  pub prev_hash : Option String
  pub hash : String

-- `ORDER BY rowid DESC LIMIT 1`.
unfoldable pub tail_hash : Uuid → List AuditRow → Option String
tail_hash connection_id [] = none
tail_hash connection_id (row ∷ rows) =
    let older = tail_hash connection_id rows in
    if row.connection_id == connection_id then some row.hash else older

-- `ORDER BY rowid ASC`.
unfoldable pub select_audit : Uuid → List AuditRow → List AuditRow
select_audit connection_id [] = []
select_audit connection_id (row ∷ rows) =
    let older = select_audit connection_id rows in
    if row.connection_id == connection_id then older ++ (row ∷ []) else older

unfoldable pub has_audit_id : Uuid → List AuditRow → Bool
has_audit_id id [] = false
has_audit_id id (row ∷ rows) = row.id == id || has_audit_id id rows

abbrev pub fields_of_args : DateTime → RecordArgs → AuditFields
fields_of_args ts args = record {
  connection_id = args.connection_id;
  ts = ts;
  engine = args.engine;
  agent_prompt = args.agent_prompt;
  sql = args.sql;
  kind = args.kind;
  action = args.action;
  approved_by = args.approved_by;
  affected_estimate = args.affected_estimate;
  error = args.error;
}

abbrev pub fields_of_entry : AuditEntry → AuditFields
fields_of_entry e = record {
  connection_id = e.connection_id;
  ts = e.ts;
  engine = e.engine;
  agent_prompt = e.agent_prompt;
  sql = e.sql;
  kind = e.kind;
  action = e.action;
  approved_by = e.approved_by;
  affected_estimate = e.affected_estimate;
  error = e.error;
}

unfoldable pub row_to_audit : AuditRow → Result AuditEntry
row_to_audit row = do
  engine ← parse_engine row.engine
  kind ← parse_kind row.kind
  ok (record {
    id = row.id;
    connection_id = row.connection_id;
    ts = row.ts;
    engine = engine;
    agent_prompt = row.agent_prompt;
    sql = row.sql;
    kind = kind;
    action = row.action;
    approved_by = row.approved_by;
    affected_estimate = row.affected_estimate;
    error = row.error;
    prev_hash = row.prev_hash;
    hash = row.hash;
  })

unfoldable pub read_entries : List AuditRow → Result (List AuditEntry)
read_entries [] = ok []
read_entries (row ∷ rows) = row_to_audit row >>= λ e. read_entries rows >>= λ es. ok (e ∷ es)

abbrev reversed : List AuditEntry → List AuditEntry
reversed [] = []
reversed (e ∷ es) = reversed es ++ (e ∷ [])

module _ (digests : Digests) where
  -- The entry that `record` returns, and the row that it inserts.
  abbrev pub entry_of : Uuid → DateTime → RecordArgs → Option String → AuditEntry
  entry_of id ts args prev_hash = record {
    id = id;
    connection_id = args.connection_id;
    ts = ts;
    engine = args.engine;
    agent_prompt = args.agent_prompt;
    sql = args.sql;
    kind = args.kind;
    action = args.action;
    approved_by = args.approved_by;
    affected_estimate = args.affected_estimate;
    error = args.error;
    prev_hash = prev_hash;
    hash = compute_hash digests prev_hash (fields_of_args ts args);
  }

  abbrev pub row_of : AuditEntry → AuditRow
  row_of e = record {
    id = e.id;
    connection_id = e.connection_id;
    ts = e.ts;
    engine = engine_str e.engine;
    agent_prompt = e.agent_prompt;
    sql = e.sql;
    kind = kind_str e.kind;
    action = e.action;
    approved_by = e.approved_by;
    affected_estimate = e.affected_estimate;
    error = e.error;
    prev_hash = e.prev_hash;
    hash = e.hash;
  }

  unfoldable pub record_entry :
      Uuid → DateTime → RecordArgs → List AuditRow → List AuditRow × Result AuditEntry
  record_entry id ts args rows =
      let entry = entry_of id ts args (tail_hash args.connection_id rows) in
      if has_audit_id id rows
      then (rows, err (db "UNIQUE constraint failed: audit_log.id"))
      else (row_of entry ∷ rows, ok entry)

  -- The loop of `verify_entries` from a position on.
  unfoldable pub verify_entries_from : ℕ → Option String → List AuditEntry → Bool × Option ℕ
  verify_entries_from i expected_prev [] = (true, none)
  verify_entries_from i expected_prev (e ∷ es) =
      let later = verify_entries_from (i + 1) (some e.hash) es in
      if e.prev_hash != expected_prev
      then (false, some i)
      else if compute_hash digests e.prev_hash (fields_of_entry e) != e.hash
      then (false, some i)
      else later

  unfoldable pub verify_entries : List AuditEntry → Bool × Option ℕ
  unfolding verify_entries_from
  verify_entries entries = verify_entries_from 0 none entries

  unfoldable pub verify_chain : Uuid → List AuditRow → Result (Bool × Option ℕ)
  unfolding read_entries select_audit verify_entries
  verify_chain connection_id rows =
      read_entries (select_audit connection_id rows) >>= λ entries. ok (verify_entries entries)

  unfoldable pub snapshot : Uuid → List AuditRow → Result (List AuditEntry × Bool × Option ℕ)
  unfolding read_entries select_audit verify_entries
  snapshot connection_id rows = read_entries (select_audit connection_id rows) >>= λ entries.
      let (valid, first_bad_index) = verify_entries entries in
      ok (reversed entries, valid, first_bad_index)
