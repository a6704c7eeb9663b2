-- ===== src/Operations/Execute.antt =====
-- src-tauri/src/operations/execute.rs: the capability that the executors ask for.
use agent_db.Base.{not, String, if◌then◌else◌}
use agent_db.Error.{config, Result, ok, err}
use agent_db.Operations.Model.{Uuid}
use agent_db.Operations.Rows.{OperationRecord}
use agent_db.Operations.Store.{is_executing}

pub record ExecutionGrant : Type 0 where
  pub operation_id : Uuid
  pub payload_sha256 : String
  pub connection_id : Uuid

unfoldable pub issue : OperationRecord → Result ExecutionGrant
issue operation =
    if not (is_executing operation.state)
    then err (config "an execution grant requires an atomically claimed operation")
    else ok (record {
      operation_id = operation.id;
      payload_sha256 = operation.payload_hash;
      connection_id = operation.connection_id;
    })
