-- ===== src/Protocol/Discovery.antt =====
-- dopedb-protocol/src/discovery.rs: the file by which a client finds the running application. Its
-- sealed fields are those that `new` checks.
use agent_db.Base.{
  ℕ, ◌≤◌, ◌<◌, ◌≡◌, ◌↔◌, false, ◌||◌, String, ◌==◌, ◌!=◌, nat_eq, ltb, is_blank, if◌then◌else◌,
  arith,
}
use agent_db.Operations.Model.{Uuid, DateTime}

abbrev runtime_schema_version : ℕ
runtime_schema_version = 1

record RuntimeDiscovery : Type 0 where
  pub schema_version : ℕ
  pub runtime_id : Uuid
  pub pid : ℕ
  pub app_version : String
  pub protocol_min : ℕ
  pub protocol_max : ℕ
  pub endpoint : String
  pub started_at : DateTime

data RuntimeDiscoveryError : Type 0 where
  schema_version pid app_version protocol_range endpoint : RuntimeDiscoveryError

data Discovered (A : Type 0) : Type 0 where
  ok : A → Discovered A
  err : RuntimeDiscoveryError → Discovered A

unfoldable validate : RuntimeDiscovery → Discovered (Unit {0})
validate d =
    if d.schema_version != runtime_schema_version
    then Discovered.err RuntimeDiscoveryError.schema_version
    else if d.pid == 0
    then Discovered.err RuntimeDiscoveryError.pid
    else if is_blank d.app_version
    then Discovered.err RuntimeDiscoveryError.app_version
    else if d.protocol_min == 0 || ltb d.protocol_max d.protocol_min
    then Discovered.err RuntimeDiscoveryError.protocol_range
    else if is_blank d.endpoint
    then Discovered.err RuntimeDiscoveryError.endpoint
    else Discovered.ok tt

abbrev sealed : RuntimeDiscovery → Discovered (Unit {0}) → Discovered RuntimeDiscovery
sealed d (Discovered.ok _) = Discovered.ok d
sealed d (Discovered.err e) = Discovered.err e

unfoldable new_discovery :
    (runtime_id : Uuid) (pid : ℕ) (app_version : String) (protocol_min protocol_max : ℕ)
    (endpoint : String) (started_at : DateTime)
    → Discovered RuntimeDiscovery
unfolding validate
new_discovery runtime pid_number version low high address started =
    let d : RuntimeDiscovery = record {
      schema_version = runtime_schema_version;
      runtime_id = runtime;
      pid = pid_number;
      app_version = version;
      protocol_min = low;
      protocol_max = high;
      endpoint = address;
      started_at = started;
    } in
    sealed d (validate d)

-- What a valid file holds.
record Valid (d : RuntimeDiscovery) : Type 0 where
  pub schema : d.schema_version ≡ runtime_schema_version
  pub process : 0 < d.pid
  pub version : is_blank d.app_version ≡ false
  pub lowest : 0 < d.protocol_min
  pub range : d.protocol_min ≤ d.protocol_max
  pub address : is_blank d.endpoint ≡ false

-- `validate` accepts exactly a file of this schema with a process id, a version, an endpoint and a
-- range of protocol versions from 1 on that is not empty.
validate-Valid : (d : RuntimeDiscovery) → (validate d ≡ Discovered.ok tt) ↔ Valid d
unfolding validate
validate-Valid d = (
  λ h. record {
    schema = ground arith;
    process = ground arith;
    version = ground arith;
    lowest = ground arith;
    range = ground arith;
    address = ground arith;
  },
  λ v. ground (arith, v.schema, v.process, v.version, v.lowest, v.range, v.address),
)
