-- ===== src/Broker/Session.antt =====
-- src-tauri/src/broker/session.rs: the terminal sessions of one runtime, held in memory. The DashMap
-- is an association list, one step of it for each call. Clock readings and drawn bytes are arguments.
pub mod Laws
use agent_db.Base.{
  ℕ, zero, suc, ◌+◌, Bool, true, false, not, ◌&&◌, ◌||◌, Option, some, none, List, [], ◌∷◌, String,
  ◌==◌, nat_eq, leb, if◌then◌else◌,
}
use agent_db.Error.{AppError, config, blocked, Result, ok, err}
use agent_db.Operations.Model.{Uuid, DateTime}

pub data BrokerCapability : Type 0 where
  connection_read connection_test catalog_read query_plan : BrokerCapability
  query_run sql_propose operation_read operation_cancel : BrokerCapability

abbrev capability_number : BrokerCapability → ℕ
capability_number BrokerCapability.connection_read = 0
capability_number BrokerCapability.connection_test = 1
capability_number BrokerCapability.catalog_read = 2
capability_number BrokerCapability.query_plan = 3
capability_number BrokerCapability.query_run = 4
capability_number BrokerCapability.sql_propose = 5
capability_number BrokerCapability.operation_read = 6
capability_number BrokerCapability.operation_cancel = 7

-- `BTreeSet::contains`.
abbrev contains : BrokerCapability → List BrokerCapability → Bool
contains c [] = false
contains c (d ∷ ds) = capability_number c == capability_number d || contains c ds

pub record AuthenticatedSession : Type 0 where
  pub terminal_session_id : Uuid
  pub runtime_id : Uuid
  pub workspace_id : Uuid
  pub account_scope : String
  pub connection_id : Uuid
  pub connection_revision : ℕ
  pub capabilities : List BrokerCapability
  pub expires_at : DateTime

unfoldable pub require : AuthenticatedSession → BrokerCapability → Result (Unit {0})
require session capability =
    if contains capability session.capabilities
    then ok tt
    else err (blocked "terminal session does not have the required broker capability")

pub record SessionRecord : Type 0 where
  pub metadata : AuthenticatedSession
  pub token : List ℕ

pub record IssuedSessionCapability : Type 0 where
  pub terminal_session_id : Uuid
  pub token : String
  pub expires_at : DateTime

-- What `issue` reads of a `PinnedConnection`; the scope is its workspace and its storage key.
pub record PinnedConnection : Type 0 where
  pub workspace_id : Uuid
  pub storage_key : String
  pub connection_id : Uuid
  pub connection_revision : ℕ

pub record SessionAuthentication : Type 0 where
  pub terminal_session_id : Uuid
  pub token : String

-- The hex crate, and `chrono::Duration::from_std`.
pub record Codec : Type 0 where
  pub encode : List ℕ → String
  pub decode_to_slice : String → Option (List ℕ)
  pub from_std : ℕ → Option ℕ

abbrev pub Sessions : Type 0
Sessions = List (Uuid × SessionRecord)

pub record BrokerSessionRegistry : Type 0 where
  pub runtime_id : Uuid
  pub sessions : Sessions

unfoldable pub find : Uuid → Sessions → Option SessionRecord
find id [] = none
find id ((key, r) ∷ rest) = let found = find id rest in if key == id then some r else found

unfoldable pub remove : Uuid → Sessions → Sessions
remove id [] = []
remove id ((key, r) ∷ rest) =
    let kept = remove id rest in if key == id then kept else (key, r) ∷ kept

-- `DashMap::insert` replaces what is stored under the key.
unfoldable pub insert : Uuid → SessionRecord → Sessions → Sessions
insert id r sessions = (id, r) ∷ remove id sessions

abbrev pub new : Uuid → BrokerSessionRegistry
new runtime_id = record { runtime_id = runtime_id; sessions = [] }

-- `ct_eq`.
abbrev pub same_bytes : List ℕ → List ℕ → Bool
same_bytes [] [] = true
same_bytes (a ∷ rest) (b ∷ others) = a == b && same_bytes rest others
same_bytes _ _ = false

abbrev pub authentication_denied : AppError
authentication_denied = blocked "terminal session authentication was denied"

module _ (codec : Codec) where
  -- The record that `issue` stores.
  abbrev pub issued_record :
      Uuid → Uuid → PinnedConnection → List BrokerCapability → DateTime → List ℕ → SessionRecord
  issued_record runtime_id terminal_session_id pin capabilities expires_at token = record {
    metadata = record {
      terminal_session_id = terminal_session_id;
      runtime_id = runtime_id;
      workspace_id = pin.workspace_id;
      account_scope = pin.storage_key;
      connection_id = pin.connection_id;
      connection_revision = pin.connection_revision;
      capabilities = capabilities;
      expires_at = expires_at;
    };
    token = token;
  }

  -- `drawn` is what `getrandom::fill` gives.
  unfoldable pub issue :
      Uuid
      → PinnedConnection
      → List BrokerCapability
      → ℕ
      → Option (List ℕ)
      → DateTime
      → BrokerSessionRegistry
      → BrokerSessionRegistry × Result IssuedSessionCapability
  unfolding insert
  issue id pin capabilities zero drawn now registry =
      (registry, err (config "terminal session capability TTL must be positive"))
  issue id pin capabilities (suc ttl) none now registry =
      (registry, err (config "operating system random source is unavailable"))
  issue id pin capabilities (suc ttl) (some token) now registry = elim (codec.from_std (suc ttl)) [
    | none ↦ (registry, err (config "terminal session TTL is too large"))
    | some lifetime ↦ (
      record registry {
        sessions =
            insert id (issued_record registry.runtime_id id pin capabilities (now + lifetime) token)
              registry.sessions;
      },
      ok (record {
        terminal_session_id = id;
        token = codec.encode token;
        expires_at = now + lifetime;
      }),
    )
  ]

  -- The token of the request, compared with the stored one.
  abbrev pub same_token : String → List ℕ → Bool
  same_token text token = elim (codec.decode_to_slice text) [
    | none ↦ false
    | some supplied ↦ same_bytes token supplied
  ]

  unfoldable pub authenticate :
      SessionAuthentication
      → DateTime
      → BrokerSessionRegistry
      → BrokerSessionRegistry × Result AuthenticatedSession
  authenticate request now registry = elim (find request.terminal_session_id registry.sessions) [
    | none ↦ (registry, err authentication_denied)
    | some r ↦
        if not (r.metadata.runtime_id == registry.runtime_id) || leb r.metadata.expires_at now
        then (
          record registry { sessions = remove request.terminal_session_id registry.sessions },
          err authentication_denied,
        )
        else if not (same_token request.token r.token)
        then (registry, err authentication_denied)
        else (registry, ok r.metadata)
  ]

abbrev is_some {ℓ} : {A : Type ℓ} → Option A → Bool
is_some none = false
is_some (some _) = true

unfoldable pub revoke : Uuid → BrokerSessionRegistry → BrokerSessionRegistry × Bool
revoke id registry = (
  record registry { sessions = remove id registry.sessions },
  is_some (find id registry.sessions),
)

-- The keys of the sessions on a connection.
unfoldable pub keys_of : Uuid → Sessions → List Uuid
keys_of connection_id [] = []
keys_of connection_id ((key, r) ∷ rest) =
    let keys = keys_of connection_id rest in
    if r.metadata.connection_id == connection_id then key ∷ keys else keys

unfoldable pub remove_all : List Uuid → Sessions → Sessions
remove_all [] sessions = sessions
remove_all (id ∷ ids) sessions = remove_all ids (remove id sessions)

abbrev count : List Uuid → ℕ
count [] = 0
count (_ ∷ ids) = suc (count ids)

unfoldable pub revoke_connection : Uuid → BrokerSessionRegistry → BrokerSessionRegistry × ℕ
revoke_connection connection_id registry =
    let ids = keys_of connection_id registry.sessions in
    (record registry { sessions = remove_all ids registry.sessions }, count ids)

unfoldable pub revoke_all : BrokerSessionRegistry → BrokerSessionRegistry
revoke_all registry = record registry { sessions = [] }
