-- ===== src/Daemon/Store/Types.antt =====
-- The records of records.rs, the tables of store.rs and its errors.
use omp_remote.Prelude.{ℕ, ℤ, String, Option, List, Result}
use omp_remote.Prelude.BTreeMap.{BTreeMap}
use omp_remote.Protocol.Id.{AgentId, RunId, DeviceId, PairingId, OperationId}
use omp_remote.Protocol.State.{AgentLifecycle, StateRevision, EventSequence}
use omp_remote.Protocol.Frame.Types.{
  Payloads, ControlRequest, ResponseOutcome, ClientPlatform, DeviceScopes, PairingSecret,
}

pub record AgentRecord : Type 0 where
  pub agent_id : AgentId
  pub lifecycle : AgentLifecycle
  pub process_id : Option ℕ
  pub active_run_id : Option RunId
  pub created_at_ms : ℕ
  pub updated_at_ms : ℕ

pub record DeviceRecord : Type 0 where
  pub device_id : DeviceId
  pub name : String
  pub platform : ClientPlatform
  pub scopes : DeviceScopes
  pub created_at_ms : ℕ
  pub last_seen_at_ms : Option ℕ
  pub revoked_at_ms : Option ℕ

pub record PairingGrant : Type 0 where
  pub pairing_id : PairingId
  pub secret : PairingSecret
  pub expires_at_ms : ℕ

pub record PairingRecord : Type 0 where
  pub pairing_id : PairingId
  pub requested_name : String
  pub scopes : DeviceScopes
  pub created_at_ms : ℕ
  pub expires_at_ms : ℕ
  pub consumed_at_ms : Option ℕ

pub record SessionResumeRecord : Type 0 where
  pub agent_id : AgentId
  pub session_id : String
  pub session_file : String
  pub revision : StateRevision
  pub event_sequence : EventSequence
  pub updated_at_ms : ℕ

pub data OperationClaim : Type 0 where
  execute in_progress : OperationClaim
  completed : ResponseOutcome → OperationClaim
  indeterminate : OperationClaim

pub record OperationKey : Type 0 where
  pub device_id : DeviceId
  pub operation_id : OperationId

-- `database` stands for a violated constraint, `codec` for a refusal of the CBOR codec.
pub data StoreError : Type 0 where
  database codec : StoreError
  unsupported_database_version : ℤ → StoreError
  integer_overflow : String → StoreError
  corrupt_data : String → StoreError
  random : String → StoreError
  clock : String → StoreError

pub data DeviceAuthenticationError : Type 0 where
  invalid_credential revoked : DeviceAuthenticationError
  store : StoreError → DeviceAuthenticationError

pub data PairingError : Type 0 where
  invalid_credential expired consumed : PairingError
  store : StoreError → PairingError

pub data OperationError : Type 0 where
  conflicting_request not_pending : OperationError
  store : StoreError → OperationError

-- SHA-256 and the CBOR codec with the store's limit, which the store takes from libraries.
pub record Outside (P : Payloads) : Type 1 where
  pub Hash : Type 0
  pub Hash_discrete : Discrete Hash
  pub hash_secret : String → Hash
  -- the hash of a request's encoding
  pub Blob : Type 0
  pub encode_request : ControlRequest P → Result StoreError Blob
  pub hash_blob : Blob → Hash
  pub encode_outcome : ResponseOutcome → Result StoreError Blob
  pub decode_outcome : Blob → Result StoreError ResponseOutcome

-- A row of `agents`, of `sessions`, of `devices` and so on.
pub record AgentRow : Type 0 where
  pub lifecycle : String
  pub failure_reason : Option String
  pub process_id : Option ℤ
  pub active_run_id : Option String
  pub created_at_ms : ℤ
  pub updated_at_ms : ℤ

pub record SessionRow : Type 0 where
  pub session_id : String
  pub session_file : String
  pub revision : ℤ
  pub event_sequence : ℤ
  pub updated_at_ms : ℤ

pub record DeviceRow (H : Type 0) : Type 0 where
  pub name : String
  pub platform : String
  pub scopes : DeviceScopes
  pub token_hash : H
  pub created_at_ms : ℤ
  pub last_seen_at_ms : Option ℤ
  pub revoked_at_ms : Option ℤ

pub record PairingRow (H : Type 0) : Type 0 where
  pub requested_name : String
  pub scopes : DeviceScopes
  pub secret_hash : H
  pub created_at_ms : ℤ
  pub expires_at_ms : ℤ
  pub consumed_at_ms : Option ℤ

-- The values that the CHECK constraint of `status` allows.
pub data OperationStatus : Type 0 where
  pending completed indeterminate : OperationStatus

pub record OperationRow (H B : Type 0) : Type 0 where
  pub device_id : DeviceId
  pub operation_id : OperationId
  pub request_hash : H
  pub status : OperationStatus
  pub outcome_cbor : Option B
  pub created_at_ms : ℤ
  pub completed_at_ms : Option ℤ

-- The tables, those with one key by it.
pub record Connection (H B : Type 0) : Type 0 where
  pub agents : BTreeMap AgentRow
  pub sessions : BTreeMap SessionRow
  pub devices : BTreeMap (DeviceRow H)
  pub pairing_secrets : BTreeMap (PairingRow H)
  pub operations : List (OperationRow H B)
