-- ===== src/Client/Connection/Types.antt =====
-- The data of crates/omp-control-client/src/client.rs and what it takes from outside: the socket, the
-- codec of frames, the credential store and the text of IDs. Durations are milliseconds.
use omp_remote.Prelude.{ℕ, String, Option, List, Result}
use omp_remote.Prelude.BTreeMap.{BTreeMap}
use omp_remote.Prelude.NumMap.{NumMap}
use omp_remote.Protocol.Id.{AgentId, LeaseHolderId, ServerId, DeviceId, RequestId, OperationId}
use omp_remote.Protocol.Frame.Types.{
  Payloads, BTreeSet, ProtocolVersion, ClientDescriptor, ClientAuthentication, DeviceCredential,
  ProtocolError, ControlRequest, ControlResponse, ClientFrame, ServerFrame, EventEnvelope,
  UiInteractionEnvelope,
}
use omp_remote.Protocol.Codec.{Cbor, CborCodecError, FrameLimits}
use omp_remote.Client.Reducer.{ReplicatedState, ReplicationError}

pub data AuthenticationSource : Type 0 where
  stored_credential : AuthenticationSource
  pair : ClientAuthentication → AuthenticationSource

pub record ReconnectPolicy : Type 0 where
  pub initial_delay : ℕ
  pub maximum_delay : ℕ

pub record ClientConfig : Type 0 where
  pub server_id : ServerId
  pub client : ClientDescriptor
  pub authentication : AuthenticationSource
  pub frame_limits : FrameLimits
  pub reconnect : ReconnectPolicy

pub data ConnectionStatus : Type 0 where
  disconnected : Option String → ConnectionStatus
  connecting : ConnectionStatus
  connected : ServerId → DeviceId → ProtocolVersion → ConnectionStatus
  stopped : Option String → ConnectionStatus

pub data ClientEvent (P : Payloads) : Type 0 where
  connection_changed : ConnectionStatus → ClientEvent P
  state_changed : AgentId → ClientEvent P
  agent_event : EventEnvelope P → ClientEvent P
  interaction_request : UiInteractionEnvelope P → ClientEvent P
  resync_required : AgentId → ClientEvent P
  protocol_error : ProtocolError → ClientEvent P
  replication_error : ReplicationError → ClientEvent P

pub data RequestError : Type 0 where
  client_stopped identifier_space_exhausted : RequestError
  invalid_request : String → RequestError
  protocol : ProtocolError → RequestError

pub data ClientRunError : Type 0 where
  credential_unavailable credential_server_mismatch server_identity_mismatch : ClientRunError
  credential_storage protocol transport : String → ClientRunError

pub record Link (P : Payloads) : Type 1 where
  pub Socket : Type 0
  pub send_binary : List ℕ → Socket → Result String (Unit {0}) × Socket
  pub outgoing : Cbor (ClientFrame P)
  pub incoming : Cbor (ServerFrame P)
  -- Display
  pub codec_text : CborCodecError → String
  pub run_text : ClientRunError → String
  -- `CredentialStore`
  pub Credentials : Type 0
  pub load : ServerId → Credentials → Result String (Option DeviceCredential)
  pub save : DeviceCredential → Credentials → Result String (Unit {0}) × Credentials
  -- `format!("{kind}-{prefix}-{counter}")`
  pub format_id : String → String → ℕ → String

-- The sending half of a oneshot channel is the channel's number.
abbrev pub Sender : Type 0
Sender = ℕ

-- `respond_to_ui` gives every UI response an operation ID, which `expect` demands in `frame`: here it
-- is with the response.
pub data PendingPayload (P : Payloads) : Type 0 where
  request : ControlRequest P → PendingPayload P
  ui_response : AgentId → LeaseHolderId → P.UiResponse → OperationId → PendingPayload P

pub data ClientCommand (P : Payloads) : Type 0 where
  request : PendingPayload P → Option OperationId → Sender → ClientCommand P
  subscribe : AgentId → ClientCommand P
  unsubscribe : AgentId → ClientCommand P
  shutdown : Sender → ClientCommand P

pub record PendingRequest (P : Payloads) : Type 0 where
  pub payload : PendingPayload P
  pub operation_id : Option OperationId
  pub sent_request_id : Option RequestId
  pub response : Sender

pub record IdGenerator : Type 0 where
  pub prefix : String
  pub counter : ℕ

pub data SessionEnd : Type 0 where
  shutdown : SessionEnd
  reconnect : Option String → Option ℕ → SessionEnd
  fatal : ClientRunError → SessionEnd

pub data HandshakeError : Type 0 where
  transport : String → HandshakeError
  fatal : ClientRunError → HandshakeError

-- What the task hands to others: an event to the subscribers, the answer to a request, the
-- acknowledgement of a shutdown.
pub data Effect (P : Payloads) : Type 0 where
  broadcast : ClientEvent P → Effect P
  answer : Sender → Result RequestError ControlResponse → Effect P
  acknowledge : Sender → Effect P

-- `ClientRunner`, with all its effects so far.
pub record ClientRunner {P : Payloads} (link : Link P) : Type 0 where
  pub credentials : link.Credentials
  pub state : ReplicatedState
  pub status : ConnectionStatus
  pub ids : IdGenerator
  pub desired_subscriptions : BTreeSet
  pub pending : NumMap (PendingRequest P)
  pub response_index : BTreeMap ℕ
  pub next_pending : ℕ
  pub active_credential : Option DeviceCredential
  pub effects : List (Effect P)
