-- ===== src/Protocol/Frame/Types.antt =====
-- The data of frame.rs. What the frames carry of crates/omp-rpc and only pass on is a parameter of
-- theirs: `Payloads` has the types.
use omp_remote.Prelude.{ℕ, String, Bool, true, Option, List}
use omp_remote.Prelude.BTreeMap.{BTreeMap}
use omp_remote.Protocol.Id.{
  AgentId, RunId, LeaseHolderId, ServerId, DeviceId, PairingId, RequestId, OperationId,
}
use omp_remote.Protocol.State.{
  AgentSnapshot, EventSequence, StateDelta, StateRevision, SubscriptionCursor, InteractionLease,
}

-- The bodies of the messages of omp-rpc, `ExtensionUiRequestFrame`, `ExtensionUiResponseFrame`,
-- `ImageContent` and `StreamingBehavior` among them.
pub record Payloads : Type 1 where
  pub Response : Type 0
  pub Transport : Type 0
  pub UiRequest : Type 0
  pub Host : Type 0
  pub SideChannel : Type 0
  pub Subagent : Type 0
  pub SessionEvent : Type 0
  pub UiResponse : Type 0
  pub Image : Type 0
  pub Streaming : Type 0

-- `ServerMessage` of crates/omp-rpc/src/frame.rs.
pub data ServerMessage (P : Payloads) : Type 0 where
  response : P.Response → ServerMessage P
  transport : P.Transport → ServerMessage P
  extension_ui : P.UiRequest → ServerMessage P
  host : P.Host → ServerMessage P
  side_channel : P.SideChannel → ServerMessage P
  subagent : P.Subagent → ServerMessage P
  session_event : P.SessionEvent → ServerMessage P

abbrev pub BTreeSet : Type 0
BTreeSet = BTreeMap (Unit {0})

abbrev pub ProtocolVersion : Type 0
ProtocolVersion = ℕ

pub data ClientPlatform : Type 0 where
  web mobile desktop cli service : ClientPlatform

pub record ClientCapabilities : Type 0 where
  pub requested : BTreeSet

pub record ClientDescriptor : Type 0 where
  pub name : String
  pub version : String
  pub platform : ClientPlatform
  pub capabilities : ClientCapabilities

pub record DeviceDescriptor : Type 0 where
  pub name : String
  pub platform : ClientPlatform

pub record DeviceScopes : Type 0 where
  pub observe : Bool
  pub prompt : Bool
  pub mutate_session : Bool
  pub stop_agent : Bool
  pub answer_ui : Bool
  pub administer_devices : Bool

-- `DeviceScopes::all`.
abbrev pub all_scopes : DeviceScopes
all_scopes = record {
  observe = true;
  prompt = true;
  mutate_session = true;
  stop_agent = true;
  answer_ui = true;
  administer_devices = true;
}

pub record DeviceSummary : Type 0 where
  pub device_id : DeviceId
  pub name : String
  pub platform : ClientPlatform
  pub scopes : DeviceScopes
  pub created_at_ms : ℕ
  pub last_seen_at_ms : Option ℕ
  pub revoked_at_ms : Option ℕ

-- The secrets are newtypes of a string.
abbrev pub PairingSecret : Type 0
PairingSecret = String

abbrev pub DeviceToken : Type 0
DeviceToken = String

pub record DeviceCredential : Type 0 where
  pub server_id : ServerId
  pub device_id : DeviceId
  pub token : DeviceToken
  pub scopes : DeviceScopes

pub data ClientAuthentication : Type 0 where
  pair : PairingId → PairingSecret → DeviceDescriptor → ClientAuthentication
  device : DeviceId → DeviceToken → ClientAuthentication

pub record ResumeState : Type 0 where
  pub subscriptions : List SubscriptionCursor

pub record ClientHello : Type 0 where
  pub supported_versions : List ProtocolVersion
  pub client : ClientDescriptor
  pub authentication : ClientAuthentication
  pub resume : ResumeState

pub record ServerCapabilities : Type 0 where
  pub enabled : BTreeSet
  pub max_frame_bytes : ℕ

pub record ServerWelcome : Type 0 where
  pub protocol_version : ProtocolVersion
  pub server_id : ServerId
  pub connection_id : String
  pub device_id : DeviceId
  pub capabilities : ServerCapabilities
  pub heartbeat_interval_ms : ℕ
  pub issued_credential : Option DeviceCredential

pub record ProtocolError : Type 0 where
  pub code : String
  pub message : String
  pub retryable : Bool

pub data ControlResponse : Type 0 where
  accepted : ControlResponse
  agents : List AgentSnapshot → ControlResponse
  agent : AgentSnapshot → ControlResponse
  devices : List DeviceSummary → ControlResponse
  device_revoked : DeviceId → ControlResponse
  prompt_accepted : RunId → ControlResponse
  interaction_lease : InteractionLease → ControlResponse
  interaction_released : ControlResponse

pub data ResponseOutcome : Type 0 where
  success : ControlResponse → ResponseOutcome
  error : ProtocolError → ResponseOutcome

pub record ResponseEnvelope : Type 0 where
  pub request_id : RequestId
  pub outcome : ResponseOutcome

pub record StateSnapshot : Type 0 where
  pub agents : List AgentSnapshot

pub record DeltaEnvelope : Type 0 where
  pub event_sequence : EventSequence
  pub delta : StateDelta

pub data ReplayGapReason : Type 0 where
  buffer_expired non_contiguous_cursor slow_consumer : ReplayGapReason

pub record ReplayGap : Type 0 where
  pub agent_id : AgentId
  pub current_revision : StateRevision
  pub current_event_sequence : EventSequence
  pub reason : ReplayGapReason

pub record ServerShutdown : Type 0 where
  pub reason : String
  pub reconnect_after_ms : Option ℕ

pub data ControlRequest (P : Payloads) : Type 0 where
  list_agents : ControlRequest P
  get_agent : AgentId → ControlRequest P
  list_devices : ControlRequest P
  revoke_device : DeviceId → ControlRequest P
  launch_agent : AgentId → ControlRequest P
  stop_agent : AgentId → ControlRequest P
  prompt : AgentId → String → List P.Image → Option P.Streaming → ControlRequest P
  steer : AgentId → String → List P.Image → ControlRequest P
  follow_up : AgentId → String → List P.Image → ControlRequest P
  abort : AgentId → ControlRequest P
  switch_session : AgentId → String → ControlRequest P
  respond_to_ui : AgentId → LeaseHolderId → P.UiResponse → ControlRequest P
  acquire_interaction_lease : AgentId → LeaseHolderId → ℕ → ControlRequest P
  release_interaction_lease : AgentId → LeaseHolderId → ControlRequest P

pub record RequestEnvelope (P : Payloads) : Type 0 where
  pub request_id : RequestId
  pub operation_id : Option OperationId
  pub request : ControlRequest P

pub record SubscribeRequest : Type 0 where
  pub agent_id : AgentId
  pub cursor : Option SubscriptionCursor

pub record UiResponseEnvelope (P : Payloads) : Type 0 where
  pub agent_id : AgentId
  pub request_id : RequestId
  pub operation_id : OperationId
  pub holder : LeaseHolderId
  pub response : P.UiResponse

pub record UiInteractionEnvelope (P : Payloads) : Type 0 where
  pub agent_id : AgentId
  pub event_sequence : EventSequence
  pub request : P.UiRequest

pub record EventEnvelope (P : Payloads) : Type 0 where
  pub agent_id : AgentId
  pub event_sequence : EventSequence
  pub event : ServerMessage P

-- `UnsubscribeRequest`, `Ping` and `Pong` have one field each, which stands for them.
pub data ClientFrame (P : Payloads) : Type 0 where
  hello : ClientHello → ClientFrame P
  request : RequestEnvelope P → ClientFrame P
  subscribe : SubscribeRequest → ClientFrame P
  unsubscribe : AgentId → ClientFrame P
  ui_response : UiResponseEnvelope P → ClientFrame P
  ping : ℕ → ClientFrame P

pub data ServerFrame (P : Payloads) : Type 0 where
  welcome : ServerWelcome → ServerFrame P
  response : ResponseEnvelope → ServerFrame P
  snapshot : StateSnapshot → ServerFrame P
  delta : DeltaEnvelope → ServerFrame P
  event : EventEnvelope P → ServerFrame P
  replay_gap : ReplayGap → ServerFrame P
  interaction_request : UiInteractionEnvelope P → ServerFrame P
  error : ProtocolError → ServerFrame P
  pong : ℕ → ServerFrame P
  server_shutdown : ServerShutdown → ServerFrame P
