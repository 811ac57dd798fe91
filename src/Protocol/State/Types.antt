-- ===== src/Protocol/State/Types.antt =====
-- The data of state.rs, and the slash commands of crates/omp-rpc/src/response.rs that it carries.
use omp_remote.Prelude.{ℕ, String, Option, List, String_discrete, ℕ_discrete}
use omp_remote.Protocol.Id.{AgentId, RunId, LeaseHolderId}

abbrev pub StateRevision : Type 0
StateRevision = ℕ

abbrev pub EventSequence : Type 0
EventSequence = ℕ

pub data AgentLifecycle : Type 0 where
  starting idle running stopping stopped interrupted : AgentLifecycle
  failed : String → AgentLifecycle

pub data RunLifecycle : Type 0 where
  queued running completed aborted interrupted : RunLifecycle
  failed : String → RunLifecycle

pub record SessionSummary : Type 0 where
  pub session_id : String
  pub session_file : Option String
  pub name : Option String
  pub message_count : ℕ

pub record RunSnapshot : Type 0 where
  pub run_id : RunId
  pub lifecycle : RunLifecycle
  pub started_at_ms : ℕ
  pub ended_at_ms : Option ℕ

pub record InteractionLease : Type 0 where
  pub holder : LeaseHolderId
  pub expires_at_ms : ℕ

pub data InteractionState : Type 0 where
  unclaimed : InteractionState
  leased : InteractionLease → InteractionState

pub record SlashCommandInput : Type 0 where
  pub hint : Option String

pub record SlashSubcommand : Type 0 where
  pub name : String
  pub description : Option String
  pub usage : Option String

pub data SlashCommandSource : Type 0 where
  builtin skill extension custom mcp_prompt file : SlashCommandSource

pub record AvailableSlashCommand : Type 0 where
  pub name : String
  pub aliases : Option (List String)
  pub description : Option String
  pub input : Option SlashCommandInput
  pub subcommands : Option (List SlashSubcommand)
  pub source : SlashCommandSource

pub record AgentSnapshot : Type 0 where
  pub agent_id : AgentId
  pub revision : StateRevision
  pub event_sequence : EventSequence
  pub lifecycle : AgentLifecycle
  pub session : Option SessionSummary
  pub active_run : Option RunSnapshot
  pub recent_runs : List RunSnapshot
  pub interaction : InteractionState
  pub available_commands : List AvailableSlashCommand

pub data AgentStateChange : Type 0 where
  lifecycle_changed : AgentLifecycle → AgentStateChange
  session_changed : SessionSummary → AgentStateChange
  session_cleared : AgentStateChange
  run_upserted : RunSnapshot → AgentStateChange
  run_removed : RunId → AgentStateChange
  interaction_changed : InteractionState → AgentStateChange
  available_commands_changed : List AvailableSlashCommand → AgentStateChange

pub record StateDelta : Type 0 where
  pub agent_id : AgentId
  pub base_revision : StateRevision
  pub revision : StateRevision
  pub change : AgentStateChange

pub data AgentUpdate (M : Type 0) : Type 0 where
  delta_update : EventSequence → StateDelta → AgentUpdate M
  event_update : AgentId → EventSequence → M → AgentUpdate M

pub record SubscriptionCursor : Type 0 where
  pub agent_id : AgentId
  pub revision : StateRevision
  pub event_sequence : EventSequence

pub data SubscriptionStart (M : Type 0) : Type 0 where
  snapshot : AgentSnapshot → SubscriptionStart M
  replay : List (AgentUpdate M) → SubscriptionStart M
  resync_required : AgentSnapshot → SubscriptionStart M

pub data DeltaApplyError : Type 0 where
  wrong_agent : AgentId → AgentId → DeltaApplyError
  revision_mismatch : StateRevision → StateRevision → DeltaApplyError
  non_consecutive_revision : StateRevision → StateRevision → DeltaApplyError
  stale_event_sequence : EventSequence → EventSequence → DeltaApplyError

-- The derived `PartialEq` of a snapshot.
unfoldable pub AgentSnapshot_discrete : Discrete AgentSnapshot
AgentSnapshot_discrete = hlevel (String_discrete, ℕ_discrete)
