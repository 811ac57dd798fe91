-- ===== src/Daemon/Controller/Types.antt =====
-- The data of crates/ompd/src/controller.rs, and what it uses of other crates.
use omp_remote.Prelude.{ℕ, ℤ, String, Option, List, Result}
use omp_remote.Prelude.BTreeMap.{BTreeMap}
use omp_remote.Protocol.Id.{AgentId, RunId, DeviceId}
use omp_remote.Protocol.State.{AgentUpdate}
use omp_remote.Protocol.Frame.Types.{Payloads}
use omp_remote.Plane.Mpsc.{Mpsc}
use omp_remote.Plane.Actor.Types.{AgentError, Clock}
use omp_remote.Plane.Registry.{AgentRegistry, AgentHandle, RegistryError}
use omp_remote.Runtime.Types.{RuntimeStatus, Response, CommandKind, ClientMessage, ServerMessage}
use omp_remote.Daemon.Store.Types.{Outside, StoreError}
use omp_remote.Daemon.Store.Operations.Ops.{Db}

-- The fields of the answer to `GetState` that `launch` reads.
pub record SessionState : Type 0 where
  pub session_id : String
  pub session_file : Option String
  pub session_name : Option String
  pub message_count : ℕ

-- What the messages to and from a runtime carry: the commands that the controller makes, the answer
-- to `GetState`, and what it passes on.
pub data Body (P : Payloads) : Type 0 where
  steer follow_up : String → Option (List P.Image) → Body P
  abort get_state : Body P
  state : SessionState → Body P
  ui_response : P.UiResponse → Body P
  carried : P.SessionEvent → Body P

-- The arguments of `RuntimeConfig`; the controller leaves the rest as it is.
abbrev pub RuntimeConfig : Type 0
RuntimeConfig = List String

pub data ControllerError : Type 0 where
  not_found : AgentId → ControllerError
  device_not_found : DeviceId → ControllerError
  not_running already_running : AgentId → ControllerError
  interaction_lease_required : ControllerError
  runtime : String → ControllerError
  rpc : String → String → ControllerError
  control_plane persistence : String → ControllerError

-- The runtimes, by their numbers, with the clocks and the random numbers, and the texts of errors.
-- A method of `OmpRuntime` fails with the text of its error.
pub record System (P : Payloads) : Type 1 where
  pub State : Type 0
  pub spawn : RuntimeConfig → State → Result String ℕ × State
  pub status : ℕ → State → RuntimeStatus
  pub request : ℕ → CommandKind (Body P) → State → Result String (Response (Body P)) × State
  pub prompt :
      ℕ
      → String
      → Option (List P.Image)
      → Option P.Streaming
      → State
      → Result String (Response (Body P)) × State
  pub send : ℕ → ClientMessage (Body P) → State → Result String (Unit {0}) × State
  pub shutdown : ℕ → State → Result String (Unit {0}) × State
  pub unix_time_ms : State → ℕ
  pub clock : State → Clock
  pub new_run_id : State → RunId × State
  pub actor_text : AgentError → String
  pub registry_text : RegistryError → String
  pub store_text : StoreError → String
  pub exit_text : Option ℤ → String

abbrev pub Channels : Payloads → Type 1
Channels P = Mpsc (AgentUpdate (ServerMessage (Body P)))

-- A task of `spawn_event_bridge`.
pub record Bridge : Type 0 where
  pub agent : AgentHandle
  pub runtime : ℕ
  pub process_id : Option ℕ

-- The controller and what it shares with other tasks.
pub record World {P : Payloads} (o : Outside P) (mpsc : Channels P) (x : System P) : Type 0 where
  pub registry : AgentRegistry mpsc
  pub runtimes : BTreeMap ℕ
  pub runtime_config : RuntimeConfig
  pub store : Db o
  pub system : x.State
  pub bridges : List Bridge

-- What the controller's methods run in: at each wait other tasks may run, and `elsewhere` is what they
-- do.
pub record Tasks {P : Payloads} (o : Outside P) : Type 1 where
  pub mpsc : Channels P
  pub system : System P
  pub elsewhere : World o mpsc system → World o mpsc system
