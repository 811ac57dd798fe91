-- ===== src/Runtime/Types.antt =====
-- The data of crates/omp-runtime/src/{state,error,runtime}.rs and what it uses of crates/omp-rpc. IDs
-- are their strings, `Arc<str>` a string, and what no code here looks at is the parameter `B`.
use omp_remote.Prelude.{ℕ, Bool, String, Option, List, Result, ℤ}
use omp_remote.Prelude.BTreeMap.{BTreeMap}

pub record RuntimeExit : Type 0 where
  pub code : Option ℤ
  pub success : Bool
  pub forced : Bool

pub data RuntimeStatus : Type 0 where
  running : ℕ → RuntimeStatus
  exited : RuntimeExit → RuntimeStatus
  failed : String → RuntimeStatus

pub data PromptCompletion : Type 0 where
  by_local by_agent : PromptCompletion

pub data PromptPhase : Type 0 where
  submitted running : PromptPhase
  completed : PromptCompletion → PromptPhase
  failed : String → PromptPhase

pub record PromptStatus : Type 0 where
  pub request_id : String
  pub phase : PromptPhase

pub data RequestError : Type 0 where
  runtime_stopped : RequestError
  timed_out : String → RequestError
  frame_too_large : ℕ → ℕ → RequestError
  transport : String → RequestError

pub data SuccessResponse (B : Type 0) : Type 0 where
  negotiate_protocol : SuccessResponse B
  -- With the acknowledgement's `agent_invoked`.
  prompt : Option Bool → SuccessResponse B
  other : B → SuccessResponse B

pub data Response (B : Type 0) : Type 0 where
  success : Option String → SuccessResponse B → Response B
  -- The ID, the command, the error and its code.
  error : Option String → String → String → Option String → Response B

abbrev pub response_id : {B : Type 0} → Response B → Option String
response_id (Response.success id result) = id
response_id (Response.error id name message code) = id

-- What the child sends; of the ready frame, the limit on a line and whether it advertises
-- capabilities.
pub data ServerMessage (B : Type 0) : Type 0 where
  response : Response B → ServerMessage B
  ready : ℕ → Bool → ServerMessage B
  prompt_result : Option String → Bool → ServerMessage B
  agent_start : ServerMessage B
  agent_end : B → ServerMessage B
  other : B → ServerMessage B

pub data CommandKind (B : Type 0) : Type 0 where
  prompt : B → CommandKind B
  abort_and_prompt : B → CommandKind B
  other : B → CommandKind B

-- A command has an ID here: `OmpRuntime::request` makes all that the actor gets, each with one.
pub record Command (B : Type 0) : Type 0 where
  pub id : String
  pub kind : CommandKind B

pub data ClientMessage (B : Type 0) : Type 0 where
  command : Command B → ClientMessage B
  other : B → ClientMessage B

pub data RuntimeEvent (B : Type 0) : Type 0 where
  frame : ServerMessage B → RuntimeEvent B
  stderr : String → RuntimeEvent B
  exited : RuntimeExit → RuntimeEvent B
  failed : String → RuntimeEvent B

-- The sending half of a oneshot channel is the channel's number.
abbrev pub Sender : Type 0
Sender = ℕ

pub data ActorMessage (B : Type 0) : Type 0 where
  request : Command B → Sender → ActorMessage B
  cancel : String → ActorMessage B
  send : ClientMessage B → Sender → ActorMessage B
  shutdown : Sender → ActorMessage B

pub data ReaderItem (B : Type 0) : Type 0 where
  frame : ServerMessage B → ReaderItem B
  error : String → ReaderItem B
  eof : ReaderItem B

pub record ExitStatus : Type 0 where
  pub code : Option ℤ
  pub success : Bool

pub data StopReason : Type 0 where
  shutdown : Option Sender → StopReason
  child_exited : Result String ExitStatus → StopReason
  transport_failed : String → StopReason

-- What the actor does to the world: a line to the child, an event, and an answer on a channel, which
-- is for a request, for a message or for a shutdown.
pub data Effect (B : Type 0) : Type 0 where
  wrote : ClientMessage B → Effect B
  event : RuntimeEvent B → Effect B
  answer : Sender → Result RequestError (Response B) → Effect B
  confirm : Sender → Result RequestError (Unit {0}) → Effect B
  stopped : Sender → Result RequestError RuntimeExit → Effect B

-- The variables of `run_actor`, the values of its watch channels and all its effects so far. The
-- pending requests are kept in the order of their IDs, where the source has a HashMap.
pub record Supervisor (B : Type 0) : Type 0 where
  pub pending : BTreeMap Sender
  pub reader_open : Bool
  pub prompt : Option PromptStatus
  pub status : RuntimeStatus
  pub effects : List (Effect B)
