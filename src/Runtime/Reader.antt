-- ===== src/Runtime/Reader.antt =====
-- `read_stdout` and `initialize_rpc` of crates/omp-runtime/src/runtime.rs. The decoder of lines is an
-- interface here; crates/omp-rpc has its own.
pub mod Ends
use mathlib.Core.Logic.{ite}
use omp_remote.Prelude.{
  ℕ, zero, suc, ◌+◌, Bool, true, false, String, Option, none, some, List, [], ◌∷◌, ◌++◌, Result, ok,
  err, length, String_discrete, if◌then◌else◌, map_err, ◌>>=◌, ltb, u64_max,
}
use omp_remote.Runtime.Types.{
  Response, SuccessResponse, ServerMessage, Command, CommandKind, ClientMessage, ReaderItem,
  RequestError,
}
use omp_remote.Runtime.Prompt.{is_for}
use omp_remote.Runtime.Ops.{Outgoing, Piped, write_message}
use omp_remote.Runtime.Lines.{
  Bytes, Reader, LineReadError, io, too_large, unexpected_eof, read_limited_line,
}

-- `RpcFrameDecoder`, and the texts that Display makes.
pub record Decoder (B : Type 0) : Type 1 where
  pub State : Type 0
  pub push_json_line : Bytes → State → Result String (Option (ServerMessage B)) × State
  pub is_reassembling : State → Bool
  pub line_text : LineReadError → String

pub data RuntimeSpawnError : Type 0 where
  startup_eof expected_ready_frame : RuntimeSpawnError
  startup_io startup_protocol protocol_negotiation : String → RuntimeSpawnError

pub record Startup {B : Type 0} (d : Decoder B) : Type 0 where
  pub stdout : Reader
  pub decoder : d.State
  pub max_frame_bytes : ℕ
  pub initial_events : List (ServerMessage B)

-- `ReadyFrame::DEFAULT_MAX_FRAME_BYTES`
abbrev pub default_max_frame_bytes : ℕ
default_max_frame_bytes = 1_048_576

abbrev pub negotiation_request_id : String
negotiation_request_id = "omp-runtime-negotiate-v2"

module _ {B : Type 0} (d : Decoder B) where
  -- `let _ = reader_tx.send(item)`, where the channel takes this many items until its receiver is gone.
  abbrev pub send_last : ℕ → ReaderItem B → List (ReaderItem B)
  send_last zero item = []
  send_last (suc room) item = item ∷ []

  -- The task that reads, with the items that it sends to the actor, or none without fuel. It stops
  -- when the actor's receiver is gone, which takes `accepted` items before.
  unfoldable pub read_stdout : ℕ → ℕ → ℕ → Reader → d.State → Option (List (ReaderItem B))
  unfolding read_limited_line
  read_stdout zero accepted limit stdout decoder = none
  read_stdout (suc fuel) accepted limit stdout decoder =
      let (line, stdout') = read_limited_line limit stdout in
      elim line [
        | err e ↦ some (send_last accepted (ReaderItem.error (d.line_text e)))
        | ok none ↦
            if d.is_reassembling decoder
            then some (
                send_last accepted
                  (ReaderItem.error "OMP stdout ended during an RPC chunk sequence"))
            else some (send_last accepted ReaderItem.eof)
        | ok (some bytes) ↦ elim (d.push_json_line bytes decoder).0 [
          | err e ↦ some (send_last accepted (ReaderItem.error e))
          | ok none ↦ read_stdout fuel accepted limit stdout' (d.push_json_line bytes decoder).1
          | ok (some frame) ↦ elim accepted [
            | zero ↦ some []
            | suc left ↦
                elim (read_stdout fuel left limit stdout' (d.push_json_line bytes decoder).1) [
                  | none ↦ none
                  | some items ↦ some (ReaderItem.frame frame ∷ items)
                ]
          ]
        ]
      ]

  -- What a message says to the one who negotiates, if it is the response to the negotiation.
  abbrev pub negotiation_reply : ServerMessage B → Option (Result RuntimeSpawnError (Unit {0}))
  negotiation_reply
        (ServerMessage.response (Response.success id SuccessResponse.negotiate_protocol)) =
      if is_for id negotiation_request_id then some (ok tt) else none
  negotiation_reply (ServerMessage.response (Response.success id result)) =
      if is_for id negotiation_request_id
      then some (err (protocol_negotiation "server returned the wrong success response"))
      else none
  negotiation_reply (ServerMessage.response (Response.error id name message code)) =
      if is_for id negotiation_request_id then some (err (protocol_negotiation message)) else none
  negotiation_reply _ = none

  abbrev pub line_startup_error : LineReadError → RuntimeSpawnError
  line_startup_error (io message) = startup_io message
  line_startup_error reason = startup_protocol (d.line_text reason)

  -- The loop of the negotiation, with the other messages so far.
  unfoldable pub negotiate :
      ℕ
      → ℕ
      → Reader
      → d.State
      → List (ServerMessage B)
      → Option (Result RuntimeSpawnError (Startup d))
  unfolding read_limited_line
  negotiate zero limit stdout decoder events = none
  negotiate (suc fuel) limit stdout decoder events =
      let (line, stdout') = read_limited_line limit stdout in
      elim line [
        | err e ↦ some (err (line_startup_error e))
        | ok none ↦ some (err startup_eof)
        | ok (some bytes) ↦ elim (d.push_json_line bytes decoder).0 [
          | err e ↦ some (err (startup_protocol e))
          | ok none ↦ negotiate fuel limit stdout' (d.push_json_line bytes decoder).1 events
          | ok (some message) ↦ elim (negotiation_reply message) [
            | none ↦
                negotiate fuel limit stdout' (d.push_json_line bytes decoder).1
                  (events ++ (message ∷ []))
            | some (err e) ↦ some (err e)
            | some (ok done) ↦ some (
                ok (record {
                  stdout = stdout';
                  decoder = (d.push_json_line bytes decoder).1;
                  max_frame_bytes = limit;
                  initial_events = events;
                }))
          ]
        ]
      ]

  -- After a ready frame: a child that advertises capabilities is asked to negotiate, by a command
  -- whose kind comes from crates/omp-rpc.
  unfoldable pub after_ready :
      ℕ
      → Outgoing B
      → Piped
      → CommandKind B
      → Reader
      → d.State
      → ℕ
      → Bool
      → Option (Result RuntimeSpawnError (Startup d))
  unfolding negotiate write_message
  after_ready fuel out pipe kind stdout decoder max false = some (
      ok
        (record { stdout = stdout; decoder = decoder; max_frame_bytes = max; initial_events = [] }))
  after_ready fuel out pipe kind stdout decoder max true =
      elim (write_message (record out { max_frame_bytes = max }) pipe
        (ClientMessage.command (record { id = negotiation_request_id; kind = kind }))) [
          | err e ↦ some (err (protocol_negotiation (out.display e)))
          | ok done ↦ negotiate fuel max stdout decoder []
        ]

  unfoldable pub initialize_rpc :
      ℕ
      → Outgoing B
      → Piped
      → CommandKind B
      → Reader
      → d.State
      → Option (Result RuntimeSpawnError (Startup d))
  unfolding read_limited_line after_ready
  initialize_rpc fuel out pipe kind stdout decoder =
      let (line, stdout') = read_limited_line default_max_frame_bytes stdout in
      elim line [
        | err e ↦ some (err (line_startup_error e))
        | ok none ↦ some (err startup_eof)
        | ok (some bytes) ↦ elim (d.push_json_line bytes decoder).0 [
          | err e ↦ some (err (startup_protocol e))
          | ok none ↦ some (err (startup_protocol "ready frame was chunked"))
          | ok (some (ServerMessage.ready max advertises)) ↦
              after_ready fuel out pipe kind stdout' (d.push_json_line bytes decoder).1 max
                advertises
          | ok (some message) ↦ some (err expected_ready_frame)
        ]
      ]
