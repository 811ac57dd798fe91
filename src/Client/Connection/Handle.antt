-- ===== src/Client/Connection/Handle.antt =====
-- `ClientHandle` of crates/omp-control-client/src/client.rs: the commands that it sends to the task.
pub mod Valid
use omp_remote.Prelude.{
  Bool, true, false, String, Option, none, some, Result, ok, err, ◌>>=◌, ◌>>◌, is_some, ℕ, ok_or,
  map_err, if◌then◌else◌,
}
use omp_remote.Protocol.Id.{AgentId, LeaseHolderId, OperationId, new_identifier}
use omp_remote.Protocol.Frame.Types.{Payloads, ControlRequest, ControlResponse}
use omp_remote.Protocol.Frame.Checks.{is_mutating}
use omp_remote.Client.Connection.Types.{
  ClientCommand, PendingPayload, IdGenerator, RequestError, Sender, client_stopped,
  identifier_space_exhausted, invalid_request,
}
use omp_remote.Client.Connection.Pending.{next}

-- What becomes of the receiver of an answer: the answer, or that its sender is gone.
pub data Awaited (A : Type 0) : Type 0 where
  arrived : A → Awaited A
  dropped : Awaited A

-- `receiver.await.unwrap_or(Err(RequestError::ClientStopped))`
abbrev pub await_response :
    Awaited (Result RequestError ControlResponse) → Result RequestError ControlResponse
await_response (arrived r) = r
await_response dropped = err client_stopped

-- The two flags of the match.
abbrev pub check_flags : Bool → Bool → Result RequestError (Unit {0})
check_flags true false = err (invalid_request "mutating requests require an operation ID")
check_flags false true = err (invalid_request "read-only requests cannot carry an operation ID")
check_flags _ _ = ok tt

unfoldable pub next_operation_id :
    (String → String → ℕ → String) → IdGenerator → Result RequestError OperationId × IdGenerator
unfolding next new_identifier
next_operation_id format_id ids =
    let (value, ids') = next format_id "operation" ids in
    (
      ok_or value identifier_space_exhausted >>= λ v.
          map_err (λ e. identifier_space_exhausted) (new_identifier "operation ID" v),
      ids',
    )

module _ {P : Payloads} (format_id : String → String → ℕ → String) where
  unfoldable pub validate_operation_id :
      ControlRequest P → Option OperationId → Result RequestError (Unit {0})
  unfolding is_mutating
  validate_operation_id request operation_id =
      check_flags (is_mutating request) (is_some operation_id)

  -- The command of `request_with_operation_id`.
  unfoldable pub request_with_operation_id :
      ControlRequest P → Option OperationId → Sender → Result RequestError (ClientCommand P)
  unfolding validate_operation_id
  request_with_operation_id request operation_id tx =
      validate_operation_id request operation_id
      >> ok (ClientCommand.request (PendingPayload.request request) operation_id tx)

  abbrev pub with_operation :
      ControlRequest P
      → Sender
      → Result RequestError OperationId × IdGenerator
      → Result RequestError (ClientCommand P) × IdGenerator
  with_operation request tx (operation, ids) =
      (operation >>= λ id. request_with_operation_id request (some id) tx, ids)

  -- `request`, up to the command that is sent.
  unfoldable pub request :
      ControlRequest P → Sender → IdGenerator → Result RequestError (ClientCommand P) × IdGenerator
  unfolding is_mutating next_operation_id request_with_operation_id
  request r tx ids =
      if is_mutating r
      then with_operation r tx (next_operation_id format_id ids)
      else (request_with_operation_id r none tx, ids)

  -- `respond_to_ui`, up to the command that is sent.
  unfoldable pub respond_to_ui :
      AgentId
      → LeaseHolderId
      → P.UiResponse
      → Sender
      → IdGenerator
      → Result RequestError (ClientCommand P) × IdGenerator
  unfolding next_operation_id
  respond_to_ui agent_id holder response tx ids =
      let (operation, ids') = next_operation_id format_id ids in
      (
        operation >>= λ id. ok (
            ClientCommand.request (PendingPayload.ui_response agent_id holder response id) (some id)
              tx),
        ids',
      )
