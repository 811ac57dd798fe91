-- ===== src/Daemon/Requests.antt =====
-- crates/ompd/src/server.rs: `authorized` and `execute_request`. The store and the controller are
-- behind locks of their own and a request is awaited, so that what other connections do to the store
-- in the meantime is a parameter: `elsewhere`.
use omp_remote.Prelude.{
  ℕ, String, Bool, Option, none, some, Result, ok, err, if◌then◌else◌, false, true,
}
use omp_remote.Protocol.Id.{OperationId}
use omp_remote.Protocol.Frame.Types.{
  Payloads, DeviceScopes, ControlRequest, RequestEnvelope, ResponseEnvelope, ResponseOutcome,
  ProtocolError,
}
use omp_remote.Protocol.Frame.Checks.{validate, RequestValidationError}
use omp_remote.Daemon.Store.Types.{
  Outside, DeviceRecord, OperationKey, OperationClaim, OperationError,
}
use omp_remote.Daemon.Store.Operations.Ops.{Db, claim_operation, complete_operation}
pub mod Guards

unfoldable pub protocol_error : String → String → Bool → ProtocolError
protocol_error code message retryable = record {
  code = code;
  message = message;
  retryable = retryable;
}

abbrev pub permission_error : ProtocolError
unfolding protocol_error
permission_error =
    protocol_error "permission_denied" "device credential does not grant this operation" false

unfoldable pub authorized : {P : Payloads} → DeviceScopes → ControlRequest P → Bool
authorized scopes ControlRequest.list_agents = scopes.observe
authorized scopes (ControlRequest.get_agent agent) = scopes.observe
authorized scopes ControlRequest.list_devices = scopes.administer_devices
authorized scopes (ControlRequest.revoke_device device) = scopes.administer_devices
authorized scopes (ControlRequest.launch_agent agent) = scopes.mutate_session
authorized scopes (ControlRequest.switch_session agent path) = scopes.mutate_session
authorized scopes (ControlRequest.stop_agent agent) = scopes.stop_agent
authorized scopes (ControlRequest.abort agent) = scopes.stop_agent
authorized scopes (ControlRequest.prompt agent message images streaming) = scopes.prompt
authorized scopes (ControlRequest.steer agent message images) = scopes.prompt
authorized scopes (ControlRequest.follow_up agent message images) = scopes.prompt
authorized scopes (ControlRequest.respond_to_ui agent holder response) = scopes.answer_ui
authorized scopes (ControlRequest.acquire_interaction_lease agent holder ttl) = scopes.answer_ui
authorized scopes (ControlRequest.release_interaction_lease agent holder) = scopes.answer_ui

abbrev pub request_key : DeviceRecord → OperationId → OperationKey
request_key device operation_id = record {
  device_id = device.device_id;
  operation_id = operation_id;
}

-- What `execute_request` calls: the controller, which has a state of its own, what other tasks do to
-- the store while the controller is awaited, the clock before and after, and the texts of errors.
pub record Context {P : Payloads} (o : Outside P) (S : Type 0) : Type 1 where
  pub execute : ControlRequest P → S → ResponseOutcome × S
  pub elsewhere : Db o → Db o
  pub claimed_at : ℕ
  pub completed_at : ℕ
  pub invalid_text : RequestValidationError → String
  pub operation_text : OperationError → String

module _ {P : Payloads} (o : Outside P) {S : Type 0} (x : Context o S) where
  abbrev pub World : Type 0
  World = Db o × S

  abbrev failure : String → String → Bool → ResponseOutcome
  failure code message retryable = ResponseOutcome.error (protocol_error code message retryable)

  -- An operation that was claimed is executed and completed.
  unfoldable pub run_operation : OperationKey → ControlRequest P → World → ResponseOutcome × World
  unfolding protocol_error
  run_operation key request (c, s) =
      let (outcome, s') = x.execute request s in
      let (completion, c') = complete_operation o key outcome x.completed_at (x.elsewhere c) in
      elim completion [
        | err e ↦ (failure "operation_outcome_not_persisted" (x.operation_text e) false, (c', s'))
        | ok _ ↦ (outcome, (c', s'))
      ]

  unfoldable pub answer_claim :
      Result OperationError OperationClaim
      → OperationKey
      → ControlRequest P
      → World
      → ResponseOutcome × World
  unfolding run_operation protocol_error
  answer_claim (ok OperationClaim.execute) key request w = run_operation key request w
  answer_claim (ok (OperationClaim.completed outcome)) key request w = (outcome, w)
  answer_claim (ok OperationClaim.in_progress) key request w =
      (failure "operation_in_progress" "the operation is still in progress" true, w)
  answer_claim (ok OperationClaim.indeterminate) key request w = (
    failure "operation_indeterminate" "the daemon restarted before recording the operation outcome"
        false,
    w,
  )
  answer_claim (err e) key request w = (failure "operation_conflict" (x.operation_text e) false, w)

  unfoldable pub run_authorized : DeviceRecord → RequestEnvelope P → World → ResponseOutcome × World
  unfolding answer_claim
  run_authorized device e (c, s) = elim e.operation_id [
    | none ↦ let (outcome, s') = x.execute e.request s in (outcome, (c, s'))
    | some operation_id ↦
        let key = request_key device operation_id in
        let (claim, c') = claim_operation o key e.request x.claimed_at c in
        answer_claim claim key e.request (c', s)
  ]

  unfoldable pub request_outcome :
      DeviceRecord → RequestEnvelope P → World → ResponseOutcome × World
  unfolding run_authorized authorized protocol_error
  request_outcome device e w = elim (validate e) [
    | err bad ↦ (failure "invalid_request" (x.invalid_text bad) false, w)
    | ok _ ↦
        if authorized device.scopes e.request
        then run_authorized device e w
        else (ResponseOutcome.error permission_error, w)
  ]

  unfoldable pub execute_request :
      DeviceRecord → RequestEnvelope P → World → ResponseEnvelope × World
  unfolding request_outcome
  execute_request device e w =
      let (outcome, w') = request_outcome device e w in
      (record { request_id = e.request_id; outcome = outcome }, w')
