-- ===== src/Client/Connection/Handle/Valid.antt =====
-- The client's check of requests against the daemon's.
use omp_remote.Prelude.{ℕ, ◌≡◌, ◌↔◌, refl, Bool, true, false, String, Option, ok, is_some}
use omp_remote.Protocol.Id.{OperationId, RequestId}
use omp_remote.Protocol.Frame.Types.{Payloads, ControlRequest}
use omp_remote.Protocol.Frame.Checks.{is_mutating, validate}
use omp_remote.Protocol.Frame.Agreement.{validate_exact}
use omp_remote.Client.Connection.Handle.{check_flags, validate_operation_id}

flags_agree : (m s : Bool) → (check_flags m s ≡ ok tt) ↔ (m ≡ s)
flags_agree true true = (λ h. refl, λ h. refl)
flags_agree true false = (λ h. cc, λ h. cc)
flags_agree false true = (λ h. cc, λ h. cc)
flags_agree false false = (λ h. refl, λ h. refl)

module _ {P : Payloads} (format_id : String → String → ℕ → String) where
  -- The client lets a request with an operation ID or without one pass exactly if the daemon does,
  -- whatever request ID the frame gets.
  pub validate_operation_id_agrees :
      (r : ControlRequest P) (operation_id : Option OperationId) (request_id : RequestId)
      → (validate_operation_id format_id r operation_id ≡ ok tt) ↔ (
          validate (record { request_id = request_id; operation_id = operation_id; request = r })
          ≡ ok tt)
  unfolding validate_operation_id
  validate_operation_id_agrees r operation_id request_id =
      let client = flags_agree (is_mutating r) (is_some operation_id) in
      let daemon =
        validate_exact
          (record { request_id = request_id; operation_id = operation_id; request = r }) in
      (λ h. daemon.1 (client.0 h), λ h. client.1 (daemon.0 h))
