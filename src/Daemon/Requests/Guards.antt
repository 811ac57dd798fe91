-- ===== src/Daemon/Requests/Guards.antt =====
-- What server.rs does for a request that is refused, and for one that comes twice.
use omp_remote.Prelude.{
  ◌≤◌, ◌≡◌, refl, Bool, true, false, none, some, Result, ok, err, ap, ◌∙◌, arith, ◌&&◌, i64_max,
  inl, inr, Bool-cases, Option-cases, is_some,
}
use omp_remote.Protocol.Id.{OperationId}
use omp_remote.Protocol.Frame.Types.{
  Payloads, ControlRequest, RequestEnvelope, ResponseOutcome, DeviceScopes,
}
use omp_remote.Protocol.Frame.Checks.{validate, RequestValidationError, is_mutating}
use omp_remote.Protocol.Frame.Agreement.{validate_exact}
use omp_remote.Daemon.Store.Types.{Outside, DeviceRecord, OperationKey, OperationClaim, execute}
use omp_remote.Daemon.Store.Operations.Table.{find}
use omp_remote.Daemon.Store.Operations.Ops.{Db, claim_operation, complete_operation}
use omp_remote.Daemon.Store.Operations.Outcome.{claim_again_completed}
use omp_remote.Daemon.Store.Access.Consumed.{is_ok}
use omp_remote.Daemon.Requests.{
  Context, World, request_key, authorized, run_operation, answer_claim, run_authorized,
  request_outcome, execute_request,
}

abbrev pub no_scopes : DeviceScopes
no_scopes = record {
  observe = false;
  prompt = false;
  mutate_session = false;
  stop_agent = false;
  answer_ui = false;
  administer_devices = false;
}

no_operation :
    {P : Payloads} (e : RequestEnvelope P)
    → validate e ≡ ok tt
    → is_mutating e.request ≡ false
    → e.operation_id ≡ none
no_operation e v m = elim (Option-cases e.operation_id) [
  | inl n ↦ n
  | inr (id, n) ↦ cc ((validate_exact e).0 v, m, ap is_some n)
]

nothing_authorized :
    {P : Payloads} (b : Bool) (request : ControlRequest P)
    → (b && authorized no_scopes request) ≡ false
unfolding authorized
nothing_authorized b request = ground arith

module _ {P : Payloads} (o : Outside P) {S : Type 0} where
  -- A request that is not valid, or that the scopes of the device do not cover, leaves the store
  -- and the controller as they were.
  refused_request :
      (x : Context o S) (device : DeviceRecord) (e : RequestEnvelope P) (w : World o x)
      → (is_ok (validate e) && authorized device.scopes e.request) ≡ false
      → (execute_request o x device e w).1 ≡ w
  unfolding execute_request request_outcome
  refused_request x device e w h = go (validate e) refl
    where
      go :
          (v : Result RequestValidationError (Unit {0}))
          → validate e ≡ v
          → (execute_request o x device e w).1 ≡ w
      go (err bad) v = rw (v, execute_request, request_outcome) refl
      go (ok tt) v = rw (v, execute_request, request_outcome) (rw (rw v at h) refl)

  unkeyed :
      (x : Context o S) (device : DeviceRecord) (e : RequestEnvelope P) (c : Db o) (s : S)
      → e.operation_id ≡ none
      → (run_authorized o x device e (c, s)).1.0 ≡ c
  unfolding run_authorized
  unkeyed x device e c s n = rw (n, run_authorized) refl

  -- A request that changes nothing, valid or not, leaves the store as it was.
  reading_request :
      (x : Context o S) (device : DeviceRecord) (e : RequestEnvelope P) (c : Db o) (s : S)
      → is_mutating e.request ≡ false
      → (execute_request o x device e (c, s)).1.0 ≡ c
  unfolding execute_request request_outcome
  reading_request x device e c s m = go (validate e) refl
    where
      go :
          (v : Result RequestValidationError (Unit {0}))
          → validate e ≡ v
          → (execute_request o x device e (c, s)).1.0 ≡ c
      go (err bad) v = rw (v, execute_request, request_outcome) refl
      go (ok tt) v = elim (Bool-cases (authorized device.scopes e.request)) [
        | inl a ↦
            rw (v, a, execute_request, request_outcome)
              (unkeyed x device e c s (no_operation e v m))
        | inr a ↦ rw (v, a, execute_request, request_outcome) refl
      ]

  -- A device without any scope changes neither the store nor the controller, whatever it requests.
  powerless_device :
      (x : Context o S) (device : DeviceRecord) (e : RequestEnvelope P) (w : World o x)
      → device.scopes ≡ no_scopes
      → (execute_request o x device e w).1 ≡ w
  powerless_device x device e w h =
      refused_request x device e w (rw h (nothing_authorized (is_ok (validate e)) e.request))

  module _ (x y : Context o S) (device : DeviceRecord) (e : RequestEnvelope P) (id : OperationId)
      (c : Db o) (s : S) (valid : validate e ≡ ok tt)
      (allowed : authorized device.scopes e.request ≡ true) (keyed : e.operation_id ≡ some id)
      (first : (claim_operation o (request_key device id) e.request x.claimed_at c).0
        ≡ ok execute) where
    abbrev key : OperationKey
    key = request_key device id

    -- The store after the claim.
    abbrev pub claimed : Db o
    claimed = (claim_operation o key e.request x.claimed_at c).1

    -- The store when the controller has answered.
    abbrev pub finished : Db o
    finished = x.elsewhere claimed

    request_reached :
        (z : Context o S) (w : World o z)
        → (request_outcome o z device e w ≡ run_authorized o z device e w)
    unfolding request_outcome
    request_reached z w = rw (valid, request_outcome) (rw allowed refl)

    claimed_run : run_authorized o x device e (c, s) ≡ run_operation o x key e.request (claimed, s)
    unfolding run_authorized answer_claim
    claimed_run = rw (keyed, first) refl

    run_completed :
        (complete_operation o key (x.execute e.request s).0 x.completed_at finished).0 ≡ ok tt
        → run_operation o x key e.request (claimed, s) ≡ (
          (x.execute e.request s).0,
          (
            (complete_operation o key (x.execute e.request s).0 x.completed_at finished).1,
            (x.execute e.request s).1,
          ),
        )
    unfolding run_operation
    run_completed h = rw (h, run_operation) refl

    first_run :
        (complete_operation o key (x.execute e.request s).0 x.completed_at finished).0 ≡ ok tt
        → request_outcome o x device e (c, s) ≡ (
          (x.execute e.request s).0,
          (
            (complete_operation o key (x.execute e.request s).0 x.completed_at finished).1,
            (x.execute e.request s).1,
          ),
        )
    first_run h = request_reached x (c, s) ∙ claimed_run ∙ run_completed h

    rerun :
        (outcome : ResponseOutcome) (c' : Db o) (s' : S)
        → claim_operation o key e.request y.claimed_at c'
          ≡ (ok (OperationClaim.completed outcome), c')
        → request_outcome o y device e (c', s') ≡ (outcome, (c', s'))
    unfolding run_authorized answer_claim
    rerun outcome c' s' h = request_reached y (c', s') ∙ rw (keyed, h) refl

    -- A request that is valid, covered by the scopes and claimed for execution, whose outcome is
    -- then recorded while other tasks leave its row alone, is answered, when it is sent again,
    -- with the same response, and neither the store nor the controller changes. The codec decodes
    -- what it encoded, and the clock of the second request is within i64.
    pub retry_same_response :
        (codec : (outcome : ResponseOutcome) (b : o.Blob)
          → o.encode_outcome outcome ≡ ok b
          → o.decode_outcome b ≡ ok outcome)
        → y.claimed_at ≤ i64_max
        → find key finished.operations ≡ find key claimed.operations
        → (complete_operation o key (x.execute e.request s).0 x.completed_at finished).0 ≡ ok tt
        → execute_request o y device e (execute_request o x device e (c, s)).1
          ≡ execute_request o x device e (c, s)
    unfolding execute_request
    retry_same_response codec m kept h =
        rw (first_run h, execute_request)
          (rw
            (rerun (x.execute e.request s).0 _ (x.execute e.request s).1 (
              claim_again_completed o key e.request x.claimed_at c first codec
                (x.execute e.request s).0 x.completed_at y.claimed_at finished m kept h))
            refl)
