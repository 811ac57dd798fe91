-- ===== src/Client/Connection/Pending.antt =====
-- The table of pending requests of crates/omp-control-client/src/client.rs.
use omp_remote.Prelude.{
  ℕ, ◌+◌, ◌%◌, ◌^◌, String, Option, none, some, List, [], ◌∷◌, ◌++◌, Result, ok, err, checked_add,
  false,
}
use omp_remote.Prelude.BTreeMap
use omp_remote.Prelude.BTreeMap.{BTreeMap}
use omp_remote.Prelude.NumMap
use omp_remote.Prelude.NumMap.{NumMap}
use omp_remote.Protocol.Id.{RequestId, OperationId, new_identifier}
use omp_remote.Protocol.Frame.Types.{
  Payloads, ClientFrame, ResponseEnvelope, ResponseOutcome, ControlResponse, ProtocolError,
}
use omp_remote.Protocol.Codec.{encode}
use omp_remote.Client.Connection.Types.{
  Link, ClientEvent, RequestError, protocol, Sender, PendingPayload, PendingRequest, IdGenerator,
  Effect, ClientRunner,
}

-- `IdGenerator::next`.
unfoldable pub next :
    (String → String → ℕ → String) → String → IdGenerator → Option String × IdGenerator
unfolding checked_add
next format_id kind g = elim (checked_add g.counter 1) [
  | none ↦ (none, g)
  | some c ↦ (some (format_id kind g.prefix g.counter), record g { counter = c })
]

-- `PendingRequest::frame`.
abbrev pub frame_of :
    {P : Payloads} → PendingPayload P → Option OperationId → RequestId → ClientFrame P
frame_of (PendingPayload.request request) operation_id request_id =
    ClientFrame.request
      (record { request_id = request_id; operation_id = operation_id; request = request })
frame_of (PendingPayload.ui_response agent_id holder response given) operation_id request_id =
    ClientFrame.ui_response (record {
      agent_id = agent_id;
      request_id = request_id;
      operation_id = given;
      holder = holder;
      response = response;
    })

abbrev pub frame : {P : Payloads} → PendingRequest P → RequestId → ClientFrame P
frame p request_id = frame_of p.payload p.operation_id request_id

-- `ResponseOutcome` as the result of the request.
abbrev pub outcome_of : ResponseOutcome → Result RequestError ControlResponse
outcome_of (ResponseOutcome.success response) = ok response
outcome_of (ResponseOutcome.error error) = err (protocol error)

module _ {P : Payloads} (link : Link P) where
  abbrev pub Runner : Type 0
  Runner = ClientRunner link

  abbrev pub emit : Effect P → Runner → Runner
  emit e r = record r { effects = r.effects ++ (e ∷ []) }

  abbrev pub broadcast : ClientEvent P → Runner → Runner
  broadcast event r = emit (Effect.broadcast event) r

  -- `send_frame`: the frame is encoded under the limit of the codec and sent.
  unfoldable pub send_frame :
      ℕ → ClientFrame P → link.Socket → Result String (Unit {0}) × link.Socket
  unfolding encode
  send_frame max f socket = elim (encode link.outgoing max f) [
    | err e ↦ (err (link.codec_text e), socket)
    | ok bytes ↦ link.send_binary bytes socket
  ]

  unfoldable pub insert_pending :
      PendingPayload P → Option OperationId → Sender → Runner → ℕ × Runner
  insert_pending payload operation_id response r = (
    r.next_pending,
    record r {
      next_pending = (r.next_pending + 1) % 2 ^ 64;
      pending =
          NumMap.insert r.next_pending
            (record {
              payload = payload;
              operation_id = operation_id;
              sent_request_id = none;
              response = response;
            })
            r.pending;
    },
  )

  -- `next_request_id`: the ID, unless the generator is exhausted or the ID is not valid.
  unfoldable pub next_request_id : Runner → Option RequestId × Runner
  unfolding next new_identifier
  next_request_id r =
      let (value, ids) = next link.format_id "request" r.ids in
      (
        elim value [
          | none ↦ none
          | some v ↦ elim (new_identifier "request ID" v) [ err e ↦ none | ok id ↦ some id ]
        ],
        record r { ids = ids },
      )

  abbrev pub mark_sent : RequestId → PendingRequest P → PendingRequest P
  mark_sent request_id p = record p { sent_request_id = some request_id }

  -- What follows a frame that was sent.
  abbrev pub record_sent : RequestId → ℕ → Runner → Runner
  record_sent request_id key r = record r {
    pending = NumMap.modify (mark_sent request_id) key r.pending;
    response_index = BTreeMap.insert request_id key r.response_index;
  }

  abbrev pub Sent : Type 0
  Sent = Result String (Unit {0}) × Runner × link.Socket

  abbrev pub after_send : RequestId → ℕ → Runner → Result String (Unit {0}) × link.Socket → Sent
  after_send request_id key r (err e, socket) = (err e, r, socket)
  after_send request_id key r (ok done, socket) = (ok tt, record_sent request_id key r, socket)

  -- `send_pending`, with a number for the codec's limit.
  unfoldable pub send_pending : ℕ → ℕ → Runner → link.Socket → Sent
  unfolding send_frame next_request_id
  send_pending max key r socket =
      let (id, r') = next_request_id r in
      elim id [
        | none ↦ (err "control client identifier space is exhausted", r', socket)
        | some request_id ↦ elim (NumMap.get key r'.pending) [
          | none ↦ (err "pending request disappeared before send", r', socket)
          | some p ↦ after_send request_id key r' (send_frame max (frame p request_id) socket)
        ]
      ]

  abbrev pub unexpected_response : ProtocolError
  unexpected_response = record {
    code = "unexpected_response";
    message = "server response did not match an in-flight request";
    retryable = false;
  }

  unfoldable pub complete_response : ResponseEnvelope → Runner → Runner
  complete_response e r = elim (BTreeMap.get e.request_id r.response_index) [
    | none ↦ broadcast (ClientEvent.protocol_error unexpected_response) r
    | some key ↦
        let r' = record r { response_index = BTreeMap.remove e.request_id r.response_index } in
        elim (NumMap.get key r'.pending) [
          | none ↦ r'
          | some p ↦
              emit (Effect.answer p.response (outcome_of e.outcome))
                (record r' { pending = NumMap.remove key r'.pending })
        ]
  ]

  abbrev pub mark_unsent : PendingRequest P → PendingRequest P
  mark_unsent p = record p { sent_request_id = none }

  abbrev pub mark_pending_disconnected : Runner → Runner
  mark_pending_disconnected r = record r {
    response_index = [];
    pending = NumMap.update mark_unsent r.pending;
  }

  abbrev pub fail_all : RequestError → NumMap (PendingRequest P) → List (Effect P)
  fail_all error [] = []
  fail_all error ((key, p) ∷ m) = Effect.answer p.response (err error) ∷ fail_all error m

  abbrev pub fail_pending : RequestError → Runner → Runner
  fail_pending error r = record r {
    effects = r.effects ++ fail_all error r.pending;
    response_index = [];
    pending = [];
  }
