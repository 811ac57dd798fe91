-- ===== src/Client/Connection/Answers/Steps.antt =====
-- One request of crates/omp-control-client/src/client.rs, through what the task does with commands and
-- frames.
use omp_remote.Prelude.{
  ℕ, suc, ◌+◌, ◌<◌, ◌≤◌, ◌%◌, ◌^◌, ◌≡◌, ◌≢◌, refl, false, String, Option, some, List, [], ◌∷◌,
  Result, ok, err, arith, inl, inr, Option-cases,
}
use omp_remote.Prelude.BTreeMap
use omp_remote.Prelude.BTreeMap.{keys, contains_key}
use omp_remote.Prelude.NumMap
use omp_remote.Protocol.Id.{RequestId, OperationId}
use omp_remote.Protocol.Frame.Types.{Payloads, ResponseEnvelope}
use omp_remote.Client.Reducer.{ReplicationEffect}
use omp_remote.Client.Connection.Types.{
  Link, RequestError, ClientCommand, PendingPayload, PendingRequest, Sender, Effect,
}
use omp_remote.Client.Connection.Pending.{
  Runner, Sent, emit, insert_pending, next_request_id, after_send, send_pending, outcome_of,
  complete_response, mark_pending_disconnected, fail_all, fail_pending,
}
use omp_remote.Client.Connection.Frames.{
  send_subscription, or_reconnect, apply_effect, apply_effects,
}
use omp_remote.Client.Connection.Answers.Table.{waits}
use omp_remote.Client.Connection.Answers.Tracked.{
  answers, IsQuiet, Tracked, answers-append, Tracked-quiet, Tracked-insert, Tracked-modify,
  Tracked-update, Tracked-respond,
}

module _ {P : Payloads} (link : Link P) (key : ℕ) (payload : PendingPayload P)
    (operation_id : Option OperationId) (k : Sender) where
  abbrev Bounded : ℕ → Runner link → Type 0
  Bounded n r = (key < r.next_pending) × (r.next_pending ≤ n)

  -- The request is tracked, and the keys until now are below a bound.
  abbrev pub Follows : ℕ → Runner link → Type 0
  Follows n r = Tracked key payload operation_id k r.pending r.effects × Bounded n r

  -- A command that does not answer on the request's channel.
  abbrev pub Leaves : Option (ClientCommand P) → Type 0
  Leaves (some (ClientCommand.request other id tx)) = tx ≢ k
  Leaves _ = Unit

  abbrev pub Empties : Runner link → Type 0
  Empties r = r.pending ≡ []

  module _ (n : ℕ) where
    pub weaken : (r : Runner link) → Follows n r → Follows (suc n) r
    weaken r h = (h.0, (h.1.0, omega (arith, h.1.1)))

    pub emitted :
        (e : Effect P) (r : Runner link) → IsQuiet e → Follows n r → Follows n (emit link e r)
    emitted e r q h = (Tracked-quiet key payload operation_id k r.pending r.effects e q h.0, h.1)

    pub inserted :
        (x : PendingPayload P) (id : Option OperationId) (tx : Sender) (r : Runner link)
        → suc n < 2 ^ 64
        → tx ≢ k
        → Follows n r
        → Follows (suc n) (insert_pending link x id tx r).1
    unfolding insert_pending
    inserted x id tx r b d h =
        let step : (r.next_pending + 1) % 2 ^ 64 ≡ suc r.next_pending = omega (arith, h.1.1) in
        (
          Tracked-insert key payload operation_id k r.pending r.effects r.next_pending _
              (omega (arith, h.1.0)) d h.0,
          (rw (step) (omega (arith, h.1.0)), rw (step) (omega (arith, h.1.1))),
        )

    after_send-Follows :
        (id : RequestId) (i : ℕ) (r : Runner link) (x : Result String (Unit {0}) × link.Socket)
        → Follows n r
        → Follows n (after_send link id i r x).1
    after_send-Follows id i r (err e, socket) h = h
    after_send-Follows id i r (ok done, socket) h =
        (Tracked-modify key payload operation_id k r.pending r.effects i (some id) h.0, h.1)

    pub sent_pending :
        (max i : ℕ) (r : Runner link) (socket : link.Socket)
        → Follows n r
        → Follows n (send_pending link max i r socket).1
    unfolding send_pending next_request_id
    sent_pending max i r socket h = elim (Option-cases (next_request_id link r).0) [
      | inl e ↦ rw (e, send_pending) h
      | inr (id, e) ↦ elim (Option-cases (NumMap.get i r.pending)) [
        | inl f ↦ rw (e, f, send_pending) h
        | inr (p, f) ↦
            rw (e, f, send_pending) (after_send-Follows id i (next_request_id link r).1 _ h)
      ]
    ]

    pub completed :
        (e : ResponseEnvelope) (r : Runner link)
        → Follows n r
        → Follows n (complete_response link e r)
    unfolding complete_response
    completed e r h = elim (Option-cases (BTreeMap.get e.request_id r.response_index)) [
      | inl f ↦ rw (f, complete_response) (emitted (Effect.broadcast _) r tt h)
      | inr (i, f) ↦ elim (Option-cases (NumMap.get i r.pending)) [
        | inl g ↦ rw (f, g, complete_response) h
        | inr (p, g) ↦
            rw (f, g, complete_response)
              (
                Tracked-respond key payload operation_id k r.pending r.effects i p
                    (outcome_of e.outcome) g h.0,
                h.1,
              )
      ]
    ]

    pub marked : (r : Runner link) → Follows n r → Follows n (mark_pending_disconnected link r)
    marked r h = (Tracked-update key payload operation_id k r.pending r.effects h.0, h.1)

    pub answers-fail_all :
        (error : RequestError) (m : NumMap.NumMap (PendingRequest P))
        → answers k (fail_all link error m) ≡ waits k m
    answers-fail_all error [] = refl
    answers-fail_all error ((i, p) ∷ m) = ground (arith, answers-fail_all error m)

    pub failed :
        (error : RequestError) (r : Runner link)
        → Follows n r
        → Follows n (fail_pending link error r)
    failed error r (inl h, l) = (
      inr (record {
        gone = refl;
        answered = omega (
          arith,
          answers-append k r.effects (fail_all link error r.pending),
          answers-fail_all error r.pending,
          h.once,
          h.unanswered,
        );
      }),
      l,
    )
    failed error r (inr h, l) = (
      inr (record {
        gone = refl;
        answered = omega (
          arith,
          answers-append k r.effects (fail_all link error r.pending),
          answers-fail_all error r.pending,
          h.gone,
          h.answered,
        );
      }),
      l,
    )

    pub reconnected : (x : Sent link) → Follows n x.1 → Follows n (or_reconnect link x).1
    reconnected (ok done, r, socket) h = h
    reconnected (err e, r, socket) h = h

    effect_applied :
        (max : ℕ) (e : ReplicationEffect P) (r : Runner link) (socket : link.Socket)
        → Follows n r
        → Follows n (apply_effect link max e r socket).1
    unfolding apply_effect send_subscription
    effect_applied max (ReplicationEffect.state_changed a) r socket h =
        emitted (Effect.broadcast _) r tt h
    effect_applied max (ReplicationEffect.event a) r socket h = emitted (Effect.broadcast _) r tt h
    effect_applied max (ReplicationEffect.interaction a) r socket h =
        emitted (Effect.broadcast _) r tt h
    effect_applied max (ReplicationEffect.resync_required a) r socket h =
        reconnected (send_subscription link max a false _ socket)
          (emitted (Effect.broadcast _) r tt h)

    pub effects_applied :
        (max : ℕ) (es : List (ReplicationEffect P)) (r : Runner link) (socket : link.Socket)
        → Follows n r
        → Follows n (apply_effects link max es r socket).1
    unfolding apply_effects
    effects_applied max [] r socket h = h
    effects_applied max (e ∷ es) r socket h =
        let x = apply_effect link max e r socket in
        let after = effect_applied max e r socket h in
        elim (Option-cases x.0) [
          | inl f ↦ rw (f, apply_effects) (effects_applied max es x.1 x.2 after)
          | inr (end, f) ↦ rw (f, apply_effects) after
        ]
