-- ===== src/Client/Connection/Answers/Commands.antt =====
-- One request of crates/omp-control-client/src/client.rs, through the frames and commands of a
-- connection.
use omp_remote.Prelude.{
  ℕ, suc, ◌<◌, ◌^◌, ◌≡◌, ◌≢◌, refl, true, false, Option, none, some, List, [], ◌∷◌, Result, ok, err,
  inl, inr, Bool-cases, Result-cases,
}
use omp_remote.Prelude.BTreeMap
use omp_remote.Prelude.BTreeMap.{keys, contains_key}
use omp_remote.Prelude.NumMap
use omp_remote.Protocol.Id.{AgentId, OperationId}
use omp_remote.Protocol.Frame.Types.{Payloads, ClientFrame, ServerFrame}
use omp_remote.Client.Reducer.{ReplicationEffect, ReplicationError, apply}
use omp_remote.Client.Connection.Types.{
  Link, ClientCommand, PendingPayload, Sender, Effect, client_stopped,
}
use omp_remote.Client.Connection.Pending.{
  Runner, Sent, emit, send_frame, insert_pending, send_pending, fail_pending,
}
use omp_remote.Client.Connection.Frames.{
  frame_agent_id, with_runner, send_subscription, handle_offline_command, CommandAction, continued,
  handle_connected_command, replicate, handle_server_frame, send_subscriptions, send_all_pending,
  initialize_connection,
}
use omp_remote.Client.Connection.Answers.Steps.{
  Follows, Leaves, weaken, emitted, inserted, sent_pending, completed, failed, reconnected,
  effects_applied,
}

module _ {P : Payloads} (link : Link P) (key : ℕ) (payload : PendingPayload P)
    (operation_id : Option OperationId) (k : Sender) where
  abbrev Here : ℕ → Runner link → Type 0
  Here n r = Follows link key payload operation_id k n r

  module _ (n : ℕ) where
    replicated :
        (max : ℕ) (f : ServerFrame P) (r : Runner link) (socket : link.Socket)
        → Here n r
        → Here n (replicate link max f r socket).1
    unfolding replicate send_subscription
    replicated max f r socket h = go (apply P r.state f).0 refl (frame_agent_id f) refl
      where
        go :
            (x : Result ReplicationError (List (ReplicationEffect P)))
            → (apply P r.state f).0 ≡ x
            → (a : Option AgentId) → frame_agent_id f ≡ a
            → Here n (replicate link max f r socket).1
        go (ok es) e a q =
            rw (e, replicate)
              (effects_applied link key payload operation_id k n max es
                (record r { state = (apply P r.state f).1 }) socket h)
        go (err x) e none q =
            rw (e, q, replicate)
              (emitted link key payload operation_id k n (Effect.broadcast _)
                (record r { state = (apply P r.state f).1 }) tt h)
        go (err x) e (some a) q =
            rw (e, q, replicate)
              (reconnected link key payload operation_id k n
                (send_subscription link max a false _ socket)
                (emitted link key payload operation_id k n (Effect.broadcast _)
                  (record r { state = (apply P r.state f).1 }) tt h))

    pub frame_handled :
        (max : ℕ) (f : ServerFrame P) (r : Runner link) (socket : link.Socket)
        → Here n r
        → Here n (handle_server_frame link max f r socket).1
    unfolding handle_server_frame
    frame_handled max (ServerFrame.response e) r socket h =
        completed link key payload operation_id k n e r h
    frame_handled max (ServerFrame.error e) r socket h =
        emitted link key payload operation_id k n (Effect.broadcast _) r tt h
    frame_handled max (ServerFrame.pong x) r socket h = h
    frame_handled max (ServerFrame.server_shutdown x) r socket h = h
    frame_handled max (ServerFrame.welcome x) r socket h = h
    frame_handled max (ServerFrame.snapshot x) r socket h =
        replicated max (ServerFrame.snapshot x) r socket h
    frame_handled max (ServerFrame.delta x) r socket h =
        replicated max (ServerFrame.delta x) r socket h
    frame_handled max (ServerFrame.event x) r socket h =
        replicated max (ServerFrame.event x) r socket h
    frame_handled max (ServerFrame.replay_gap x) r socket h =
        replicated max (ServerFrame.replay_gap x) r socket h
    frame_handled max (ServerFrame.interaction_request x) r socket h =
        replicated max (ServerFrame.interaction_request x) r socket h

    subscriptions_sent :
        (max : ℕ) (ids : List AgentId) (r : Runner link) (socket : link.Socket)
        → Here n r
        → Here n (send_subscriptions link max ids r socket).1
    unfolding send_subscriptions send_subscription
    subscriptions_sent max [] r socket h = h
    subscriptions_sent max (a ∷ ids) r socket h =
        let x = send_subscription link max a true r socket in
        elim (Result-cases x.0) [
          | inl (done, e) ↦ rw (e, send_subscriptions) (subscriptions_sent max ids r x.2 h)
          | inr (reason, e) ↦ rw (e, send_subscriptions) h
        ]

    pending_resent :
        (max : ℕ) (ks : List ℕ) (r : Runner link) (socket : link.Socket)
        → Here n r
        → Here n (send_all_pending link max ks r socket).1
    unfolding send_all_pending
    pending_resent max [] r socket h = h
    pending_resent max (i ∷ ks) r socket h =
        let after = sent_pending link key payload operation_id k n max i r socket h in
        let x = send_pending link max i r socket in
        elim (Result-cases x.0) [
          | inl (done, e) ↦ rw (e, send_all_pending) (pending_resent max ks x.1 x.2 after)
          | inr (reason, e) ↦ rw (e, send_all_pending) after
        ]

    pub initialized :
        (max : ℕ) (r : Runner link) (socket : link.Socket)
        → Here n r
        → Here n (initialize_connection link max r socket).1
    unfolding initialize_connection
    initialized max r socket h =
        let x = send_subscriptions link max (keys r.desired_subscriptions) r socket in
        let after = subscriptions_sent max (keys r.desired_subscriptions) r socket h in
        elim (Result-cases x.0) [
          | inl (done, e) ↦
              rw (e, initialize_connection)
                (pending_resent max (NumMap.keys x.1.pending) x.1 x.2 after)
          | inr (reason, e) ↦ rw (e, initialize_connection) after
        ]

    stopped :
        (tx : Sender) (r : Runner link)
        → Here n r
        → Here n (fail_pending link client_stopped (emit link (Effect.acknowledge tx) r))
    stopped tx r h =
        failed link key payload operation_id k n client_stopped
          (emit link (Effect.acknowledge tx) r)
          (emitted link key payload operation_id k n (Effect.acknowledge tx) r tt h)

    later : (r : Runner link) → Here n r → Here (suc n) r
    later r h = weaken link key payload operation_id k n r h

    pub offline_handled :
        (c : Option (ClientCommand P)) (r : Runner link)
        → suc n < 2 ^ 64
        → Leaves link key payload operation_id k c
        → Here n r
        → Here (suc n) (handle_offline_command link c r).1
    unfolding handle_offline_command
    offline_handled none r b l h =
        later (fail_pending link client_stopped r)
          (failed link key payload operation_id k n client_stopped r h)
    offline_handled (some (ClientCommand.request x id tx)) r b l h =
        inserted link key payload operation_id k n x id tx r b l h
    offline_handled (some (ClientCommand.subscribe a)) r b l h = later r h
    offline_handled (some (ClientCommand.unsubscribe a)) r b l h = later r h
    offline_handled (some (ClientCommand.shutdown tx)) r b l h =
        later (fail_pending link client_stopped (emit link (Effect.acknowledge tx) r))
          (stopped tx r h)

  pub continued-Here : (n : ℕ) (x : Sent link) → Here n x.1 → Here n (continued link x).1
  continued-Here n (ok done, r, socket) h = h
  continued-Here n (err e, r, socket) h = h

  pub connected_handled :
      (n max : ℕ) (c : Option (ClientCommand P)) (r : Runner link) (socket : link.Socket)
      → suc n < 2 ^ 64
      → Leaves link key payload operation_id k c
      → Here n r
      → Here (suc n) (handle_connected_command link max c r socket).1
  unfolding handle_connected_command send_subscription
  connected_handled n max none r socket b l h =
      later n (fail_pending link client_stopped r)
        (failed link key payload operation_id k n client_stopped r h)
  connected_handled n max (some (ClientCommand.request x id tx)) r socket b l h =
      let r' = insert_pending link x id tx r in
      continued-Here (suc n) (send_pending link max r'.0 r'.1 socket) (
        sent_pending link key payload operation_id k (suc n) max r'.0 r'.1 socket
          (inserted link key payload operation_id k n x id tx r b l h))
  connected_handled n max (some (ClientCommand.subscribe a)) r socket b l h =
      let r' : Runner link = record r {
        desired_subscriptions = BTreeMap.insert a tt r.desired_subscriptions;
      } in
      elim (Bool-cases (contains_key a r.desired_subscriptions)) [
        | inl e ↦ rw (e, handle_connected_command) (later n r h)
        | inr e ↦
            rw (e, handle_connected_command)
              (continued-Here (suc n) (send_subscription link max a true r' socket) (later n r' h))
      ]
  connected_handled n max (some (ClientCommand.unsubscribe a)) r socket b l h =
      let r' : Runner link = record r {
        desired_subscriptions = BTreeMap.remove a r.desired_subscriptions;
      } in
      elim (Bool-cases (contains_key a r.desired_subscriptions)) [
        | inl e ↦
            rw (e, handle_connected_command)
              (continued-Here (suc n)
                (with_runner link r' (send_frame link max (ClientFrame.unsubscribe a) socket))
                (later n r' h))
        | inr e ↦ rw (e, handle_connected_command) (later n r h)
      ]
  connected_handled n max (some (ClientCommand.shutdown tx)) r socket b l h =
      later n (fail_pending link client_stopped (emit link (Effect.acknowledge tx) r))
        (stopped n tx r h)

  -- A command that ends the session leaves nothing pending.
  pub offline-Empties :
      (c : Option (ClientCommand P)) (r : Runner link)
      → (handle_offline_command link c r).0 ≡ true
      → (handle_offline_command link c r).1.pending ≡ []
  unfolding handle_offline_command
  offline-Empties none r h = refl
  offline-Empties (some (ClientCommand.request x id tx)) r h = cc
  offline-Empties (some (ClientCommand.subscribe a)) r h = cc
  offline-Empties (some (ClientCommand.unsubscribe a)) r h = cc
  offline-Empties (some (ClientCommand.shutdown tx)) r h = refl

  continued_on : (x : Sent link) → (continued link x).0 ≢ ok CommandAction.shutdown
  continued_on (ok done, r, socket) h = cc
  continued_on (err e, r, socket) h = cc

  pub connected-Empties :
      (max : ℕ) (c : Option (ClientCommand P)) (r : Runner link) (socket : link.Socket)
      → (handle_connected_command link max c r socket).0 ≡ ok CommandAction.shutdown
      → (handle_connected_command link max c r socket).1.pending ≡ []
  unfolding handle_connected_command
  connected-Empties max none r socket h = refl
  connected-Empties max (some (ClientCommand.request x id tx)) r socket h =
      absurd (continued_on _ h)
  connected-Empties max (some (ClientCommand.subscribe a)) r socket h =
      elim (Bool-cases (contains_key a r.desired_subscriptions)) [
        | inl e ↦ cc (rw (e) at h)
        | inr e ↦ absurd (continued_on _ (rw (e) at h))
      ]
  connected-Empties max (some (ClientCommand.unsubscribe a)) r socket h =
      elim (Bool-cases (contains_key a r.desired_subscriptions)) [
        | inl e ↦ absurd (continued_on _ (rw (e) at h))
        | inr e ↦ cc (rw (e) at h)
      ]
  connected-Empties max (some (ClientCommand.shutdown tx)) r socket h = refl
