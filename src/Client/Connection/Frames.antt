-- ===== src/Client/Connection/Frames.antt =====
-- What the connection of crates/omp-control-client/src/client.rs does with commands and with frames of
-- the server. A codec is its limit.
use omp_remote.Prelude.{
  ℕ, Bool, true, false, String, Option, none, some, List, [], ◌∷◌, Result, ok, err, if◌then◌else◌,
}
use omp_remote.Prelude.BTreeMap
use omp_remote.Prelude.BTreeMap.{contains_key, keys}
use omp_remote.Prelude.NumMap
use omp_remote.Protocol.Id.{AgentId}
use omp_remote.Protocol.Frame.Types.{Payloads, ClientFrame, ServerFrame}
use omp_remote.Client.Reducer.{ReplicationEffect, cursor, apply}
use omp_remote.Client.Connection.Types.{
  Link, ClientEvent, client_stopped, ClientRunError, ClientCommand, SessionEnd, Effect,
}
use omp_remote.Client.Connection.Pending.{
  Runner, Sent, emit, broadcast, send_frame, insert_pending, send_pending, complete_response,
  fail_pending,
}

abbrev pub frame_agent_id : {P : Payloads} → ServerFrame P → Option AgentId
frame_agent_id (ServerFrame.delta e) = some e.delta.agent_id
frame_agent_id (ServerFrame.event e) = some e.agent_id
frame_agent_id (ServerFrame.interaction_request e) = some e.agent_id
frame_agent_id (ServerFrame.replay_gap gap) = some gap.agent_id
frame_agent_id (ServerFrame.snapshot s) = elim s.agents [
  | [] ↦ none
  | agent ∷ rest ↦ elim rest [ [] ↦ some agent.agent_id | another ∷ more ↦ none ]
]
frame_agent_id _ = none

pub data CommandAction : Type 0 where
  continue shutdown : CommandAction

module _ {P : Payloads} (link : Link P) where
  abbrev pub with_runner : Runner link → Result String (Unit {0}) × link.Socket → Sent link
  with_runner r (result, socket) = (result, r, socket)

  -- With the cursor of the replica, if there is one, where the subscription resumes.
  unfoldable pub send_subscription : ℕ → AgentId → Bool → Runner link → link.Socket → Sent link
  unfolding send_frame cursor
  send_subscription max agent_id resume r socket = with_runner r (
      send_frame link max
        (ClientFrame.subscribe (record {
          agent_id = agent_id;
          cursor = if resume then cursor r.state agent_id else none;
        }))
        socket)

  -- What a command does while there is no connection, and whether it stops the client.
  unfoldable pub handle_offline_command :
      Option (ClientCommand P) → Runner link → Bool × Runner link
  unfolding insert_pending
  handle_offline_command none r = (true, fail_pending link client_stopped r)
  handle_offline_command (some (ClientCommand.request payload operation_id response)) r =
      (false, (insert_pending link payload operation_id response r).1)
  handle_offline_command (some (ClientCommand.subscribe agent_id)) r = (
    false,
    record r { desired_subscriptions = BTreeMap.insert agent_id tt r.desired_subscriptions },
  )
  handle_offline_command (some (ClientCommand.unsubscribe agent_id)) r =
      (false, record r { desired_subscriptions = BTreeMap.remove agent_id r.desired_subscriptions })
  handle_offline_command (some (ClientCommand.shutdown tx)) r =
      (true, fail_pending link client_stopped (emit link (Effect.acknowledge tx) r))

  abbrev pub Commanded : Type 0
  Commanded = Result String CommandAction × Runner link × link.Socket

  abbrev pub continued : Sent link → Commanded
  continued (ok done, r, socket) = (ok continue, r, socket)
  continued (err e, r, socket) = (err e, r, socket)

  unfoldable pub handle_connected_command :
      ℕ → Option (ClientCommand P) → Runner link → link.Socket → Commanded
  unfolding insert_pending send_pending send_subscription send_frame
  handle_connected_command max none r socket =
      (ok CommandAction.shutdown, fail_pending link client_stopped r, socket)
  handle_connected_command max (some (ClientCommand.request payload operation_id response)) r
        socket =
      let (key, r') = insert_pending link payload operation_id response r in
      continued (send_pending link max key r' socket)
  handle_connected_command max (some (ClientCommand.subscribe agent_id)) r socket =
      let r' = record r {
        desired_subscriptions = BTreeMap.insert agent_id tt r.desired_subscriptions;
      } in
      if contains_key agent_id r.desired_subscriptions
      then (ok continue, r', socket)
      else continued (send_subscription max agent_id true r' socket)
  handle_connected_command max (some (ClientCommand.unsubscribe agent_id)) r socket =
      let r' = record r {
        desired_subscriptions = BTreeMap.remove agent_id r.desired_subscriptions;
      } in
      if contains_key agent_id r.desired_subscriptions
      then continued
          (with_runner r' (send_frame link max (ClientFrame.unsubscribe agent_id) socket))
      else (ok continue, r', socket)
  handle_connected_command max (some (ClientCommand.shutdown tx)) r socket = (
    ok CommandAction.shutdown,
    fail_pending link client_stopped (emit link (Effect.acknowledge tx) r),
    socket,
  )

  abbrev pub Ended : Type 0
  Ended = Option SessionEnd × Runner link × link.Socket

  -- A subscription that cannot be sent ends the session.
  abbrev pub or_reconnect : Sent link → Ended
  or_reconnect (ok done, r, socket) = (none, r, socket)
  or_reconnect (err e, r, socket) = (some (SessionEnd.reconnect (some e) none), r, socket)

  unfoldable pub apply_effect : ℕ → ReplicationEffect P → Runner link → link.Socket → Ended
  unfolding send_subscription
  apply_effect max (ReplicationEffect.state_changed agent_id) r socket =
      (none, broadcast link (ClientEvent.state_changed agent_id) r, socket)
  apply_effect max (ReplicationEffect.event e) r socket =
      (none, broadcast link (ClientEvent.agent_event e) r, socket)
  apply_effect max (ReplicationEffect.interaction i) r socket =
      (none, broadcast link (ClientEvent.interaction_request i) r, socket)
  apply_effect max (ReplicationEffect.resync_required agent_id) r socket = or_reconnect (
      send_subscription max agent_id false (broadcast link (ClientEvent.resync_required agent_id) r)
        socket)

  unfoldable pub apply_effects : ℕ → List (ReplicationEffect P) → Runner link → link.Socket → Ended
  unfolding apply_effect
  apply_effects max [] r socket = (none, r, socket)
  apply_effects max (e ∷ es) r socket =
      let (end, r', socket') = apply_effect max e r socket in
      elim end [ some x ↦ (some x, r', socket') | none ↦ apply_effects max es r' socket' ]

  -- The arm of a frame that the replica is to apply.
  unfoldable pub replicate : ℕ → ServerFrame P → Runner link → link.Socket → Ended
  unfolding apply apply_effects send_subscription
  replicate max f r socket =
      let (result, replica) = apply P r.state f in
      let r' = record r { state = replica } in
      elim result [
        | ok effects ↦ apply_effects max effects r' socket
        | err e ↦
            let r'' = broadcast link (ClientEvent.replication_error e) r' in
            elim (frame_agent_id f) [
              | none ↦ (none, r'', socket)
              | some agent_id ↦ or_reconnect (send_subscription max agent_id false r'' socket)
            ]
      ]

  unfoldable pub handle_server_frame : ℕ → ServerFrame P → Runner link → link.Socket → Ended
  unfolding complete_response replicate
  handle_server_frame max (ServerFrame.response e) r socket =
      (none, complete_response link e r, socket)
  handle_server_frame max (ServerFrame.error e) r socket =
      (none, broadcast link (ClientEvent.protocol_error e) r, socket)
  handle_server_frame max (ServerFrame.pong n) r socket = (none, r, socket)
  handle_server_frame max (ServerFrame.server_shutdown s) r socket =
      (some (SessionEnd.reconnect (some s.reason) s.reconnect_after_ms), r, socket)
  handle_server_frame max (ServerFrame.welcome w) r socket = (
    some (SessionEnd.fatal (ClientRunError.protocol "server sent a second welcome frame")),
    r,
    socket,
  )
  handle_server_frame max f r socket = replicate max f r socket

  unfoldable pub send_subscriptions : ℕ → List AgentId → Runner link → link.Socket → Sent link
  unfolding send_subscription
  send_subscriptions max [] r socket = (ok tt, r, socket)
  send_subscriptions max (agent_id ∷ ids) r socket =
      let (result, r', socket') = send_subscription max agent_id true r socket in
      elim result [ ok done ↦ send_subscriptions max ids r' socket' | err e ↦ (err e, r', socket') ]

  unfoldable pub send_all_pending : ℕ → List ℕ → Runner link → link.Socket → Sent link
  unfolding send_pending
  send_all_pending max [] r socket = (ok tt, r, socket)
  send_all_pending max (key ∷ ks) r socket =
      let (result, r', socket') = send_pending link max key r socket in
      elim result [ ok done ↦ send_all_pending max ks r' socket' | err e ↦ (err e, r', socket') ]

  unfoldable pub initialize_connection : ℕ → Runner link → link.Socket → Sent link
  unfolding send_subscriptions send_all_pending
  initialize_connection max r socket =
      let (result, r', socket') = send_subscriptions max (keys r.desired_subscriptions) r socket in
      elim result [
        | ok done ↦ send_all_pending max (NumMap.keys r'.pending) r' socket'
        | err e ↦ (err e, r', socket')
      ]
