-- ===== src/Client/Connection/Answers/Run.antt =====
-- One request of crates/omp-control-client/src/client.rs, from its command to the end of the task.
use omp_remote.Prelude.{
  ℕ, suc, ◌<◌, ◌^◌, ◌≡◌, refl, Option, none, some, Result, ok, err, subst, sym,
}
use omp_remote.Protocol.Id.{OperationId}
use omp_remote.Protocol.Frame.Types.{Payloads, ClientAuthentication, ServerFrame}
use omp_remote.Client.Connection.Types.{
  Link, ClientConfig, ClientRunError, HandshakeError, ClientCommand, PendingPayload, Sender,
  SessionEnd,
}
use omp_remote.Client.Connection.Pending.{Runner}
use omp_remote.Client.Connection.Frames.{
  handle_offline_command, handle_connected_command, handle_server_frame,
}
use omp_remote.Client.Connection.Handshake.{send_hello, receive_welcome}
use omp_remote.Client.Connection.Session.{
  SocketEvent, Input, Stage, Session, back_off, offline, step_opening, closed_early, step_greeting,
  serve_frame, decoded, step_serving, step_sleeping, step,
}
use omp_remote.Client.Connection.Answers.Steps.{Follows, weaken}
use omp_remote.Client.Connection.Answers.Commands.{
  frame_handled, offline_handled, connected_handled, offline-Empties, connected-Empties,
}
use omp_remote.Client.Connection.Answers.Sessions.{
  Closed, Good, LeavesInput, begun, slept_for, handshake_failed, greeted, welcome_received,
  welcoming, ended, commanding, serving_on, disconnected_by,
}
use omp_remote.Client.Connection.Answers.Ends.{frame-IsNoShutdown}

module _ {P : Payloads} (link : Link P) (config : ClientConfig) (key : ℕ)
    (payload : PendingPayload P) (operation_id : Option OperationId) (k : Sender) where
  abbrev Fine : ℕ → Session link → Type 0
  Fine n s = Good link config key payload operation_id k n s

  abbrev LeavesIt : Input link → Type 0
  LeavesIt i = LeavesInput link config key payload operation_id k i

  module _ (n : ℕ) (b : suc n < 2 ^ 64) (s : Session link) (h : Fine n s) where
    now : Follows link key payload operation_id k (suc n) s.runner
    now = weaken link key payload operation_id k n s.runner h.0

    unmoved : Fine (suc n) s
    unmoved = (now, h.1)

    -- A command where there is no connection, in a stage that is not the end.
    offline_step :
        (c : Option (ClientCommand P))
        → LeavesIt (Input.command c)
        → ((r : Runner link) → Closed s.stage r)
        → Fine (suc n) (offline link config s (handle_offline_command link c s.runner))
    offline_step c l w =
        disconnected_by link config key payload operation_id k (suc n) s
          (handle_offline_command link c s.runner)
          (offline_handled link key payload operation_id k n c s.runner b l h.0)
          (offline-Empties link key payload operation_id k c s.runner) w

    opening_step :
        (a : ClientAuthentication) (i : Input link)
        → LeavesIt i
        → ((r : Runner link) → Closed s.stage r)
        → Fine (suc n) (step_opening link config a i s)
    opening_step a (Input.command c) l w = offline_step c l w
    opening_step a (Input.opened (ok socket)) l w =
        greeted link config key payload operation_id k (suc n) a s.reconnect_delay s.runner
          (send_hello link config a s.runner socket) now
    opening_step a (Input.opened (err e)) l w =
        slept_for link config key payload operation_id k (suc n) (some e) s.reconnect_delay
          (back_off link config s.reconnect_delay) s.reconnect_delay s.runner now
    opening_step a (Input.received x) l w = unmoved
    opening_step a Input.slept l w = unmoved

    greeting_step :
        (a : ClientAuthentication) (socket : link.Socket) (i : Input link)
        → LeavesIt i
        → ((r : Runner link) → Closed s.stage r)
        → Fine (suc n) (step_greeting link config a socket i s)
    greeting_step a socket (Input.command c) l w = offline_step c l w
    greeting_step a socket (Input.received (err e)) l w =
        handshake_failed link config key payload operation_id k (suc n) (HandshakeError.transport e)
          s.reconnect_delay s.runner now
    greeting_step a socket (Input.received (ok (SocketEvent.closed reason))) l w =
        handshake_failed link config key payload operation_id k (suc n)
          (HandshakeError.transport (closed_early link config reason)) s.reconnect_delay s.runner
          now
    greeting_step a socket (Input.received (ok (SocketEvent.binary bytes))) l w =
        welcoming link config key payload operation_id k (suc n) socket s.reconnect_delay
          (receive_welcome link config a bytes s.runner)
          (welcome_received link config key payload operation_id k (suc n) a bytes s.runner now)
    greeting_step a socket (Input.opened x) l w = unmoved
    greeting_step a socket Input.slept l w = unmoved

    frame_served :
        (max : ℕ) (socket : link.Socket) (x : Result ClientRunError (ServerFrame P))
        → Fine (suc n) (serve_frame link config max socket s x)
    frame_served max socket (ok f) =
        serving_on link config key payload operation_id k (suc n) max s.reconnect_delay
          (handle_server_frame link max f s.runner socket)
          (frame_handled link key payload operation_id k (suc n) max f s.runner socket now)
          (frame-IsNoShutdown link max f s.runner socket)
    frame_served max socket (err e) =
        ended link config key payload operation_id k (suc n) (SessionEnd.fatal e) s.reconnect_delay
          s.runner now (λ same. cc)

    serving_step :
        (max : ℕ) (socket : link.Socket) (i : Input link)
        → LeavesIt i
        → Fine (suc n) (step_serving link config max socket i s)
    serving_step max socket (Input.command c) l =
        commanding link config key payload operation_id k (suc n) max s.reconnect_delay
          (handle_connected_command link max c s.runner socket)
          (connected_handled link key payload operation_id k n max c s.runner socket b l h.0)
          (connected-Empties link key payload operation_id k max c s.runner socket)
    serving_step max socket (Input.received (err e)) l =
        ended link config key payload operation_id k (suc n) (SessionEnd.reconnect (some e) none)
          s.reconnect_delay s.runner now (λ same. cc)
    serving_step max socket (Input.received (ok (SocketEvent.closed reason))) l =
        ended link config key payload operation_id k (suc n) (SessionEnd.reconnect reason none)
          s.reconnect_delay s.runner now (λ same. cc)
    serving_step max socket (Input.received (ok (SocketEvent.binary bytes))) l =
        frame_served max socket (decoded link config max bytes)
    serving_step max socket (Input.opened x) l = unmoved
    serving_step max socket Input.slept l = unmoved

    sleeping_step :
        (later : ℕ) (i : Input link)
        → LeavesIt i
        → ((r : Runner link) → Closed s.stage r)
        → Fine (suc n) (step_sleeping link config later i s)
    sleeping_step later (Input.command c) l w = offline_step c l w
    sleeping_step later Input.slept l w =
        begun link config key payload operation_id k (suc n) later s.runner now
    sleeping_step later (Input.opened x) l w = unmoved
    sleeping_step later (Input.received x) l w = unmoved

    pub stepped : (i : Input link) → LeavesIt i → Fine (suc n) (step link config i s)
    unfolding step
    stepped i l = go s.stage refl
      where
        open_in :
            (stage : Stage link)
            → s.stage ≡ stage
            → ((r : Runner link) → Closed stage r)
            → (r : Runner link) → Closed s.stage r
        open_in stage e w r = subst (λ x. Closed x r) (sym e) (w r)

        go : (stage : Stage link) → s.stage ≡ stage → Fine (suc n) (step link config i s)
        go (Stage.opening a) e = rw (e, step) (opening_step a i l (open_in _ e (λ r. tt)))
        go (Stage.greeting a socket) e =
            rw (e, step) (greeting_step a socket i l (open_in _ e (λ r. tt)))
        go (Stage.serving max socket) e = rw (e, step) (serving_step max socket i l)
        go (Stage.sleeping d later) e =
            rw (e, step) (sleeping_step later i l (open_in _ e (λ r. tt)))
        go (Stage.finished result) e = rw (e, step) unmoved
