-- ===== src/Client/Connection/Session.antt =====
-- `ClientRunner::run` of crates/omp-control-client/src/client.rs. The task waits at four places,
-- `connect`, `handshake`, `run_connection` and `wait_before_reconnect`, each for a command or for one
-- thing more; a step is what follows until it waits again.
use omp_remote.Prelude.{
  ℕ, ◌*◌, min, Bool, true, false, String, Option, none, some, List, [], ◌∷◌, Result, ok, err,
  map_err,
}
use omp_remote.Protocol.Frame.Types.{Payloads, ClientAuthentication, ServerWelcome, ServerFrame}
use omp_remote.Protocol.Codec.{decode}
use omp_remote.Client.Connection.Types.{
  Link, ClientConfig, ConnectionStatus, connecting, connected, stopped, disconnected, ClientEvent,
  ClientRunError, ClientCommand, HandshakeError, SessionEnd, client_stopped,
}
use omp_remote.Client.Connection.Pending.{
  Runner, Sent, broadcast, mark_pending_disconnected, fail_pending,
}
use omp_remote.Client.Connection.Frames.{
  CommandAction, Commanded, Ended, handle_offline_command, handle_connected_command,
  handle_server_frame, initialize_connection,
}
use omp_remote.Client.Connection.Handshake.{authentication, send_hello, receive_welcome}

pub data SocketEvent : Type 0 where
  binary : List ℕ → SocketEvent
  closed : Option String → SocketEvent

pub data Input {P : Payloads} (link : Link P) : Type 0 where
  command : Option (ClientCommand P) → Input link
  opened : Result String link.Socket → Input link
  received : Result String SocketEvent → Input link
  slept : Input link

-- Where the task waits; a sleep has its length and the delay that is the next one after it.
pub data Stage {P : Payloads} (link : Link P) : Type 0 where
  opening : ClientAuthentication → Stage link
  greeting : ClientAuthentication → link.Socket → Stage link
  serving : ℕ → link.Socket → Stage link
  sleeping : ℕ → ℕ → Stage link
  finished : Result ClientRunError (Unit {0}) → Stage link

pub record Session {P : Payloads} (link : Link P) : Type 0 where
  pub stage : Stage link
  pub reconnect_delay : ℕ
  pub runner : Runner link

-- `u64::MAX` seconds are not reached: a saturating product is the product up to the maximum.
unfoldable pub next_delay : ℕ → ℕ → ℕ
next_delay current maximum = min (current * 2) maximum

module _ {P : Payloads} (link : Link P) (config : ClientConfig) where
  abbrev pub set_status : ConnectionStatus → Runner link → Runner link
  set_status status r =
      broadcast link (ClientEvent.connection_changed status) (record r { status = status })

  abbrev pub finish : Result ClientRunError (Unit {0}) → ℕ → Runner link → Session link
  finish result delay r = record {
    stage = Stage.finished result;
    reconnect_delay = delay;
    runner = r;
  }

  abbrev pub finish_shutdown : ℕ → Runner link → Session link
  finish_shutdown delay r = finish (ok tt) delay (set_status (stopped none) r)

  abbrev pub stop_with_error : ClientRunError → ℕ → Runner link → Session link
  stop_with_error error delay r =
      finish (err error) delay
        (set_status (stopped (some (link.run_text error))) (fail_pending link client_stopped r))

  -- The start of the loop's body, up to `connect`.
  abbrev pub authenticated_session :
      ℕ → Result ClientRunError ClientAuthentication × Runner link → Session link
  authenticated_session delay (ok a, r) = record {
    stage = Stage.opening a;
    reconnect_delay = delay;
    runner = r;
  }
  authenticated_session delay (err error, r) = stop_with_error error delay r

  unfoldable pub begin : ℕ → Runner link → Session link
  unfolding authentication
  begin delay r = authenticated_session delay (authentication link config (set_status connecting r))

  -- The wait before the next attempt, for a time, and the delay that is the next one then.
  abbrev pub sleep_for : Option String → ℕ → ℕ → ℕ → Runner link → Session link
  sleep_for reason duration later delay r = record {
    stage = Stage.sleeping duration later;
    reconnect_delay = delay;
    runner = set_status (disconnected reason) r;
  }

  abbrev pub back_off : ℕ → ℕ
  back_off delay = next_delay delay config.reconnect.maximum_delay

  -- `set_status` of the lost connection stands before the marks, which emit nothing.
  abbrev pub lose : Option String → ℕ → ℕ → ℕ → Runner link → Session link
  lose reason duration later delay r =
      sleep_for reason duration later delay (mark_pending_disconnected link r)

  abbrev pub fail_handshake : HandshakeError → ℕ → Runner link → Session link
  fail_handshake (HandshakeError.transport e) delay r = lose (some e) delay (back_off delay) delay r
  fail_handshake (HandshakeError.fatal e) delay r = stop_with_error e delay r

  abbrev pub greet :
      ClientAuthentication → ℕ → Runner link → Result String (Unit {0}) × link.Socket → Session link
  greet a delay r (ok done, socket) = record {
    stage = Stage.greeting a socket;
    reconnect_delay = delay;
    runner = r;
  }
  greet a delay r (err e, socket) = fail_handshake (HandshakeError.transport e) delay r

  abbrev pub serve : ℕ → ℕ → Sent link → Session link
  serve max delay (ok done, r, socket) = record {
    stage = Stage.serving max socket;
    reconnect_delay = delay;
    runner = r;
  }
  serve max delay (err e, r, socket) = lose (some e) delay delay delay r

  -- What follows the handshake: the delay starts again.
  abbrev pub welcomed :
      link.Socket → ℕ → Result HandshakeError (ServerWelcome × ℕ) × Runner link → Session link
  welcomed socket delay (err e, r) = fail_handshake e delay r
  welcomed socket delay (ok (w, max), r) = serve max config.reconnect.initial_delay (
      initialize_connection link max
        (set_status (connected w.server_id w.device_id w.protocol_version) r) socket)

  abbrev pub end_session : SessionEnd → ℕ → Runner link → Session link
  end_session SessionEnd.shutdown delay r = finish_shutdown delay r
  end_session (SessionEnd.reconnect reason after) delay r =
      lose reason (elim after [ none ↦ delay | some d ↦ d ]) (back_off delay) delay r
  end_session (SessionEnd.fatal e) delay r = stop_with_error e delay r

  abbrev pub commanded : ℕ → ℕ → Commanded link → Session link
  commanded max delay (ok CommandAction.continue, r, socket) = record {
    stage = Stage.serving max socket;
    reconnect_delay = delay;
    runner = r;
  }
  commanded max delay (ok CommandAction.shutdown, r, socket) =
      end_session SessionEnd.shutdown delay r
  commanded max delay (err e, r, socket) = end_session (SessionEnd.reconnect (some e) none) delay r

  abbrev pub served : ℕ → ℕ → Ended link → Session link
  served max delay (none, r, socket) = record {
    stage = Stage.serving max socket;
    reconnect_delay = delay;
    runner = r;
  }
  served max delay (some end, r, socket) = end_session end delay r

  abbrev pub offline : Session link → Bool × Runner link → Session link
  offline s (true, r) = finish_shutdown s.reconnect_delay r
  offline s (false, r) = record s { runner = r }

  abbrev pub step_opening : ClientAuthentication → Input link → Session link → Session link
  step_opening a (Input.command c) s = offline s (handle_offline_command link c s.runner)
  step_opening a (Input.opened (ok socket)) s =
      greet a s.reconnect_delay s.runner (send_hello link config a s.runner socket)
  step_opening a (Input.opened (err e)) s =
      sleep_for (some e) s.reconnect_delay (back_off s.reconnect_delay) s.reconnect_delay s.runner
  step_opening a _ s = s

  abbrev pub closed_early : Option String → String
  closed_early none = "server closed during authentication"
  closed_early (some reason) = reason

  abbrev pub step_greeting :
      ClientAuthentication → link.Socket → Input link → Session link → Session link
  step_greeting a socket (Input.command c) s = offline s (handle_offline_command link c s.runner)
  step_greeting a socket (Input.received (err e)) s =
      fail_handshake (HandshakeError.transport e) s.reconnect_delay s.runner
  step_greeting a socket (Input.received (ok (SocketEvent.closed reason))) s =
      fail_handshake (HandshakeError.transport (closed_early reason)) s.reconnect_delay s.runner
  step_greeting a socket (Input.received (ok (SocketEvent.binary bytes))) s =
      welcomed socket s.reconnect_delay (receive_welcome link config a bytes s.runner)
  step_greeting a socket _ s = s

  -- A message that does not decode ends the client.
  abbrev pub serve_frame :
      ℕ → link.Socket → Session link → Result ClientRunError (ServerFrame P) → Session link
  serve_frame max socket s (ok f) =
      served max s.reconnect_delay (handle_server_frame link max f s.runner socket)
  serve_frame max socket s (err e) = end_session (SessionEnd.fatal e) s.reconnect_delay s.runner

  abbrev pub decoded : ℕ → List ℕ → Result ClientRunError (ServerFrame P)
  decoded max bytes =
      map_err (λ e. ClientRunError.protocol (link.codec_text e)) (decode link.incoming max bytes)

  abbrev pub step_serving : ℕ → link.Socket → Input link → Session link → Session link
  step_serving max socket (Input.command c) s =
      commanded max s.reconnect_delay (handle_connected_command link max c s.runner socket)
  step_serving max socket (Input.received (err e)) s =
      end_session (SessionEnd.reconnect (some e) none) s.reconnect_delay s.runner
  step_serving max socket (Input.received (ok (SocketEvent.closed reason))) s =
      end_session (SessionEnd.reconnect reason none) s.reconnect_delay s.runner
  step_serving max socket (Input.received (ok (SocketEvent.binary bytes))) s =
      serve_frame max socket s (decoded max bytes)
  step_serving max socket _ s = s

  abbrev pub step_sleeping : ℕ → Input link → Session link → Session link
  step_sleeping later (Input.command c) s = offline s (handle_offline_command link c s.runner)
  step_sleeping later Input.slept s = begin later s.runner
  step_sleeping later _ s = s

  -- An input for which the stage does not wait leaves all as it is.
  unfoldable pub step : Input link → Session link → Session link
  unfolding begin send_hello receive_welcome handle_offline_command handle_connected_command
      handle_server_frame initialize_connection decode
  step i s = elim s.stage [
    | Stage.opening a ↦ step_opening a i s
    | Stage.greeting a socket ↦ step_greeting a socket i s
    | Stage.serving max socket ↦ step_serving max socket i s
    | Stage.sleeping duration later ↦ step_sleeping later i s
    | Stage.finished result ↦ s
  ]

  unfoldable pub run : List (Input link) → Session link → Session link
  unfolding step
  run [] s = s
  run (i ∷ is) s = run is (step i s)
