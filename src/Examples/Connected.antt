-- ===== src/Examples/Connected.antt =====
-- Runs of the connection of crates/omp-control-client.
use omp_remote.Prelude.{
  ℕ, String, ◌↔◌, ◌≤◌, ◌<◌, ◌≡◌, refl, true, none, some, List, [], ◌∷◌, Result, ok, err, arith,
  ◌==◌, if◌then◌else◌, String_discrete,
}
use omp_remote.Protocol.Frame.Types.{
  ControlRequest, ServerWelcome, ServerShutdown, ServerFrame, ClientFrame, cli,
  ClientAuthentication,
}
use omp_remote.Protocol.Codec.{Cbor, decode, codec_limit}
use omp_remote.Client.Reducer.{empty}
use omp_remote.Client.Connection.Types.{
  Link, ClientConfig, AuthenticationSource, PendingPayload, ConnectionStatus, ClientRunner,
}
use omp_remote.Client.Connection.Handshake.{
  receive_welcome, check_welcome, accept_credential, session_limit,
}
use omp_remote.Client.Connection.Handshake.Trust.{welcome_trusted}
use omp_remote.Client.Connection.Session.{SocketEvent, Input, Stage, Session, step, run}
use omp_remote.Client.Connection.Handle.{validate_operation_id}
use omp_remote.Client.Connection.Handle.Valid.{validate_operation_id_agrees}
use omp_remote.Protocol.Frame.Checks.{validate}
use omp_remote.Client.Connection.Answers.Tracked.{answers, Tracked}
use omp_remote.Client.Connection.Answers.Requests.{
  is_finished, asked, stop, request_tracked, shutdown_answers,
}
use omp_remote.Examples.Data.{payloads}

abbrev welcome_frame : ServerWelcome
welcome_frame = record {
  protocol_version = 1;
  server_id = "server";
  connection_id = "connection";
  device_id = "device";
  capabilities = record { enabled = []; max_frame_bytes = 40 };
  heartbeat_interval_ms = 1000;
  issued_credential = none;
}

abbrev goodbye : ServerShutdown
goodbye = record { reason = "update"; reconnect_after_ms = some 45 }

-- A frame is one byte. What comes in is the goodbye, if its byte is 2, and otherwise the welcome.
abbrev read_frame : List ℕ → Result String (ServerFrame payloads × ℕ)
read_frame [] = err "empty"
read_frame (n ∷ rest) =
    if n == 2
    then ok (ServerFrame.server_shutdown goodbye, 1)
    else ok (ServerFrame.welcome welcome_frame, 1)

abbrev sent_byte : Cbor (ClientFrame payloads)
sent_byte = record {
  buffers = λ f. (1 ∷ []) ∷ [];
  failure = λ f. none;
  read = λ bytes. err "not read";
}

abbrev welcome_byte : Cbor (ServerFrame payloads)
welcome_byte = record { buffers = λ f. (1 ∷ []) ∷ []; failure = λ f. none; read = read_frame }

-- The socket counts what it is given.
abbrev wire : Link payloads
wire = record {
  Socket = ℕ;
  send_binary = λ bytes n. (ok tt, n);
  outgoing = sent_byte;
  incoming = welcome_byte;
  codec_text = λ e. "codec";
  run_text = λ e. "stopped";
  Credentials = ℕ;
  load = λ id c. ok none;
  save = λ c s. (ok tt, s);
  format_id = λ kind prefix n. kind;
}

abbrev device : ClientAuthentication
device = ClientAuthentication.device "device" "token"

abbrev settings : ClientConfig
settings = record {
  server_id = "server";
  client = record {
    name = "client";
    version = "1";
    platform = cli;
    capabilities = record { requested = [] };
  };
  authentication = AuthenticationSource.pair device;
  frame_limits = record { pre_auth_limit = 20; post_auth_limit = 30 };
  reconnect = record { initial_delay = 5; maximum_delay = 60 };
}

abbrev idle_runner : ClientRunner wire
idle_runner = record {
  credentials = 0;
  state = empty;
  status = ConnectionStatus.connecting;
  ids = record { prefix = "p"; counter = 0 };
  desired_subscriptions = [];
  pending = [];
  response_index = [];
  next_pending = 0;
  active_credential = none;
  effects = [];
}

abbrev attempt : Session wire
attempt = record { stage = Stage.opening device; reconnect_delay = 5; runner = idle_runner }

-- The first attempt fails, the second one is welcomed, and then the server shuts down.
abbrev reconnection : List (Input wire)
reconnection =
    Input.opened (err "refused")
    ∷ Input.slept
    ∷ Input.opened (ok 0)
    ∷ Input.received (ok (SocketEvent.binary (1 ∷ [])))
    ∷ Input.received (ok (SocketEvent.binary (2 ∷ [])))
    ∷ []

abbrev listing : PendingPayload payloads
listing = PendingPayload.request ControlRequest.list_agents

request_tracked_example :
    Tracked 0 listing none 9
      (run wire settings (asked wire settings listing none 9 ∷ reconnection) attempt).runner.pending
      (run wire settings (asked wire settings listing none 9 ∷ reconnection) attempt).runner.effects
request_tracked_example =
    request_tracked wire settings listing none 9 attempt reconnection (omega arith) refl
      (record { no_wait = refl; no_answer = refl }) (tt, (tt, (tt, (tt, (tt, tt)))))

abbrev last_session : Session wire
last_session =
    step wire settings (stop wire settings listing none 9 none)
      (run wire settings (asked wire settings listing none 9 ∷ reconnection) attempt)

shutdown_answers_example :
    (is_finished last_session.stage ≡ true)
    × (last_session.runner.pending ≡ [])
    × (answers 9 last_session.runner.effects ≡ 1)
shutdown_answers_example =
    shutdown_answers wire settings listing none 9 attempt reconnection (omega arith) refl
      (record { no_wait = refl; no_answer = refl }) (tt, (tt, (tt, (tt, (tt, tt))))) none

welcome_received :
    (receive_welcome wire settings device (1 ∷ []) idle_runner).0 ≡ ok (welcome_frame, 30)
unfolding receive_welcome check_welcome accept_credential session_limit decode codec_limit
    String_discrete
welcome_received = refl

welcome_trusted_example :
    (welcome_frame.server_id ≡ settings.server_id)
    × (welcome_frame.protocol_version ≡ 1)
    × (welcome_frame.issued_credential ≡ none)
    × (0 < 30)
    × (30 ≤ 30)
welcome_trusted_example =
    welcome_trusted wire settings device (1 ∷ []) idle_runner welcome_frame 30 welcome_received

abbrev id_text : String → String → ℕ → String
id_text kind prefix n = kind

abbrev listing_request : ControlRequest payloads
listing_request = ControlRequest.list_agents

operation_id_agrees_example :
    (validate_operation_id id_text listing_request (some "op") ≡ ok tt) ↔ (
      validate
        (record { request_id = "request"; operation_id = some "op"; request = listing_request })
      ≡ ok tt)
operation_id_agrees_example =
    validate_operation_id_agrees id_text listing_request (some "op") "request"
