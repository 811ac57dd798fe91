-- ===== src/Client/Connection/Handshake.antt =====
-- The authentication and the handshake of crates/omp-control-client/src/client.rs.
pub mod Trust
use mathlib.Core.Logic.{ite}
use omp_remote.Prelude.{
  ℕ, min, Bool, true, false, not, ◌||◌, String, Option, none, some, List, [], ◌∷◌, Result, ok, err,
  ◌>>=◌, ◌>>◌, ok_or, map_err, reject_if, if◌then◌else◌, ◌==◌, String_discrete,
}
use omp_remote.Prelude.BTreeMap.{keys}
use omp_remote.Protocol.Id.{AgentId, ServerId}
use omp_remote.Protocol.State.{SubscriptionCursor}
use omp_remote.Protocol.Frame.Types.{
  Payloads, ClientAuthentication, ClientFrame, ServerFrame, ServerWelcome, DeviceCredential,
  ClientHello,
}
use omp_remote.Protocol.Codec.{FrameLimits, codec_limit, pre_auth, authenticated, decode}
use omp_remote.Client.Reducer.{ReplicatedState, cursor}
use omp_remote.Client.Connection.Types.{
  Link, AuthenticationSource, ClientConfig, ClientRunError, HandshakeError, ClientRunner,
  credential_unavailable, credential_server_mismatch, server_identity_mismatch, credential_storage,
}
use omp_remote.Client.Connection.Pending.{Runner, send_frame}

abbrev pub same_id : String → String → Bool
same_id a b = ite (String_discrete a b) true false

abbrev pub device_authentication : DeviceCredential → ClientAuthentication
device_authentication c = ClientAuthentication.device c.device_id c.token

-- The cursors that the replica has for the agents.
abbrev pub cursors_of : ReplicatedState → List AgentId → List SubscriptionCursor
cursors_of state [] = []
cursors_of state (agent_id ∷ ids) = elim (cursor state agent_id) [
  | none ↦ cursors_of state ids
  | some c ↦ c ∷ cursors_of state ids
]

abbrev pub fatal_protocol : String → HandshakeError
fatal_protocol message = HandshakeError.fatal (ClientRunError.protocol message)

module _ {P : Payloads} (link : Link P) (config : ClientConfig) where
  abbrev pub stored_authentication :
      DeviceCredential → Runner link → Result ClientRunError ClientAuthentication × Runner link
  stored_authentication c r =
      if same_id c.server_id config.server_id
      then (ok (device_authentication c), record r { active_credential = some c })
      else (err credential_server_mismatch, r)

  unfoldable pub authentication :
      Runner link → Result ClientRunError ClientAuthentication × Runner link
  authentication r = elim r.active_credential [
    | some c ↦ (ok (device_authentication c), r)
    | none ↦ elim config.authentication [
      | AuthenticationSource.pair a ↦ (ok a, r)
      | AuthenticationSource.stored_credential ↦
          elim (map_err credential_storage (link.load config.server_id r.credentials) >>= λ found.
          ok_or found credential_unavailable) [
            | err e ↦ (err e, r)
            | ok c ↦ stored_authentication c r
          ]
    ]
  ]

  -- `resume_cursors`
  abbrev pub resume_cursors : Runner link → List SubscriptionCursor
  resume_cursors r = cursors_of r.state (keys r.desired_subscriptions)

  abbrev pub hello_of : ClientAuthentication → Runner link → ClientFrame P
  hello_of a r = ClientFrame.hello (record {
    supported_versions = 1 ∷ [];
    client = config.client;
    authentication = a;
    resume = record { subscriptions = resume_cursors r };
  })

  -- The start of `handshake`, up to its loop.
  unfoldable pub send_hello :
      ClientAuthentication → Runner link → link.Socket → Result String (Unit {0}) × link.Socket
  unfolding send_frame codec_limit cursor
  send_hello a r socket =
      send_frame link (codec_limit config.frame_limits pre_auth) (hello_of a r) socket

  -- The arm of a pairing with the credential that the server has issued.
  abbrev pub save_credential :
      DeviceCredential → Runner link → Result HandshakeError (Unit {0}) × Runner link
  save_credential c r =
      let (saved, credentials) = link.save c r.credentials in
      elim saved [
        | err e ↦ (
          err (HandshakeError.fatal (credential_storage e)),
          record r { credentials = credentials },
        )
        | ok done ↦ (ok tt, record r { credentials = credentials; active_credential = some c })
      ]

  unfoldable pub accept_credential :
      ClientAuthentication
      → ServerWelcome
      → Runner link
      → Result HandshakeError (Unit {0}) × Runner link
  accept_credential (ClientAuthentication.pair pairing_id secret device) w r =
      elim w.issued_credential [
        | none ↦ (err (fatal_protocol "pairing welcome did not include a device credential"), r)
        | some c ↦
            if not (same_id c.server_id config.server_id) || not (same_id c.device_id w.device_id)
            then (err (HandshakeError.fatal credential_server_mismatch), r)
            else save_credential c r
      ]
  accept_credential (ClientAuthentication.device device_id token) w r =
      if same_id device_id w.device_id
      then (ok tt, r)
      else (err (HandshakeError.fatal credential_server_mismatch), r)

  -- The checks of the first frame, up to the credential.
  unfoldable pub check_welcome : List ℕ → Result HandshakeError ServerWelcome
  unfolding decode codec_limit
  check_welcome bytes =
      map_err (λ e. fatal_protocol (link.codec_text e))
        (decode link.incoming (codec_limit config.frame_limits authenticated) bytes)
      >>= λ f. elim f [
        | ServerFrame.welcome w ↦
            reject_if (not (w.protocol_version == 1))
              (fatal_protocol "server selected an unsupported protocol version")
            >> reject_if (not (same_id w.server_id config.server_id))
                (HandshakeError.fatal server_identity_mismatch)
            >> ok w
        | _ ↦ err (fatal_protocol "server did not send welcome as its first frame")
      ]

  -- The limit of the session's codec.
  unfoldable pub session_limit : ServerWelcome → Result HandshakeError ℕ
  session_limit w =
      let maximum = min w.capabilities.max_frame_bytes config.frame_limits.post_auth_limit in
      reject_if (maximum == 0) (fatal_protocol "server advertised a zero-byte frame limit")
      >> ok maximum

  abbrev pub negotiated :
      ServerWelcome
      → Result HandshakeError (Unit {0}) × Runner link
      → Result HandshakeError (ServerWelcome × ℕ) × Runner link
  negotiated w (accepted, r) = (
    accepted >>= λ done.
        session_limit w >>= λ maximum. ok (record w { issued_credential = none }, maximum),
    r,
  )

  -- The arm of the first message from the server.
  unfoldable pub receive_welcome :
      ClientAuthentication
      → List ℕ
      → Runner link
      → Result HandshakeError (ServerWelcome × ℕ) × Runner link
  unfolding check_welcome accept_credential session_limit
  receive_welcome a bytes r = elim (check_welcome bytes) [
    | err e ↦ (err e, r)
    | ok w ↦ negotiated w (accept_credential a w r)
  ]
