-- ===== src/Daemon/Greeting.antt =====
-- `authenticate_first_frame` of crates/ompd/src/server.rs: the first message of a connection, and the
-- device that it shows to be. The clock, the server's ID and what is drawn at random are arguments.
use omp_remote.Prelude.{ℕ, String, Option, none, some, Result, ok, err, length, ltb, if◌then◌else◌}
use omp_remote.Protocol.Id.{DeviceId, ServerId}
use omp_remote.Protocol.Frame.Types.{
  Payloads, ProtocolVersion, ClientHello, ClientFrame, ClientAuthentication, pair, device,
  DeviceCredential, DeviceToken,
}
use omp_remote.Protocol.Frame.Checks.{negotiate_client_hello}
use omp_remote.Protocol.Codec.{Bytes, Cbor, FrameLimits, codec_limit, decode, pre_auth}
use omp_remote.Daemon.Store.Types.{Outside, DeviceRecord, StoreError}
use omp_remote.Daemon.Store.Operations.Ops.{Db}
use omp_remote.Daemon.Store.Devices.Ops.{authenticate_device, load_device}
use omp_remote.Daemon.Store.Pairing.Ops.{exchange_pairing}
pub mod Current
pub mod Admitted

-- `Message` of axum.
pub data Message : Type 0 where
  binary ping pong : Bytes → Message
  text : String → Message
  close : Message

-- What `socket.recv` gives within the time for the authentication.
pub data Arrival : Type 0 where
  timed_out ended failed : Arrival
  message : Message → Arrival

pub record Authenticated : Type 0 where
  pub device : DeviceRecord
  pub issued_credential : Option DeviceCredential

-- `.ok()`.
abbrev pub to_option : {E A : Type 0} → Result E A → Option A
to_option (ok a) = some a
to_option (err e) = none

-- The hello and the version of the first message, if it is a binary one that fits, decodes to a hello
-- and offers a version in common.
unfoldable pub first_hello :
    {P : Payloads}
    → Cbor (ClientFrame P)
    → FrameLimits
    → Arrival
    → Option (ClientHello × ProtocolVersion)
unfolding decode negotiate_client_hello
first_hello cbor limits (message (binary bytes)) =
    if ltb limits.pre_auth_limit (length bytes)
    then none
    else (elim (decode cbor (codec_limit limits pre_auth) bytes) [
      | err e ↦ none
      | ok frame ↦ to_option (negotiate_client_hello frame)
    ])
first_hello cbor limits _ = none

module _ {P : Payloads} (o : Outside P) where
  abbrev pub known_device :
      Result StoreError (Option DeviceRecord) → Option DeviceCredential → Option Authenticated
  known_device (ok (some d)) credential =
      some (record { device = d; issued_credential = credential })
  known_device _ credential = none

  abbrev pub greeted :
      ClientHello
      → ProtocolVersion
      → Option Authenticated × Db o
      → Option (ClientHello × ProtocolVersion × Authenticated) × Db o
  greeted h v (none, c) = (none, c)
  greeted h v (some a, c) = (some (h, v, a), c)

  module _ (now_ms : ℕ) (server_id : ServerId) (fresh_id : DeviceId)
      (fresh_token : DeviceToken) where
    -- The `match` on the hello's authentication. The pairing stays consumed if its device is not
    -- found.
    unfoldable pub authenticate : ClientAuthentication → Db o → Option Authenticated × Db o
    unfolding authenticate_device exchange_pairing load_device
    authenticate (device device_id token) c =
        let (r, c') = authenticate_device o device_id token now_ms c in
        (
          elim r [ err e ↦ none | ok d ↦ some (record { device = d; issued_credential = none }) ],
          c',
        )
    authenticate (pair pairing_id secret descriptor) c =
        let (r, c') =
          exchange_pairing o server_id fresh_id fresh_token pairing_id secret descriptor now_ms c in
        (
          elim r [
            | err e ↦ none
            | ok credential ↦ known_device (load_device o credential.device_id c') (some credential)
          ],
          c',
        )

    unfoldable pub authenticate_first_frame :
        Cbor (ClientFrame P)
        → FrameLimits
        → Arrival
        → Db o
        → Option (ClientHello × ProtocolVersion × Authenticated) × Db o
    unfolding first_hello authenticate
    authenticate_first_frame cbor limits arrival c = elim (first_hello cbor limits arrival) [
      | none ↦ (none, c)
      | some (h, v) ↦ greeted h v (authenticate h.authentication c)
    ]
