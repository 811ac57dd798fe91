-- ===== src/Examples/Greeted.antt =====
-- Connections to the daemon: a phone that pairs in its first message, and what is written to a client.
use omp_remote.Prelude.{none, some, [], ◌∷◌, ok, length, ◌≡◌, ◌≤◌, refl, String_discrete}
use omp_remote.Prelude.BTreeMap
use omp_remote.Protocol.Id.{new_identifier}
use omp_remote.Protocol.Frame.Types.{ClientFrame, ClientHello, pair, cli, all_scopes}
use omp_remote.Protocol.Frame.Checks.{
  negotiate_client_hello, negotiate_version, first_offered, offers,
}
use omp_remote.Protocol.Codec.{Bytes, Cbor, FrameLimits, decode, codec_limit}
use omp_remote.Daemon.Store.Columns.{sql_u64, wire_u64, decode_platform, encode_platform}
use omp_remote.Daemon.Store.Operations.Ops.{Db}
use omp_remote.Daemon.Store.Devices.Ops.{load_device, decode_device, insert_row}
use omp_remote.Daemon.Store.Pairing.Ops.{exchange_pairing, redeem, decode_pairing, check_pairing}
use omp_remote.Daemon.Greeting.{
  Arrival, message, binary, Authenticated, first_hello, authenticate, authenticate_first_frame,
}
use omp_remote.Daemon.Greeting.Current.{IsCurrent}
use omp_remote.Daemon.Greeting.Admitted.{admitted}
use omp_remote.Protocol.State.{SubscriptionStart}
use omp_remote.Protocol.Frame.Types.{ServerFrame}
use omp_remote.Protocol.Codec.{encode, write_all, write, encoded}
use omp_remote.Daemon.Emit.{start_frames}
use omp_remote.Daemon.Outbound.{
  Round, run_writer, emit_subscription_start, new_outbound, message_of,
}
use omp_remote.Daemon.Outbound.Order.{start_written}
use omp_remote.Prelude.{arith, true, err}
use omp_remote.Examples.Data.{payloads, outside, db, genesis}

abbrev pairing_hello : ClientHello
pairing_hello = record {
  supported_versions = 1 ∷ [];
  client = record {
    name = "app";
    version = "1";
    platform = cli;
    capabilities = record { requested = [] };
  };
  authentication = pair "phone" "secret" (record { name = "phone"; platform = cli });
  resume = record { subscriptions = [] };
}

-- A codec that reads every message of one byte as the hello.
abbrev hello_codec : Cbor (ClientFrame payloads)
hello_codec = record {
  buffers = λ frame. (7 ∷ []) ∷ [];
  failure = λ frame. none;
  read = λ bytes. ok (ClientFrame.hello pairing_hello, 1);
}

abbrev limits : FrameLimits
limits = record { pre_auth_limit = 4; post_auth_limit = 8 }

abbrev first_message : Arrival
first_message = message (binary (7 ∷ []))

abbrev paired_db : Db outside
paired_db =
    (authenticate_first_frame outside 20 "server" "new" "fresh" hello_codec limits first_message
      db).1

abbrev paired : Authenticated
paired = record {
  device = record {
    device_id = "new";
    name = "phone";
    platform = cli;
    scopes = all_scopes;
    created_at_ms = 20;
    last_seen_at_ms = some 20;
    revoked_at_ms = none;
  };
  issued_credential =
      some
        (record { server_id = "server"; device_id = "new"; token = "fresh"; scopes = all_scopes });
}

admitted_example :
    IsCurrent outside paired.device "fresh" paired_db
    × ((bytes : Bytes) × (first_message ≡ message (binary bytes)) × (length bytes ≤ 4))
unfolding authenticate_first_frame first_hello negotiate_client_hello decode authenticate
    exchange_pairing load_device decode_device new_identifier String_discrete redeem decode_pairing
    check_pairing insert_row sql_u64 wire_u64 decode_platform encode_platform BTreeMap.get
    BTreeMap.insert negotiate_version first_offered offers codec_limit
admitted_example =
    admitted outside "server" "new" "fresh" 20 hello_codec limits first_message db paired_db
      pairing_hello 1 paired refl

abbrev in_time : Round
in_time = record { idle_ms = 0; unix_time_ms = 5; delivered = true }

abbrev one_byte : Cbor (ServerFrame payloads)
one_byte = record {
  buffers = λ frame. (9 ∷ []) ∷ [];
  failure = λ frame. none;
  read = λ bytes. err "not read";
}

-- A snapshot of an agent that the client has lost track of, after a gap.
written_example :
    (run_writer one_byte 8 15
      (λ n. [])
      (in_time ∷ in_time ∷ [])
      (emit_subscription_start (SubscriptionStart.resync_required genesis) (new_outbound 4))).0
    ≡ binary (9 ∷ []) ∷ binary (9 ∷ []) ∷ []
unfolding message_of encode write_all write encoded start_frames
written_example =
    start_written one_byte 8 15 (λ n. []) (SubscriptionStart.resync_required genesis) 4
      (in_time ∷ in_time ∷ []) (binary (9 ∷ []) ∷ binary (9 ∷ []) ∷ []) (omega arith)
      (refl, (refl, tt)) refl (refl, (refl, tt))
