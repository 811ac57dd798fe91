-- ===== src/Examples/Messages.antt =====
-- Runs of the protocol: changes of a snapshot, deltas, and what a hello agrees on.
use omp_remote.Prelude.{
  ℕ, String, ◌≡◌, ◌↔◌, refl, none, some, [], ◌∷◌, Result, ok, err, arith, ltb, if◌then◌else◌,
}
use omp_remote.Protocol.Codec.{
  Bytes, Cbor, CborLaws, encode, decode, write, write_all, encoded, new_limits, codec_limit,
  pre_auth, authenticated,
}
use omp_remote.Protocol.Codec.Limits.{early_frame}
use omp_remote.Protocol.State.{
  apply_delta, apply_change, RunSnapshot, RunLifecycle, run_upserted, run_removed,
}
use omp_remote.Protocol.State.WellFormed.{IsWellFormed, apply_change-IsWellFormed}
use omp_remote.Protocol.State.Advance.{Fits, applied, apply_delta_exact}
use omp_remote.Examples.Data.{genesis, at_one, at_two}

abbrev running_run : RunSnapshot
running_run = record {
  run_id = "run";
  lifecycle = RunLifecycle.running;
  started_at_ms = 3;
  ended_at_ms = none;
}

runs_example : IsWellFormed (apply_change genesis (run_upserted running_run))
runs_example =
    apply_change-IsWellFormed genesis (run_upserted running_run)
      (record { distinct = tt; ended = tt; active_ok = tt })

delta_example :
    (apply_delta at_one
        (record { agent_id = "agent"; base_revision = 0; revision = 1; change = run_removed "run" })
        2
      ≡ ok at_two)
    ↔ (Fits at_one
          (record {
            agent_id = "agent";
            base_revision = 0;
            revision = 1;
            change = run_removed "run";
          })
          2
        × (at_two
            ≡ applied at_one
                (record {
                  agent_id = "agent";
                  base_revision = 0;
                  revision = 1;
                  change = run_removed "run";
                })
                2))
delta_example =
    apply_delta_exact at_one at_two
      (record { agent_id = "agent"; base_revision = 0; revision = 1; change = run_removed "run" }) 2

abbrev read_byte : Bytes → Result String (ℕ × ℕ)
read_byte [] = err "empty"
read_byte (n ∷ rest) = ok (n, 1)

-- A codec of a number as one byte, and of a number above 255 as a failure after no byte.
abbrev byte_codec : Cbor ℕ
byte_codec = record {
  buffers = λ n. if ltb 255 n then [] else (n ∷ []) ∷ [];
  failure = λ n. if ltb 255 n then some "too large" else none;
  read = read_byte;
}

byte_laws : CborLaws byte_codec
byte_laws = record { read_written = λ n h. ground arith }

seven_encoded : encode byte_codec 1 7 ≡ ok (7 ∷ [])
unfolding encode write_all write encoded
seven_encoded = refl

limits_accepted : new_limits 1 2 ≡ ok (record { pre_auth_limit = 1; post_auth_limit = 2 })
unfolding new_limits
limits_accepted = refl

early_limit : codec_limit (record { pre_auth_limit = 1; post_auth_limit = 2 }) pre_auth ≡ 1
unfolding codec_limit
early_limit = refl

early_encoded :
    encode byte_codec (codec_limit (record { pre_auth_limit = 1; post_auth_limit = 2 }) pre_auth) 7
    ≡ ok (7 ∷ [])
early_encoded = rw early_limit seven_encoded

early_example :
    decode byte_codec
      (codec_limit (record { pre_auth_limit = 1; post_auth_limit = 2 }) authenticated)
      (7 ∷ [])
    ≡ ok 7
early_example =
    early_frame byte_codec byte_laws 1 2 (record { pre_auth_limit = 1; post_auth_limit = 2 })
      authenticated 7 (7 ∷ []) limits_accepted early_encoded
