-- ===== src/Examples/Chunked.antt =====
-- Runs of the reassembly of chunks.
use omp_remote.Prelude.{ℕ, ◌≡◌, refl, none, some, [], ◌∷◌, ok, arith, String_discrete}
use omp_remote.Wire.Chunks.{
  Message, other, rpc_chunk, Formats, RpcFrameDecoder, parse_message, push, push_chunk,
  continue_chunks, settle_pending,
}
use omp_remote.Wire.Reassembly.{push_all, chunks_from, reassembled}
use omp_remote.Wire.Bounds.{Within, push-Within}

-- A chunk's payload is one byte, and a text any bytes.
abbrev plain : Formats ℕ
plain = record {
  base64 = λ s. 7 ∷ [];
  from_utf8 = λ bytes. some "text";
  from_json = λ json. some (other 3);
}

abbrev idle_decoder : RpcFrameDecoder
idle_decoder = record { pending = none; max_reassembled_frame_bytes = 10 }

parsed : parse_message plain (7 ∷ 7 ∷ []) ≡ ok (some (other 3))
unfolding parse_message
parsed = refl

reassembled_example :
    push_all plain (chunks_from plain "id" 2 2 0 ("a" ∷ "b" ∷ [])) idle_decoder
    ≡ (ok (other 3 ∷ []), idle_decoder)
reassembled_example =
    reassembled plain "id" 2 2 10 (omega arith) "a" "b" [] (other 3) refl refl parsed

abbrev chunk_message : Message ℕ
chunk_message =
    rpc_chunk (record { chunk_id = "id"; index = 0; count = 2; byte_length = 2; payload = "a" })

chunk_pushed : (push plain chunk_message idle_decoder).0 ≡ ok none
unfolding push push_chunk continue_chunks settle_pending String_discrete
chunk_pushed = refl

bounded_example :
    Within
      (push plain chunk_message idle_decoder).1.pending
      (push plain chunk_message idle_decoder).1.max_reassembled_frame_bytes
bounded_example = push-Within plain chunk_message idle_decoder none chunk_pushed
