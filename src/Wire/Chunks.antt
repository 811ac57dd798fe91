-- ===== src/Wire/Chunks.antt =====
-- `RpcFrameDecoder` of crates/omp-rpc/src/frame.rs, which puts a message together from its chunks.
-- base64, UTF-8 and JSON come from libraries.
use mathlib.Core.Logic.{ite}
use omp_remote.Prelude.{
  ℕ, suc, Bool, true, false, ◌||◌, not, String, Option, none, some, List, [], ◌++◌, Result, ok, err,
  ltb, length, if◌then◌else◌, ◌==◌, is_some, String_discrete,
}

abbrev pub Bytes : Type 0
Bytes = List ℕ

pub record ChunkFrame : Type 0 where
  pub chunk_id : String
  pub index : ℕ
  pub count : ℕ
  pub byte_length : ℕ
  pub payload : String

-- A message: a ready frame by its limit on reassembled frames, a chunk, or any other.
pub data Message (B : Type 0) : Type 0 where
  ready : ℕ → Message B
  rpc_chunk : ChunkFrame → Message B
  other : B → Message B

pub record Formats (B : Type 0) : Type 0 where
  pub base64 : String → Bytes
  pub from_utf8 : Bytes → Option String
  pub from_json : String → Option (Message B)

pub data RpcFrameDecodeError : Type 0 where
  sequence_interrupted sequence_must_start_at_zero sequence_mismatch : RpcFrameDecodeError
  sequence_exceeds_declared_length sequence_length_mismatch : RpcFrameDecodeError
  declared_length_exceeds_limit invalid_utf8 invalid_json nested_chunk_frame : RpcFrameDecodeError

pub record PendingChunks : Type 0 where
  pub chunk_id : String
  pub count : ℕ
  pub byte_length : ℕ
  pub next_index : ℕ
  pub payload : Bytes

pub record RpcFrameDecoder : Type 0 where
  pub pending : Option PendingChunks
  pub max_reassembled_frame_bytes : ℕ

module _ {B : Type 0} (formats : Formats B) where
  abbrev pub Pushed : Type 0
  Pushed = Result RpcFrameDecodeError (Option (Message B)) × RpcFrameDecoder

  -- The end of `push`, when all chunks are there.
  unfoldable pub parse_message : Bytes → Result RpcFrameDecodeError (Option (Message B))
  parse_message bytes = elim (formats.from_utf8 bytes) [
    | none ↦ err invalid_utf8
    | some json ↦ elim (formats.from_json json) [
      | none ↦ err invalid_json
      | some (rpc_chunk chunk) ↦ err nested_chunk_frame
      | some message ↦ ok (some message)
    ]
  ]

  -- What follows once the chunk is appended to the pending ones.
  unfoldable pub settle_pending : PendingChunks → RpcFrameDecoder → Pushed
  unfolding parse_message
  settle_pending p d =
      if ltb p.byte_length (length p.payload)
      then (err sequence_exceeds_declared_length, record d { pending = some p })
      else if ltb p.next_index p.count
      then (ok none, record d { pending = some p })
      else if not (length p.payload == p.byte_length)
      then (err sequence_length_mismatch, record d { pending = some p })
      else (parse_message p.payload, record d { pending = none })

  abbrev pub differs_from : PendingChunks → ChunkFrame → Bool
  differs_from p chunk =
      not (ite (String_discrete p.chunk_id chunk.chunk_id) true false)
      || not (p.count == chunk.count)
      || not (p.byte_length == chunk.byte_length)
      || not (p.next_index == chunk.index)

  abbrev pub appended : PendingChunks → ChunkFrame → PendingChunks
  appended p chunk = record p {
    payload = p.payload ++ formats.base64 chunk.payload;
    next_index = suc p.next_index;
  }

  -- The chunk against the pending ones.
  unfoldable pub continue_chunks : PendingChunks → ChunkFrame → RpcFrameDecoder → Pushed
  unfolding settle_pending
  continue_chunks p chunk d =
      if differs_from p chunk
      then (err sequence_mismatch, record d { pending = some p })
      else settle_pending (appended p chunk) d

  abbrev pub first_pending : ChunkFrame → PendingChunks
  first_pending chunk = record {
    chunk_id = chunk.chunk_id;
    count = chunk.count;
    byte_length = chunk.byte_length;
    next_index = 0;
    payload = [];
  }

  unfoldable pub push_chunk : ChunkFrame → RpcFrameDecoder → Pushed
  unfolding continue_chunks
  push_chunk chunk d =
      if ltb d.max_reassembled_frame_bytes chunk.byte_length
      then (err declared_length_exceeds_limit, d)
      else elim d.pending [
        | some p ↦ continue_chunks p chunk d
        | none ↦
            if chunk.index == 0
            then continue_chunks (first_pending chunk) chunk d
            else (err sequence_must_start_at_zero, d)
      ]

  -- A ready frame sets the limit.
  abbrev pub advertised : Message B → ℕ → ℕ
  advertised (ready limit) old = limit
  advertised _ old = old

  unfoldable pub push_whole : Message B → RpcFrameDecoder → Pushed
  push_whole message d = if is_some d.pending then (err sequence_interrupted, d) else (
    ok (some message),
    record d { max_reassembled_frame_bytes = advertised message d.max_reassembled_frame_bytes },
  )

  unfoldable pub push : Message B → RpcFrameDecoder → Pushed
  unfolding push_chunk push_whole
  push (rpc_chunk chunk) d = push_chunk chunk d
  push message d = push_whole message d
