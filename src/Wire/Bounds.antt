-- ===== src/Wire/Bounds.antt =====
-- What `RpcFrameDecoder` holds in memory.
use omp_remote.Prelude.{
  ℕ, ◌≤◌, ◌≡◌, Option, none, some, ok, ltb, length, arith, ◌==◌, Bool-cases, inl, inr, Option-cases,
}
use omp_remote.Wire.Chunks.{
  ChunkFrame, Message, ready, rpc_chunk, other, Formats, PendingChunks, RpcFrameDecoder, Pushed,
  settle_pending, differs_from, appended, continue_chunks, first_pending, push_chunk, push_whole,
  push,
}

-- The pending bytes are within their declared length, which is within the limit.
abbrev pub Within : Option PendingChunks → ℕ → Type 0
Within none limit = Unit
Within (some p) limit = (length p.payload ≤ p.byte_length) × (p.byte_length ≤ limit)

module _ {B : Type 0} (formats : Formats B) where
  abbrev Bounded : Pushed formats → Type 0
  Bounded r = Within r.1.pending r.1.max_reassembled_frame_bytes

  settle-Bounded :
      (p : PendingChunks) (d : RpcFrameDecoder) (r : Option (Message B))
      → p.byte_length ≤ d.max_reassembled_frame_bytes
      → (settle_pending formats p d).0 ≡ ok r
      → Bounded (settle_pending formats p d)
  unfolding settle_pending
  settle-Bounded p d r m h = ground arith

  continue-Bounded :
      (p : PendingChunks) (chunk : ChunkFrame) (d : RpcFrameDecoder) (r : Option (Message B))
      → chunk.byte_length ≤ d.max_reassembled_frame_bytes
      → (continue_chunks formats p chunk d).0 ≡ ok r
      → Bounded (continue_chunks formats p chunk d)
  unfolding continue_chunks
  continue-Bounded p chunk d r m h = elim (Bool-cases (differs_from formats p chunk)) [
    | inl x ↦ cc (rw (x, continue_chunks) at h)
    | inr x ↦
        rw (x, continue_chunks)
          (settle-Bounded (appended formats p chunk) d r (ground (arith, x))
            (rw (x, continue_chunks) at h))
  ]

  push_chunk-Bounded :
      (chunk : ChunkFrame) (d : RpcFrameDecoder) (r : Option (Message B))
      → (push_chunk formats chunk d).0 ≡ ok r
      → Bounded (push_chunk formats chunk d)
  unfolding push_chunk
  push_chunk-Bounded chunk d r h =
      elim (Bool-cases (ltb d.max_reassembled_frame_bytes chunk.byte_length)) [
        | inl x ↦ cc (rw (x, push_chunk) at h)
        | inr x ↦ elim (Option-cases d.pending) [
          | inr (p, y) ↦
              rw (x, y, push_chunk)
                (continue-Bounded p chunk d r (ground arith) (rw (x, y, push_chunk) at h))
          | inl y ↦ elim (Bool-cases (chunk.index == 0)) [
            | inr z ↦ cc (rw (x, y, z, push_chunk) at h)
            | inl z ↦
                rw (x, y, z, push_chunk)
                  (continue-Bounded (first_pending formats chunk) chunk d r (ground arith)
                    (rw (x, y, z, push_chunk) at h))
          ]
        ]
      ]

  push_whole-Bounded :
      (message : Message B) (d : RpcFrameDecoder) (r : Option (Message B))
      → (push_whole formats message d).0 ≡ ok r
      → Bounded (push_whole formats message d)
  unfolding push_whole
  push_whole-Bounded message d r h = ground arith

  -- After a message that was pushed without an error, the pending bytes of a decoder, if there are
  -- any, are within their declared length, and that is within the decoder's limit.
  pub push-Within :
      (message : Message B) (d : RpcFrameDecoder) (r : Option (Message B))
      → (push formats message d).0 ≡ ok r
      → Within
          (push formats message d).1.pending
          (push formats message d).1.max_reassembled_frame_bytes
  unfolding push
  push-Within (ready limit) d r h = push_whole-Bounded (ready limit) d r h
  push-Within (rpc_chunk chunk) d r h = push_chunk-Bounded chunk d r h
  push-Within (other body) d r h = push_whole-Bounded (other body) d r h
