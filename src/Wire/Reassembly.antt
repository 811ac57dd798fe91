-- ===== src/Wire/Reassembly.antt =====
-- What `RpcFrameDecoder` makes of the chunks of a message.
use omp_remote.Prelude.{
  ℕ, suc, ◌+◌, ◌<◌, ◌≤◌, ◌≡◌, refl, false, String, none, some, List, [], ◌∷◌, ◌++◌, Result, ok, err,
  ltb, length, length-append, arith, ◌∙◌, ap, sym, le→not-ltb,
}
use mathlib.Core.List.{append_assoc, append-nil}
use omp_remote.Wire.Chunks.{
  Bytes, ChunkFrame, Message, rpc_chunk, Formats, RpcFrameDecodeError, PendingChunks,
  RpcFrameDecoder, Pushed, parse_message, settle_pending, differs_from, continue_chunks, push_chunk,
  push,
}

module _ {B : Type 0} (formats : Formats B) where
  -- The payloads of the chunks, decoded and joined.
  abbrev pub joined : List String → Bytes
  joined [] = []
  joined (s ∷ ss) = formats.base64 s ++ joined ss

  -- The chunks that carry the payloads, from an index on.
  abbrev pub chunks_from : String → ℕ → ℕ → ℕ → List String → List (Message B)
  chunks_from id count total index [] = []
  chunks_from id count total index (s ∷ ss) =
      rpc_chunk
        (record { chunk_id = id; index = index; count = count; byte_length = total; payload = s })
      ∷ chunks_from id count total (suc index) ss

  -- The messages that come out of a list of messages pushed, up to the first error.
  unfoldable pub push_all :
      List (Message B)
      → RpcFrameDecoder
      → Result RpcFrameDecodeError (List (Message B)) × RpcFrameDecoder
  push_all [] d = (ok [], d)
  push_all (m ∷ ms) d =
      let (r, d') = push formats m d in
      let (rest, last) = push_all ms d' in
      elim r [
        | err e ↦ (err e, d')
        | ok none ↦ (rest, last)
        | ok (some out) ↦ (elim rest [ err e ↦ err e | ok outs ↦ ok (out ∷ outs) ], last)
      ]

  push_all-silent :
      (m : Message B) (ms : List (Message B)) (d d' : RpcFrameDecoder)
      → push formats m d ≡ (ok none, d')
      → push_all (m ∷ ms) d ≡ push_all ms d'
  unfolding push_all
  push_all-silent m ms d d' h = rw (h, push_all) (ap (λ (r : Pushed formats). push_all ms r.1) h)

  push_all-out :
      (m out : Message B) (d d' : RpcFrameDecoder)
      → push formats m d ≡ (ok (some out), d')
      → push_all (m ∷ []) d ≡ (ok (out ∷ []), d')
  unfolding push_all
  push_all-out m out d d' h = rw (h, push_all) (ap (λ (r : Pushed formats). (ok (out ∷ []), r.1)) h)

  module _ (id : String) (count total limit : ℕ) (fits : total ≤ limit) where
    abbrev waiting : ℕ → Bytes → PendingChunks
    waiting index bytes = record {
      chunk_id = id;
      count = count;
      byte_length = total;
      next_index = index;
      payload = bytes;
    }

    abbrev idle : RpcFrameDecoder
    idle = record { pending = none; max_reassembled_frame_bytes = limit }

    abbrev reassembling : PendingChunks → RpcFrameDecoder
    reassembling p = record { pending = some p; max_reassembled_frame_bytes = limit }

    abbrev chunk_at : ℕ → String → ChunkFrame
    chunk_at index s = record {
      chunk_id = id;
      index = index;
      count = count;
      byte_length = total;
      payload = s;
    }

    matches :
        (index : ℕ) (bytes : Bytes) (s : String)
        → differs_from formats (waiting index bytes) (chunk_at index s) ≡ false
    matches index bytes s = ground arith

    continued :
        (index : ℕ) (bytes : Bytes) (s : String) (d : RpcFrameDecoder)
        → continue_chunks formats (waiting index bytes) (chunk_at index s) d
          ≡ settle_pending formats (waiting (suc index) (bytes ++ formats.base64 s)) d
    unfolding continue_chunks
    continued index bytes s d = rw (matches index bytes s, continue_chunks) refl

    settled_more :
        (index : ℕ) (bytes : Bytes) (d : RpcFrameDecoder)
        → index < count
        → length bytes ≤ total
        → settle_pending formats (waiting index bytes) d
          ≡ (ok none, record d { pending = some (waiting index bytes) })
    unfolding settle_pending
    settled_more index bytes d m l = ground arith

    settled_last :
        (index : ℕ) (bytes : Bytes) (d : RpcFrameDecoder)
        → index ≡ count
        → length bytes ≡ total
        → settle_pending formats (waiting index bytes) d
          ≡ (parse_message formats bytes, record d { pending = none })
    unfolding settle_pending
    settled_last index bytes d m l = ground arith

    within : ltb limit total ≡ false
    within = le→not-ltb limit total fits

    pushed :
        (index : ℕ) (bytes : Bytes) (s : String)
        → push formats (rpc_chunk (chunk_at index s)) (reassembling (waiting index bytes))
          ≡ settle_pending formats
              (waiting (suc index) (bytes ++ formats.base64 s))
              (reassembling (waiting index bytes))
    unfolding push push_chunk
    pushed index bytes s =
        rw (within, push, push_chunk) (continued index bytes s (reassembling (waiting index bytes)))

    pushed_first :
        (s : String)
        → push formats (rpc_chunk (chunk_at 0 s)) idle
          ≡ settle_pending formats (waiting 1 (formats.base64 s)) idle
    unfolding push push_chunk
    pushed_first s = rw (within, push, push_chunk) (continued 0 [] s idle)

    more :
        (index : ℕ) (bytes : Bytes) (ss : List String) (message : Message B)
        → 0 < length ss
        → count ≡ index + length ss
        → total ≡ length bytes + length (joined ss)
        → parse_message formats (bytes ++ joined ss) ≡ ok (some message)
        → push_all (chunks_from id count total index ss) (reassembling (waiting index bytes))
          ≡ (ok (message ∷ []), idle)
    more index bytes [] message pos c t h = absurd (omega arith)
    more index bytes (s ∷ []) message pos c t h =
        let sent =
          pushed index bytes s
          ∙ settled_last (suc index) (bytes ++ formats.base64 s)
              (reassembling (waiting index bytes)) (omega (arith, c))
              (omega (
                arith,
                length-append bytes (formats.base64 s),
                length-append (formats.base64 s) [],
                t,
              )) in
        let parsed =
          ap (λ b. parse_message formats (bytes ++ b)) (sym (append-nil (formats.base64 s))) ∙ h in
        push_all-out (rpc_chunk (chunk_at index s)) message (reassembling (waiting index bytes))
          idle (sent ∙ ap (λ r. (r, idle)) parsed)
    more index bytes (s ∷ u ∷ ss) message pos c t h =
        let sent =
          pushed index bytes s
          ∙ settled_more (suc index) (bytes ++ formats.base64 s)
              (reassembling (waiting index bytes)) (omega (arith, c))
              (omega (
                arith,
                length-append bytes (formats.base64 s),
                length-append (formats.base64 s) (joined (u ∷ ss)),
                t,
              )) in
        push_all-silent (rpc_chunk (chunk_at index s))
          (chunks_from id count total (suc index) (u ∷ ss)) (reassembling (waiting index bytes))
          (reassembling (waiting (suc index) (bytes ++ formats.base64 s))) sent
        ∙ (more (suc index) (bytes ++ formats.base64 s) (u ∷ ss) message (omega arith)
            (omega (arith, c))
            (omega (
              arith,
              length-append bytes (formats.base64 s),
              length-append (formats.base64 s) (joined (u ∷ ss)),
              t,
            ))
            (ap (parse_message formats) (append_assoc bytes (formats.base64 s) (joined (u ∷ ss)))
              ∙ h))

    -- An idle decoder that is pushed the chunks of two or more payloads in order, all with the
    -- same ID, with the number of the payloads and with the length of their bytes, which is within
    -- its limit, gives the message that these bytes parse to, once, and is idle again.
    pub reassembled :
        (s u : String) (ss : List String) (message : Message B)
        → count ≡ length (s ∷ u ∷ ss)
        → total ≡ length (joined (s ∷ u ∷ ss))
        → parse_message formats (joined (s ∷ u ∷ ss)) ≡ ok (some message)
        → push_all (chunks_from id count total 0 (s ∷ u ∷ ss)) idle ≡ (ok (message ∷ []), idle)
    reassembled s u ss message c t h =
        let sent =
          pushed_first s
          ∙ settled_more 1 (formats.base64 s) idle (omega (arith, c))
              (omega (arith, length-append (formats.base64 s) (joined (u ∷ ss)), t)) in
        push_all-silent (rpc_chunk (chunk_at 0 s)) (chunks_from id count total 1 (u ∷ ss)) idle
          (reassembling (waiting 1 (formats.base64 s))) sent
        ∙ (more 1 (formats.base64 s) (u ∷ ss) message (omega arith) (omega (arith, c))
            (omega (arith, length-append (formats.base64 s) (joined (u ∷ ss)), t)) h)
