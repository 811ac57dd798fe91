-- ===== src/Protocol/Codec.antt =====
-- crates/omp-control-protocol/src/codec.rs: the limits on frames and the CBOR codec that keeps them.
-- ciborium is a parameter: what it writes for a value, buffer by buffer, and what it reads of bytes.
use omp_remote.Prelude.{
  ℕ, ◌-◌, Bool, true, false, String, Option, none, some, List, [], ◌∷◌, ◌++◌, Result, ok, err, ltb,
  length, if◌then◌else◌, ◌==◌, map_err, ◌>>=◌, ◌≡◌, ◌≤◌,
}
pub mod Limits

abbrev pub Bytes : Type 0
Bytes = List ℕ

-- `into_writer` hands the writer these buffers and may fail after them; `from_reader` gives a value
-- and the position that it has reached.
pub record Cbor (T : Type 0) : Type 0 where
  pub buffers : T → List Bytes
  pub failure : T → Option String
  pub read : Bytes → Result String (T × ℕ)

abbrev pub concat : List Bytes → Bytes
concat [] = []
concat (b ∷ bs) = b ++ concat bs

-- What ciborium's documentation promises: it reads back what it wrote, to its end.
pub record CborLaws {T : Type 0} (cbor : Cbor T) : Type 0 where
  pub read_written :
      (value : T)
      → cbor.failure value ≡ none
      → cbor.read (concat (cbor.buffers value)) ≡ ok (value, length (concat (cbor.buffers value)))

pub data ConnectionPhase : Type 0 where
  pre_auth authenticated : ConnectionPhase

pub data FrameLimitError : Type 0 where
  pre_auth_exceeds_post_auth : FrameLimitError

pub data CborCodecError : Type 0 where
  frame_too_large : ℕ → CborCodecError
  encode_failed decode_failed : String → CborCodecError
  trailing_data : CborCodecError

pub record FrameLimits : Type 0 where
  pub pre_auth_limit : ℕ
  pub post_auth_limit : ℕ

-- `FrameLimits::new`.
unfoldable pub new_limits : ℕ → ℕ → Result FrameLimitError FrameLimits
new_limits pre post =
    if ltb post pre
    then err pre_auth_exceeds_post_auth
    else ok (record { pre_auth_limit = pre; post_auth_limit = post })

-- `FrameLimits::codec`: a codec is its limit.
unfoldable pub codec_limit : FrameLimits → ConnectionPhase → ℕ
codec_limit limits pre_auth = limits.pre_auth_limit
codec_limit limits authenticated = limits.post_auth_limit

pub record LimitedWriter : Type 0 where
  pub output : Bytes
  pub limit : ℕ
  pub exceeded : Bool

-- `LimitedWriter::write`: whether it took the buffer, and the writer.
unfoldable pub write : Bytes → LimitedWriter → Bool × LimitedWriter
write buffer w =
    if ltb (w.limit - length w.output) (length buffer)
    then (false, record w { exceeded = true })
    else (true, record w { output = w.output ++ buffer })

-- The buffers, up to the first that is refused.
unfoldable pub write_all : List Bytes → LimitedWriter → Bool × LimitedWriter
unfolding write
write_all [] w = (true, w)
write_all (b ∷ bs) w =
    let (taken, w') = write b w in let rest = write_all bs w' in if taken then rest else (false, w')

-- The `match` of `encode`, on the outcome of `into_writer`.
unfoldable pub encoded : Option String → Bool × LimitedWriter → Result CborCodecError Bytes
encoded failure (true, w) = elim failure [
  | none ↦ ok w.output
  | some e ↦ if w.exceeded then err (frame_too_large w.limit) else err (encode_failed e)
]
encoded failure (false, w) =
    if w.exceeded then err (frame_too_large w.limit) else err (encode_failed "refused")

module _ {T : Type 0} (cbor : Cbor T) where
  unfoldable pub encode : ℕ → T → Result CborCodecError Bytes
  unfolding write_all encoded
  encode max_frame_bytes value = encoded (cbor.failure value) (
      write_all (cbor.buffers value)
        (record { output = []; limit = max_frame_bytes; exceeded = false }))

  unfoldable pub decode : ℕ → Bytes → Result CborCodecError T
  decode max_frame_bytes bytes =
      if ltb max_frame_bytes (length bytes)
      then err (frame_too_large max_frame_bytes)
      else map_err decode_failed (cbor.read bytes) >>= λ r.
          if r.1 == length bytes then ok r.0 else err trailing_data
