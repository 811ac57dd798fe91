-- ===== src/Protocol/Codec/Limits.antt =====
-- What the limits of codec.rs keep out, and what comes through.
use omp_remote.Prelude.{
  ℕ, ◌+◌, ◌≤◌, ◌<◌, ◌≡◌, ◌↔◌, refl, Bool, true, false, String, Option, none, some, List, [], ◌∷◌,
  ◌++◌, Result, ok, err, arith, ltb, ltb→lt, dec_lt, length, length-append, if◌then◌else◌,
  ok-injective, Bool-cases, inl, inr, ◌∙◌, ap, sym,
}
use mathlib.Core.List.{append_assoc, append-nil}
use omp_remote.Protocol.Codec.{
  Bytes, Cbor, CborLaws, concat, ConnectionPhase, pre_auth, authenticated, CborCodecError,
  frame_too_large, encode_failed, FrameLimits, new_limits, codec_limit, LimitedWriter, write,
  write_all, encoded, encode, decode,
}

write-takes :
    (b : Bytes) (w : LimitedWriter)
    → length w.output + length b ≤ w.limit
    → write b w ≡ (true, record w { output = w.output ++ b })
unfolding write
write-takes b w h = ground arith

write-refuses :
    (b : Bytes) (w : LimitedWriter)
    → length w.output ≤ w.limit
    → w.limit < length w.output + length b
    → write b w ≡ (false, record w { exceeded = true })
unfolding write
write-refuses b w f h = ground arith

length-buffers :
    (out b : Bytes) (bs : List Bytes)
    → length (out ++ b) + length (concat bs) ≡ length out + length (concat (b ∷ bs))
length-buffers out b bs = omega (arith, length-append out b, length-append b (concat bs))

-- The buffers that fit are written whole.
write_all-fits :
    (bs : List Bytes) (w : LimitedWriter)
    → length w.output + length (concat bs) ≤ w.limit
    → write_all bs w ≡ (true, record w { output = w.output ++ concat bs })
unfolding write_all
write_all-fits [] w h = ground (arith, append-nil w.output)
write_all-fits (b ∷ bs) w h =
    rw (write-takes b w (omega (arith, length-append b (concat bs))), write_all)
      (write_all-fits bs (record w { output = w.output ++ b })
          (omega (arith, length-buffers w.output b bs))
        ∙ ap (λ out. (true, record w { output = out })) (append_assoc w.output b (concat bs)))

-- Others stop the writer, which notes it.
write_all-exceeds :
    (bs : List Bytes) (w : LimitedWriter)
    → length w.output ≤ w.limit
    → w.limit < length w.output + length (concat bs)
    → ((write_all bs w).0 ≡ false)
      × ((write_all bs w).1.exceeded ≡ true)
      × ((write_all bs w).1.limit ≡ w.limit)
unfolding write_all
write_all-exceeds [] w f h = absurd (omega arith)
write_all-exceeds (b ∷ bs) w f h = elim (dec_lt w.limit (length w.output + length b)) [
  | yes over ↦ rw (write-refuses b w f over, write_all) (refl, refl, refl)
  | no fits ↦
      rw (write-takes b w (omega arith), write_all)
        (write_all-exceeds bs (record w { output = w.output ++ b })
          (omega (arith, length-append w.output b)) (omega (arith, length-buffers w.output b bs)))
]

abbrev fresh : ℕ → LimitedWriter
fresh limit = record { output = []; limit = limit; exceeded = false }

refused :
    (failure : Option String) (r : Bool × LimitedWriter) (limit : ℕ)
    → (r.0 ≡ false) × (r.1.exceeded ≡ true) × (r.1.limit ≡ limit)
    → encoded failure r ≡ err (frame_too_large limit)
unfolding encoded
refused failure (true, w) limit (a, b, c) = cc a
refused failure (false, w) limit (a, b, c) = rw (b, c) refl

chosen :
    (over : Bool) (limit : ℕ) (failure : Option String) (written bytes : Bytes)
    → ◌≡◌ {A = Result CborCodecError Bytes} (ok bytes) (
        if over
        then err (frame_too_large limit)
        else (elim failure [ none ↦ ok written | some e ↦ err (encode_failed e) ]))
    → (over ≡ false) × (failure ≡ none) × (bytes ≡ written)
chosen true limit failure written bytes h = cc
chosen false limit (some e) written bytes h = cc
chosen false limit none written bytes h = (refl, refl, ok-injective h)

-- The limit before the authentication is the smaller one.
codec_limit-le :
    (pre post : ℕ) (limits : FrameLimits) (phase : ConnectionPhase)
    → new_limits pre post ≡ ok limits
    → codec_limit limits pre_auth ≤ codec_limit limits phase
unfolding codec_limit new_limits
codec_limit-le pre post limits pre_auth h = omega arith
codec_limit-le pre post limits authenticated h = ground arith

not-ltb→le : (a b : ℕ) → ltb a b ≡ false → b ≤ a
not-ltb→le a b h = ground arith

module _ {T : Type 0} (cbor : Cbor T) where
  -- A value is encoded as ciborium writes it if that fits the limit, and refused otherwise; a
  -- failure of ciborium is passed on if what it wrote until then fits.
  encode_exact :
      (limit : ℕ) (value : T)
      → encode cbor limit value ≡ (
          if ltb limit (length (concat (cbor.buffers value)))
          then err (frame_too_large limit)
          else (elim (cbor.failure value) [
            | none ↦ ok (concat (cbor.buffers value))
            | some e ↦ err (encode_failed e)
          ]))
  unfolding encode encoded
  encode_exact limit value = elim (Bool-cases (ltb limit (length (concat (cbor.buffers value))))) [
    | inr fits ↦
        rw (fits, write_all-fits (cbor.buffers value) (fresh limit) (ground arith), encode)
          (finished (cbor.failure value) (concat (cbor.buffers value)))
    | inl over ↦ rw over (
        refused (cbor.failure value) (write_all (cbor.buffers value) (fresh limit)) limit (
          write_all-exceeds (cbor.buffers value) (fresh limit) (omega arith)
            (omega (arith, ltb→lt limit (length (concat (cbor.buffers value))) over))))
  ]
    where
      finished :
          (failure : Option String) (bytes : Bytes)
          → encoded failure (true, record (fresh limit) { output = bytes })
            ≡ (elim failure [ none ↦ ok bytes | some e ↦ err (encode_failed e) ])
      finished none bytes = refl
      finished (some e) bytes = refl

  -- What is encoded fits the limit, was written without a failure, and is what ciborium wrote.
  encode-ok :
      (limit : ℕ) (value : T) (bytes : Bytes)
      → encode cbor limit value ≡ ok bytes
      → (bytes ≡ concat (cbor.buffers value)) × (length bytes ≤ limit) × (cbor.failure value ≡ none)
  encode-ok limit value bytes h =
      let (fits, fine, written) =
        chosen (ltb limit (length (concat (cbor.buffers value)))) limit (cbor.failure value)
          (concat (cbor.buffers value)) bytes (sym h ∙ encode_exact limit value) in
      (written, omega (arith, ap length written, not-ltb→le _ _ fits), fine)

  -- A frame that is encoded under a limit is decoded to the same value under any limit that is not
  -- smaller, if ciborium reads back what it wrote.
  pub decode-encode :
      (laws : CborLaws cbor) (limit other_limit : ℕ) (value : T) (bytes : Bytes)
      → limit ≤ other_limit
      → encode cbor limit value ≡ ok bytes
      → decode cbor other_limit bytes ≡ ok value
  unfolding decode
  decode-encode laws limit other_limit value bytes m h =
      let (written, fits, fine) = encode-ok limit value bytes h in
      rw written (ground (arith, laws.read_written value fine, ap length written))

  -- Bytes are decoded to a value exactly if they fit the limit and ciborium reads the value from
  -- all of them.
  decode_exact :
      (limit : ℕ) (bytes : Bytes) (value : T)
      → (decode cbor limit bytes ≡ ok value)
        ↔ ((length bytes ≤ limit) × (cbor.read bytes ≡ ok (value, length bytes)))
  unfolding decode
  decode_exact limit bytes value = (λ h. ground arith, λ h. ground arith)

  -- With limits that `FrameLimits::new` accepts, a frame that one side encodes before the
  -- authentication is decoded to the same value by the other side, whether that has authenticated
  -- it or not, if ciborium reads back what it wrote.
  pub early_frame :
      (laws : CborLaws cbor) (pre post : ℕ) (limits : FrameLimits) (phase : ConnectionPhase)
      (value : T) (bytes : Bytes)
      → new_limits pre post ≡ ok limits
      → encode cbor (codec_limit limits pre_auth) value ≡ ok bytes
      → decode cbor (codec_limit limits phase) bytes ≡ ok value
  early_frame laws pre post limits phase value bytes h e =
      decode-encode laws (codec_limit limits pre_auth) (codec_limit limits phase) value bytes
        (codec_limit-le pre post limits phase h) e
