-- ===== src/Runtime/Reader/Ends.antt =====
-- The end of the reading of a child's output in crates/omp-runtime/src/runtime.rs.
use mathlib.Core.Bool.{true≢false}
use omp_remote.Prelude.{
  ℕ, zero, suc, String, ◌+◌, ◌-◌, ◌<◌, ◌≤◌, ◌≡◌, refl, Bool, true, false, Option, none, some, List,
  [], ◌∷◌, ◌++◌, Result, ok, err, length, drop, arith, inl, inr, Bool-cases, Option-cases,
  Result-cases, ◌==◌, ltb, saturating_add, sym, ◌∙◌, ap, subst,
}
use omp_remote.Runtime.Types.{ReaderItem, ServerMessage}
use omp_remote.Runtime.Lines.{
  Bytes, Reader, LineReadError, newline, take, consumed_of, is_newline_at, put_back, consume,
  read_line, read_limited_line,
}
use omp_remote.Runtime.Lines.Framing.{consumed_of-cons}
use omp_remote.Runtime.Reader.{Decoder, read_stdout, send_last}

-- The buffers and the bytes of a reader.
abbrev pub size : Reader → ℕ
size [] = 0
size (ok bytes ∷ rest) = suc (length bytes + size rest)
size (err message ∷ rest) = suc (size rest)

abbrev IsLine : Result LineReadError (Option Bytes) → Type 0
IsLine (ok (some line)) = Unit
IsLine _ = Path Bool true false

drop-shorter : {A : Type 0} (n : ℕ) (xs : List A) → length (drop n xs) ≤ length xs
drop-shorter zero xs = omega arith
drop-shorter (suc n) [] = omega arith
drop-shorter (suc n) (x ∷ xs) = omega (arith, drop-shorter n xs)

put_back-size :
    (bytes : Bytes) (rest : Reader) → size (put_back bytes rest) ≤ suc (length bytes + size rest)
put_back-size [] rest = omega arith
put_back-size (b ∷ bytes) rest = omega arith

consume-smaller :
    (n b : ℕ) (bytes : Bytes) (rest : Reader)
    → 0 < n
    → size (consume n (b ∷ bytes) rest) < size (ok (b ∷ bytes) ∷ rest)
consume-smaller zero b bytes rest h = absurd (omega (arith, h))
consume-smaller (suc n) b bytes rest h =
    omega (arith, put_back-size (drop n bytes) rest, drop-shorter n bytes)

consumed_pos : (b : ℕ) (bytes : Bytes) → 0 < consumed_of (b ∷ bytes)
consumed_pos b bytes = elim (Bool-cases (b == newline)) [
  | inl e ↦ rw (consumed_of-cons b bytes, e) (omega arith)
  | inr e ↦ rw (consumed_of-cons b bytes, e) (omega arith)
]

line-smaller :
    (limit : ℕ) (line : Bytes) (reader : Reader)
    → IsLine (read_line limit line reader).0
    → size (read_line limit line reader).1 < size reader
unfolding read_line
line-smaller limit [] [] h = cc
line-smaller limit (l ∷ line) [] h = cc
line-smaller limit line (err message ∷ rest) h = cc
line-smaller limit [] (ok [] ∷ rest) h = cc
line-smaller limit (l ∷ line) (ok [] ∷ rest) h = cc
line-smaller limit line (ok (b ∷ bytes) ∷ rest) h =
    let consumed = consumed_of (b ∷ bytes) in
    elim (Bool-cases (ltb limit (saturating_add (length line) consumed))) [
      | inl e ↦ absurd (true≢false (rw (e, read_line) at h))
      | inr e ↦ elim (Bool-cases (is_newline_at (consumed - 1) (b ∷ bytes))) [
        | inl f ↦
            rw (e, f, read_line) (consume-smaller consumed b bytes rest (consumed_pos b bytes))
        | inr f ↦
            let later =
              line-smaller limit (line ++ take consumed (b ∷ bytes)) rest
                (rw (e, f, read_line) at h) in
            rw (e, f, read_line) (omega (arith, later))
      ]
    ]

-- Frames, and then one end or one error, if the channel takes so many items; otherwise as many frames
-- as it takes.
abbrev pub IsStream : {B : Type 0} → ℕ → List (ReaderItem B) → Type 0
IsStream zero [] = Unit
IsStream zero (item ∷ items) = Path Bool true false
IsStream (suc room) [] = Path Bool true false
IsStream (suc room) (ReaderItem.frame frame ∷ items) = IsStream room items
IsStream (suc room) (ReaderItem.error message ∷ items) = items ≡ []
IsStream (suc room) (ReaderItem.eof ∷ items) = items ≡ []

module _ {B : Type 0} (d : Decoder B) (limit : ℕ) where
  abbrev Streams : ℕ → ℕ → Reader → d.State → Type 0
  Streams fuel accepted stdout decoder =
      (items : List (ReaderItem B)) × (read_stdout d fuel accepted limit stdout decoder
        ≡ some items)
      × IsStream accepted items

  error_sent :
      (accepted : ℕ) (message : String)
      → IsStream accepted (send_last d accepted (ReaderItem.error message))
  error_sent zero message = tt
  error_sent (suc room) message = refl

  eof_sent : (accepted : ℕ) → IsStream accepted (send_last d accepted ReaderItem.eof)
  eof_sent zero = tt
  eof_sent (suc room) = refl

  end_read :
      (fuel accepted : ℕ) (stdout : Reader) (decoder : d.State)
      → (read_limited_line limit stdout).0 ≡ ok none
      → Streams (suc fuel) accepted stdout decoder
  unfolding read_stdout
  end_read fuel accepted stdout decoder e = elim (Bool-cases (d.is_reassembling decoder)) [
    | inl f ↦ (
      send_last d accepted (ReaderItem.error "OMP stdout ended during an RPC chunk sequence"),
      rw (e, f, read_stdout) refl,
      error_sent accepted "OMP stdout ended during an RPC chunk sequence",
    )
    | inr f ↦ (send_last d accepted ReaderItem.eof, rw (e, f, read_stdout) refl, eof_sent accepted)
  ]

  -- A line, and what the rest of the output gives, whatever the channel takes of it.
  line_read :
      (fuel accepted : ℕ) (stdout : Reader) (decoder : d.State) (bytes : Bytes)
      → (read_limited_line limit stdout).0 ≡ ok (some bytes)
      → ((room : ℕ)
          → Streams fuel room (read_limited_line limit stdout).1 (d.push_json_line bytes decoder).1)
      → Streams (suc fuel) accepted stdout decoder
  unfolding read_stdout
  line_read fuel accepted stdout decoder bytes e rest =
      elim (Result-cases (d.push_json_line bytes decoder).0) [
        | inr (r, f) ↦ (
          send_last d accepted (ReaderItem.error r),
          rw (e, f, read_stdout) refl,
          error_sent accepted r,
        )
        | inl (o, f) ↦ elim (Option-cases o) [
          | inl g ↦
              let f' = f ∙ ap ok g in
              let (items, more, stream) = rest accepted in
              (items, rw (e, f', read_stdout) more, stream)
          | inr (frame, g) ↦
              frame_read fuel accepted stdout decoder bytes e frame (f ∙ ap ok g) rest
        ]
      ]
    where
      frame_read :
          (fuel accepted : ℕ) (stdout : Reader) (decoder : d.State) (bytes : Bytes)
          → (read_limited_line limit stdout).0 ≡ ok (some bytes)
          → (frame : ServerMessage B) → (d.push_json_line bytes decoder).0 ≡ ok (some frame)
          → ((room : ℕ)
              → Streams fuel room
                  (read_limited_line limit stdout).1
                  (d.push_json_line bytes decoder).1)
          → Streams (suc fuel) accepted stdout decoder
      frame_read fuel zero stdout decoder bytes e frame f rest =
          ([], rw (e, f, read_stdout) refl, tt)
      frame_read fuel (suc room) stdout decoder bytes e frame f rest =
          let (items, more, stream) = rest room in
          (ReaderItem.frame frame ∷ items, rw (e, f, more, read_stdout) refl, stream)

  -- With more fuel than the reader has buffers and bytes, the task that reads the child's output
  -- ends. What it has sent are frames, and then one end or one error, if the actor's receiver
  -- takes so many items; otherwise it has sent as many frames as the receiver takes until it is
  -- gone.
  pub read_stdout_ends :
      (fuel accepted : ℕ) (stdout : Reader) (decoder : d.State)
      → size stdout < fuel
      → (items : List (ReaderItem B)) × (read_stdout d fuel accepted limit stdout decoder
          ≡ some items)
        × IsStream accepted items
  unfolding read_stdout read_limited_line
  read_stdout_ends zero accepted stdout decoder h = absurd (omega (arith, h))
  read_stdout_ends (suc fuel) accepted stdout decoder h =
      let line = read_limited_line limit stdout in
      elim (Result-cases line.0) [
        | inr (r, e) ↦ (
          send_last d accepted (ReaderItem.error (d.line_text r)),
          rw (e, read_stdout) refl,
          error_sent accepted (d.line_text r),
        )
        | inl (o, e) ↦ elim (Option-cases o) [
          | inl g ↦ end_read fuel accepted stdout decoder (e ∙ ap ok g)
          | inr (bytes, g) ↦
              let e' = e ∙ ap ok g in
              let smaller : size line.1 < size stdout =
                line-smaller limit [] stdout (subst IsLine (sym e') tt) in
              line_read fuel accepted stdout decoder bytes e' (λ room.
                read_stdout_ends fuel room line.1 (d.push_json_line bytes decoder).1
                  (omega (arith, smaller, h)))
        ]
      ]
