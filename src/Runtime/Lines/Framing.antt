-- ===== src/Runtime/Lines/Framing.antt =====
-- Lines out of buffers, and out of the bytes that the buffers make together.
use omp_remote.Prelude.{
  ℕ, suc, ◌-◌, ◌<◌, ◌≤◌, ◌≡◌, refl, Bool, true, false, Option, none, some, List, [], ◌∷◌, ◌++◌,
  Result, ok, err, ltb, ◌==◌, length, length-append, if◌then◌else◌, arith, All, Bool-cases, ltb→lt,
  lt→ltb, le→not-ltb, inl, inr, ap, sym, ◌∙◌, u64_max, saturating_add, ◌||◌,
}
use mathlib.Core.List.{append_assoc, append-nil}
use omp_remote.Runtime.Lines.{
  newline, Bytes, LineReadError, too_large, unexpected_eof, take, position, map_suc, map_or,
  consumed_of, is_newline_at, Reader, at_end, read_line, read_limited_line,
}

-- The first line of the bytes, its newline included, or all of them.
abbrev pub line_of : Bytes → Bytes
line_of [] = []
line_of (b ∷ bytes) = b ∷ (if b == newline then [] else line_of bytes)

abbrev pub has_newline : Bytes → Bool
has_newline [] = false
has_newline (b ∷ bytes) = (b == newline) || has_newline bytes

-- What comes of bytes that end without a newline: nothing of none, and an error of a part of a line.
abbrev pub unfinished : Bytes → Result LineReadError (Option Bytes)
unfinished bytes = if length bytes == 0 then ok none else err unexpected_eof

-- What comes of the bytes of the whole stream.
abbrev pub line_from : ℕ → Bytes → Result LineReadError (Option Bytes)
line_from limit bytes =
    if ltb limit (length (line_of bytes))
    then err (too_large limit)
    else if has_newline bytes
    then ok (some bytes_line)
    else unfinished bytes
  where
    bytes_line : Bytes
    bytes_line = line_of bytes

abbrev pub concat : List Bytes → Bytes
concat [] = []
concat (bytes ∷ buffers) = bytes ++ concat buffers

abbrev pub reader_of : List Bytes → Reader
reader_of [] = []
reader_of (bytes ∷ buffers) = ok bytes ∷ reader_of buffers

pub consumed_of-cons :
    (b : ℕ) (bytes : Bytes)
    → consumed_of (b ∷ bytes) ≡ (if b == newline then 1 else suc (consumed_of bytes))
consumed_of-cons b bytes = go (b == newline) (position bytes) (length bytes)
  where
    go :
        (t : Bool) (p : Option ℕ) (n : ℕ)
        → map_or (suc n) (if t then some 0 else map_suc p) ≡ (if t then 1 else suc (map_or n p))
    go true p n = refl
    go false none n = refl
    go false (some p) n = omega arith

take-consumed_of : (bytes : Bytes) → take (consumed_of bytes) bytes ≡ line_of bytes
take-consumed_of [] = refl
take-consumed_of (b ∷ bytes) = rw (consumed_of-cons b bytes) (elim (Bool-cases (b == newline)) [
  | inl e ↦ rw (e) refl
  | inr e ↦ rw (e, take-consumed_of bytes) refl
])

length-line_of : (bytes : Bytes) → length (line_of bytes) ≡ consumed_of bytes
length-line_of [] = refl
length-line_of (b ∷ bytes) = rw (consumed_of-cons b bytes) (ground (arith, length-line_of bytes))

complete-has_newline :
    (b : ℕ) (bytes : Bytes)
    → is_newline_at (consumed_of (b ∷ bytes) - 1) (b ∷ bytes) ≡ has_newline (b ∷ bytes)
complete-has_newline b [] = ground arith
complete-has_newline b (c ∷ bytes) = ground (arith, complete-has_newline c bytes)

line_of-whole : (bytes : Bytes) → has_newline bytes ≡ false → line_of bytes ≡ bytes
line_of-whole [] h = refl
line_of-whole (b ∷ bytes) h = ground (arith, line_of-whole bytes)

line_of-append-with : (xs ys : Bytes) → has_newline xs ≡ true → line_of (xs ++ ys) ≡ line_of xs
line_of-append-with [] ys h = cc
line_of-append-with (x ∷ xs) ys h = ground (arith, line_of-append-with xs ys)

line_of-append-without :
    (xs ys : Bytes) → has_newline xs ≡ false → line_of (xs ++ ys) ≡ xs ++ line_of ys
line_of-append-without [] ys h = refl
line_of-append-without (x ∷ xs) ys h = ground (arith, line_of-append-without xs ys)

has_newline-append : (xs ys : Bytes) → has_newline (xs ++ ys) ≡ (has_newline xs || has_newline ys)
has_newline-append [] ys = refl
has_newline-append (x ∷ xs) ys = ground (arith, has_newline-append xs ys)

-- A buffer that is all consumed before its newline has come is longer than what is left to the limit.
too_long :
    (limit : ℕ) (xs ys : Bytes) → limit < length (line_of xs) → limit < length (line_of (xs ++ ys))
too_long limit xs ys h = elim (Bool-cases (has_newline xs)) [
  | inl e ↦ rw (line_of-append-with xs ys e) h
  | inr e ↦
      let shorter : length xs ≤ length (xs ++ line_of ys) =
        omega (arith, length-append xs (line_of ys)) in
      rw (line_of-append-without xs ys e) (omega (arith, shorter, ap length (line_of-whole xs e)))
]

line_from_too_long :
    (limit : ℕ) (bytes : Bytes)
    → limit < length (line_of bytes)
    → line_from limit bytes ≡ err (too_large limit)
line_from_too_long limit bytes h = rw (lt→ltb limit (length (line_of bytes)) h) refl

line_from_whole :
    (limit : ℕ) (bytes : Bytes)
    → length (line_of bytes) ≤ limit
    → has_newline bytes ≡ true
    → line_from limit bytes ≡ ok (some (line_of bytes))
line_from_whole limit bytes h n = rw (le→not-ltb limit (length (line_of bytes)) h, n) refl

line_from_end :
    (limit : ℕ) (bytes : Bytes)
    → has_newline bytes ≡ false
    → length bytes ≤ limit
    → line_from limit bytes ≡ unfinished bytes
line_from_end limit bytes n h =
    rw (line_of-whole bytes n, le→not-ltb limit (length bytes) h, n) refl

at_end-unfinished : (bytes : Bytes) → at_end bytes ≡ unfinished bytes
at_end-unfinished [] = refl
at_end-unfinished (b ∷ bytes) = ground arith

module _ (limit : ℕ) (in_range : limit < u64_max) (line : Bytes) (n : has_newline line ≡ false)
    (l : length line ≤ limit) (b : ℕ) (bytes rest : Bytes) where
  abbrev buffer : Bytes
  buffer = b ∷ bytes

  abbrev with_buffer : Bytes
  with_buffer = line ++ (buffer ++ rest)

  over :
      ltb limit (saturating_add (length line) (consumed_of buffer)) ≡ true
      → err (too_large limit) ≡ line_from limit with_buffer
  over e =
      let h : limit < length (line ++ line_of buffer) = omega (
        arith,
        ltb→lt limit (saturating_add (length line) (consumed_of buffer)) e,
        length-append line (line_of buffer),
        length-line_of buffer,
      ) in
      let h' : limit < length (line_of (line ++ buffer)) =
        rw (line_of-append-without line buffer n) h in
      sym (
        line_from_too_long limit with_buffer
          (rw (← append_assoc line buffer rest) (too_long limit (line ++ buffer) rest h')))

  within :
      ltb limit (saturating_add (length line) (consumed_of buffer)) ≡ false
      → length (line ++ line_of buffer) ≤ limit
  within e = ground (arith, length-append line (line_of buffer), length-line_of buffer)

  whole :
      ltb limit (saturating_add (length line) (consumed_of buffer)) ≡ false
      → has_newline buffer ≡ true
      → ok (some (line ++ line_of buffer)) ≡ line_from limit with_buffer
  whole e m =
      let same : line_of with_buffer ≡ line ++ line_of buffer =
        line_of-append-without line (buffer ++ rest) n
        ∙ ap (λ x. line ++ x) (line_of-append-with buffer rest m) in
      let some_newline : has_newline with_buffer ≡ true =
        rw (has_newline-append line (buffer ++ rest), n, has_newline-append buffer rest, m) refl in
      sym (
        line_from_whole limit with_buffer (rw (same) (within e)) some_newline
        ∙ ap (λ x. ok (some x)) same)

-- With a line so far that has no newline and is within the limit, the buffers make what the bytes of
-- the line and of the buffers make.
continued :
    (limit : ℕ) (in_range : limit < u64_max) (line : Bytes) (buffers : List Bytes)
    → has_newline line ≡ false
    → length line ≤ limit
    → All (λ bytes. 0 < length bytes) buffers
    → (read_line limit line (reader_of buffers)).0 ≡ line_from limit (line ++ concat buffers)
unfolding read_line
continued limit in_range line [] n l h =
    rw (append-nil line) (at_end-unfinished line ∙ sym (line_from_end limit line n l))
continued limit in_range line ([] ∷ buffers) n l h = absurd (omega (arith, h.0))
continued limit in_range line ((b ∷ bytes) ∷ buffers) n l h =
    rw (take-consumed_of (b ∷ bytes), complete-has_newline b bytes, read_line)
      (elim (Bool-cases (ltb limit (saturating_add (length line) (consumed_of (b ∷ bytes))))) [
        | inl e ↦ rw (e) (over limit in_range line n l b bytes (concat buffers) e)
        | inr e ↦ elim (Bool-cases (has_newline (b ∷ bytes))) [
          | inl m ↦ rw (e, m) (whole limit in_range line n l b bytes (concat buffers) e m)
          | inr m ↦
              rw
                (
                  e,
                  m,
                  line_of-whole (b ∷ bytes) m,
                  ← append_assoc line (b ∷ bytes) (concat buffers),
                )
                (continued limit in_range (line ++ (b ∷ bytes)) buffers
                  (rw (has_newline-append line (b ∷ bytes), n) m)
                  (rw (line_of-whole (b ∷ bytes) m) at
                    (within limit in_range line n l b bytes [] e))
                  h.1)
        ]
      ])

-- A reader's buffers that are not empty, and whose bytes then end, make the line that their bytes
-- make together, however these are cut into buffers: the first line with its newline if it is
-- within the limit, which is below the last u64, and an error if it is longer or the stream ends
-- inside it.
pub read_limited_line_exact :
    (limit : ℕ) (buffers : List Bytes)
    → limit < u64_max
    → All (λ bytes. 0 < length bytes) buffers
    → (read_limited_line limit (reader_of buffers)).0 ≡ line_from limit (concat buffers)
unfolding read_limited_line
read_limited_line_exact limit buffers in_range h =
    continued limit in_range [] buffers refl (omega arith) h
