-- ===== src/Runtime/Lines.antt =====
-- `read_limited_line` of crates/omp-runtime/src/runtime.rs. A buffered reader is the list of what
-- `fill_buf` gives one after the other; at its end, and from an empty buffer on, the stream is over.
pub mod Framing
use omp_remote.Prelude.{
  ℕ, zero, suc, ◌+◌, ◌-◌, ◌≡◌, refl, Bool, true, false, String, Option, none, some, List, [], ◌∷◌,
  ◌++◌, Result, ok, err, ltb, ◌==◌, length, drop, saturating_add, if◌then◌else◌,
}

abbrev pub newline : ℕ
newline = 10

abbrev pub Bytes : Type 0
Bytes = List ℕ

pub data LineReadError : Type 0 where
  io : String → LineReadError
  too_large : ℕ → LineReadError
  unexpected_eof : LineReadError

abbrev pub take : ℕ → Bytes → Bytes
take zero bytes = []
take (suc n) [] = []
take (suc n) (b ∷ bytes) = b ∷ take n bytes

abbrev pub map_suc : Option ℕ → Option ℕ
map_suc none = none
map_suc (some p) = some (suc p)

abbrev pub position : Bytes → Option ℕ
position [] = none
position (b ∷ bytes) = if b == newline then some 0 else map_suc (position bytes)

abbrev pub map_or : ℕ → Option ℕ → ℕ
map_or n none = n
map_or n (some p) = p + 1

-- Up to the first newline, or all.
abbrev pub consumed_of : Bytes → ℕ
consumed_of available = map_or (length available) (position available)

abbrev pub is_newline_at : ℕ → Bytes → Bool
is_newline_at n [] = false
is_newline_at zero (b ∷ bytes) = b == newline
is_newline_at (suc n) (b ∷ bytes) = is_newline_at n bytes

abbrev pub Reader : Type 0
Reader = List (Result String Bytes)

-- What is left of a buffer comes first the next time.
abbrev pub put_back : Bytes → Reader → Reader
put_back [] rest = rest
put_back (b ∷ bytes) rest = ok (b ∷ bytes) ∷ rest

abbrev pub consume : ℕ → Bytes → Reader → Reader
consume n available rest = put_back (drop n available) rest

abbrev pub at_end : Bytes → Result LineReadError (Option Bytes)
at_end [] = ok none
at_end (b ∷ bytes) = err unexpected_eof

-- The loop, with the line so far. Where it goes on, the whole buffer has been consumed.
unfoldable pub read_line : ℕ → Bytes → Reader → Result LineReadError (Option Bytes) × Reader
read_line limit line [] = (at_end line, [])
read_line limit line (err message ∷ rest) = (err (io message), rest)
read_line limit line (ok [] ∷ rest) = (at_end line, rest)
read_line limit line (ok (b ∷ bytes) ∷ rest) =
    let available = b ∷ bytes in
    let consumed = consumed_of available in
    let longer = line ++ take consumed available in
    let later = read_line limit longer rest in
    if ltb limit (saturating_add (length line) consumed)
    then (err (too_large limit), ok available ∷ rest)
    else if is_newline_at (consumed - 1) available
    then (ok (some longer), consume consumed available rest)
    else later

unfoldable pub read_limited_line : ℕ → Reader → Result LineReadError (Option Bytes) × Reader
unfolding read_line
read_limited_line limit reader = read_line limit [] reader
