-- ===== src/Logs/Tailer/Read.antt =====
-- tailer.py: `tail_file` and `drain_file`.
use alteryx_server_maintenan.Prelude.{
  ℕ, zero, suc, ◌+◌, ◌%◌, Bool, true, false, not, ◌&&◌, Option, none, some, List, [], ◌∷◌, ◌==◌,
  if◌then◌else◌, length, take, drop, Result, ok, raised, ltb, Exn, exception,
}
use alteryx_server_maintenan.Prelude.Int.{ℤ, pos, negsuc}
use alteryx_server_maintenan.Logs.Tailer.Encoding.{Bytes, Text, newline_pattern, is_two_byte}
use alteryx_server_maintenan.Logs.Tailer.Rfind.{last_newline}
use alteryx_server_maintenan.Logs.Tailer.Lines.{to_lines}

-- What `open`, `seek` and `read` meet: the file is gone (`FileNotFoundError`), another `OSError`,
-- an `OSError` of `seek`, or the bytes of the file.
pub data FileRead : Type 0 where
  missing unreadable unseekable : FileRead
  contents : Bytes → FileRead

pub record TailChunk : Type 0 where
  pub lines : List Text
  pub new_offset : ℕ

abbrev pub no_lines : ℕ → TailChunk
no_lines start = record { lines = []; new_offset = start }

-- Python's `start % 2 != 0`.
is_odd : ℤ → Bool
is_odd (pos n) = not (n % 2 == 0)
is_odd (negsuc n) = n % 2 == 0

add_one : ℤ → ℤ
add_one (pos n) = pos (n + 1)
add_one (negsuc zero) = pos 0
add_one (negsuc (suc n)) = negsuc n

-- `if start < 0: start = 0`.
clamp : ℤ → ℕ
clamp (pos n) = n
clamp (negsuc n) = 0

-- The start of the read: forward to an even byte where code units are two bytes wide, then not
-- below 0.
unfoldable pub first_byte : Bool → ℤ → ℕ
unfolding is_odd add_one clamp
first_byte two_byte start = clamp (if two_byte && is_odd start then add_one start else start)

-- A count that `read` takes: -1, or one that is below 2^63.
unfoldable pub is_read_size : ℤ → Bool
is_read_size (pos n) = ltb n 9223372036854775808
is_read_size (negsuc n) = n == 0

-- What `read` raises of another count.
abbrev pub read_error : ℤ → Exn
read_error (pos n) = exception "OverflowError"
read_error (negsuc n) = exception "ValueError"

-- `f.seek(start)` and `f.read(max_bytes)`, for a count that `read` takes; -1 reads to the end of the
-- file.
unfoldable pub read_window : ℤ → ℕ → Bytes → Bytes
read_window (pos n) start file_bytes = take n (drop start file_bytes)
read_window (negsuc n) start file_bytes = drop start file_bytes

module _ (decode : Text → Bytes → Result Text) where
  unfoldable pub decoded_chunk : ℕ → Result Text → Result TailChunk
  unfolding to_lines
  decoded_chunk new_offset (ok text) =
      ok (record { lines = to_lines text; new_offset = new_offset })
  decoded_chunk new_offset (raised e) = raised e

  -- From the position of the last newline on.
  unfoldable pub emit : Text → ℕ → Bytes → Option ℕ → Result TailChunk
  unfolding decoded_chunk
  emit encoding start raw none = ok (no_lines start)
  emit encoding start raw (some last_nl_pos) =
      let consumed_end = last_nl_pos + length (newline_pattern encoding) in
      let new_offset = start + consumed_end in
      if is_two_byte encoding && not (new_offset % 2 == 0)
      then ok (no_lines start)
      else decoded_chunk new_offset (decode encoding (take consumed_end raw))

  -- From the bytes that were read on.
  unfoldable pub scan : Text → ℕ → Bytes → Result TailChunk
  unfolding emit
  scan encoding start [] = ok (no_lines start)
  scan encoding start (b ∷ rest) =
      let raw = b ∷ rest in
      emit encoding start raw (last_newline (is_two_byte encoding) (newline_pattern encoding) raw)

  unfoldable pub tail_file : FileRead → ℤ → Text → ℤ → Result TailChunk
  unfolding scan first_byte read_window is_read_size
  tail_file file start encoding max_bytes =
      let from = first_byte (is_two_byte encoding) start in
      elim file [
        | missing ↦ ok (no_lines from)
        | unreadable ↦ ok (no_lines from)
        | unseekable ↦ ok (no_lines from)
        | contents file_bytes ↦
            if is_read_size max_bytes
            then scan encoding from (read_window max_bytes from file_bytes)
            else raised (read_error max_bytes)
      ]

  abbrev pub has_lines : TailChunk → Bool
  has_lines c = elim c.lines [ [] ↦ false | l ∷ ls ↦ true ]

  -- `chunk.new_offset == offset`.
  unfoldable pub same_offset : ℕ → ℤ → Bool
  same_offset n (pos m) = n == m
  same_offset n (negsuc m) = false

  -- The end of an iteration that kept its chunk; `rest` is the rest of the loop.
  abbrev pub prepend :
      TailChunk → Option (Result (List TailChunk)) → Option (Result (List TailChunk))
  prepend c none = none
  prepend c (some (ok cs)) = some (ok (c ∷ cs))
  prepend c (some (raised e)) = some (raised e)

  -- One round of the loop of `drain_file`: `break` or append the chunk and go on with `loop`.
  unfoldable pub drain_round :
      ℤ
      → Result TailChunk
      → (ℕ → Option (Result (List TailChunk)))
      → Option (Result (List TailChunk))
  unfolding same_offset
  drain_round offset (raised e) loop = some (raised e)
  drain_round offset (ok chunk) loop =
      let rest = prepend chunk (loop chunk.new_offset) in
      if not (has_lines chunk)
      then some (ok [])
      else if same_offset chunk.new_offset offset
      then some (ok (chunk ∷ []))
      else rest

  module _ (disk : ℕ → FileRead) (encoding : Text) (max_bytes : ℤ) where
    -- The loop from its `k`-th read of the file on: the file may change between the reads. The
    -- outer `none` says that the fuel ran out.
    unfoldable pub drain_loop : ℕ → ℕ → ℤ → Option (Result (List TailChunk))
    drain_loop zero k offset = none
    drain_loop (suc fuel) k offset =
        drain_round offset (tail_file (disk k) offset encoding max_bytes)
          (λ n. drain_loop fuel (k + 1) (pos n))

    unfoldable pub drain_file : ℕ → ℤ → Option (Result (List TailChunk))
    unfolding drain_loop tail_file drain_round
    drain_file fuel start = drain_loop fuel 0 start
