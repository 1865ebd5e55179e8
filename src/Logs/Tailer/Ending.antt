-- ===== src/Logs/Tailer/Ending.antt =====
-- tailer.py: `drain_file` ends, and the backlogs on which it makes no progress.
use alteryx_server_maintenan.Prelude.{
  ℕ, zero, suc, ◌+◌, ◌-◌, ◌%◌, ◌≤◌, ◌<◌, ◌≡◌, refl, inl, inr, true, false, Bool-cases, not, ◌&&◌,
  Option, none, some, List, [], ◌∷◌, arith, ◌==◌, length, take, drop, length-take, length-drop,
  Result, ok,
}
use alteryx_server_maintenan.Prelude.Int.{ℤ, pos, negsuc}
use alteryx_server_maintenan.Logs.Tailer.Encoding.{Bytes, Text, is_two_byte, newline_pattern}
use alteryx_server_maintenan.Logs.Tailer.Lines.{to_lines}
use alteryx_server_maintenan.Logs.Tailer.Read.{
  is_read_size, FileRead, missing, unreadable, unseekable, contents, TailChunk, no_lines,
  first_byte, read_window, tail_file, has_lines, drain_loop, drain_file, drain_round, decoded_chunk,
  emit, scan, same_offset,
}
use alteryx_server_maintenan.Logs.Tailer.Window.{Scanned, withheld, consumed, tail_file-Scanned}
use alteryx_server_maintenan.Logs.Tailer.Drain.{tail_file-progress}

module _ (decode : Text → Bytes → Result Text) (encoding : Text)
    (total : (raw : Bytes) → (t : Text) × (decode encoding raw ≡ ok t)) where
  emit_total :
      (start : ℕ) (raw : Bytes) (o : Option ℕ)
      → (c : TailChunk) × (emit decode encoding start raw o ≡ ok c)
  unfolding emit decoded_chunk
  emit_total start raw none = (no_lines start, refl)
  emit_total start raw (some p) =
      let n : ℕ = p + length (newline_pattern encoding) in
      let (t, e) = total (take n raw) in
      elim (Bool-cases (is_two_byte encoding && not ((start + n) % 2 == 0))) [
        | inl b ↦ (no_lines start, rw b)
        | inr b ↦ (record { lines = to_lines t; new_offset = start + n }, rw (b, e))
      ]

  scan_total : (start : ℕ) (raw : Bytes) → (c : TailChunk) × (scan decode encoding start raw ≡ ok c)
  unfolding scan
  scan_total start [] = (no_lines start, refl)
  scan_total start (b ∷ rest) = emit_total start (b ∷ rest) _

  -- Where the codec raises nothing and `read` takes the count, `tail_file` raises nothing.
  tail_file_total :
      (file : FileRead) (start max_bytes : ℤ)
      → is_read_size max_bytes ≡ true
      → (c : TailChunk) × (tail_file decode file start encoding max_bytes ≡ ok c)
  unfolding tail_file
  tail_file_total missing start max_bytes h = (_, refl)
  tail_file_total unreadable start max_bytes h = (_, refl)
  tail_file_total unseekable start max_bytes h = (_, refl)
  tail_file_total (contents file_bytes) start max_bytes h = rw (tail_file, h) (scan_total _ _)

  length-read_window :
      (max_bytes : ℤ) (n : ℕ) (file_bytes : Bytes)
      → length (read_window max_bytes n file_bytes) ≤ length file_bytes - n
  unfolding read_window
  length-read_window (pos m) n file_bytes =
      omega (arith, length-take m (drop n file_bytes), length-drop n file_bytes)
  length-read_window (negsuc m) n file_bytes = omega (arith, length-drop n file_bytes)

  -- What is left to read from an offset below the bound.
  abbrev left_to : ℕ → ℤ → ℕ
  left_to bound (pos n) = bound + 1 - n
  left_to bound (negsuc n) = bound + 2

  -- A chunk with lines leaves less to read.
  Scanned-left_to :
      (o : ℤ) (raw : Bytes) (bound : ℕ) {c : TailChunk}
      → length raw ≤ bound - first_byte (is_two_byte encoding) o
      → Scanned decode encoding (first_byte (is_two_byte encoding) o) raw c
      → has_lines decode c ≡ true
      → left_to bound (pos c.new_offset) < left_to bound o
  unfolding first_byte
  Scanned-left_to o raw bound fits (withheld h) l = cc
  Scanned-left_to (pos n) raw bound fits (consumed p text h g f e) l = ground arith
  Scanned-left_to (negsuc n) raw bound fits (consumed p text h g f e) l = ground arith

  tail_file-left_to :
      (file : FileRead) (o max_bytes : ℤ) (bound : ℕ) {c : TailChunk}
      → ((file_bytes : Bytes) → file ≡ contents file_bytes → length file_bytes ≤ bound)
      → tail_file decode file o encoding max_bytes ≡ ok c
      → has_lines decode c ≡ true
      → left_to bound (pos c.new_offset) < left_to bound o
  tail_file-left_to missing o max_bytes bound small e l = unfold tail_file in ground arith
  tail_file-left_to unreadable o max_bytes bound small e l = unfold tail_file in ground arith
  tail_file-left_to unseekable o max_bytes bound small e l = unfold tail_file in ground arith
  tail_file-left_to (contents file_bytes) o max_bytes bound small e l =
      let from : ℕ = first_byte (is_two_byte encoding) o in
      Scanned-left_to o _ bound
        (omega (arith, small file_bytes refl, length-read_window max_bytes from file_bytes))
        (tail_file-Scanned decode encoding file_bytes o max_bytes e) l

  drain_round-lines :
      (o : ℤ) (c : TailChunk) (loop : ℕ → Option (Result (List TailChunk))) (cs : List TailChunk)
      → has_lines decode c ≡ true
      → same_offset decode c.new_offset o ≡ false
      → loop c.new_offset ≡ some (ok cs)
      → drain_round decode o (ok c) loop ≡ some (ok (c ∷ cs))
  unfolding drain_round
  drain_round-lines o c loop cs l same f = ground arith

  drain_round-nothing :
      (o : ℤ) (c : TailChunk) (loop : ℕ → Option (Result (List TailChunk)))
      → has_lines decode c ≡ false
      → drain_round decode o (ok c) loop ≡ some (ok [])
  unfolding drain_round
  drain_round-nothing o c loop l = ground arith

  module _ (disk : ℕ → FileRead) (max_bytes : ℤ) (counts : is_read_size max_bytes ≡ true)
      (bound : ℕ)
      (small : (k : ℕ) (file_bytes : Bytes)
        → disk k ≡ contents file_bytes
        → length file_bytes ≤ bound) where
    drain_loop_total :
        (fuel k : ℕ) (o : ℤ)
        → left_to bound o < fuel
        → (cs : List TailChunk) × (drain_loop decode disk encoding max_bytes fuel k o
            ≡ some (ok cs))
    unfolding drain_loop
    drain_loop_total zero k o h = absurd (omega arith)
    drain_loop_total (suc fuel) k o h =
        let (c, e) = tail_file_total (disk k) o max_bytes counts in
        elim (Bool-cases (has_lines decode c)) [
          | inr l ↦ ([], rw e (drain_round-nothing o c _ l))
          | inl l ↦
              let same = tail_file-progress decode encoding (disk k) o max_bytes e l in
              let less = tail_file-left_to (disk k) o max_bytes bound (small k) e l in
              let (cs, f) = drain_loop_total fuel (k + 1) (pos c.new_offset) (omega arith) in
              (c ∷ cs, rw e (drain_round-lines o c _ cs l same f))
        ]

    -- `drain_file` ends and raises nothing on a file whose size stays below a bound, however it
    -- changes between the reads, where the codec raises nothing and `max_bytes` is a count that
    -- `read` takes, -1 or one below 2^63: as many rounds as the bound and 3
    -- more are enough, from any start offset.
    pub drain_file_total :
        (start : ℤ)
        → (cs : List TailChunk) × (drain_file decode disk encoding max_bytes (bound + 3) start
            ≡ some (ok cs))
    unfolding drain_file
    drain_file_total (pos n) = drain_loop_total (bound + 3) 0 (pos n) (omega arith)
    drain_file_total (negsuc n) = drain_loop_total (bound + 3) 0 (negsuc n) (omega arith)
