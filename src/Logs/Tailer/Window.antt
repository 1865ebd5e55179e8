-- ===== src/Logs/Tailer/Window.antt =====
-- tailer.py: what one call of `tail_file` consumes and what it withholds.
use mathlib.Core.Path.{subst}
use alteryx_server_maintenan.Prelude.{
  ℕ, zero, suc, ◌+◌, ◌%◌, ◌≤◌, ◌<◌, ◌≡◌, refl, Bool, true, false, not, ◌&&◌, Option, none, some, [],
  ◌∷◌, arith, ◌==◌, if◌then◌else◌, length, take, Result, ok, raised, ok_injective, Exn,
}
use alteryx_server_maintenan.Prelude.Int.{ℤ, pos, negsuc}
use alteryx_server_maintenan.Logs.Tailer.Encoding.{
  Bytes, Text, newline_pattern, is_two_byte, newline_pattern-is_two_byte,
}
use alteryx_server_maintenan.Logs.Tailer.Rfind.{
  matches_at_fits, newline_at, LastBelow, last_newline-LastBelow,
}
use alteryx_server_maintenan.Logs.Tailer.Lines.{to_lines}
use alteryx_server_maintenan.Logs.Tailer.Read.{
  contents, TailChunk, no_lines, first_byte, read_window, decoded_chunk, emit, scan, tail_file,
  is_read_size,
}

-- The bytes of a newline.
abbrev pub width : Bool → ℕ
width two_byte = if two_byte then 2 else 1

-- An offset at which decoding may begin.
abbrev pub IsBoundary : Bool → ℕ → Type 0
IsBoundary two_byte n = two_byte ≡ true → n % 2 ≡ 0

pub first_byte-IsBoundary :
    (two_byte : Bool) (start : ℤ) → IsBoundary two_byte (first_byte two_byte start)
unfolding first_byte
first_byte-IsBoundary true (pos n) h = ground arith
first_byte-IsBoundary true (negsuc zero) h = ground arith
first_byte-IsBoundary true (negsuc (suc n)) h = ground arith
first_byte-IsBoundary false start h = ground arith

module _ (decode : Text → Bytes → Result Text) (encoding : Text) (start : ℕ) (raw : Bytes) where
  -- A chunk made of the bytes `raw` that were read at `start`: either no newline stands on a
  -- boundary and nothing is consumed, or the chunk ends behind the last one.
  pub data Scanned : TailChunk → Type 0 where
    withheld :
        ((q : ℕ) → q < length raw → newline_at (is_two_byte encoding) raw q ≡ false)
        → Scanned (no_lines start)
    consumed :
        (p : ℕ) (text : Text)
        → newline_at (is_two_byte encoding) raw p ≡ true
        → ((q : ℕ) → p < q → q < length raw → newline_at (is_two_byte encoding) raw q ≡ false)
        → p + width (is_two_byte encoding) ≤ length raw
        → decode encoding (take (p + width (is_two_byte encoding)) raw) ≡ ok text
        → Scanned (record {
          lines = to_lines text;
          new_offset = start + (p + width (is_two_byte encoding));
        })

  newline_at_fits :
      (two_byte : Bool) (p : ℕ) → newline_at two_byte raw p ≡ true → p + width two_byte ≤ length raw
  newline_at_fits true p h = omega (arith, matches_at_fits 0x0a (0x00 ∷ []) raw p (ground arith))
  newline_at_fits false p h = omega (arith, matches_at_fits 0x0a [] raw p (ground arith))

  newline_at_even :
      (two_byte : Bool) (p : ℕ)
      → newline_at two_byte raw p ≡ true
      → IsBoundary two_byte start
      → (two_byte && not ((start + (p + width two_byte)) % 2 == 0)) ≡ false
  newline_at_even true p h even = let e = even refl in ground arith
  newline_at_even false p h even = refl

  length-newline_pattern : length (newline_pattern encoding) ≡ width (is_two_byte encoding)
  length-newline_pattern = rw (newline_pattern-is_two_byte encoding) (ground arith)

  decoded_chunk-Scanned :
      (p : ℕ)
      → newline_at (is_two_byte encoding) raw p ≡ true
      → ((q : ℕ) → p < q → q < length raw → newline_at (is_two_byte encoding) raw q ≡ false)
      → (r : Result Text) {c : TailChunk}
      → decode encoding (take (p + width (is_two_byte encoding)) raw) ≡ r
      → decoded_chunk decode (start + (p + width (is_two_byte encoding))) r ≡ ok c
      → Scanned c
  unfolding decoded_chunk
  decoded_chunk-Scanned p h g (ok text) {c} e f =
      subst Scanned (ok_injective f)
        (consumed p text h g (newline_at_fits (is_two_byte encoding) p h) e)
  decoded_chunk-Scanned p h g (raised x) e f = cc

  emit-Scanned :
      (o : Option ℕ) {c : TailChunk}
      → IsBoundary (is_two_byte encoding) start
      → LastBelow (newline_at (is_two_byte encoding) raw) (length raw) o
      → emit decode encoding start raw o ≡ ok c
      → Scanned c
  unfolding emit
  emit-Scanned none {c} even h e = subst Scanned (ok_injective e) (withheld h)
  emit-Scanned (some p) {c} even (l, h, g) e =
      decoded_chunk-Scanned p h g (decode encoding (take (p + width (is_two_byte encoding)) raw))
        refl (rw (length-newline_pattern, newline_at_even (is_two_byte encoding) p h even) at e)

-- A guarded computation that returns was run.
if-ok :
    {A : Type 0} (b : Bool) {r : Result A} (e : Exn) {a : A}
    → (if b then r else raised e) ≡ ok a
    → r ≡ ok a
if-ok true e h = h
if-ok false e h = cc

module _ (decode : Text → Bytes → Result Text) (encoding : Text) where
  pub scan-Scanned :
      (start : ℕ) (raw : Bytes) {c : TailChunk}
      → IsBoundary (is_two_byte encoding) start
      → scan decode encoding start raw ≡ ok c
      → Scanned decode encoding start raw c
  unfolding scan
  scan-Scanned start [] even e =
      subst (Scanned decode encoding start []) (ok_injective e)
        (withheld (λ q l. absurd (omega arith)))
  scan-Scanned start (b ∷ rest) even e =
      emit-Scanned decode encoding start (b ∷ rest) _ even
        (rw (newline_pattern-is_two_byte encoding)
          (last_newline-LastBelow (is_two_byte encoding) (b ∷ rest)))
        e

  -- A chunk read from a file on disk is made of the bytes of the window at the adjusted start: it
  -- consumes exactly the bytes up to and with the last newline that stands on a code-unit boundary
  -- of the window, its lines are those of these bytes, decoded; without such a newline it consumes
  -- nothing and holds no line.
  pub tail_file-Scanned :
      (file_bytes : Bytes) (start max_bytes : ℤ) {c : TailChunk}
      → tail_file decode (contents file_bytes) start encoding max_bytes ≡ ok c
      → let from = first_byte (is_two_byte encoding) start in
        Scanned decode encoding from (read_window max_bytes from file_bytes) c
  unfolding tail_file
  tail_file-Scanned file_bytes start max_bytes e =
      scan-Scanned _ _ (first_byte-IsBoundary (is_two_byte encoding) start)
        (if-ok (is_read_size max_bytes) _ e)

  -- What follows from the shape of a chunk.
  pub record IsInWindow (start size : ℕ) (c : TailChunk) : Type 0 where
    pub forward : start ≤ c.new_offset
    pub within : c.new_offset ≤ start + size
    pub boundary : IsBoundary (is_two_byte encoding) c.new_offset

  Scanned-IsInWindow :
      (start : ℕ) (raw : Bytes) {c : TailChunk}
      → IsBoundary (is_two_byte encoding) start
      → Scanned decode encoding start raw c
      → IsInWindow start (length raw) c
  Scanned-IsInWindow start raw even (withheld h) = record {
    forward = omega arith;
    within = omega arith;
    boundary = even;
  }
  Scanned-IsInWindow start raw even (consumed p text h g l e) = record {
    forward = omega arith;
    within = omega arith;
    boundary = λ two. ground (arith, even two);
  }

  -- Whatever the file, the codec and the start offset (odd or negative ones included), the new
  -- offset is not before the adjusted start, not past the bytes that were read, and on a code-unit
  -- boundary.
  pub tail_file-IsInWindow :
      (file_bytes : Bytes) (start max_bytes : ℤ) {c : TailChunk}
      → tail_file decode (contents file_bytes) start encoding max_bytes ≡ ok c
      → let from = first_byte (is_two_byte encoding) start in
        IsInWindow from (length (read_window max_bytes from file_bytes)) c
  tail_file-IsInWindow file_bytes start max_bytes e =
      Scanned-IsInWindow _ _ (first_byte-IsBoundary (is_two_byte encoding) start)
        (tail_file-Scanned file_bytes start max_bytes e)
