-- ===== src/Logs/Tailer/Streaming.antt =====
-- tailer.py: draining a file in bounded reads gives the lines that one read of the same bytes would
-- give.
use alteryx_server_maintenan.Prelude.{
  ℕ, ◌+◌, ◌-◌, ◌≤◌, ◌≡◌, refl, sym, Bool, true, false, List, [], ◌∷◌, ◌++◌, arith, length, take,
  drop, slice, slice-append, take-take, Result, ok, some,
}
use alteryx_server_maintenan.Prelude.Int.{ℤ, pos, negsuc}
use alteryx_server_maintenan.Logs.Tailer.Encoding.{Bytes, Text, is_two_byte}
use alteryx_server_maintenan.Logs.Tailer.Rfind.{newline_at}
use alteryx_server_maintenan.Logs.Tailer.Lines.{to_lines}
use alteryx_server_maintenan.Logs.Tailer.Lines.Laws.{to_lines-append, to_lines-nil}
use alteryx_server_maintenan.Logs.Tailer.Read.{
  contents, TailChunk, first_byte, read_window, tail_file, drain_loop,
}
use alteryx_server_maintenan.Logs.Tailer.Window.{
  width, IsBoundary, Scanned, withheld, consumed, tail_file-Scanned, tail_file-IsInWindow,
}
use alteryx_server_maintenan.Logs.Tailer.Drain.{Drains, stop, next, drain_loop-Drains}

-- What the tailer relies on of a codec under `errors="replace"`: it decodes anything, a newline
-- ends what is decoded, and decoding can be resumed behind a newline.
pub record IsStreaming (decode : Text → Bytes → Result Text) (encoding : Text) : Type 0 where
  pub total : (raw : Bytes) → (t : Text) × (decode encoding raw ≡ ok t)
  pub at_nothing : decode encoding [] ≡ ok []
  pub ends :
      (raw : Bytes) (p : ℕ)
      → newline_at (is_two_byte encoding) raw p ≡ true
      → {t : Text} → decode encoding (take (p + width (is_two_byte encoding)) raw) ≡ ok t
      → (s : Text) × (t ≡ s ++ 0x0a ∷ [])
  pub joins :
      (raw : Bytes) (p : ℕ)
      → newline_at (is_two_byte encoding) raw p ≡ true
      → (rest : Bytes) {s t : Text}
      → decode encoding (take (p + width (is_two_byte encoding)) raw) ≡ ok s
      → decode encoding rest ≡ ok t
      → decode encoding (take (p + width (is_two_byte encoding)) raw ++ rest) ≡ ok (s ++ t)

-- The offset after the last chunk.
abbrev pub final_offset : ℕ → List TailChunk → ℕ
final_offset n [] = n
final_offset n (c ∷ cs) = final_offset c.new_offset cs

-- The lines of the chunks, in order.
abbrev pub all_lines : List TailChunk → List Text
all_lines [] = []
all_lines (c ∷ cs) = c.lines ++ all_lines cs

take-read_window :
    (max_bytes : ℤ) (n q : ℕ) (file_bytes : Bytes)
    → q ≤ length (read_window max_bytes n file_bytes)
    → take q (read_window max_bytes n file_bytes) ≡ take q (drop n file_bytes)
unfolding read_window
take-read_window (pos m) n q file_bytes h = take-take q m (drop n file_bytes) h
take-read_window (negsuc m) n q file_bytes h = refl

first_byte_same :
    (two_byte : Bool) (n : ℕ) → IsBoundary two_byte n → first_byte two_byte (pos n) ≡ n
unfolding first_byte
first_byte_same true n even = ground (arith, even refl)
first_byte_same false n even = refl

module _ (decode : Text → Bytes → Result Text) (encoding : Text) (st : IsStreaming decode encoding)
    (file_bytes : Bytes) (max_bytes : ℤ) where
  abbrev pub Read : ℕ → ℕ → List Text → Type 0
  Read n m ls =
      (n ≤ m)
      × (text : Text) × (decode encoding (slice n m file_bytes) ≡ ok text)
      × (ls ≡ to_lines text)

  Read-nothing : (n : ℕ) → Read n n []
  Read-nothing n =
      let e : n - n ≡ 0 = omega arith in (omega arith, [], rw e st.at_nothing, sym to_lines-nil)

  lines_join :
      (text t : Text) (ls : List Text)
      → ((s : Text) × (text ≡ s ++ 0x0a ∷ []))
      → ls ≡ to_lines t
      → to_lines text ++ ls ≡ to_lines (text ++ t)
  lines_join text t ls (s, e) eq = rw (e, eq) (sym (to_lines-append s t))

  Scanned-Read :
      (n m : ℕ) (ls : List Text) {c : TailChunk}
      → Scanned decode encoding n (read_window max_bytes n file_bytes) c
      → Read c.new_offset m ls
      → Read n m (c.lines ++ ls)
  Scanned-Read n m ls (withheld h) r = r
  Scanned-Read n m ls (consumed p text h g l e) (le, t, d, eq) =
      let raw : Bytes = read_window max_bytes n file_bytes in
      let w : ℕ = p + width (is_two_byte encoding) in
      (
        omega arith,
        text ++ t,
        rw (slice-append n w m file_bytes le, ← take-read_window max_bytes n w file_bytes l)
            (st.joins raw p h _ e d),
        lines_join text t ls (st.ends raw p h e) eq,
      )

  -- From a boundary on, the chunks of a file that does not change hold the lines of the bytes
  -- between the first offset and the last.
  Drains-Read :
      (k n : ℕ) {o : ℤ} {cs : List TailChunk}
      → o ≡ pos n
      → IsBoundary (is_two_byte encoding) n
      → Drains decode encoding (λ _. contents file_bytes) max_bytes k o cs
      → Read n (final_offset n cs) (all_lines cs)
  Drains-Read k n e even (stop f l) = Read-nothing n
  Drains-Read k n {o} e even (next {c = c} {cs = cs} f l d) =
      let f' : tail_file decode (contents file_bytes) (pos n) encoding max_bytes ≡ ok c =
        rw (← e) f in
      let same = first_byte_same (is_two_byte encoding) n even in
      let sc : Scanned decode encoding n (read_window max_bytes n file_bytes) c =
        rw same at (tail_file-Scanned decode encoding file_bytes (pos n) max_bytes f') in
      Scanned-Read n (final_offset c.new_offset cs) (all_lines cs) sc (
        Drains-Read (k + 1) c.new_offset refl
          ((tail_file-IsInWindow decode encoding file_bytes (pos n) max_bytes f').boundary) d)

  -- Draining a file that does not change, from an offset on a code-unit boundary: whatever
  -- `max_bytes` is, the lines of all chunks are the lines of the bytes between the first offset and
  -- the last, decoded at once. No line is lost, cut, repeated or reordered by the bounded reads.
  pub drain_loop-Read :
      (fuel k n : ℕ) {cs : List TailChunk}
      → IsBoundary (is_two_byte encoding) n
      → drain_loop decode (λ _. contents file_bytes) encoding max_bytes fuel k (pos n)
        ≡ some (ok cs)
      → Read n (final_offset n cs) (all_lines cs)
  drain_loop-Read fuel k n even e =
      Drains-Read k n refl even
        (drain_loop-Drains decode encoding (λ _. contents file_bytes) max_bytes fuel k (pos n) e)
