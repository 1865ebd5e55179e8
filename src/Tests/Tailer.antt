-- ===== src/Tests/Tailer.antt =====
-- Runs of logs/tailer.py.
use alteryx_server_maintenan.Prelude.{
  ℕ, zero, suc, ◌+◌, ◌≡◌, refl, sym, ap, ◌∙◌, true, [], ◌∷◌, ◌++◌, some, arith, Result, ok,
  ok_injective, take, length, List,
}
use alteryx_server_maintenan.Prelude.Int.{pos, negsuc}
use alteryx_server_maintenan.Logs.Tailer.{
  Bytes, Text, codes, tail_file, drain_file, contents, is_two_byte, matches_at, TailChunk,
  first_byte, read_window, drain_loop, newline_pattern, last_newline,
}
use alteryx_server_maintenan.Logs.Tailer.Window.{
  Scanned, tail_file-Scanned, IsInWindow, tail_file-IsInWindow,
}
use alteryx_server_maintenan.Logs.Tailer.Drain.{Drains, drain_loop-Drains}
use alteryx_server_maintenan.Logs.Tailer.Streaming.{IsStreaming, Read, drain_loop-Read}
use alteryx_server_maintenan.Logs.Tailer.Ending.{drain_file_total}
use alteryx_server_maintenan.Logs.Tailer.Read.{drain_round, is_read_size}

abbrev latin1 : Text → Bytes → Result Text
latin1 encoding raw = ok raw

tail_utf8 :
    tail_file latin1 (contents (codes "ab\r\n\ncd\nef")) (negsuc 0) (codes "UTF_8 ") (pos 100)
    ≡ ok (record { lines = codes "ab" ∷ codes "cd" ∷ []; new_offset = 8 })
unfolding tail_file is_two_byte newline_pattern last_newline
tail_utf8 = refl

-- The match of the pattern at an odd position is no newline.
tail_utf16 :
    tail_file latin1
      (contents (0x61 ∷ 0 ∷ 0x0a ∷ 0 ∷ 0x41 ∷ 0x0a ∷ 0 ∷ 0x41 ∷ []))
      (pos 0)
      (codes "utf-16-le")
      (pos 100)
    ≡ ok (record { lines = (0x61 ∷ 0 ∷ []) ∷ (0 ∷ []) ∷ []; new_offset = 4 })
unfolding tail_file is_two_byte newline_pattern last_newline
tail_utf16 = refl

drain_utf8 :
    drain_file latin1 (λ k. contents (codes "ab\ncd\nef")) (codes "utf-8") (pos 4) 10 (pos 0)
    ≡ some (
        ok (
          record { lines = codes "ab" ∷ []; new_offset = 3 }
          ∷ record { lines = codes "cd" ∷ []; new_offset = 6 }
          ∷ []))
unfolding drain_file is_two_byte newline_pattern last_newline
drain_utf8 = refl

abbrev utf8 : Text
utf8 = codes "utf-8"

-- Cutting a text behind a newline byte.
take_newline :
    (raw : Bytes) (p : ℕ)
    → matches_at (0x0a ∷ []) raw p ≡ true
    → take (p + 1) raw ≡ take p raw ++ 0x0a ∷ []
unfolding matches_at
take_newline [] zero h = ground arith
take_newline [] (suc p) h = ground arith
take_newline (b ∷ raw) zero h = let e : b ≡ 0x0a = ground arith in ap (λ c. c ∷ []) e
take_newline (b ∷ raw) (suc p) h =
    let e : suc p + 1 ≡ suc (p + 1) = omega arith in
    rw e (ap (λ (l : Bytes). b ∷ l) (take_newline raw p h))

latin1-IsStreaming : IsStreaming latin1 utf8
unfolding is_two_byte
latin1-IsStreaming = record {
  total = λ raw. (raw, refl);
  at_nothing = refl;
  ends = λ raw p h e. (take p raw, sym (ok_injective e) ∙ take_newline raw p h);
  joins = λ raw p h rest d e. rw (ok_injective d, ok_injective e) refl;
}

abbrev two_lines : Bytes
two_lines = codes "ab\ncd\nef"

abbrev first_chunk : TailChunk
first_chunk = record { lines = codes "ab" ∷ []; new_offset = 3 }

abbrev second_chunk : TailChunk
second_chunk = record { lines = codes "cd" ∷ []; new_offset = 6 }

tail_file-first : tail_file latin1 (contents two_lines) (pos 0) utf8 (pos 4) ≡ ok first_chunk
unfolding tail_file is_two_byte newline_pattern last_newline
tail_file-first = refl

tail_file-Scanned_example :
    Scanned latin1 utf8
      (first_byte (is_two_byte utf8) (pos 0))
      (read_window (pos 4) (first_byte (is_two_byte utf8) (pos 0)) two_lines)
      first_chunk
tail_file-Scanned_example = tail_file-Scanned latin1 utf8 two_lines (pos 0) (pos 4) tail_file-first

tail_file-IsInWindow_example :
    IsInWindow latin1 utf8
      (first_byte (is_two_byte utf8) (pos 0))
      (length (read_window (pos 4) (first_byte (is_two_byte utf8) (pos 0)) two_lines))
      first_chunk
tail_file-IsInWindow_example =
    tail_file-IsInWindow latin1 utf8 two_lines (pos 0) (pos 4) tail_file-first

drain_loop-chunks :
    drain_loop latin1 (λ k. contents two_lines) utf8 (pos 4) 10 0 (pos 0)
    ≡ some (ok (first_chunk ∷ second_chunk ∷ []))
unfolding drain_loop drain_round tail_file is_two_byte newline_pattern last_newline
drain_loop-chunks = refl

drain_loop-Drains_example :
    Drains latin1 utf8 (λ k. contents two_lines) (pos 4) 0 (pos 0) (first_chunk ∷ second_chunk ∷ [])
drain_loop-Drains_example =
    drain_loop-Drains latin1 utf8 (λ k. contents two_lines) (pos 4) 10 0 (pos 0) drain_loop-chunks

drain_loop-Read_example :
    Read latin1 utf8 latin1-IsStreaming two_lines (pos 4) 0 6 (codes "ab" ∷ codes "cd" ∷ [])
unfolding is_two_byte
drain_loop-Read_example =
    drain_loop-Read latin1 utf8 latin1-IsStreaming two_lines (pos 4) 10 0 0 (λ two. ground arith)
      drain_loop-chunks

drain_file_total_example :
    (cs : List TailChunk) × (drain_file latin1 (λ k. contents two_lines) utf8 (pos 4) 11 (pos 0)
      ≡ some (ok cs))
drain_file_total_example =
    drain_file_total latin1 utf8 (λ raw. (raw, refl)) (λ k. contents two_lines) (pos 4)
      (unfold is_read_size in refl) 8 (λ k file_bytes e. ground arith) (pos 0)
