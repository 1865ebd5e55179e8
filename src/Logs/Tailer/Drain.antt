-- ===== src/Logs/Tailer/Drain.antt =====
-- tailer.py: `drain_file` is a chain of `tail_file` calls that always ends.
use mathlib.Core.Path.{subst}
use alteryx_server_maintenan.Prelude.{
  ℕ, zero, suc, ◌+◌, ◌≡◌, refl, inl, inr, true, false, Bool-cases, Option, none, some, List, [],
  ◌∷◌, arith, Result, ok, raised,
}
use alteryx_server_maintenan.Prelude.Int.{ℤ, pos, negsuc}
use alteryx_server_maintenan.Logs.Tailer.Encoding.{Bytes, Text, is_two_byte}
use alteryx_server_maintenan.Logs.Tailer.Read.{
  FileRead, missing, unreadable, unseekable, contents, TailChunk, first_byte, tail_file, has_lines,
  same_offset, prepend, drain_round, drain_loop,
}
use alteryx_server_maintenan.Logs.Tailer.Window.{Scanned, withheld, consumed, tail_file-Scanned}

module _ (decode : Text → Bytes → Result Text) (encoding : Text) where
  -- A chunk with lines ends behind the offset that the read was asked for.
  Scanned-progress :
      (o : ℤ) (raw : Bytes) {c : TailChunk}
      → Scanned decode encoding (first_byte (is_two_byte encoding) o) raw c
      → has_lines decode c ≡ true
      → same_offset decode c.new_offset o ≡ false
  unfolding first_byte same_offset
  Scanned-progress o raw (withheld h) l = cc
  Scanned-progress (pos n) raw (consumed p text h g f e) l = ground arith
  Scanned-progress (negsuc n) raw (consumed p text h g f e) l = refl

  pub tail_file-progress :
      (file : FileRead) (o max_bytes : ℤ) {c : TailChunk}
      → tail_file decode file o encoding max_bytes ≡ ok c
      → has_lines decode c ≡ true
      → same_offset decode c.new_offset o ≡ false
  unfolding tail_file
  tail_file-progress missing o max_bytes e l = ground arith
  tail_file-progress unreadable o max_bytes e l = ground arith
  tail_file-progress unseekable o max_bytes e l = ground arith
  tail_file-progress (contents file_bytes) o max_bytes e l =
      Scanned-progress o _ (tail_file-Scanned decode encoding file_bytes o max_bytes e) l

module _ (decode : Text → Bytes → Result Text) (encoding : Text) (disk : ℕ → FileRead)
    (max_bytes : ℤ) where
  -- The chunks that successive calls of `tail_file` give, each from the offset that the one before
  -- it returned, up to the first call that gives no lines.
  pub data Drains : ℕ → ℤ → List TailChunk → Type 0 where
    stop :
        {k : ℕ} {o : ℤ} {c : TailChunk}
        → tail_file decode (disk k) o encoding max_bytes ≡ ok c
        → has_lines decode c ≡ false
        → Drains k o []
    next :
        {k : ℕ} {o : ℤ} {c : TailChunk} {cs : List TailChunk}
        → tail_file decode (disk k) o encoding max_bytes ≡ ok c
        → has_lines decode c ≡ true
        → Drains (k + 1) (pos c.new_offset) cs
        → Drains k o (c ∷ cs)

  prepend-ok :
      (c : TailChunk) (r : Option (Result (List TailChunk))) {cs : List TailChunk}
      → prepend decode c r ≡ some (ok cs)
      → (ds : List TailChunk) × (r ≡ some (ok ds)) × (c ∷ ds ≡ cs)
  prepend-ok c none h = ground arith
  prepend-ok c (some (ok ds)) h = (ds, refl, ground arith)
  prepend-ok c (some (raised e)) h = ground arith

  drain_round-Drains :
      (k : ℕ) (o : ℤ) (t : Result TailChunk) (loop : ℕ → Option (Result (List TailChunk)))
      → tail_file decode (disk k) o encoding max_bytes ≡ t
      → ((n : ℕ) (ds : List TailChunk) → loop n ≡ some (ok ds) → Drains (k + 1) (pos n) ds)
      → {cs : List TailChunk} → drain_round decode o t loop ≡ some (ok cs)
      → Drains k o cs
  unfolding drain_round
  drain_round-Drains k o (raised x) loop h rest e = cc
  drain_round-Drains k o (ok c) loop h rest {cs} e = elim (Bool-cases (has_lines decode c)) [
    | inl l ↦
        let e' : prepend decode c (loop c.new_offset) ≡ some (ok cs) =
          ground (arith, tail_file-progress decode encoding (disk k) o max_bytes h l) in
        let (ds, f, g) = prepend-ok c (loop c.new_offset) e' in
        subst (Drains k o) g (next h l (rest c.new_offset ds f))
    | inr l ↦ subst (Drains k o) (ground arith) (stop h l)
  ]

  -- What `drain_file` returns is such a chain: the guard against a call that returns lines and does
  -- not advance never ends the loop.
  pub drain_loop-Drains :
      (fuel k : ℕ) (o : ℤ) {cs : List TailChunk}
      → drain_loop decode disk encoding max_bytes fuel k o ≡ some (ok cs)
      → Drains k o cs
  unfolding drain_loop
  drain_loop-Drains zero k o e = ground arith
  drain_loop-Drains (suc fuel) k o e =
      drain_round-Drains k o (tail_file decode (disk k) o encoding max_bytes)
        (λ n. drain_loop decode disk encoding max_bytes fuel (k + 1) (pos n)) refl
        (λ n ds f. drain_loop-Drains fuel (k + 1) (pos n) f) e
