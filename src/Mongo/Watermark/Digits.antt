-- ===== src/Mongo/Watermark/Digits.antt =====
-- mongo/watermark.py: the digits that `zero_padded` writes are those that `read_digits` reads.
use Prim.Native.String.{◌++◌ as ◌<>◌}
use Prim.Native.String.append
use text.Mathlib.TextLemmas.{append_assoc}
use alteryx_server_maintenan.Prelude.{
  ℕ, zero, suc, ◌+◌, ◌*◌, ◌/◌, ◌%◌, ◌<◌, ◌≡◌, refl, String, arith,
}
use alteryx_server_maintenan.DateTime.{digit, zero_padded}
use alteryx_server_maintenan.Mongo.Watermark.Clock.{read_digits}

read_digits-digit :
    (width n k d : ℕ) (s : String)
    → d < 10
    → read_digits (suc width) n k (digit d <> s) ≡ read_digits width (n * 10 + d) (suc k) s
unfolding read_digits digit
read_digits-digit width n k zero s h = rw (append.cons _ "" s, append.nil s) refl
read_digits-digit width n k (suc zero) s h = rw (append.cons _ "" s, append.nil s) refl
read_digits-digit width n k (suc (suc zero)) s h = rw (append.cons _ "" s, append.nil s) refl
read_digits-digit width n k (suc (suc (suc zero))) s h = rw (append.cons _ "" s, append.nil s) refl
read_digits-digit width n k (suc (suc (suc (suc zero)))) s h =
    rw (append.cons _ "" s, append.nil s) refl
read_digits-digit width n k (suc (suc (suc (suc (suc zero))))) s h =
    rw (append.cons _ "" s, append.nil s) refl
read_digits-digit width n k (suc (suc (suc (suc (suc (suc zero)))))) s h =
    rw (append.cons _ "" s, append.nil s) refl
read_digits-digit width n k (suc (suc (suc (suc (suc (suc (suc zero))))))) s h =
    rw (append.cons _ "" s, append.nil s) refl
read_digits-digit width n k (suc (suc (suc (suc (suc (suc (suc (suc zero)))))))) s h =
    rw (append.cons _ "" s, append.nil s) refl
read_digits-digit width n k (suc (suc (suc (suc (suc (suc (suc (suc (suc zero))))))))) s h =
    rw (append.cons _ "" s, append.nil s) refl
read_digits-digit width n k (suc (suc (suc (suc (suc (suc (suc (suc (suc (suc d)))))))))) s h =
    absurd (omega arith)

zero_padded-digit :
    (width n : ℕ) (s : String)
    → zero_padded (suc width) n <> s ≡ zero_padded width (n / 10) <> (digit (n % 10) <> s)
unfolding zero_padded
zero_padded-digit width n s = append_assoc (zero_padded width (n / 10)) (digit (n % 10)) s

zero_padded-none : (n : ℕ) (s : String) → zero_padded zero n <> s ≡ s
unfolding zero_padded
zero_padded-none n s = append.nil s

module _ (extra m k : ℕ) where
  read_digits-one :
      (n : ℕ) (s : String)
      → n < 10
      → read_digits (suc extra) m k (zero_padded 1 n <> s)
        ≡ read_digits extra (m * 10 + n) (suc k) s
  read_digits-one n s h =
      rw (zero_padded-digit 0 n s, zero_padded-none (n / 10) (digit (n % 10) <> s))
        (let e : n % 10 ≡ n = omega arith in rw e (read_digits-digit extra m k n s h))

module _ (extra m k : ℕ) where
  pub read_digits-two :
      (n : ℕ) (s : String)
      → n < 100
      → read_digits (suc (suc extra)) m k (zero_padded 2 n <> s)
        ≡ read_digits extra (m * 100 + n) (suc (suc k)) s
  read_digits-two n s h =
      let e : (m * 10 + n / 10) * 10 + n % 10 ≡ m * 100 + n = omega arith in
      rw
        (
          zero_padded-digit 1 n s,
          read_digits-one (suc extra) m k (n / 10) (digit (n % 10) <> s) (omega arith),
          read_digits-digit extra (m * 10 + n / 10) (suc k) (n % 10) s (omega arith),
          e,
        )
        refl

pub read_digits-none :
    (n k : ℕ) (s : String) → read_digits 0 n k s ≡ record { number = n; digits = k; rest = s }
unfolding read_digits
read_digits-none n k s = refl

pub read_digits-three :
    (extra n : ℕ) (s : String)
    → n < 1000
    → read_digits (suc (suc (suc extra))) 0 0 (zero_padded 3 n <> s) ≡ read_digits extra n 3 s
read_digits-three extra n s h =
    let e : (0 * 100 + n / 10) * 10 + n % 10 ≡ n = omega arith in
    rw
      (
        zero_padded-digit 2 n s,
        read_digits-two (suc extra) 0 0 (n / 10) (digit (n % 10) <> s) (omega arith),
        read_digits-digit extra (0 * 100 + n / 10) 2 (n % 10) s (omega arith),
        e,
      )
      refl

pub read_digits-four :
    (n : ℕ) (s : String)
    → n < 10000
    → read_digits 4 0 0 (zero_padded 4 n <> s) ≡ record { number = n; digits = 4; rest = s }
read_digits-four n s h =
    let e : n / 10 * 10 + n % 10 ≡ n = omega arith in
    rw
      (
        zero_padded-digit 3 n s,
        read_digits-three 1 (n / 10) (digit (n % 10) <> s) (omega arith),
        read_digits-digit 0 (n / 10) 3 (n % 10) s (omega arith),
        e,
      )
      (read_digits-none n 4 s)
