-- ===== src/Mongo/Watermark/RoundTrip.antt =====
-- mongo/watermark.py: `strptime` reads what `_format_ts` writes.
use Prim.Native.Char.{Char, code}
use Prim.Native.String.{◌++◌ as ◌<>◌}
use Prim.Native.String.append
use text.Mathlib.TextLemmas.{append_assoc}
use alteryx_server_maintenan.Prelude.{
  ℕ, ◌+◌, ◌*◌, ◌/◌, ◌≤◌, ◌<◌, ◌≡◌, refl, ap, ◌∙◌, ◌==◌, ◌||◌, String, Bool, true, arith, Result, ok,
}
use alteryx_server_maintenan.Prelude.Fallible.{◌>>=◌}
use alteryx_server_maintenan.DateTime.{DateTime, zero_padded}
use alteryx_server_maintenan.Mongo.Watermark.Clock.{
  is_leap, days_in_month, Read, read_digits, read_field, skip, checked, format_ts, strptime,
}
use alteryx_server_maintenan.Mongo.Watermark.Digits.{
  read_digits-two, read_digits-none, read_digits-three, read_digits-four,
}

read_field-ok :
    (least most low high : ℕ) (s : String) (r : Read)
    → read_digits most 0 0 s ≡ r
    → least ≤ r.digits
    → low ≤ r.number
    → r.number ≤ high
    → read_field least most low high s ≡ ok r
unfolding read_field
read_field-ok least most low high s r e h low_h high_h = rw e (ground arith)

-- Fields of two digits.
read_field-two :
    (low high n : ℕ) (s : String)
    → n < 100
    → low ≤ n
    → n ≤ high
    → read_field 1 2 low high (zero_padded 2 n <> s)
      ≡ ok (record { number = n; digits = 2; rest = s })
read_field-two low high n s h low_h high_h =
    let e : 0 * 100 + n ≡ n = omega arith in
    read_field-ok 1 2 low high (zero_padded 2 n <> s) (record { number = n; digits = 2; rest = s })
      (rw (read_digits-two 0 0 0 n s h, e) (read_digits-none n 2 s)) (omega arith) low_h high_h

-- The date-times there are.
pub record IsDate (t : DateTime) : Type 0 where
  pub first_year : 1 ≤ t.year
  pub last_year : t.year ≤ 9999
  pub first_month : 1 ≤ t.month
  pub last_month : t.month ≤ 12
  pub first_day : 1 ≤ t.day
  pub last_day : t.day ≤ days_in_month (is_leap t.year) t.month
  pub hour : t.hour < 24
  pub minute : t.minute < 60
  pub second : t.second < 60
  pub microsecond : t.microsecond < 1000000

-- To milliseconds.
unfoldable pub truncated : DateTime → DateTime
truncated t = record t { microsecond = t.microsecond / 1000 * 1000 }

format_ts-nested :
    (t : DateTime)
    → format_ts t
      ≡ zero_padded 4 t.year
        <> ("-"
            <> (zero_padded 2 t.month
                <> ("-"
                    <> (zero_padded 2 t.day
                        <> ("T"
                            <> (zero_padded 2 t.hour
                                <> (":"
                                    <> (zero_padded 2 t.minute
                                        <> (":"
                                            <> (zero_padded 2 t.second
                                                <> ("."
                                                    <> (zero_padded 3 (t.microsecond / 1000)
                                                        <> "Z"))))))))))))
unfolding format_ts
format_ts-nested t = simp (append_assoc)

-- One step of a `do` block.
pub continues :
    {A B : Type 0} {m : Result A} {a : A} (f : A → Result B) {r : Result B}
    → m ≡ ok a
    → f a ≡ r
    → (m >>= f) ≡ r
continues f e h = ap (λ m. m >>= f) e ∙ h

skip-ok :
    (is : ℕ → Bool) (c : Char) (s : String)
    → is (code c) ≡ true
    → skip is (String.◌∷◌ c String.[] <> s) ≡ ok s
unfolding skip
skip-ok is c s h = rw (append.cons c String.[] s, append.nil s, h) refl

last_field :
    (n : ℕ)
    → n < 1000
    → read_field 1 6 0 999999 (zero_padded 3 n <> "Z")
      ≡ ok (record { number = n; digits = 3; rest = "Z" })
unfolding read_digits
last_field n h =
    read_field-ok 1 6 0 999999 (zero_padded 3 n <> "Z")
      (record { number = n; digits = 3; rest = "Z" }) (read_digits-three 3 n "Z" h ∙ stopped)
      (omega arith) (omega arith) (omega arith)
  where
    stopped : read_digits 3 n 3 "Z" ≡ record { number = n; digits = 3; rest = "Z" }
    stopped = refl

four_digits :
    (n : ℕ) (s : String)
    → 1 ≤ n
    → n ≤ 9999
    → read_field 4 4 1 9999 (zero_padded 4 n <> s)
      ≡ ok (record { number = n; digits = 4; rest = s })
four_digits n s low high =
    read_field-ok 4 4 1 9999 (zero_padded 4 n <> s) (record { number = n; digits = 4; rest = s })
      (read_digits-four n s (omega arith)) (omega arith) low high

days_below : (leap : Bool) (month : ℕ) → days_in_month leap month ≤ 31
days_below leap month = ground arith

checked-ok :
    (t : DateTime)
    → IsDate t
    → (skip (λ c. c == b'Z' || c == b'Z' + 32) "Z" >>= λ s. checked s (truncated t))
      ≡ ok (truncated t)
unfolding skip checked truncated
checked-ok t h = ground arith

-- `strptime` reads what `_format_ts` writes: the date-time, cut to its milliseconds.
pub strptime-format_ts : (t : DateTime) → IsDate t → strptime (format_ts t) ≡ ok (truncated t)
unfolding strptime truncated
strptime-format_ts t h =
    let below : t.day ≤ 31 = omega (arith, days_below (is_leap t.year) t.month) in
    rw (format_ts-nested t) (
      continues _ (four_digits t.year _ h.first_year h.last_year) (
        continues _ (skip-ok (λ c. c == b'-') _ _ refl) (
          continues _ (read_field-two 1 12 t.month _ (omega arith) h.first_month h.last_month) (
            continues _ (skip-ok (λ c. c == b'-') _ _ refl) (
              continues _ (read_field-two 1 31 t.day _ (omega arith) h.first_day (omega arith)) (
                continues _ (skip-ok (λ c. c == b'T' || c == b'T' + 32) _ _ refl) (
                  continues _
                    (read_field-two 0 23 t.hour _ (omega arith) (omega arith) (omega arith))
                    (continues _ (skip-ok (λ c. c == b':') _ _ refl) (
                      continues _
                        (read_field-two 0 59 t.minute _ (omega arith) (omega arith) (omega arith))
                        (continues _ (skip-ok (λ c. c == b':') _ _ refl) (
                          continues _
                            (read_field-two 0 61 t.second _ (omega arith) (omega arith)
                              (omega arith))
                            (continues _ (skip-ok (λ c. c == b'.') _ _ refl) (
                              continues _ (last_field (t.microsecond / 1000) (omega arith))
                                (checked-ok t h))))))))))))))
