-- ===== src/Mongo/Watermark/Clock.antt =====
-- mongo/watermark.py: date-times in UTC as instants and as texts, as `datetime` does it.
use Prim.Native.Char.{code}
use Prim.Native.String.{◌++◌ as ◌<>◌}
use alteryx_server_maintenan.Prelude.{
  ℕ, zero, suc, ◌+◌, ◌-◌, ◌*◌, ◌/◌, ◌%◌, String, Bool, ◌&&◌, ◌||◌, ltb, leb, ◌==◌, if◌then◌else◌,
  Result, ok, raised, exception,
}
use alteryx_server_maintenan.Prelude.Fallible.{◌>>=◌}
use alteryx_server_maintenan.Prelude.Int.{ℤ, pos, negsuc}
use alteryx_server_maintenan.DateTime.{DateTime, zero_padded, date_partition}

abbrev pub is_leap : ℕ → Bool
is_leap year = year % 4 == 0 && (not_zero (year % 100) || year % 400 == 0)
  where
    not_zero : ℕ → Bool
    not_zero n = ltb 0 n

-- The days of a year before a month, and those of the month.
abbrev pub days_before_month : Bool → ℕ → ℕ
days_before_month leap month =
    if leb month 2 then 31 * (month - 1) else (367 * month - 362) / 12 - (if leap then 1 else 2)

abbrev pub days_in_month : Bool → ℕ → ℕ
days_in_month leap month =
    if month == 2
    then (if leap then 29 else 28)
    else if month == 4 || month == 6 || month == 9 || month == 11
    then 30
    else 31

-- `datetime.toordinal`, from 1 on.
unfoldable pub ordinal : DateTime → ℕ
ordinal t =
    let y = t.year - 1 in
    365 * y + y / 4 - y / 100 + y / 400 + days_before_month (is_leap t.year) t.month + t.day

-- The microseconds since 0001-01-01.
unfoldable pub instant : DateTime → ℕ
unfolding ordinal
instant t =
    ((((ordinal t - 1) * 24 + t.hour) * 60 + t.minute) * 60 + t.second) * 1000000 + t.microsecond

-- One more than `datetime.max`.
abbrev pub end_of_time : ℕ
end_of_time = 3652059 * 86400 * 1000000

abbrev pub overflow : {A : Type 0} → Result A
overflow = raised (exception "OverflowError")

-- `t - timedelta(seconds=...)`.
unfoldable pub minus_seconds : ℕ → ℤ → Result ℕ
minus_seconds t (pos s) = if leb (s * 1000000) t then ok (t - s * 1000000) else overflow
minus_seconds t (negsuc s) =
    let u = t + (s + 1) * 1000000 in if ltb u end_of_time then ok u else overflow

-- `_format_ts`. The date-times that MongoDB gives are in UTC.
unfoldable pub format_ts : DateTime → String
unfolding date_partition
format_ts t =
    date_partition t
    <> "T"
    <> zero_padded 2 t.hour
    <> ":"
    <> zero_padded 2 t.minute
    <> ":"
    <> zero_padded 2 t.second
    <> "."
    <> zero_padded 3 (t.microsecond / 1000)
    <> "Z"

abbrev value_error : {A : Type 0} → Result A
value_error = raised (exception "ValueError")

abbrev is_digit : ℕ → Bool
is_digit c = leb b'0' c && leb c b'9'

-- What was read of a text: a number, how many digits it had, and the rest.
pub record Read : Type 0 where
  pub number : ℕ
  pub digits : ℕ
  pub rest : String

-- At most so many digits, and as many as there are.
unfoldable pub read_digits : ℕ → ℕ → ℕ → String → Read
read_digits zero n k s = record { number = n; digits = k; rest = s }
read_digits (suc width) n k String.[] = record { number = n; digits = k; rest = String.[] }
read_digits (suc width) n k (String.◌∷◌ c s) =
    let more = read_digits width (n * 10 + (code c - b'0')) (suc k) s in
    if is_digit (code c) then more else record { number = n; digits = k; rest = String.◌∷◌ c s }

-- A letter of the format, in either case.
abbrev is_letter : ℕ → ℕ → Bool
is_letter l c = c == l || c == l + 32

unfoldable pub skip : (ℕ → Bool) → String → Result String
skip is String.[] = value_error
skip is (String.◌∷◌ c s) = if is (code c) then ok s else value_error

-- A field of at least and at most so many digits, within its range.
unfoldable pub read_field : ℕ → ℕ → ℕ → ℕ → String → Result Read
unfolding read_digits
read_field least most low high s =
    let r = read_digits most 0 0 s in
    if leb least r.digits && leb low r.number && leb r.number high then ok r else value_error

-- The fraction of a second, filled up on the right.
abbrev pub micros : Read → ℕ
micros r =
    if r.digits == 1
    then r.number * 100000
    else if r.digits == 2
    then r.number * 10000
    else if r.digits == 3
    then r.number * 1000
    else if r.digits == 4
    then r.number * 100
    else if r.digits == 5
    then r.number * 10
    else r.number

-- `datetime` refuses what is no day of the month, and a leap second.
unfoldable pub checked : String → DateTime → Result DateTime
checked String.[] t =
    if leb t.day (days_in_month (is_leap t.year) t.month) && ltb t.second 60
    then ok t
    else value_error
checked (String.◌∷◌ c s) t = value_error

-- `datetime.strptime(s, _TS_FORMAT)`, of ASCII digits.
unfoldable pub strptime : String → Result DateTime
strptime s = do
  year ← read_field 4 4 1 9999 s
  s ← skip (λ c. c == b'-') year.rest
  month ← read_field 1 2 1 12 s
  s ← skip (λ c. c == b'-') month.rest
  day ← read_field 1 2 1 31 s
  s ← skip (is_letter b'T') day.rest
  hour ← read_field 1 2 0 23 s
  s ← skip (λ c. c == b':') hour.rest
  minute ← read_field 1 2 0 59 s
  s ← skip (λ c. c == b':') minute.rest
  second ← read_field 1 2 0 61 s
  s ← skip (λ c. c == b'.') second.rest
  fraction ← read_field 1 6 0 999999 s
  s ← skip (is_letter b'Z') fraction.rest
  checked s (record {
    year = year.number;
    month = month.number;
    day = day.number;
    hour = hour.number;
    minute = minute.number;
    second = second.number;
    microsecond = micros fraction;
  })
