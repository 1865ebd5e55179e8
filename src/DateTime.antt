-- ===== src/DateTime.antt =====
-- The UTC date-times of a run, and the `strftime` formats that the agent uses of them.
use Prim.Native.String.{◌++◌ as ◌<>◌}
use alteryx_server_maintenan.Prelude.{ℕ, zero, suc, ◌+◌, ltb, ◌/◌, ◌%◌, String, ◌==◌, if◌then◌else◌}

pub record DateTime : Type 0 where
  pub year : ℕ
  pub month : ℕ
  pub day : ℕ
  pub hour : ℕ
  pub minute : ℕ
  pub second : ℕ
  pub microsecond : ℕ

unfoldable pub digit : ℕ → String
digit d =
    if d == 0
    then "0"
    else if d == 1
    then "1"
    else if d == 2
    then "2"
    else if d == 3
    then "3"
    else if d == 4
    then "4"
    else if d == 5
    then "5"
    else if d == 6
    then "6"
    else if d == 7
    then "7"
    else if d == 8
    then "8"
    else "9"

-- The last digits of a number, with zeros in front.
unfoldable pub zero_padded : ℕ → ℕ → String
unfolding digit
zero_padded zero n = ""
zero_padded (suc width) n = zero_padded width (n / 10) <> digit (n % 10)

-- `%Y-%m-%d`.
unfoldable pub date_partition : DateTime → String
unfolding zero_padded
date_partition t =
    zero_padded 4 t.year <> "-" <> zero_padded 2 t.month <> "-" <> zero_padded 2 t.day

-- `%Y%m%dT%H%M%SZ`.
unfoldable pub run_stamp : DateTime → String
unfolding zero_padded
run_stamp t =
    zero_padded 4 t.year
    <> zero_padded 2 t.month
    <> zero_padded 2 t.day
    <> "T"
    <> zero_padded 2 t.hour
    <> zero_padded 2 t.minute
    <> zero_padded 2 t.second
    <> "Z"

-- `str` of a number.
decimal_on : ℕ → ℕ → String
unfolding digit
decimal_on zero n = ""
decimal_on (suc fuel) n =
    let rest = decimal_on fuel (n / 10) in if ltb n 10 then digit n else rest <> digit (n % 10)

-- A number has at most as many digits as one more than itself.
unfoldable pub decimal : ℕ → String
unfolding decimal_on
decimal n = decimal_on (n + 1) n

-- `isoformat()` of a date-time in UTC.
unfoldable pub isoformat : DateTime → String
unfolding date_partition
isoformat t =
    date_partition t
    <> "T"
    <> zero_padded 2 t.hour
    <> ":"
    <> zero_padded 2 t.minute
    <> ":"
    <> zero_padded 2 t.second
    <> (if t.microsecond == 0 then "" else "." <> zero_padded 6 t.microsecond)
    <> "+00:00"
