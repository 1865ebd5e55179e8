-- ===== src/Tests/Watermark.antt =====
-- The theorems on mongo/watermark.py at concrete documents.
use alteryx_server_maintenan.Prelude.{
  ℕ, ◌+◌, ◌*◌, ◌≤◌, ◌<◌, ◌≡◌, ◌≢◌, refl, String, str_eq, Bool, true, false, ltb, if◌then◌else◌,
  Option, none, some, List, [], ◌∷◌, arith, ok,
}
use alteryx_server_maintenan.Prelude.Int.{pos}
use alteryx_server_maintenan.Config.{CollectionConfig, mutable}
use alteryx_server_maintenan.DateTime.{DateTime}
use alteryx_server_maintenan.Mongo.Watermark.Clock.{ordinal, instant, format_ts, strptime}
use alteryx_server_maintenan.Mongo.Watermark.RoundTrip.{IsDate, truncated, strptime-format_ts}
use alteryx_server_maintenan.Mongo.Watermark.Strategies.{
  Bson, id, missing, above, since, object_id_watermark, timestamp_watermark, observe_each,
}
use alteryx_server_maintenan.Mongo.Watermark.Maximum.{
  Greatest, values, date_of, observe_each-Greatest,
}
use alteryx_server_maintenan.Mongo.Watermark.Overlap.{
  IsOrdered, build_filter-since, build_filter-above,
}

abbrev pub leap_day : DateTime
leap_day = record {
  year = 2024;
  month = 2;
  day = 29;
  hour = 23;
  minute = 59;
  second = 58;
  microsecond = 7999;
}

pub leap_day-IsDate : IsDate leap_day
leap_day-IsDate = record {
  first_year = omega arith;
  last_year = omega arith;
  first_month = omega arith;
  last_month = omega arith;
  first_day = omega arith;
  last_day = omega arith;
  hour = omega arith;
  minute = omega arith;
  second = omega arith;
  microsecond = omega arith;
}

formatted : format_ts leap_day ≡ "2024-02-29T23:59:58.007Z"
unfolding format_ts
formatted = refl

-- Python's `date(2024, 2, 29).toordinal()`.
ordinal-leap_day : ordinal leap_day ≡ 738945
unfolding ordinal
ordinal-leap_day = refl

strptime-format_ts_example : strptime (format_ts leap_day) ≡ ok (truncated leap_day)
strptime-format_ts_example = strptime-format_ts leap_day leap_day-IsDate

abbrev pub jobs : CollectionConfig
jobs = record {
  name = "jobs";
  mode = mutable;
  watermark_field = some "updated";
  overlap_seconds = pos 30;
  batch_size = pos 2;
  initial_watermark = none;
  allow_gridfs_chunks = false;
}

-- Documents by the date-time in their field, with a number for an `_id`.
abbrev dated : Bson (Option DateTime) ℕ
dated = record {
  id_of = λ doc. missing;
  date_at = λ field doc. doc;
  object_id = λ text. ok 0;
  generation_time = λ oid. oid;
  from_datetime = λ t. ok t;
  is_above = λ a b. some (ltb b a);
  id_text = λ oid. "";
}

abbrev updates : List (Option DateTime)
updates = some (record leap_day { day = 28 }) ∷ some leap_day ∷ none ∷ []

observe_each-Greatest_example :
    (st : Option DateTime) × (observe_each (timestamp_watermark dated jobs) updates none ≡ ok st)
    × Greatest instant (values (date_of dated jobs) updates) st
observe_each-Greatest_example = observe_each-Greatest dated jobs updates

pub enough : 30 * 1000000 ≤ instant (truncated leap_day)
unfolding instant truncated
enough = omega arith

build_filter-since_example :
    (lb : ℕ) × (((timestamp_watermark dated jobs).build_filter
        ((timestamp_watermark dated jobs).new_watermark (some leap_day)))
      ≡ ok (since (some "updated") lb))
    × ((d : DateTime) → instant leap_day ≤ instant d + 30 * 1000000 → lb ≤ instant d)
    × ((d : DateTime) → lb ≤ instant d → instant leap_day < instant d + 30 * 1000000 + 1000)
build_filter-since_example = build_filter-since dated jobs leap_day 30 leap_day-IsDate refl enough

-- Two `_id`s, of which `from_datetime` gives the lesser.
abbrev hex : Bool → String
hex true = "aa"
hex false = "55"

abbrev pub rank : Bool → ℕ
rank true = 1
rank false = 0

abbrev pub two_ids : Bson Bool Bool
two_ids = record {
  id_of = λ doc. id doc;
  date_at = λ field doc. none;
  object_id = λ text. ok (str_eq text "aa");
  generation_time = λ oid. if oid then 90000000 else 60000000;
  from_datetime = λ t. ok false;
  is_above = λ a b. some (ltb (rank b) (rank a));
  id_text = hex;
}

pub two_ids-IsOrdered : IsOrdered two_ids jobs rank
two_ids-IsOrdered = record { parsed = parsed; least = λ t l a e h n. least l a e n }
  where
    parsed : (a : Bool) → two_ids.object_id (two_ids.id_text a) ≡ ok a
    parsed true = refl
    parsed false = refl

    least : (l a : Bool) → ok false ≡ ok l → a ≢ l → rank l < rank a
    least true a e n = absurd (ground arith)
    least false true e n = omega arith
    least false false e n = absurd (n refl)

build_filter-above_example :
    (((object_id_watermark two_ids jobs).build_filter
        ((object_id_watermark two_ids jobs).new_watermark (some true)))
      ≡ ok (above false))
    × ((a : Bool) → 90000000 ≤ two_ids.generation_time a + 30 * 1000000 → a ≢ false → 0 < rank a)
build_filter-above_example =
    build_filter-above two_ids jobs rank true false 30 two_ids-IsOrdered refl (omega arith) refl
