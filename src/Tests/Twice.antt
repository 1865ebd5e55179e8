-- ===== src/Tests/Twice.antt =====
-- Two runs over a mutable collection.
use mathlib.Core.Path.{subst}
use mathlib.Core.List.{Memᴰ}
use mathlib.Core.List.Memᴰ.{head, tail}
use alteryx_server_maintenan.Prelude.{
  String, ◌≡◌, ◌≢◌, refl, none, some, [], ◌∷◌, ok, ok_injective, arith,
}
use alteryx_server_maintenan.Prelude.Dict.{lookup, upsert, remove, string_key}
use alteryx_server_maintenan.RunnerTypes.{UnitResult, status_ok, failed}
use alteryx_server_maintenan.S3.{upload, upload_content, by_reply}
use alteryx_server_maintenan.Sinks.{write_rows, open_writer, close, unlink, abort}
use alteryx_server_maintenan.Spool.{spool_path, dots_to_underscores}
use alteryx_server_maintenan.State.{get_watermark, set_watermark, transaction, run_statements}
use alteryx_server_maintenan.World.{World}
use alteryx_server_maintenan.World.Exec.{◌>>=◌, try_except, effect, commit, os_effect}
use alteryx_server_maintenan.Mongo.Watermark.{validate_watermark_kind}
use alteryx_server_maintenan.Mongo.Watermark.Clock.{
  instant, format_ts, minus_seconds, strptime, read_field, skip, checked,
}
use alteryx_server_maintenan.Mongo.Watermark.Maximum.{values, date_of, Greatest, greatest}
use alteryx_server_maintenan.Mongo.Watermark.Strategies.{
  timestamp_watermark, filter_since, everything,
}
use alteryx_server_maintenan.Mongo.Extract.{
  Cursor, extract_collection, finish, deliver, try_upload, after_upload, advance_watermark,
  read_cursor, for_docs, flush_if_full, doc_to_row, abort_and_raise,
}
use alteryx_server_maintenan.Mongo.Extract.Delivery.{IsQuery}
use alteryx_server_maintenan.Mongo.Delivers.{FindsSince, HasRow, extract_collection-Delivers}
use alteryx_server_maintenan.Tests.Extract.{env, world, run_ctx}
use alteryx_server_maintenan.Tests.Watermark.{leap_day, jobs}
use alteryx_server_maintenan.Tests.Cycle.{json, updated, two_updates, updated-HasDates}

updates-FindsSince :
    FindsSince env json updated "pre" jobs run_ctx run_ctx "db" two_updates 30 (λ w. "a" ∷ "b" ∷ [])
updates-FindsSince = record {
  delivered =
      λ w lb {doc} h m at le. subst (λ (c : Cursor String). Memᴰ doc c.docs) (ok_injective h) m;
}

abbrev shipped_jobs : UnitResult
shipped_jobs = record {
  unit = "jobs";
  status = status_ok;
  docs = 2;
  bytes_uploaded = 9;
  error = none;
}

not_failed : shipped_jobs.status ≢ failed
not_failed e = cc

abbrev both : Cursor String
both = record { docs = "a" ∷ "b" ∷ []; fault = none }

first_query :
    IsQuery env json
      (timestamp_watermark updated jobs)
      "pre"
      jobs
      run_ctx
      "db"
      two_updates
      (world 20)
      both
unfolding timestamp_watermark filter_since get_watermark lookup
first_query = record { filter_doc = everything; kind_matches = refl; built = refl; found = refl }

-- The world after the first run, and after the second.
abbrev left : World
left =
    (extract_collection env json (timestamp_watermark updated jobs) "pre" jobs run_ctx "db"
      two_updates (world 20)).1

abbrev later : World
later =
    (extract_collection env json (timestamp_watermark updated jobs) "pre" jobs run_ctx "db"
      two_updates (record left { budget = 20 })).1

first_run :
    extract_collection env json
      (timestamp_watermark updated jobs)
      "pre"
      jobs
      run_ctx
      "db"
      two_updates
      (world 20)
    ≡ (ok shipped_jobs, left)
unfolding extract_collection finish deliver try_upload after_upload advance_watermark read_cursor
    for_docs flush_if_full doc_to_row abort_and_raise ◌>>=◌ try_except effect commit os_effect
    write_rows open_writer close unlink abort upload upload_content by_reply get_watermark
    set_watermark transaction run_statements lookup upsert remove dots_to_underscores spool_path
    timestamp_watermark filter_since strptime minus_seconds instant format_ts
    validate_watermark_kind read_field skip checked
first_run = refl

later_run :
    extract_collection env json
      (timestamp_watermark updated jobs)
      "pre"
      jobs
      run_ctx
      "db"
      two_updates
      (record left { budget = 20 })
    ≡ (ok shipped_jobs, later)
unfolding extract_collection finish deliver try_upload after_upload advance_watermark read_cursor
    for_docs flush_if_full doc_to_row abort_and_raise ◌>>=◌ try_except effect commit os_effect
    write_rows open_writer close unlink abort upload upload_content by_reply get_watermark
    set_watermark transaction run_statements lookup upsert remove dots_to_underscores spool_path
    timestamp_watermark filter_since strptime minus_seconds instant format_ts
    validate_watermark_kind read_field skip checked
later_run = refl

latest_of_both : Greatest instant (values (date_of updated jobs) both.docs) (some leap_day)
latest_of_both = greatest (head refl) (omega arith, (omega arith, tt))

extract_collection-Delivers_example :
    HasRow env json updated "pre" jobs run_ctx run_ctx "db" two_updates 30 "b" later
extract_collection-Delivers_example =
    extract_collection-Delivers env json updated "pre" jobs run_ctx run_ctx "db" two_updates 30
      updated-HasDates refl (world 20) both first_query leap_day latest_of_both refl first_run refl
      (λ w. "a" ∷ "b" ∷ []) updates-FindsSince (record left { budget = 20 }) refl (tail (head refl))
      refl (omega arith) refl not_failed later_run
