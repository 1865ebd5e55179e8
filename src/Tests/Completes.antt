-- ===== src/Tests/Completes.antt =====
-- A run and a poll in which nothing goes wrong.
use alteryx_server_maintenan.Prelude.{
  ◌+◌, ◌≤◌, ◌≢◌, ap, length, String, [], ◌∷◌, none, ◌≡◌, refl, arith, ok,
}
use alteryx_server_maintenan.Prelude.Dict.{lookup, upsert, string_key, pair_key}
use alteryx_server_maintenan.RunnerTypes.{UnitResult, failed}
use alteryx_server_maintenan.State.{get_watermark, get_offsets, offsets_of}
use alteryx_server_maintenan.World.{World}
use alteryx_server_maintenan.World.Total.{IsQuiet}
use alteryx_server_maintenan.Mongo.Watermark.Strategies.{
  everything, timestamp_watermark, filter_since,
}
use alteryx_server_maintenan.Mongo.Extract.{Cursor, extract_collection}
use alteryx_server_maintenan.Mongo.Extract.Delivery.{IsQuery}
use alteryx_server_maintenan.Mongo.Extract.Total.{IsAccepting}
use alteryx_server_maintenan.Mongo.Extract.Completes.{Completes, extract_collection-Completes}
use alteryx_server_maintenan.Tests.Extract.{env, world, run_ctx}
use alteryx_server_maintenan.Tests.Watermark.{jobs}
use alteryx_server_maintenan.Tests.Cycle.{json, updated, two_updates}
use alteryx_server_maintenan.Prelude.Int.{pos}
use alteryx_server_maintenan.Logs.Tailer.{Bytes, codes, contents}
use alteryx_server_maintenan.Logs.Sources.{
  discover, sort, insert, entry_leb, str_leb, list_entries, plans_of, plan_of, fingerprint,
}
use alteryx_server_maintenan.Logs.Sources.{cutoff_of}
use alteryx_server_maintenan.Logs.Tailer.Read.{is_read_size}
use alteryx_server_maintenan.Prelude.{ℕ}
use alteryx_server_maintenan.Logs.Ship.{ship_source}
use alteryx_server_maintenan.Logs.Ship.Outcomes.{Outcome}
use alteryx_server_maintenan.Logs.Ship.Total.{IsReadable}
use alteryx_server_maintenan.Logs.Ship.Completes.{ship_source-Completes}
use alteryx_server_maintenan.Tests.Logs
use alteryx_server_maintenan.Tests.Logs.{hexdigest, latin1, calendar, disk, gallery, filled}

abbrev both : Cursor String
both = record { docs = "a" ∷ "b" ∷ []; fault = none }

env-IsQuiet : IsQuiet env
env-IsQuiet = record {
  writes = λ w path. refl;
  unlinks = λ w path. refl;
  sql = λ w i. refl;
  selects = λ w. refl;
  stores = λ w path key. ("etag", refl);
}

accepts_all : IsAccepting json (timestamp_watermark updated jobs)
unfolding timestamp_watermark
accepts_all = record {
  observed = λ doc st. (_, refl);
  dumped = λ doc. (doc, refl);
  marked = λ doc. (_, refl);
}

first_query :
    IsQuery env json
      (timestamp_watermark updated jobs)
      "pre"
      jobs
      run_ctx
      "db"
      two_updates
      (world 20)
      both
unfolding timestamp_watermark filter_since get_watermark lookup
first_query = record { filter_doc = everything; kind_matches = refl; built = refl; found = refl }

extract_collection-Completes_example :
    (u : UnitResult) × (w' : World) × (extract_collection env json
        (timestamp_watermark updated jobs)
        "pre"
        jobs
        run_ctx
        "db"
        two_updates
        (world 20)
      ≡ (ok u, w'))
    × Completes env json
        (timestamp_watermark updated jobs)
        env-IsQuiet
        accepts_all
        "pre"
        jobs
        run_ctx
        "db"
        two_updates
        (world 20)
        both
        first_query
        u
        w'
extract_collection-Completes_example =
    extract_collection-Completes env json (timestamp_watermark updated jobs) env-IsQuiet accepts_all
      "pre" jobs run_ctx "db" two_updates (world 20) both first_query refl (omega arith)

logs_env-IsQuiet : IsQuiet Logs.env
logs_env-IsQuiet = record {
  writes = λ w path. refl;
  unlinks = λ w path. refl;
  sql = λ w i. refl;
  selects = λ w. refl;
  stores = λ w path key. ("etag", refl);
}

disk-IsReadable :
    IsReadable Logs.env hexdigest latin1 calendar disk "pre" gallery Logs.run_ctx (pos 14)
disk-IsReadable = record {
  counts = unfold is_read_size in refl;
  decodes = λ raw. (raw, refl);
  small = λ path k file_bytes h. small file_bytes h;
}
  where
    small :
        (file_bytes : Bytes)
        → contents (codes "ab\ncd\n") ≡ contents file_bytes
        → length file_bytes ≤ 6
    small file_bytes h =
        let e : codes "ab\ncd\n" ≡ file_bytes = cc in
        omega (arith, ap (λ (bytes : Bytes). length bytes) e)

has_cutoff : (w : World) → (cutoff : ℕ) × (cutoff_of (calendar.clock w) (pos 14) ≡ ok cutoff)
unfolding cutoff_of
has_cutoff w = (_, refl)

abbrev long_lived : World
long_lived = record filled { budget = 20 }

few_plans :
    length (discover hexdigest (get_offsets "gallery" filled.db) (disk.glob gallery.path_glob))
      + length filled.db.file_offsets
      + 6
    ≤ 20
unfolding discover sort insert entry_leb str_leb list_entries plans_of plan_of fingerprint
    get_offsets offsets_of lookup upsert
few_plans = omega arith

ship_source-Completes_example :
    (u : UnitResult) × (w' : World) × (ship_source Logs.env hexdigest latin1 calendar disk "pre"
        gallery Logs.run_ctx
        (pos 14)
        long_lived
      ≡ (ok u, w'))
    × (u.status ≢ failed)
    × Outcome Logs.env hexdigest latin1 calendar disk "pre" gallery Logs.run_ctx
        (pos 14)
        long_lived
        u
        w'
ship_source-Completes_example =
    ship_source-Completes Logs.env hexdigest latin1 calendar disk "pre" gallery Logs.run_ctx
      (pos 14) logs_env-IsQuiet has_cutoff disk-IsReadable long_lived few_plans
