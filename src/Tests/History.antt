-- ===== src/Tests/History.antt =====
-- A history of the store, and the theorem on histories there.
use alteryx_server_maintenan.Prelude.{◌≡◌, true, false, [], ◌∷◌, List, String}
use alteryx_server_maintenan.RunnerTypes.{UnitResult}
use alteryx_server_maintenan.State.{empty_db}
use alteryx_server_maintenan.State.Refines.{
  Call, sets_watermark, deletes_offset, view, run_all, meaning_of_all, run_all-meaning,
}

abbrev no_text : List UnitResult → String
no_text units = ""

-- The second call is rolled back.
abbrev calls : List Call
calls =
    record {
      raises = λ k. false;
      now = "t1";
      operation = sets_watermark "mongo:db.jobs" "objectid" "5f" "r1";
    }
    ∷ record {
      raises = λ k. true;
      now = "t2";
      operation = sets_watermark "mongo:db.jobs" "objectid" "6a" "r2";
    }
    ∷ record { raises = λ k. false; now = "t3"; operation = deletes_offset "gallery" "ab" }
    ∷ []

run_all-meaning_example :
    view (run_all no_text calls empty_db).1
    ≡ meaning_of_all no_text calls (run_all no_text calls empty_db).0 (view empty_db)
run_all-meaning_example = run_all-meaning no_text calls empty_db
