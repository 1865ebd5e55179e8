-- ===== src/Tests/Shipping.antt =====
-- A poll of two files, and the theorem on the offsets that it leaves.
use alteryx_server_maintenan.Prelude.{
  ◌≢◌, eq_iff, arith, String, ◌≡◌, refl, true, some, [], ◌∷◌, ok,
}
use alteryx_server_maintenan.Prelude.Dict.{lookup, upsert, string_key, pair_key}
use alteryx_server_maintenan.Prelude.Int.{pos}
use alteryx_server_maintenan.State.{
  Db, FileOffset, get_offsets, set_offsets, transaction, run_statements, offsets_of,
}
use alteryx_server_maintenan.World.{LogRecord}
use alteryx_server_maintenan.Logs.Tailer.{
  codes, tail_file, drain_file, drain_loop, is_two_byte, newline_pattern, last_newline,
}
use alteryx_server_maintenan.Logs.Tailer.Read.{drain_round}
use alteryx_server_maintenan.Logs.Sources.{
  TailPlan, discover, sort, insert, entry_leb, str_leb, list_entries, plans_of, plan_of,
  fingerprint,
}
use alteryx_server_maintenan.Logs.Sources.Pruning.{IsPruned-nothing}
use alteryx_server_maintenan.Logs.Ship.{Gathered, gather, drain, offsets_to_commit, file_name}
use alteryx_server_maintenan.Logs.Ship.Outcomes.{IsGathered}
use alteryx_server_maintenan.Logs.Ship.Offsets.{IsDrainedTo, IsAdvanced-get_offsets}
use alteryx_server_maintenan.Config.{LogsConfig}
use alteryx_server_maintenan.Logs.Ship.{ship_all}
use alteryx_server_maintenan.Logs.Ship.Turns.{CutOf}
use alteryx_server_maintenan.Logs.Ship.Settled.{SettledOf, ship_all-Settled}
use alteryx_server_maintenan.World.Rules.{Post}
use alteryx_server_maintenan.Tests.Logs.{
  env, hexdigest, latin1, calendar, disk, gallery, run_ctx, filled, never,
}

abbrev plan_at : String → TailPlan
plan_at path = record { path = path; fingerprint = some "ab"; start_offset = pos 3 }

abbrev record_at : String → LogRecord
record_at file = record {
  line = codes "cd";
  host = "h";
  source = "gallery";
  file = file;
  file_offset = 6;
  shipped_at = "t3";
}

-- The older file comes first; the stored offset is 3.
abbrev gathered : Gathered
gathered = record {
  records = record_at "b.log" ∷ record_at "a.log" ∷ [];
  new_offsets = ("ab", (plan_at "C:/logs/a.log", pos 6)) ∷ [];
  current_keys = "ab" ∷ "ab" ∷ [];
}

gather-two_files :
    IsGathered env hexdigest latin1 calendar disk "pre" gallery run_ctx (pos 14) filled gathered
unfolding gather drain discover sort insert entry_leb str_leb list_entries plans_of plan_of
    fingerprint get_offsets offsets_of lookup upsert drain_file drain_loop drain_round tail_file
    is_two_byte newline_pattern last_newline file_name
gather-two_files = refl

abbrev after_commit : Db
after_commit =
    (set_offsets never "t3" "gallery"
      (offsets_to_commit env hexdigest latin1 calendar disk "pre" gallery run_ctx (pos 14)
        gathered.new_offsets)
      "r1" filled.db).1

set_offsets-after_commit :
    set_offsets never "t3" "gallery"
      (offsets_to_commit env hexdigest latin1 calendar disk "pre" gallery run_ctx
        (pos 14)
        gathered.new_offsets)
      "r1"
      filled.db
    ≡ (ok tt, after_commit)
unfolding set_offsets transaction run_statements
set_offsets-after_commit = refl

IsAdvanced-get_offsets_example :
    (fo : FileOffset) × (lookup "ab" (get_offsets "gallery" after_commit) ≡ some fo)
    × (fo.offset ≡ pos 6)
    × (fo.last_path ≡ "C:/logs/a.log")
    × IsDrainedTo env hexdigest latin1 calendar disk "pre" gallery run_ctx
        (pos 14)
        (plan_at "C:/logs/a.log")
        (pos 6)
IsAdvanced-get_offsets_example =
    IsAdvanced-get_offsets env hexdigest latin1 calendar disk "pre" gallery run_ctx (pos 14) filled
      gathered gather-two_files filled.db after_commit
      (record {
        committed = after_commit;
        fails = never;
        now = "t3";
        cutoff = 0;
        set = set_offsets-after_commit;
        deleted = [];
        undeleted = _;
        split = refl;
        pruned = IsPruned-nothing "gallery" after_commit;
      })
      "ab" (plan_at "C:/logs/a.log") (pos 6) (unfold lookup in refl)

abbrev logs_cfg : LogsConfig
logs_cfg = record {
  enabled = true;
  sources = gallery ∷ record gallery { name = "service" } ∷ [];
  gc_days = pos 14;
}

gallery-ne : ◌≢◌ {A = String} "gallery" "service"
gallery-ne e = ground (arith, eq_iff "gallery" "service", e)

ship_all-Settled_example :
    Post
      (λ us w'.
        SettledOf env hexdigest latin1 calendar disk "pre" run_ctx
          (pos 14)
          filled
          w'
          logs_cfg.sources
          us)
      (CutOf env hexdigest latin1 calendar disk "pre" run_ctx (pos 14) logs_cfg.sources filled)
      (ship_all env hexdigest latin1 calendar disk "pre" run_ctx logs_cfg filled)
ship_all-Settled_example =
    ship_all-Settled env hexdigest latin1 calendar disk "pre" run_ctx logs_cfg
      ((gallery-ne, tt), (tt, tt)) filled
