-- ===== src/Tests/ObjectIds.antt =====
-- A run over an append-only collection, and the query of the next.
use alteryx_server_maintenan.Prelude.{
  ◌*◌, ◌≤◌, ◌≡◌, refl, Bool, true, false, none, some, [], ◌∷◌, arith, ok,
}
use alteryx_server_maintenan.World.Rules.{Post}
use alteryx_server_maintenan.Mongo.Watermark.Maximum.{oid_of}
use alteryx_server_maintenan.Mongo.Watermark.Strategies.{Filter, object_id_watermark}
use alteryx_server_maintenan.Mongo.Extract.{Mongo, Json, extract_collection}
use alteryx_server_maintenan.Mongo.Continuity.Ids.{HasIds, NextRun, extract_collection-NextIds}
use alteryx_server_maintenan.Tests.Extract.{env, world, run_ctx}
use alteryx_server_maintenan.Tests.Watermark.{jobs, rank, two_ids, two_ids-IsOrdered}

abbrev json : Json Bool
json = record { dumps = λ doc. ok "{}"; id_text = two_ids.id_text }

abbrev both : Mongo Bool (Filter Bool)
both = record {
  find =
      λ w coll filter_doc sort batch_size. ok (record { docs = false ∷ true ∷ []; fault = none });
}

both-HasIds : HasIds env json two_ids "pre" jobs run_ctx "db" both 30 rank
both-HasIds = record {
  ordered = two_ids-IsOrdered;
  compared = λ a b. refl;
  late_enough = late_enough;
  accepted = λ doc m h. (false, refl);
}
  where
    late_enough :
        (doc m : Bool) → oid_of two_ids jobs doc ≡ some m → 30 * 1000000 ≤ two_ids.generation_time m
    late_enough doc true h = omega arith
    late_enough doc false h = omega arith

extract_collection-NextIds_example :
    Post
      (λ u w'. NextRun env json two_ids "pre" jobs run_ctx "db" both 30 rank (world 20) w')
      (NextRun env json two_ids "pre" jobs run_ctx "db" both 30 rank (world 20))
      (extract_collection env json
        (object_id_watermark two_ids jobs)
        "pre"
        jobs
        run_ctx
        "db"
        both
        (world 20))
extract_collection-NextIds_example =
    extract_collection-NextIds env json two_ids "pre" jobs run_ctx "db" both 30 rank both-HasIds
      refl (world 20)
