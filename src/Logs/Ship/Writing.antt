-- ===== src/Logs/Ship/Writing.antt =====
-- sinks.py: what a `GzipNdjsonSink` leaves in the spool file.
use alteryx_server_maintenan.Prelude.{◌≡◌, refl, String, some, List, [], arith, length}
use alteryx_server_maintenan.Prelude.Dict.{lookup, lookup-upsert, string_key, beq_refl}
use alteryx_server_maintenan.Sinks.{GzipNdjsonSink, open_sink, write_records}
use alteryx_server_maintenan.Sinks.Laws.{SameStores, SameStores-refl}
use alteryx_server_maintenan.World.{World, Env, ndjson, LogRecord}
use alteryx_server_maintenan.World.Rules.{Post, returns, >>=-Post, os_effect-Post}

-- The sink has written these records.
pub record IsWritten (path : String) (records : List LogRecord) (sink : GzipNdjsonSink)
    (w w' : World) : Type 0 where
  pub path_same : sink.path ≡ path
  pub counted : sink.rows ≡ length records
  pub in_file : lookup path w'.spool ≡ some (ndjson records)
  pub same : SameStores w w'

module _ (env : Env) (path : String) (w : World) where
  pub open_sink-Post :
      Post (λ sink w'. IsWritten path [] sink w w') (SameStores w) (open_sink env path w)
  unfolding open_sink
  open_sink-Post =
      >>=-Post {P = λ _ w'. (lookup path w'.spool ≡ some (ndjson [])) × SameStores w w'} _ _ w
        (os_effect-Post _ _ w (SameStores-refl w) (λ n. (
          rw (lookup-upsert path path (ndjson []) w.spool, beq_refl path),
          record { db = refl; bucket = refl },
        )))
        (λ _ w' a. returns (record { path_same = refl; counted = refl; in_file = a.0; same = a.1 }))

  pub write_records-Post :
      (records : List LogRecord) (sink : GzipNdjsonSink) (w1 : World)
      → IsWritten path [] sink w w1
      → Post
          (λ s w'. IsWritten path records s w w')
          (SameStores w)
          (write_records env records sink w1)
  unfolding write_records
  write_records-Post records sink w1 h =
      >>=-Post {P = λ _ w'. (lookup path w'.spool ≡ some (ndjson records)) × SameStores w w'} _ _ w1
        (os_effect-Post _ _ w1 h.same (λ n. (
          rw (h.path_same, lookup-upsert path path _ w1.spool, beq_refl path, h.in_file) refl,
          record { db = h.same.db; bucket = h.same.bucket },
        )))
        (λ _ w' a. returns (record {
          path_same = h.path_same;
          counted = omega (arith, h.counted);
          in_file = a.0;
          same = a.1;
        }))
