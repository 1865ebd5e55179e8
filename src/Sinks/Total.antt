-- ===== src/Sinks/Total.antt =====
-- sinks.py and s3.py: writing and uploading return where nothing goes wrong.
use alteryx_server_maintenan.Prelude.{ℕ, ◌+◌, ◌≡◌, String, some, List, [], ◌∷◌, arith}
use alteryx_server_maintenan.Prelude.Dict.{lookup, string_key}
use alteryx_server_maintenan.S3.{upload, upload_content, by_reply}
use alteryx_server_maintenan.Sinks.{
  ParquetVariantSink, GzipNdjsonSink, open_writer, write_rows, close, unlink, abort, open_sink,
  write_records, close_sink,
}
use alteryx_server_maintenan.World.{World, Env, Content, Row, LogRecord}
use alteryx_server_maintenan.World.Exec.{pure}
use alteryx_server_maintenan.World.Rules.{returns, >>=-Post, branch-Post}
use alteryx_server_maintenan.World.Total.{
  IsQuiet, Returns, Lives, effect-Returns, os_effect-Returns, try-exception-Returns,
}

module _ (env : Env) (quiet : IsQuiet env) (n : ℕ) where
  pub unlink-Returns :
      (path : String) (w : World)
      → Lives (n + 1) w
      → Returns (λ _ w'. Lives n w') (unlink env path w)
  unfolding unlink
  unlink-Returns path w l = os_effect-Returns n _ _ w (quiet.unlinks w path) l (λ c m. m)

  pub abort-Returns :
      (path : String) (w : World)
      → Lives (n + 1) w
      → Returns (λ _ w'. Lives n w') (abort env path w)
  unfolding abort
  abort-Returns path w l = try-exception-Returns _ (λ e. pure tt) w (unlink-Returns path w l)

  open_writer-Returns :
      (sink : ParquetVariantSink) (w : World)
      → Lives (n + 1) w
      → Returns (λ _ w'. Lives n w') (open_writer env sink w)
  unfolding open_writer
  open_writer-Returns sink w l =
      branch-Post sink.is_open _ _ w (λ e. returns (omega arith))
        (λ e.
          >>=-Post {P = λ _ w'. Lives n w'} _ _ w
            (os_effect-Returns n _ _ w (quiet.writes w sink.path) l (λ c m. m))
            (λ _ w' m. returns m))

  pub close-Returns :
      (sink : ParquetVariantSink) (w : World)
      → Lives (n + 1) w
      → Returns (λ _ w'. Lives n w') (close env sink w)
  unfolding close
  close-Returns sink w l =
      >>=-Post {P = λ _ w'. Lives n w'} _ _ w
        (branch-Post sink.is_open _ _ w
          (λ e. os_effect-Returns n _ _ w (quiet.writes w sink.path) l (λ c m. m))
          (λ e. returns (omega arith)))
        (λ _ w' m. returns m)

  pub upload-Returns :
      (path key : String) (w : World) {c : Content}
      → lookup path w.spool ≡ some c
      → Lives (n + 1) w
      → Returns (λ _ w'. Lives n w') (upload env path key w)
  unfolding upload upload_content by_reply
  upload-Returns path key w e l =
      rw (e, (quiet.stores w path key).1)
        (>>=-Post {P = λ _ w'. Lives n w'} _ _ w (effect-Returns n _ w l (λ c m. m))
          (λ _ w' m. returns m))

  pub open_sink-Returns :
      (path : String) (w : World)
      → Lives (n + 1) w
      → Returns (λ _ w'. Lives n w') (open_sink env path w)
  unfolding open_sink
  open_sink-Returns path w l =
      >>=-Post {P = λ _ w'. Lives n w'} _ _ w
        (os_effect-Returns n _ _ w (quiet.writes w path) l (λ c m. m)) (λ _ w' m. returns m)

  pub write_records-Returns :
      (records : List LogRecord) (sink : GzipNdjsonSink) (w : World)
      → Lives (n + 1) w
      → Returns (λ _ w'. Lives n w') (write_records env records sink w)
  unfolding write_records
  write_records-Returns records sink w l =
      >>=-Post {P = λ _ w'. Lives n w'} _ _ w
        (os_effect-Returns n _ _ w (quiet.writes w sink.path) l (λ c m. m)) (λ _ w' m. returns m)

  pub close_sink-Returns :
      (sink : GzipNdjsonSink) (w : World)
      → Lives (n + 1) w
      → Returns (λ _ w'. Lives n w') (close_sink env sink w)
  unfolding close_sink
  close_sink-Returns sink w l =
      >>=-Post {P = λ _ w'. Lives n w'} _ _ w
        (os_effect-Returns n _ _ w (quiet.writes w sink.path) l (λ c m. m)) (λ _ w' m. returns m)

module _ (env : Env) (quiet : IsQuiet env) where
  pub write_rows-Returns :
      (n : ℕ) (rows : List Row) (sink : ParquetVariantSink) (w : World)
      → Lives (n + 2) w
      → Returns (λ _ w'. Lives n w') (write_rows env rows sink w)
  unfolding write_rows
  write_rows-Returns n [] sink w l = returns (omega arith)
  write_rows-Returns n (r ∷ rs) sink w l =
      >>=-Post _ _ w (open_writer-Returns env quiet (n + 1) sink w (omega arith)) (λ s w' m.
        >>=-Post {P = λ _ w''. Lives n w''} _ _ w'
          (os_effect-Returns n _ _ w' (quiet.writes w' s.path) m (λ c k. k)) (λ _ w'' k. returns k))
