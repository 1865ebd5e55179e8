-- ===== src/Sinks/Keeping.antt =====
-- sinks.py: writing and removing spool files changes neither the database nor the bucket.
use alteryx_server_maintenan.Prelude.{ℕ, String, refl, List, Option, none, some}
use alteryx_server_maintenan.Sinks.{
  ParquetVariantSink, close, unlink, abort, GzipNdjsonSink, open_sink, write_records, write_metrics,
  close_sink,
}
use alteryx_server_maintenan.S3.{upload, upload_content, by_reply, put_object}
use alteryx_server_maintenan.World.Rules.{Post, raises}
use alteryx_server_maintenan.Prelude.Dict.{lookup, string_key}
use alteryx_server_maintenan.World.{
  Content, S3Reply, stored, refused, unconfirmed, broken, broken_after, World, Env, LogRecord,
  MetricRecord,
}
use alteryx_server_maintenan.World.Keeping.{
  Keeps, OfStores, os_effect-OfStores, >>=-Keeps, asks-Keeps, effect-Keeps, raise-Keeps, pure-Keeps,
  if-Keeps, try-exception-Keeps,
}

module _ (env : Env) {P : World → Type 0} (c : OfStores P) where
  pub unlink-Keeps : (path : String) → Keeps P (unlink env path)
  unfolding unlink
  unlink-Keeps path = os_effect-OfStores c _ _ (λ w. refl) (λ w. refl)

  pub abort-Keeps : (path : String) → Keeps P (abort env path)
  unfolding abort
  abort-Keeps path = try-exception-Keeps (unlink-Keeps path) (λ e. pure-Keeps tt)

  pub close-Keeps : (sink : ParquetVariantSink) → Keeps P (close env sink)
  unfolding close
  close-Keeps sink =
      >>=-Keeps
        (if-Keeps sink.is_open (λ _. os_effect-OfStores c _ _ (λ w. refl) (λ w. refl))
          (λ _. pure-Keeps tt))
        (λ _. asks-Keeps _)

  pub open_sink-Keeps : (path : String) → Keeps P (open_sink env path)
  unfolding open_sink
  open_sink-Keeps path =
      >>=-Keeps (os_effect-OfStores c _ _ (λ w. refl) (λ w. refl)) (λ _. pure-Keeps _)

  pub write_records-Keeps :
      (rows : List LogRecord) (sink : GzipNdjsonSink) → Keeps P (write_records env rows sink)
  unfolding write_records
  write_records-Keeps rows sink =
      >>=-Keeps (os_effect-OfStores c _ _ (λ w. refl) (λ w. refl)) (λ _. pure-Keeps _)

  pub write_metrics-Keeps :
      (rows : List MetricRecord) (sink : GzipNdjsonSink) → Keeps P (write_metrics env rows sink)
  unfolding write_metrics
  write_metrics-Keeps rows sink =
      >>=-Keeps (os_effect-OfStores c _ _ (λ w. refl) (λ w. refl)) (λ _. pure-Keeps _)

  pub close_sink-Keeps : (sink : GzipNdjsonSink) → Keeps P (close_sink env sink)
  unfolding close_sink
  close_sink-Keeps sink =
      >>=-Keeps (os_effect-OfStores c _ _ (λ w. refl) (λ w. refl)) (λ _. asks-Keeps _)

module _ (env : Env) {P : World → Type 0} (key : String)
    (puts : (content : Content) (w : World) (n : ℕ)
      → P w
      → P (record (put_object key content w) { budget = n })) where
  by_reply-Keeps : (content : Content) (reply : S3Reply) → Keeps P (by_reply env key content reply)
  unfolding by_reply
  by_reply-Keeps content (stored etag) =
      >>=-Keeps (effect-Keeps _ (λ w n p. puts content w n p)) (λ _. pure-Keeps _)
  by_reply-Keeps content refused = raise-Keeps _
  by_reply-Keeps content unconfirmed =
      >>=-Keeps (effect-Keeps _ (λ w n p. puts content w n p)) (λ _. raise-Keeps _)
  by_reply-Keeps content broken = raise-Keeps _
  by_reply-Keeps content broken_after =
      >>=-Keeps (effect-Keeps _ (λ w n p. puts content w n p)) (λ _. raise-Keeps _)

  -- An upload changes at most the object of its key.
  pub upload-Keeps : (local_path : String) → Keeps P (upload env local_path key)
  unfolding upload upload_content
  upload-Keeps local_path w p = go (lookup local_path w.spool)
    where
      go : (o : Option Content) → Post (λ r w'. P w') P (upload_content env local_path key o w)
      go none = raises p
      go (some content) = by_reply-Keeps content (env.s3_reply w local_path key) w p
