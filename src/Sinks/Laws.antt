-- ===== src/Sinks/Laws.antt =====
-- sinks.py and s3.py: what closing, removing and uploading a spool file changes.
use alteryx_server_maintenan.Prelude.{
  String, ◌≡◌, ◌≢◌, refl, ◌∙◌, Bool, true, false, none, some, arith, eq_iff, if◌then◌else◌,
}
use alteryx_server_maintenan.Prelude.Dict.{
  lookup, lookup-upsert, lookup-remove, string_key, beq_refl,
}
use alteryx_server_maintenan.Sinks.{
  ParquetVariantSink, close, unlink, abort, GzipNdjsonSink, close_sink,
}
use alteryx_server_maintenan.S3.{upload, upload_content, by_reply, put_object}
use alteryx_server_maintenan.World.{
  World, Env, Content, S3Reply, stored, refused, unconfirmed, broken, broken_after,
}
use alteryx_server_maintenan.World.Exec.{pure, os_effect}
use alteryx_server_maintenan.World.Rules.{
  Post, returns, raises, >>=-Post, os_effect-Post, effect-Post, try-exception-Post, Post-map,
}

-- Neither the database nor the bucket has changed.
pub record SameStores (w w' : World) : Type 0 where
  pub db : w'.db ≡ w.db
  pub bucket : w'.bucket ≡ w.bucket

abbrev pub SameStores-refl : (w : World) → SameStores w w
SameStores-refl w = record { db = refl; bucket = refl }

pub SameStores-trans : {u v w : World} → SameStores u v → SameStores v w → SameStores u w
SameStores-trans a b = record { db = b.db ∙ a.db; bucket = b.bucket ∙ a.bucket }

module _ (env : Env) where
  -- Removing a file leaves the stores, and where it returns, the file is gone.
  pub unlink-Post :
      (path : String) (w : World)
      → Post
          (λ _ w'. (lookup path w'.spool ≡ none) × SameStores w w')
          (SameStores w)
          (unlink env path w)
  unfolding unlink
  unlink-Post path w = os_effect-Post _ _ w (SameStores-refl w) (λ n.
      (rw (lookup-remove path path w.spool, beq_refl path), record { db = refl; bucket = refl }))

  pub abort-Post :
      (path : String) (w : World) → Post (λ _ w'. SameStores w w') (SameStores w) (abort env path w)
  unfolding abort
  abort-Post path w =
      try-exception-Post _ _ w (Post-map (unlink-Post path w) (λ _ w' a. a.1) (λ w' a. a))
        (λ w' a. a) (λ e w' a. returns a)

  -- Closing leaves the rows of the file as they are.
  pub close-Post :
      (sink : ParquetVariantSink) (w : World)
      → Post
          (λ r w'. (r.rows ≡ sink.rows) × (w'.spool ≡ w.spool) × SameStores w w')
          (SameStores w)
          (close env sink w)
  unfolding close
  close-Post sink w =
      >>=-Post {P = λ _ w'. (w'.spool ≡ w.spool) × SameStores w w'} _ _ w (footer sink.is_open)
        (λ _ w' a. returns (refl, a.0, a.1))
    where
      footer :
          (b : Bool)
          → Post
              (λ _ w'. (w'.spool ≡ w.spool) × SameStores w w')
              (SameStores w)
              ((if b then os_effect (λ w'. env.write_raises w' sink.path) (λ w'. w') else pure tt)
                w)
      footer true =
          os_effect-Post _ _ w (SameStores-refl w)
            (λ n. (refl, record { db = refl; bucket = refl }))
      footer false = returns (refl, SameStores-refl w)

  pub close_sink-Post :
      (sink : GzipNdjsonSink) (w : World)
      → Post
          (λ r w'. (r.rows ≡ sink.rows) × (w'.spool ≡ w.spool) × SameStores w w')
          (SameStores w)
          (close_sink env sink w)
  unfolding close_sink
  close_sink-Post sink w =
      >>=-Post {P = λ _ w'. (w'.spool ≡ w.spool) × SameStores w w'} _ _ w
        (os_effect-Post _ _ w (SameStores-refl w)
          (λ n. (refl, record { db = refl; bucket = refl })))
        (λ _ w' a. returns (refl, a.0, a.1))

  -- The object is in the bucket, and all else but it is as it was.
  pub record IsUploaded (key : String) (c : Content) (w w' : World) : Type 0 where
    pub in_bucket : lookup key w'.bucket ≡ some c
    pub others : (k : String) → key ≢ k → lookup k w'.bucket ≡ lookup k w.bucket
    pub db : w'.db ≡ w.db

  abbrev SameDb : World → World → Type 0
  SameDb w w' = w'.db ≡ w.db

  by_reply-Post :
      (key : String) (c : Content) (reply : S3Reply) (w : World)
      → Post (λ _ w'. IsUploaded key c w w') (SameDb w) (by_reply env key c reply w)
  unfolding by_reply
  by_reply-Post key c (stored etag) w =
      >>=-Post {P = λ _ w'. IsUploaded key c w w'} _ _ w
        (effect-Post (put_object key c) w refl (λ n. record {
          in_bucket = rw (lookup-upsert key key c w.bucket, beq_refl key);
          others = λ k ne. ground (arith, lookup-upsert k key c w.bucket, eq_iff key k);
          db = refl;
        }))
        (λ _ w' a. returns a)
  by_reply-Post key c refused w = raises refl
  by_reply-Post key c unconfirmed w =
      >>=-Post {P = λ _ w'. SameDb w w'} _ _ w (effect-Post (put_object key c) w refl (λ n. refl))
        (λ _ w' a. raises a)
  by_reply-Post key c broken w = raises refl
  by_reply-Post key c broken_after w =
      >>=-Post {P = λ _ w'. SameDb w w'} _ _ w (effect-Post (put_object key c) w refl (λ n. refl))
        (λ _ w' a. raises a)

  -- An upload that returns has put the file's content under its key; one that raises leaves the
  -- database alone (S3 may have the object all the same).
  pub upload-Post :
      (local_path key : String) (c : Content) (w : World)
      → lookup local_path w.spool ≡ some c
      → Post (λ _ w'. IsUploaded key c w w') (SameDb w) (upload env local_path key w)
  unfolding upload upload_content
  upload-Post local_path key c w e =
      rw (e, upload_content) (by_reply-Post key c (env.s3_reply w local_path key) w)
