-- ===== src/Mongo/Watermark/Overlap.antt =====
-- mongo/watermark.py: the filter that a stored watermark gives to the next run.
use alteryx_server_maintenan.Prelude.{ℕ, ◌+◌, ◌-◌, ◌*◌, ◌≤◌, ◌<◌, ◌≡◌, ◌≢◌, refl, some, arith, ok}
use alteryx_server_maintenan.Prelude.Int.{ℤ, pos}
use alteryx_server_maintenan.Config.{CollectionConfig}
use alteryx_server_maintenan.DateTime.{DateTime}
use alteryx_server_maintenan.Mongo.Watermark.Clock.{instant, minus_seconds}
use alteryx_server_maintenan.Mongo.Watermark.RoundTrip.{
  IsDate, truncated, strptime-format_ts, continues,
}
use alteryx_server_maintenan.Mongo.Watermark.Strategies.{
  Bson, above, since, object_id_watermark, timestamp_watermark, filter_from, filter_since,
}

instant-truncated :
    (t : DateTime)
    → (instant (truncated t) ≤ instant t) × (instant t < instant (truncated t) + 1000)
unfolding instant truncated
instant-truncated t = (omega arith, omega arith)

minus_seconds-pos :
    (t s : ℕ) (overlap_seconds : ℤ)
    → overlap_seconds ≡ pos s
    → s * 1000000 ≤ t
    → minus_seconds t overlap_seconds ≡ ok (t - s * 1000000)
unfolding minus_seconds
minus_seconds-pos t s overlap_seconds e h = rw e (ground arith)

module _ {Doc Oid : Type 0} (bson : Bson Doc Oid) (cfg : CollectionConfig) where
  -- After a run whose watermark is `m`, the next one asks for what is in the watermark field from a
  -- bound `lb` on. The bound is at least the overlap before `m`, so that a document with a
  -- date-time not further before `m` than that matches; and one that matches is less than a
  -- millisecond more than the overlap before `m`.
  pub build_filter-since :
      (m : DateTime) (s : ℕ)
      → IsDate m
      → cfg.overlap_seconds ≡ pos s
      → s * 1000000 ≤ instant (truncated m)
      → (lb : ℕ) × (((timestamp_watermark bson cfg).build_filter
            ((timestamp_watermark bson cfg).new_watermark (some m)))
          ≡ ok (since cfg.watermark_field lb))
        × ((d : DateTime) → instant m ≤ instant d + s * 1000000 → lb ≤ instant d)
        × ((d : DateTime) → lb ≤ instant d → instant m < instant d + s * 1000000 + 1000)
  unfolding timestamp_watermark filter_since
  build_filter-since m s is e h =
      let c = instant-truncated m in
      (
        instant (truncated m) - s * 1000000,
        continues _ (strptime-format_ts m is)
            (continues _ (minus_seconds-pos (instant (truncated m)) s _ e h) refl),
        (λ d h_d. omega (arith, c.0)),
        λ d h_d. omega (arith, c.1),
      )

  -- What `bson.ObjectId` documents: they are compared by a rank, `str` and the constructor are
  -- inverse, and `from_datetime` gives the least one of its second.
  pub record IsOrdered (rank : Oid → ℕ) : Type 0 where
    pub parsed : (a : Oid) → bson.object_id (bson.id_text a) ≡ ok a
    pub least :
        (t : ℕ) (l a : Oid)
        → bson.from_datetime t ≡ ok l
        → t ≤ bson.generation_time a
        → a ≢ l
        → rank l < rank a

  -- After a run whose watermark is `m`, where `from_datetime` takes the instant, the next one asks
  -- for the `_id`s above a bound `lb`: each that was generated not more than the overlap before `m`
  -- is one, but for the bound itself.
  pub build_filter-above :
      (rank : Oid → ℕ) (m lb : Oid) (s : ℕ)
      → IsOrdered rank
      → cfg.overlap_seconds ≡ pos s
      → s * 1000000 ≤ bson.generation_time m
      → bson.from_datetime (bson.generation_time m - s * 1000000) ≡ ok lb
      → (((object_id_watermark bson cfg).build_filter
            ((object_id_watermark bson cfg).new_watermark (some m)))
          ≡ ok (above lb))
        × ((a : Oid)
            → bson.generation_time m ≤ bson.generation_time a + s * 1000000
            → a ≢ lb
            → rank lb < rank a)
  unfolding object_id_watermark filter_from
  build_filter-above rank m lb s is e h e_lb = (
    continues _ (is.parsed m)
        (continues _ (minus_seconds-pos (bson.generation_time m) s _ e h) (continues _ e_lb refl)),
    λ a h_a n. is.least _ lb a e_lb (omega arith) n,
  )
