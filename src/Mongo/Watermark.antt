-- ===== src/Mongo/Watermark.antt =====
-- mongo-sync-agent/src/mongo_sync_agent/mongo/watermark.py: the interface of the watermark
-- strategies, and the check of the stored kind.
pub mod Clock
pub mod Strategies
pub mod Digits
pub mod RoundTrip
pub mod Maximum
pub mod Overlap
use Prim.Native.String.{◌++◌ as ◌<>◌}
use alteryx_server_maintenan.Prelude.{
  String, Option, List, str_eq, if◌then◌else◌, Result, ok, raised, config_error,
}
use alteryx_server_maintenan.Prelude.Int.{ℤ}
use alteryx_server_maintenan.State.{Watermark}

-- The abstract base class. `St` is what a strategy object remembers of the documents that it was
-- shown.
pub record WatermarkStrategy (Doc Filter St : Type 0) : Type 0 where
  pub kind : String
  pub build_filter : Option String → Result Filter
  pub sort_spec : Option (List (String × ℤ))
  pub initial : St
  pub observe : Doc → St → Result St
  pub new_watermark : St → Option String
  pub watermark_column_value : Doc → Result String

unfoldable pub validate_watermark_kind :
    {Doc Filter St : Type 0} → Watermark → WatermarkStrategy Doc Filter St → Result (Unit {0})
validate_watermark_kind stored strategy =
    if str_eq stored.kind strategy.kind
    then ok tt
    else raised (config_error ("Watermark kind mismatch for collection: stored=" <> stored.kind))
