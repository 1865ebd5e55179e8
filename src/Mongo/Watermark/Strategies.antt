-- ===== src/Mongo/Watermark/Strategies.antt =====
-- mongo/watermark.py: the three strategies and `make_strategy`. BSON is `Bson`: what a document holds,
-- and what the class `ObjectId` does.
use alteryx_server_maintenan.Prelude.{
  ℕ, String, Bool, not, ltb, Option, none, some, List, [], ◌∷◌, if◌then◌else◌, Result, ok,
}
use alteryx_server_maintenan.Prelude.Fallible.{◌>>=◌}
use alteryx_server_maintenan.Prelude.Int.{pos}
use alteryx_server_maintenan.Config.{Mode, append_only, mutable, full_refresh, CollectionConfig}
use alteryx_server_maintenan.DateTime.{DateTime}
use alteryx_server_maintenan.Logs.Sources.{str_leb}
use alteryx_server_maintenan.Mongo.Watermark.{WatermarkStrategy}
use alteryx_server_maintenan.Mongo.Watermark.Clock.{instant, minus_seconds, format_ts, strptime}

-- `doc.get("_id")`: there may be none, and it may be `None`.
pub data IdField (Oid : Type 0) : Type 0 where
  missing null : IdField Oid
  id : Oid → IdField Oid

-- `date_at` is `doc.get(field)`, if that is a `datetime`. `is_above` is `>`, or `none` for a
-- `TypeError`; `id_text` is `str`. A generation time is an instant.
pub record Bson (Doc Oid : Type 0) : Type 0 where
  pub id_of : Doc → IdField Oid
  pub date_at : Option String → Doc → Option DateTime
  pub object_id : String → Result Oid
  pub generation_time : Oid → ℕ
  pub from_datetime : ℕ → Result Oid
  pub is_above : Oid → Oid → Option Bool
  pub id_text : Oid → String

-- `{}`, `{"_id": {"$gt": ...}}` and `{field: {"$gte": ...}}`.
pub data Filter (Oid : Type 0) : Type 0 where
  everything : Filter Oid
  above : Oid → Filter Oid
  since : Option String → ℕ → Filter Oid

-- `previous if previous is not None else self._cfg.initial_watermark`.
abbrev pub bound : CollectionConfig → Option String → Option String
bound cfg none = cfg.initial_watermark
bound cfg (some previous) = some previous

module _ {Doc Oid : Type 0} (bson : Bson Doc Oid) (cfg : CollectionConfig) where
  -- `ObjectIdWatermark`.
  unfoldable pub filter_from : Option String → Result (Filter Oid)
  filter_from none = ok everything
  filter_from (some text) = do
    prev_obj ← bson.object_id text
    lb_ts ← minus_seconds (bson.generation_time prev_obj) cfg.overlap_seconds
    lb_obj ← bson.from_datetime lb_ts
    ok (above lb_obj)

  abbrev pub greater : Oid → Oid → Option Bool → Oid
  greater oid max_id none =
      if not (str_leb (bson.id_text oid) (bson.id_text max_id)) then oid else max_id
  greater oid max_id (some is) = if is then oid else max_id

  abbrev pub observe_field : IdField Oid → Option Oid → Option Oid
  observe_field missing max_id = max_id
  observe_field null max_id = max_id
  observe_field (id oid) none = some oid
  observe_field (id oid) (some max_id) = some (greater oid max_id (bson.is_above oid max_id))

  abbrev pub column : IdField Oid → String
  column missing = ""
  column null = "None"
  column (id oid) = bson.id_text oid

  abbrev pub text_of : Option Oid → Option String
  text_of none = none
  text_of (some max_id) = some (bson.id_text max_id)

  unfoldable pub object_id_watermark : WatermarkStrategy Doc (Filter Oid) (Option Oid)
  unfolding filter_from
  object_id_watermark = record {
    kind = "objectid";
    build_filter = λ previous. filter_from (bound cfg previous);
    sort_spec = some (("_id", pos 1) ∷ []);
    initial = none;
    observe = λ doc max_id. ok (observe_field (bson.id_of doc) max_id);
    new_watermark = text_of;
    watermark_column_value = λ doc. ok (column (bson.id_of doc));
  }

  -- `TimestampWatermark`.
  unfoldable pub filter_since : Option String → Result (Filter Oid)
  filter_since none = ok everything
  filter_since (some text) = do
    lb_dt ← strptime text
    lb ← minus_seconds (instant lb_dt) cfg.overlap_seconds
    ok (since cfg.watermark_field lb)

  abbrev pub later : DateTime → DateTime → DateTime
  later field_val max_val = if ltb (instant max_val) (instant field_val) then field_val else max_val

  abbrev pub observe_date : Option DateTime → Option DateTime → Option DateTime
  observe_date none max_val = max_val
  observe_date (some field_val) none = some field_val
  observe_date (some field_val) (some max_val) = some (later field_val max_val)

  abbrev pub formatted : Option DateTime → Option String
  formatted none = none
  formatted (some max_val) = some (format_ts max_val)

  abbrev pub date_column : Option DateTime → String
  date_column none = ""
  date_column (some field_val) = format_ts field_val

  unfoldable pub timestamp_watermark : WatermarkStrategy Doc (Filter Oid) (Option DateTime)
  unfolding filter_since
  timestamp_watermark = record {
    kind = "timestamp";
    build_filter = λ previous. filter_since (bound cfg previous);
    sort_spec = none;
    initial = none;
    observe = λ doc max_val. ok (observe_date (bson.date_at cfg.watermark_field doc) max_val);
    new_watermark = formatted;
    watermark_column_value = λ doc. ok (date_column (bson.date_at cfg.watermark_field doc));
  }

unfoldable pub full_refresh_strategy :
    {Doc Oid : Type 0} → WatermarkStrategy Doc (Filter Oid) (Unit {0})
full_refresh_strategy = record {
  kind = "full_refresh";
  build_filter = λ previous. ok everything;
  sort_spec = none;
  initial = tt;
  observe = λ doc st. ok tt;
  new_watermark = λ st. none;
  watermark_column_value = λ doc. ok "";
}

-- What the strategy of a mode remembers.
abbrev pub Seen : Type 0 → Mode → Type 0
Seen Oid append_only = Option Oid
Seen Oid mutable = Option DateTime
Seen Oid full_refresh = Unit

module _ {Doc Oid : Type 0} (bson : Bson Doc Oid) (cfg : CollectionConfig) where
  abbrev pub strategy_of : (mode : Mode) → WatermarkStrategy Doc (Filter Oid) (Seen Oid mode)
  strategy_of append_only = object_id_watermark bson cfg
  strategy_of mutable = timestamp_watermark bson cfg
  strategy_of full_refresh = full_refresh_strategy

  unfoldable pub make_strategy : WatermarkStrategy Doc (Filter Oid) (Seen Oid cfg.mode)
  make_strategy = strategy_of cfg.mode

-- The documents of a run, shown one after the other.
module _ {Doc Filter St : Type 0} (strategy : WatermarkStrategy Doc Filter St) where
  unfoldable pub observe_each : List Doc → St → Result St
  observe_each [] st = ok st
  observe_each (doc ∷ docs) st = do st' ← strategy.observe doc st; observe_each docs st'
