-- ===== src/Mongo/Watermark/Maximum.antt =====
-- mongo/watermark.py: the running maximum that `observe` keeps, over the documents of a run.
use mathlib.Core.List.{Memᴰ}
use mathlib.Core.List.Memᴰ.{head, tail}
use alteryx_server_maintenan.Prelude.{
  ℕ, ◌≤◌, ◌≡◌, refl, ap, ◌∙◌, ltb, Bool-cases, Option, none, some, List, [], ◌∷◌, inl, inr,
  if◌then◌else◌, arith, All, ok,
}
use alteryx_server_maintenan.Config.{CollectionConfig}
use alteryx_server_maintenan.DateTime.{DateTime}
use alteryx_server_maintenan.Mongo.Watermark.Clock.{instant}
use alteryx_server_maintenan.Mongo.Watermark.Strategies.{
  Bson, IdField, missing, null, id, observe_field, observe_date, object_id_watermark,
  timestamp_watermark, observe_each,
}

-- The values that some of the documents have.
abbrev pub add_value : {A : Type 0} → Option A → List A → List A
add_value none rest = rest
add_value (some a) rest = a ∷ rest

abbrev pub values : {Doc A : Type 0} → (Doc → Option A) → List Doc → List A
values at [] = []
values at (doc ∷ docs) = add_value (at doc) (values at docs)

module _ {A : Type 0} (rank : A → ℕ) where
  -- The greatest of a list by rank, if it has any element.
  pub data Greatest : List A → Option A → Type 0 where
    nothing : Greatest [] none
    greatest :
        {m : A} {xs : List A} → Memᴰ m xs → All (λ x. rank x ≤ rank m) xs → Greatest xs (some m)

  abbrev max : A → A → A
  max x m = if ltb (rank m) (rank x) then x else m

  abbrev max_of : A → List A → A
  max_of m [] = m
  max_of m (x ∷ xs) = max_of (max x m) xs

  abbrev running_max : Option A → List A → Option A
  running_max none [] = none
  running_max none (x ∷ xs) = some (max_of x xs)
  running_max (some m) xs = some (max_of m xs)

  le-max_of :
      (m : A) (xs : List A)
      → (rank m ≤ rank (max_of m xs)) × All (λ x. rank x ≤ rank (max_of m xs)) xs
  le-max_of m [] = (omega arith, tt)
  le-max_of m (x ∷ xs) =
      let r = le-max_of (max x m) xs in (ground (arith, r.0), (ground (arith, r.0), r.1))

  max_of-Memᴰ : (m : A) (xs : List A) → Memᴰ (max_of m xs) (m ∷ xs)
  max_of-Memᴰ m [] = head refl
  max_of-Memᴰ m (x ∷ xs) = elim (Bool-cases (ltb (rank m) (rank x))) [
    | inl b ↦ rw b (tail (max_of-Memᴰ x xs))
    | inr b ↦ rw b (keep (max_of-Memᴰ m xs))
  ]
    where
      keep : {y : A} → Memᴰ y (m ∷ xs) → Memᴰ y (m ∷ x ∷ xs)
      keep (head e) = head e
      keep (tail h) = tail (tail h)

  running_max-Greatest : (xs : List A) → Greatest xs (running_max none xs)
  running_max-Greatest [] = nothing
  running_max-Greatest (x ∷ xs) = greatest (max_of-Memᴰ x xs) (le-max_of x xs)

module _ {Doc Oid : Type 0} (bson : Bson Doc Oid) (cfg : CollectionConfig) where
  abbrev pub date_of : Doc → Option DateTime
  date_of doc = bson.date_at cfg.watermark_field doc

  observe_date-running_max :
      (o st : Option DateTime) (dates : List DateTime)
      → running_max instant (observe_date bson cfg o st) dates
        ≡ running_max instant st (add_value o dates)
  observe_date-running_max none st dates = refl
  observe_date-running_max (some a) none dates = refl
  observe_date-running_max (some a) (some m) dates = refl

  observe_each-dates :
      (docs : List Doc) (st : Option DateTime)
      → observe_each (timestamp_watermark bson cfg) docs st
        ≡ ok (running_max instant st (values date_of docs))
  unfolding observe_each timestamp_watermark
  observe_each-dates [] none = refl
  observe_each-dates [] (some m) = refl
  observe_each-dates (doc ∷ docs) st =
      observe_each-dates docs (observe_date bson cfg (date_of doc) st)
      ∙ ap ok (observe_date-running_max (date_of doc) st (values date_of docs))

  -- After a run, the strategy of a mutable collection remembers the latest of the date-times that
  -- the documents have in the watermark field, or nothing if none of them has one.
  pub observe_each-Greatest :
      (docs : List Doc)
      → (st : Option DateTime) × (observe_each (timestamp_watermark bson cfg) docs none ≡ ok st)
        × Greatest instant (values date_of docs) st
  observe_each-Greatest docs =
      (_, observe_each-dates docs none, running_max-Greatest instant (values date_of docs))

  abbrev pub present : IdField Oid → Option Oid
  present missing = none
  present null = none
  present (id oid) = some oid

  abbrev pub oid_of : Doc → Option Oid
  oid_of doc = present (bson.id_of doc)

  module _ (rank : Oid → ℕ)
      (is_above : (a b : Oid) → bson.is_above a b ≡ some (ltb (rank b) (rank a))) where
    observe_field-running_max :
        (field : IdField Oid) (st : Option Oid) (ids : List Oid)
        → running_max rank (observe_field bson cfg field st) ids
          ≡ running_max rank st (add_value (present field) ids)
    observe_field-running_max missing st ids = refl
    observe_field-running_max null st ids = refl
    observe_field-running_max (id a) none ids = refl
    observe_field-running_max (id a) (some m) ids = rw (is_above a m) refl

    observe_each-ids :
        (docs : List Doc) (st : Option Oid)
        → observe_each (object_id_watermark bson cfg) docs st
          ≡ ok (running_max rank st (values oid_of docs))
    unfolding observe_each object_id_watermark
    observe_each-ids [] none = refl
    observe_each-ids [] (some m) = refl
    observe_each-ids (doc ∷ docs) st =
        observe_each-ids docs (observe_field bson cfg (bson.id_of doc) st)
        ∙ ap ok (observe_field-running_max (bson.id_of doc) st (values oid_of docs))

    -- Where the `_id`s are compared by a rank, and no comparison raises, the strategy of an
    -- append-only collection remembers after a run the greatest `_id` of the documents.
    pub observe_each-Greatest_id :
        (docs : List Doc)
        → (st : Option Oid) × (observe_each (object_id_watermark bson cfg) docs none ≡ ok st)
          × Greatest rank (values oid_of docs) st
    observe_each-Greatest_id docs =
        (_, observe_each-ids docs none, running_max-Greatest rank (values oid_of docs))
