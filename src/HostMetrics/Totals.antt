-- ===== src/HostMetrics/Totals.antt =====
-- hostmetrics/collect.py: the counters of a disk are the sums over the drives behind it.
use mathlib.Core.List.{Memᴰ}
use mathlib.Core.List.Memᴰ.{head, tail}
use alteryx_server_maintenan.Prelude.{
  ℕ, ◌+◌, ◌≡◌, refl, sym, ap, String, Option, none, some, Option-cases, List, [], ◌∷◌, inl, inr,
  All, arith,
}
use alteryx_server_maintenan.Prelude.Dict.{Dict, lookup, string_key}
use alteryx_server_maintenan.World.{Counters}
use alteryx_server_maintenan.HostMetrics.{
  add_counters, no_counters, present_keys, sum_present, sum_disk_io,
}

-- A counter of each key, 0 if the key is not there.
abbrev pub amount : (Counters → ℕ) → Option Counters → ℕ
amount f none = 0
amount f (some c) = f c

abbrev pub total : (Counters → ℕ) → List String → Dict String Counters → ℕ
total f [] counters = 0
total f (key ∷ keys) counters = amount f (lookup key counters) + total f keys counters

pub data IsTotal (keys : List String) (counters : Dict String Counters)
    : Option Counters → Type 0 where
  absent : All (λ key. lookup key counters ≡ none) keys → IsTotal keys counters none
  summed :
      {c : Counters} {key : String} {of_key : Counters}
      → Memᴰ key keys
      → lookup key counters ≡ some of_key
      → c.read_bytes ≡ total (λ (c : Counters). c.read_bytes) keys counters
      → c.write_bytes ≡ total (λ (c : Counters). c.write_bytes) keys counters
      → c.read_count ≡ total (λ (c : Counters). c.read_count) keys counters
      → c.write_count ≡ total (λ (c : Counters). c.write_count) keys counters
      → IsTotal keys counters (some c)

module _ (f : Counters → ℕ)
    (add : (sum : Counters) (o : Option Counters)
      → f (add_counters sum o) ≡ f sum + amount f o) where
  sum_present-total :
      (keys : List String) (counters : Dict String Counters) (sum : Counters)
      → f (sum_present sum (present_keys keys counters) counters) ≡ f sum + total f keys counters
  unfolding sum_present present_keys
  sum_present-total [] counters sum = omega arith
  sum_present-total (key ∷ keys) counters sum = elim (Option-cases (lookup key counters)) [
    | inl e ↦ rw e (omega (arith, sum_present-total keys counters sum))
    | inr (c, e) ↦ rw e (
        omega (
          arith,
          sum_present-total keys counters (add_counters sum (lookup key counters)),
          add sum (lookup key counters),
          ap (amount f) e,
        ))
  ]

  present-total :
      (keys : List String) (counters : Dict String Counters) {ps : List String}
      → f no_counters ≡ 0
      → present_keys keys counters ≡ ps
      → f (sum_present no_counters ps counters) ≡ total f keys counters
  present-total keys counters zero_lem e =
      rw (sym e) (omega (arith, sum_present-total keys counters no_counters))

-- Whether any key is there, by the list of those that are.
data Presence (counters : Dict String Counters) (keys : List String) : List String → Type 0 where
  no_key : All (λ key. lookup key counters ≡ none) keys → Presence counters keys []
  some_key :
      {key p : String} {ps : List String} {c : Counters}
      → Memᴰ key keys
      → lookup key counters ≡ some c
      → Presence counters keys (p ∷ ps)

present_keys-Presence :
    (keys : List String) (counters : Dict String Counters)
    → Presence counters keys (present_keys keys counters)
unfolding present_keys
present_keys-Presence [] counters = no_key tt
present_keys-Presence (key ∷ keys) counters = elim (Option-cases (lookup key counters)) [
  | inl e ↦ rw e (later e (present_keys-Presence keys counters))
  | inr (c, e) ↦ rw e (some_key (head refl) e)
]
  where
    later :
        {ps : List String}
        → lookup key counters ≡ none
        → Presence counters keys ps
        → Presence counters (key ∷ keys) ps
    later e (no_key h) = no_key (e, h)
    later e (some_key m h) = some_key (tail m) h

-- The sums of the counters of the keys, or nothing if none of the keys is there.
pub sum_disk_io-IsTotal :
    (keys : List String) (counters : Dict String Counters)
    → IsTotal keys counters (sum_disk_io keys counters)
unfolding sum_disk_io
sum_disk_io-IsTotal keys counters = go (present_keys-Presence keys counters) refl
  where
    go :
        {ps : List String}
        → Presence counters keys ps
        → present_keys keys counters ≡ ps
        → IsTotal keys counters (sum_disk_io keys counters)
    go (no_key h) e = rw e (absent h)
    go (some_key m h) e = rw e (
        summed m h (present-total (λ c. c.read_bytes) (λ sum o. ground arith) keys counters refl e)
          (present-total (λ c. c.write_bytes) (λ sum o. ground arith) keys counters refl e)
          (present-total (λ c. c.read_count) (λ sum o. ground arith) keys counters refl e)
          (present-total (λ c. c.write_count) (λ sum o. ground arith) keys counters refl e))
