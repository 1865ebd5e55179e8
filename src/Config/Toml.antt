-- ===== src/Config/Toml.antt =====
-- The values that `tomllib` gives. Floats, dates and times are read nowhere.
use alteryx_server_maintenan.Prelude.{String, Option, none, some, str_eq, if◌then◌else◌}
use alteryx_server_maintenan.Prelude.{Bool, false, ◌||◌}
use alteryx_server_maintenan.Prelude.Int.{ℤ}

mutual
  pub data Toml : Type 0 where
    str : String → Toml
    int : ℤ → Toml
    bool : Bool → Toml
    other : Toml
    array : Items → Toml
    table : Entries → Toml

  pub data Items : Type 0 where
    no_items : Items
    item : Toml → Items → Items

  pub data Entries : Type 0 where
    no_entries : Entries
    entry : String → Toml → Entries → Entries

-- `table.get(key)` of a dict.
unfoldable pub get : String → Entries → Option Toml
get key no_entries = none
get key (entry k v rest) = let found = get key rest in if str_eq k key then some v else found

-- `key in items`, for a key that is a `str`.
unfoldable pub has_str : String → Items → Bool
has_str key no_items = false
has_str key (item v rest) =
    let found = has_str key rest in elim v [ str s ↦ str_eq s key || found | _ ↦ found ]
