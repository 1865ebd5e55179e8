-- ===== src/Config/Access.antt =====
-- config.py: `_require` and `_optional`.
use Prim.Native.String.{◌++◌ as ◌<>◌}
use alteryx_server_maintenan.Prelude.{
  String, Bool, true, false, ◌||◌, Option, none, some, str_eq, if◌then◌else◌, Result, ok, raised,
  Exn, config_error, exception,
}
use alteryx_server_maintenan.Prelude.Fallible.{◌>>=◌}
use alteryx_server_maintenan.Prelude.Texts.{starts_with}
use alteryx_server_maintenan.Prelude.Int.{ℤ, pos}
use alteryx_server_maintenan.Config.Toml.{Toml, str, int, bool, other, array, table, get, has_str}

-- A Python type that a field may be asked to have: `read` is `isinstance`, with the value.
pub record Expected (A : Type 0) : Type 0 where
  pub name : String
  pub read : Toml → Option A
  pub is_blank : A → Bool

abbrev read_str : Toml → Option String
read_str (str s) = some s
read_str (int n) = none
read_str (bool b) = none
read_str other = none
read_str (array xs) = none
read_str (table t) = none

-- `bool` is a subclass of `int`.
abbrev read_int : Toml → Option ℤ
read_int (str s) = none
read_int (int n) = some n
read_int (bool true) = some (pos 1)
read_int (bool false) = some (pos 0)
read_int other = none
read_int (array xs) = none
read_int (table t) = none

abbrev read_bool : Toml → Option Bool
read_bool (str s) = none
read_bool (int n) = none
read_bool (bool b) = some b
read_bool other = none
read_bool (array xs) = none
read_bool (table t) = none

abbrev pub a_str : Expected String
a_str = record { name = "str"; read = read_str; is_blank = λ s. str_eq s "" }

abbrev pub an_int : Expected ℤ
an_int = record { name = "int"; read = read_int; is_blank = λ n. false }

abbrev pub a_bool : Expected Bool
a_bool = record { name = "bool"; read = read_bool; is_blank = λ b. false }

abbrev some_value : {A : Type 0} → Option A → Option (Option A)
some_value none = none
some_value (some a) = some (some a)

-- A field that is `None` by default.
abbrev pub or_none : {A : Type 0} → Expected A → Expected (Option A)
or_none t = record { name = t.name; read = λ v. some_value (t.read v); is_blank = λ a. false }

abbrev pub type_error : Exn
type_error = exception "TypeError"

-- `part in text`.
unfoldable pub is_part : String → String → Bool
unfolding starts_with
is_part part String.[] = starts_with part String.[]
is_part part (String.◌∷◌ c s) =
    let rest = is_part part s in starts_with part (String.◌∷◌ c s) || rest

-- `key in value`, then `value[key]`. A section that is no table is not rejected before: a text or
-- an array has `in`, but no such item, and other values have no `in`.
unfoldable pub get_key : Toml → String → Result (Option Toml)
unfolding get is_part has_str
get_key (table t) key = ok (get key t)
get_key (str s) key = if is_part key s then raised type_error else ok none
get_key (array xs) key = if has_str key xs then raised type_error else ok none
get_key (int n) key = raised type_error
get_key (bool b) key = raised type_error
get_key other key = raised type_error

module _ {A : Type 0} (field_name : String) (t : Expected A) where
  abbrev pub required : Option A → Result A
  required none =
      raised (config_error ("field '" <> field_name <> "' must be a non-empty " <> t.name))
  required (some a) =
      if t.is_blank a
      then raised (config_error ("field '" <> field_name <> "' must be a non-empty " <> t.name))
      else ok a

  abbrev pub present : Option Toml → Result A
  present none = raised (config_error ("missing required field '" <> field_name <> "'"))
  present (some v) = required (t.read v)

  abbrev pub typed : Option A → Result A
  typed none = raised (config_error ("field '" <> field_name <> "' must be a " <> t.name))
  typed (some a) = ok a

  abbrev pub or_default : A → Option Toml → Result A
  or_default default none = ok default
  or_default default (some v) = typed (t.read v)

module _ {A : Type 0} where
  unfoldable pub require : Toml → String → String → Expected A → Result A
  unfolding get_key
  require raw key field_name t = do found ← get_key raw key; present field_name t found

  unfoldable pub optional : Toml → String → String → Expected A → A → Result A
  unfolding get_key
  optional raw key field_name t default = do
    found ← get_key raw key
    or_default field_name t default found
