-- ===== src/Config/Valid.antt =====
-- config.py: what holds of every configuration that is accepted, and what is raised of the others.
use alteryx_server_maintenan.Prelude.{
  ℕ, ◌≡◌, refl, String, Bool, true, false, not, Bool-cases, inl, inr, Option, none, some, arith,
  str_eq, Exn, config_error,
}
use alteryx_server_maintenan.Prelude.Fallible.{Ends, returned, failed, >>=-Ends, Ends-map}
use alteryx_server_maintenan.Prelude.Int.{pos}
use alteryx_server_maintenan.Config.{Mode, CollectionConfig}
use alteryx_server_maintenan.Config.Toml.{Toml, str, int, bool, other, array, table, has_str}
use alteryx_server_maintenan.Config.Access.{
  Expected, require, optional, present, required, or_default, typed, get_key, is_part, a_str,
  an_int, a_bool, or_none,
}
use alteryx_server_maintenan.Config.Parse.{
  is_table, is_refused_name, lacks_field, unless, valid_mode, mode_of, parse_collection, reject,
}

abbrev pub IsConfigError : Exn → Type 0
IsConfigError e = (message : String) × (e ≡ config_error message)

-- What a read of a section raises, if the section is a table.
abbrev pub OfTable : Toml → Exn → Type 0
OfTable raw e = is_table raw ≡ true → IsConfigError e

pub rejected :
    {A : Type 0} {P : A → Type 0} (message : String) → Ends P IsConfigError (reject {A = A} message)
rejected message = failed (message, refl)

get_key-Ends : (raw : Toml) (key : String) → Ends (λ _. Unit {0}) (OfTable raw) (get_key raw key)
unfolding get_key is_table
get_key-Ends (table t) key = returned tt
get_key-Ends (str s) key = elim (Bool-cases (is_part key s)) [
  | inl b ↦ rw b (failed (λ h. cc))
  | inr b ↦ rw b (returned tt)
]
get_key-Ends (array xs) key = elim (Bool-cases (has_str key xs)) [
  | inl b ↦ rw b (failed (λ h. cc))
  | inr b ↦ rw b (returned tt)
]
get_key-Ends (int n) key = failed (λ h. cc)
get_key-Ends (bool b) key = failed (λ h. cc)
get_key-Ends other key = failed (λ h. cc)

module _ {A : Type 0} (field_name : String) (t : Expected A) where
  required-Ends :
      (o : Option A) → Ends (λ a. t.is_blank a ≡ false) IsConfigError (required field_name t o)
  required-Ends none = rejected _
  required-Ends (some a) = elim (Bool-cases (t.is_blank a)) [
    | inl b ↦ rw b (rejected _)
    | inr b ↦ rw b (returned b)
  ]

  present-Ends :
      (o : Option Toml) → Ends (λ a. t.is_blank a ≡ false) IsConfigError (present field_name t o)
  present-Ends none = rejected _
  present-Ends (some v) = required-Ends (t.read v)

  typed-Ends : (o : Option A) → Ends (λ _. Unit {0}) IsConfigError (typed field_name t o)
  typed-Ends none = rejected _
  typed-Ends (some a) = returned tt

  or_default-Ends :
      (default : A) (o : Option Toml)
      → Ends (λ _. Unit {0}) IsConfigError (or_default field_name t default o)
  or_default-Ends default none = returned tt
  or_default-Ends default (some v) = typed-Ends (t.read v)

module _ {A : Type 0} (raw : Toml) (key field_name : String) (t : Expected A) where
  pub require-Ends : Ends (λ a. t.is_blank a ≡ false) (OfTable raw) (require raw key field_name t)
  unfolding require
  require-Ends =
      >>=-Ends _ (get_key-Ends raw key)
        (λ o _. Ends-map (present-Ends field_name t o) (λ a h. h) (λ e h _. h))

  pub optional-Ends :
      (default : A) → Ends (λ _. Unit {0}) (OfTable raw) (optional raw key field_name t default)
  unfolding optional
  optional-Ends default =
      >>=-Ends _ (get_key-Ends raw key)
        (λ o _. Ends-map (or_default-Ends field_name t default o) (λ a h. h) (λ e h _. h))

-- A guard that was passed.
pub unless-Ends :
    (test : Bool) (message : String) → Ends (λ _. test ≡ false) IsConfigError (unless test message)
unless-Ends true message = rejected message
unless-Ends false message = returned refl

-- A required text, of a table.
pub text-Ends :
    (raw : Toml) (key field_name : String)
    → is_table raw ≡ true
    → Ends (λ s. str_eq s "" ≡ false) IsConfigError (require raw key field_name a_str)
text-Ends raw key field_name h =
    Ends-map (require-Ends raw key field_name a_str) (λ a b. b) (λ e f. f h)

pub option-Ends :
    {A : Type 0} (raw : Toml) (key field_name : String) (t : Expected A) (default : A)
    → is_table raw ≡ true
    → Ends (λ _. Unit {0}) IsConfigError (optional raw key field_name t default)
option-Ends raw key field_name t default h =
    Ends-map (optional-Ends raw key field_name t default) (λ a b. b) (λ e f. f h)

-- A collection that the extractor accepts: it has a name, a field to follow if it is mutable, and
-- it is no refused GridFS collection.
pub record IsValidCollection (cfg : CollectionConfig) : Type 0 where
  pub named : str_eq cfg.name "" ≡ false
  pub followed : lacks_field cfg.mode cfg.watermark_field ≡ false
  pub accepted : is_refused_name cfg.name cfg.allow_gridfs_chunks ≡ false

valid_mode-Ends :
    (prefix mode_name : String) (o : Option Mode)
    → Ends (λ _. Unit {0}) IsConfigError (valid_mode prefix mode_name o)
valid_mode-Ends prefix mode_name none = rejected _
valid_mode-Ends prefix mode_name (some m) = returned tt

pub parse_collection-Ends :
    (raw : Toml) (idx : ℕ) → Ends IsValidCollection IsConfigError (parse_collection raw idx)
unfolding parse_collection
parse_collection-Ends raw idx = >>=-Ends _ (unless-Ends (not (is_table raw)) _) λ _ h.
    let is : is_table raw ≡ true = ground arith in
    >>=-Ends _ (text-Ends raw "name" _ is) λ name named.
      >>=-Ends _ (text-Ends raw "mode" _ is) λ mode_name _.
        >>=-Ends _ (valid_mode-Ends _ mode_name (mode_of mode_name)) λ mode _.
          >>=-Ends _ (option-Ends raw "watermark_field" _ (or_none a_str) none is) λ field _.
            >>=-Ends _ (unless-Ends (lacks_field mode field) _) λ _ followed.
              >>=-Ends _ (option-Ends raw "overlap_seconds" _ an_int (pos 30) is) λ overlap _.
                >>=-Ends _ (option-Ends raw "batch_size" _ an_int (pos 1000) is) λ size _.
                  >>=-Ends _ (option-Ends raw "initial_watermark" _ (or_none a_str) none is)
                    λ initial _.
                      >>=-Ends _ (option-Ends raw "allow_gridfs_chunks" _ a_bool false is)
                        λ allow _.
                          >>=-Ends _ (unless-Ends (is_refused_name name allow) _) λ _ accepted.
                            returned
                              (record { named = named; followed = followed; accepted = accepted })
