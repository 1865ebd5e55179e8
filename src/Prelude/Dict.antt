-- ===== src/Prelude/Dict.antt =====
-- Tables with a key: Python's dicts and the rows of a table under its primary key, in the order of
-- insertion.
use Prim.Native.String.{String}
use mathlib.Core.Path.{◌≡◌, refl}
use mathlib.Core.Logic.{◌↔◌}
use mathlib.Core.Bool.{Bool, true, ◌&&◌}
use mathlib.Core.Option.{Option, none, some}
use mathlib.Core.List.{List, [], ◌∷◌}
use native.Mathlib.Omega.{arith}
use text.Mathlib.Text.{◌==◌ as str_eq}
use text.Mathlib.TextEquality.{eq_iff}
use alteryx_server_maintenan.Prelude.Tests.{if◌then◌else◌}

pub record Eq {ℓ} (K : Type ℓ) : Type ℓ where
  pub beq : K → K → Bool
  pub beq_iff : (a b : K) → (beq a b ≡ true) ↔ (a ≡ b)

instance abbrev pub string_key : Eq String
string_key = record { beq = str_eq; beq_iff = eq_iff }

abbrev pub pair_beq : String × String → String × String → Bool
pair_beq (a, b) (c, d) = str_eq a c && str_eq b d

pub pair_beq_iff : (p q : String × String) → (pair_beq p q ≡ true) ↔ (p ≡ q)
pair_beq_iff (a, b) (c, d) = ground (arith, eq_iff a c, eq_iff b d)

instance abbrev pub pair_key : Eq (String × String)
pair_key = record { beq = pair_beq; beq_iff = pair_beq_iff }

pub beq_refl {ℓ} : {K : Type ℓ} ⦃e : Eq K⦄ (k : K) → e.beq k k ≡ true
beq_refl ⦃e⦄ k = (e.beq_iff k k).1 refl

abbrev pub Dict {ℓ κ} : Type ℓ → Type κ → Type (ℓ ⊔ κ)
Dict K V = List (K × V)

module _ {ℓ κ} {K : Type ℓ} {V : Type κ} ⦃e : Eq K⦄ where
  unfoldable pub lookup : K → Dict K V → Option V
  lookup k [] = none
  lookup k ((j, v) ∷ d) = if e.beq j k then some v else lookup k d

  -- `d[k] = v`, and `INSERT ... ON CONFLICT (k) DO UPDATE`.
  unfoldable pub upsert : K → V → Dict K V → Dict K V
  upsert k v [] = (k, v) ∷ []
  upsert k v ((j, w) ∷ d) = if e.beq j k then (k, v) ∷ d else (j, w) ∷ upsert k v d

  -- `del d[k]`, and `DELETE ... WHERE key = k`.
  unfoldable pub remove : K → Dict K V → Dict K V
  remove k [] = []
  remove k ((j, w) ∷ d) = let rest = remove k d in if e.beq j k then rest else (j, w) ∷ rest

  pub lookup-upsert :
      (j k : K) (v : V) (d : Dict K V)
      → lookup j (upsert k v d) ≡ (if e.beq k j then some v else lookup j d)
  unfolding lookup upsert
  lookup-upsert j k v [] = refl
  lookup-upsert j k v ((i, w) ∷ d) =
      ground (arith, e.beq_iff i k, e.beq_iff i j, e.beq_iff k j, lookup-upsert j k v d)

  pub lookup-remove :
      (j k : K) (d : Dict K V) → lookup j (remove k d) ≡ (if e.beq k j then none else lookup j d)
  unfolding lookup remove
  lookup-remove j k [] = ground arith
  lookup-remove j k ((i, w) ∷ d) =
      ground (arith, e.beq_iff i k, e.beq_iff i j, e.beq_iff k j, lookup-remove j k d)

  -- No two entries have one key.
  abbrev pub NodupKeys : Dict K V → Type κ
  NodupKeys [] = Unit
  NodupKeys ((k, _) ∷ d) = (lookup k d ≡ none) × NodupKeys d

  pub upsert-NodupKeys : (k : K) (v : V) (d : Dict K V) → NodupKeys d → NodupKeys (upsert k v d)
  unfolding upsert lookup
  upsert-NodupKeys k v [] u = (refl, tt)
  upsert-NodupKeys k v ((j, w) ∷ d) (fresh, u) =
      ground (arith, e.beq_iff j k, e.beq_iff k j, upsert-NodupKeys k v d u, lookup-upsert j k v d)

  pub remove-NodupKeys : (k : K) (d : Dict K V) → NodupKeys d → NodupKeys (remove k d)
  unfolding remove
  remove-NodupKeys k [] u = tt
  remove-NodupKeys k ((j, w) ∷ d) (fresh, u) =
      ground (arith, remove-NodupKeys k d u, lookup-remove j k d)
