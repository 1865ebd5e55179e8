-- ===== src/Prelude/Fallible.antt =====
-- Computations that may raise and change nothing: `do` blocks over `Result`, and what they end with.
use mathlib.Core.Path.{◌≡◌, subst}
use alteryx_server_maintenan.Prelude.Exceptions.{Exn, Result, ok, raised}

infixl 10 ◌>>=◌ ◌>>◌
abbrev pub ◌>>=◌ {ℓ κ} : {A : Type ℓ} {B : Type κ} → Result A → (A → Result B) → Result B
ok a >>= f = f a
raised e >>= f = raised e

abbrev pub ◌>>◌ {κ} : {B : Type κ} → Result (Unit {0}) → Result B → Result B
m >> n = m >>= λ _. n

-- `P` of the value, or `R` of the exception.
pub data Ends {A : Type 0} (P : A → Type 0) (R : Exn → Type 0) : Result A → Type 0 where
  returned : {a : A} → P a → Ends P R (ok a)
  failed : {e : Exn} → R e → Ends P R (raised e)

abbrev Fits : {A : Type 0} → (A → Type 0) → (Exn → Type 0) → Result A → Type 0
Fits P R (ok a) = P a
Fits P R (raised e) = R e

module _ {A : Type 0} {P : A → Type 0} {R : Exn → Type 0} where
  Ends-Fits : {r : Result A} → Ends P R r → Fits P R r
  Ends-Fits (returned h) = h
  Ends-Fits (failed h) = h

  pub Ends-ok : {r : Result A} {a : A} → Ends P R r → r ≡ ok a → P a
  Ends-ok h e = subst (Fits P R) e (Ends-Fits h)

  pub Ends-raised : {r : Result A} {x : Exn} → Ends P R r → r ≡ raised x → R x
  Ends-raised h e = subst (Fits P R) e (Ends-Fits h)

  pub Ends-map :
      {Q : A → Type 0} {S : Exn → Type 0} {r : Result A}
      → Ends P R r
      → ((a : A) → P a → Q a)
      → ((e : Exn) → R e → S e)
      → Ends Q S r
  Ends-map (returned h) f g = returned (f _ h)
  Ends-map (failed h) f g = failed (g _ h)

pub >>=-Ends :
    {A B : Type 0} {P : A → Type 0} {Q : B → Type 0} {R : Exn → Type 0} {m : Result A}
    (f : A → Result B)
    → Ends P R m
    → ((a : A) → P a → Ends Q R (f a))
    → Ends Q R (m >>= f)
>>=-Ends f (returned h) k = k _ h
>>=-Ends f (failed h) k = failed h
