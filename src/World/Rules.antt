-- ===== src/World/Rules.antt =====
-- Postconditions of programs: `Q` of the result and the world after a return, `R` of the world
-- after a raise, the end of the process included.
use mathlib.Core.Path.{subst}
use alteryx_server_maintenan.Prelude.{
  ℕ, zero, suc, String, ◌≡◌, refl, Bool, true, false, Result, ok, raised, Exn, config_error,
  upload_error, exception, killed, if◌then◌else◌,
}
use alteryx_server_maintenan.State.{Db}
use alteryx_server_maintenan.World.{World}
use alteryx_server_maintenan.World.Exec.{
  select, Exec, continue, lift, ◌>>=◌, handle, try_except, except_exception, except_upload_error,
  spend, effect, spend_commit, commit, os_effect,
}

pub data Post {A : Type 0} (Q : A → World → Type 0) (R : World → Type 0)
    : Result A × World → Type 0 where
  returns : {a : A} {w : World} → Q a w → Post Q R (ok a, w)
  raises : {e : Exn} {w : World} → R w → Post Q R (raised e, w)

abbrev Fits : {A : Type 0} → (A → World → Type 0) → (World → Type 0) → Result A × World → Type 0
Fits Q R (ok a, w) = Q a w
Fits Q R (raised e, w) = R w

module _ {A : Type 0} {Q : A → World → Type 0} {R : World → Type 0} where
  Post-Fits : {x : Result A × World} → Post Q R x → Fits Q R x
  Post-Fits (returns h) = h
  Post-Fits (raises h) = h

  pub Post-ok : {x : Result A × World} {a : A} {w : World} → Post Q R x → x ≡ (ok a, w) → Q a w
  Post-ok p e = subst (Fits Q R) e (Post-Fits p)

  pub Post-raised :
      {x : Result A × World} {e : Exn} {w : World} → Post Q R x → x ≡ (raised e, w) → R w
  Post-raised p e = subst (Fits Q R) e (Post-Fits p)

  -- A weaker postcondition.
  pub Post-map :
      {S : A → World → Type 0} {T : World → Type 0} {x : Result A × World}
      → Post Q R x
      → ((a : A) (w : World) → Q a w → S a w)
      → ((w : World) → R w → T w)
      → Post S T x
  Post-map (returns h) f g = returns (f _ _ h)
  Post-map (raises h) f g = raises (g _ h)

-- Two postconditions of one program.
pub Post-both :
    {A : Type 0} {Q S : A → World → Type 0} {R T : World → Type 0} {x : Result A × World}
    → Post Q R x
    → Post S T x
    → Post (λ a w. Q a w × S a w) (λ w. R w × T w) x
Post-both {Q} {S} {R} {T} {x = (ok a, w)} p q = returns (Post-ok p refl, Post-ok q refl)
Post-both {Q} {S} {R} {T} {x = (raised e, w)} p q = raises (Post-raised p refl, Post-raised q refl)

module _ {A B : Type 0} {P : A → World → Type 0} {Q : B → World → Type 0} {R : World → Type 0} where
  continue-Post :
      (x : Result A × World) (f : A → Exec B)
      → Post P R x
      → ((a : A) (w : World) → P a w → Post Q R (f a w))
      → Post Q R (continue x.0 f x.1)
  continue-Post x f (returns h) k = k _ _ h
  continue-Post x f (raises h) k = raises h

  pub >>=-Post :
      (m : Exec A) (f : A → Exec B) (w : World)
      → Post P R (m w)
      → ((a : A) (w' : World) → P a w' → Post Q R (f a w'))
      → Post Q R ((m >>= f) w)
  unfolding ◌>>=◌
  >>=-Post m f w h k = continue-Post (m w) f h k

module _ {A B : Type 0} {Q : B → World → Type 0} {R : World → Type 0} where
  -- A step that only computes.
  pub lift->>=-Post :
      (r : Result A) (f : A → Exec B) (w : World)
      → R w
      → ((a : A) → r ≡ ok a → Post Q R (f a w))
      → Post Q R ((lift r >>= f) w)
  unfolding ◌>>=◌
  lift->>=-Post (ok a) f w h k = k a refl
  lift->>=-Post (raised e) f w h k = raises h

  -- A step that only looks at the world; the first cannot raise.
  pub gets->>=-Post :
      (r : World → A) (f : A → Exec B) (w : World)
      → Post Q R (f (r w) w)
      → Post Q R (((λ w'. (ok (r w'), w')) >>= f) w)
  unfolding ◌>>=◌
  gets->>=-Post r f w k = k

  selected-Post :
      (b : Bool) (a : A) (e : Exn) (k : A → Exec B) (w : World)
      → R w
      → Post Q R (k a w)
      → Post Q R ((lift (if b then raised e else ok a) >>= k) w)
  unfolding ◌>>=◌
  selected-Post true a e k w r h = raises r
  selected-Post false a e k w r h = h

  pub select->>=-Post :
      (fails : World → Bool) (f : Db → A) (k : A → Exec B) (w : World)
      → R w
      → Post Q R (k (f w.db) w)
      → Post Q R ((select fails f >>= k) w)
  unfolding ◌>>=◌
  select->>=-Post fails f k w r h = selected-Post (fails w) (f w.db) _ k w r h

  pub asks->>=-Post :
      (r : World → Result A) (f : A → Exec B) (w : World)
      → R w
      → ((a : A) → r w ≡ ok a → Post Q R (f a w))
      → Post Q R (((λ w'. (r w', w')) >>= f) w)
  unfolding ◌>>=◌
  asks->>=-Post r f w h k = lift->>=-Post (r w) f w h k

module _ {A : Type 0} {Q : A → World → Type 0} {R S : World → Type 0} where
  handle-exception-Post :
      (x : Result A × World) (h : Exn → Exec A)
      → Post Q S x
      → ((w : World) → S w → R w)
      → ((e : Exn) (w : World) → S w → Post Q R (h e w))
      → Post Q R (handle x.0 (except_exception h) x.1)
  handle-exception-Post x h (returns p) weaken k = returns p
  handle-exception-Post x h (raises {e = config_error s} p) weaken k = k _ _ p
  handle-exception-Post x h (raises {e = upload_error s} p) weaken k = k _ _ p
  handle-exception-Post x h (raises {e = exception s} p) weaken k = k _ _ p
  handle-exception-Post x h (raises {e = killed} p) weaken k = raises (weaken _ p)

  pub try-exception-Post :
      (m : Exec A) (h : Exn → Exec A) (w : World)
      → Post Q S (m w)
      → ((w' : World) → S w' → R w')
      → ((e : Exn) (w' : World) → S w' → Post Q R (h e w'))
      → Post Q R (try_except m (except_exception h) w)
  unfolding try_except
  try-exception-Post m h w p weaken k = handle-exception-Post (m w) h p weaken k

  handle-upload_error-Post :
      (x : Result A × World) (h : String → Exec A)
      → Post Q S x
      → ((w : World) → S w → R w)
      → ((s : String) (w : World) → S w → Post Q R (h s w))
      → Post Q R (handle x.0 (except_upload_error h) x.1)
  handle-upload_error-Post x h (returns p) weaken k = returns p
  handle-upload_error-Post x h (raises {e = config_error s} p) weaken k = raises (weaken _ p)
  handle-upload_error-Post x h (raises {e = upload_error s} p) weaken k = k s _ p
  handle-upload_error-Post x h (raises {e = exception s} p) weaken k = raises (weaken _ p)
  handle-upload_error-Post x h (raises {e = killed} p) weaken k = raises (weaken _ p)

  pub try-upload_error-Post :
      (m : Exec A) (h : String → Exec A) (w : World)
      → Post Q S (m w)
      → ((w' : World) → S w' → R w')
      → ((s : String) (w' : World) → S w' → Post Q R (h s w'))
      → Post Q R (try_except m (except_upload_error h) w)
  unfolding try_except
  try-upload_error-Post m h w p weaken k = handle-upload_error-Post (m w) h p weaken k

module _ {Q : Unit {0} → World → Type 0} {R : World → Type 0} where
  spend-Post :
      (b : ℕ) (w : World) (f : World → World)
      → R w
      → ((n : ℕ) → Q tt (record (f w) { budget = n }))
      → Post Q R (spend b w f)
  spend-Post zero w f r q = raises r
  spend-Post (suc n) w f r q = returns (q n)

  pub effect-Post :
      (f : World → World) (w : World)
      → R w
      → ((n : ℕ) → Q tt (record (f w) { budget = n }))
      → Post Q R (effect f w)
  unfolding effect
  effect-Post f w r q = spend-Post w.budget w f r q

  if-Post :
      (b : Bool) (e : Exn) (w : World) (f : World → World)
      → R w
      → ((n : ℕ) → Q tt (record (f w) { budget = n }))
      → Post Q R (if b then (raised e, w) else effect f w)
  if-Post true e w f r q = raises r
  if-Post false e w f r q = effect-Post f w r q

  pub os_effect-Post :
      (fails : World → Bool) (f : World → World) (w : World)
      → R w
      → ((n : ℕ) → Q tt (record (f w) { budget = n }))
      → Post Q R (os_effect fails f w)
  unfolding os_effect
  os_effect-Post fails f w r q = if-Post (fails w) _ w f r q

  spend_commit-Post :
      (b : ℕ) (w : World) (x : Result (Unit {0}) × Db)
      → R w
      → ((n : ℕ) (db : Db) → x ≡ (ok tt, db) → Q tt (record w { db = db; budget = n }))
      → ((n : ℕ) (e : Exn) (db : Db) → x ≡ (raised e, db) → R (record w { db = db; budget = n }))
      → Post Q R (spend_commit b w x)
  spend_commit-Post zero w x r q s = raises r
  spend_commit-Post (suc n) w (ok tt, db) r q s = returns (q n db refl)
  spend_commit-Post (suc n) w (raised e, db) r q s = raises (s n e db refl)

  pub commit-Post :
      (op : World → Db → Result (Unit {0}) × Db) (w : World)
      → R w
      → ((n : ℕ) (db : Db) → op w w.db ≡ (ok tt, db) → Q tt (record w { db = db; budget = n }))
      → ((n : ℕ) (e : Exn) (db : Db)
          → op w w.db ≡ (raised e, db)
          → R (record w { db = db; budget = n }))
      → Post Q R (commit op w)
  unfolding commit
  commit-Post op w r q s = spend_commit-Post w.budget w (op w w.db) r q s

-- A program that branches.
pub branch-Post :
    {A : Type 0} {Q : A → World → Type 0} {R : World → Type 0} (b : Bool) (m n : Exec A) (w : World)
    → (b ≡ true → Post Q R (m w))
    → (b ≡ false → Post Q R (n w))
    → Post Q R ((if b then m else n) w)
branch-Post true m n w h k = h refl
branch-Post false m n w h k = k refl
