-- ===== src/World/Total.antt =====
-- Programs that return: where no part of the surroundings raises, and the process lives long enough.
use alteryx_server_maintenan.Prelude.{
  ℕ, zero, suc, String, ◌+◌, ◌≤◌, ◌≡◌, refl, Bool, false, arith, Result, ok, raised, Exn,
}
use alteryx_server_maintenan.State.{Db}
use alteryx_server_maintenan.World.{World, Env, stored}
use alteryx_server_maintenan.World.Exec.{
  select, Exec, lift, ◌>>=◌, try_except, except_exception, except_upload_error, spend, effect,
  spend_commit, commit, os_effect,
}
use alteryx_server_maintenan.World.Rules.{
  Post, returns, raises, Post-map, Post-both, try-exception-Post, try-upload_error-Post,
}

-- The disk and SQLite raise nothing, and S3 stores what it is given.
pub record IsQuiet (env : Env) : Type 0 where
  pub writes : (w : World) (path : String) → env.write_raises w path ≡ false
  pub unlinks : (w : World) (path : String) → env.unlink_raises w path ≡ false
  pub sql : (w : World) (i : ℕ) → env.sql_raises w i ≡ false
  pub selects : (w : World) → env.select_raises w ≡ false
  pub stores :
      (w : World) (path key : String) → (etag : String) × (env.s3_reply w path key ≡ stored etag)

-- The program returns, with `Q` of its result and the world after it.
abbrev pub Returns : {A : Type 0} → (A → World → Type 0) → Result A × World → Type 0
Returns Q x = Post Q (λ w. ⊥) x

-- The process lives for `n` more effects.
abbrev pub Lives : ℕ → World → Type 0
Lives n w = n ≤ w.budget

pub Returns-ok :
    {A : Type 0} {Q : A → World → Type 0} {x : Result A × World}
    → Returns Q x
    → (a : A) × (w : World) × (x ≡ (ok a, w)) × Q a w
Returns-ok (returns {a} {w} q) = (a, w, refl, q)
Returns-ok (raises h) = absurd h

-- Returning, with what is known of every ending.
pub Returns-both :
    {A : Type 0} {Q S : A → World → Type 0} {R : World → Type 0} {x : Result A × World}
    → Post Q R x
    → Returns S x
    → Returns (λ a w. Q a w × S a w) x
Returns-both p r = Post-map (Post-both p r) (λ a w q. q) (λ w q. q.1)

module _ {Q : Unit {0} → World → Type 0} (n : ℕ) where
  spend-Returns :
      (b : ℕ) (w : World) (f : World → World)
      → n + 1 ≤ b
      → ((c : ℕ) → n ≤ c → Q tt (record (f w) { budget = c }))
      → Returns Q (spend b w f)
  spend-Returns zero w f l k = absurd (omega arith)
  spend-Returns (suc b) w f l k = returns (k b (omega arith))

  pub effect-Returns :
      (f : World → World) (w : World)
      → Lives (n + 1) w
      → ((c : ℕ) → n ≤ c → Q tt (record (f w) { budget = c }))
      → Returns Q (effect f w)
  unfolding effect
  effect-Returns f w l k = spend-Returns w.budget w f l k

  pub os_effect-Returns :
      (fails : World → Bool) (f : World → World) (w : World)
      → fails w ≡ false
      → Lives (n + 1) w
      → ((c : ℕ) → n ≤ c → Q tt (record (f w) { budget = c }))
      → Returns Q (os_effect fails f w)
  unfolding os_effect
  os_effect-Returns fails f w fine l k = rw fine (effect-Returns f w l k)

  spend_commit-Returns :
      (b : ℕ) (w : World) (x : Result (Unit {0}) × Db)
      → x.0 ≡ ok tt
      → n + 1 ≤ b
      → ((c : ℕ) → n ≤ c → Q tt (record w { db = x.1; budget = c }))
      → Returns Q (spend_commit b w x)
  spend_commit-Returns zero w x e l k = absurd (omega arith)
  spend_commit-Returns (suc b) w (ok tt, db) e l k = returns (k b (omega arith))
  spend_commit-Returns (suc b) w (raised x, db) e l k = cc

  pub commit-Returns :
      (op : World → Db → Result (Unit {0}) × Db) (w : World)
      → (op w w.db).0 ≡ ok tt
      → Lives (n + 1) w
      → ((c : ℕ) → n ≤ c → Q tt (record w { db = (op w w.db).1; budget = c }))
      → Returns Q (commit op w)
  unfolding commit
  commit-Returns op w e l k = spend_commit-Returns w.budget w (op w w.db) e l k

module _ {A B : Type 0} {Q : B → World → Type 0} where
  -- A step that only computes.
  pub lift->>=-Returns :
      (r : Result A) (f : A → Exec B) (w : World) {a : A}
      → r ≡ ok a
      → Returns Q (f a w)
      → Returns Q ((lift r >>= f) w)
  unfolding ◌>>=◌
  lift->>=-Returns r f w e h = rw e h

  -- A `SELECT` that SQLite does not refuse.
  pub select->>=-Returns :
      (fails : World → Bool) (f : Db → A) (k : A → Exec B) (w : World)
      → fails w ≡ false
      → Returns Q (k (f w.db) w)
      → Returns Q ((select fails f >>= k) w)
  unfolding ◌>>=◌
  select->>=-Returns fails f k w e h = rw e h

  -- A step that only looks at the world.
  pub asks->>=-Returns :
      (r : World → Result A) (f : A → Exec B) (w : World) {a : A}
      → r w ≡ ok a
      → Returns Q (f a w)
      → Returns Q (((λ w'. (r w', w')) >>= f) w)
  unfolding ◌>>=◌
  asks->>=-Returns r f w e h = rw e h

module _ {A : Type 0} {Q : A → World → Type 0} where
  -- A program that returns needs no handler.
  pub try-exception-Returns :
      (m : Exec A) (h : Exn → Exec A) (w : World)
      → Returns Q (m w)
      → Returns Q (try_except m (except_exception h) w)
  try-exception-Returns m h w p = try-exception-Post m h w p (λ w' q. q) (λ e w' q. absurd q)

  pub try-upload_error-Returns :
      (m : Exec A) (h : String → Exec A) (w : World)
      → Returns Q (m w)
      → Returns Q (try_except m (except_upload_error h) w)
  try-upload_error-Returns m h w p = try-upload_error-Post m h w p (λ w' q. q) (λ e w' q. absurd q)
