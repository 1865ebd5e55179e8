-- ===== src/World/Keeping.antt =====
-- Programs that keep a property of the world on every ending: returns, raises and crashes.
use mathlib.Core.Path.{subst}
use alteryx_server_maintenan.Prelude.{
  ℕ, String, ◌≡◌, refl, ap, ◌∙◌, Bool, true, false, if◌then◌else◌, Result, ok, raised, Exn,
}
use alteryx_server_maintenan.State.{Db}
use alteryx_server_maintenan.World.{World}
use alteryx_server_maintenan.World.Exec.{
  Exec, pure, raise, ◌>>=◌, try_except, except_exception, except_upload_error, effect, os_effect,
  commit,
}
use alteryx_server_maintenan.World.Rules.{
  Post, returns, raises, >>=-Post, try-exception-Post, try-upload_error-Post, effect-Post,
  os_effect-Post, commit-Post,
}

abbrev pub Keeps : (World → Type 0) → {A : Type 0} → Exec A → Type 0
Keeps P m = (w : World) → P w → Post (λ a w'. P w') P (m w)

module _ {P : World → Type 0} where
  pub asks-Keeps : {A : Type 0} (r : World → Result A) → Keeps P (λ w. (r w, w))
  asks-Keeps r w p = go (r w)
    where
      go : {A : Type 0} (x : Result A) → Post (λ (a : A) w'. P w') P (x, w)
      go (ok a) = returns p
      go (raised e) = raises p

  pub pure-Keeps : {A : Type 0} (a : A) → Keeps P (pure a)
  pure-Keeps a w p = returns p

  pub raise-Keeps : {A : Type 0} (e : Exn) → Keeps P (raise {A = A} e)
  raise-Keeps e w p = raises p

  pub >>=-Keeps :
      {A B : Type 0} {m : Exec A} {f : A → Exec B}
      → Keeps P m
      → ((a : A) → Keeps P (f a))
      → Keeps P (m >>= f)
  >>=-Keeps {m} {f} h k w p = >>=-Post m f w (h w p) (λ a w' q. k a w' q)

  pub try-exception-Keeps :
      {A : Type 0} {m : Exec A} {h : Exn → Exec A}
      → Keeps P m
      → ((e : Exn) → Keeps P (h e))
      → Keeps P (try_except m (except_exception h))
  try-exception-Keeps {m} {h} k l w p =
      try-exception-Post m h w (k w p) (λ w' q. q) (λ e w' q. l e w' q)

  pub try-upload_error-Keeps :
      {A : Type 0} {m : Exec A} {h : String → Exec A}
      → Keeps P m
      → ((e : String) → Keeps P (h e))
      → Keeps P (try_except m (except_upload_error h))
  try-upload_error-Keeps {m} {h} k l w p =
      try-upload_error-Post m h w (k w p) (λ w' q. q) (λ e w' q. l e w' q)

  pub if-Keeps :
      {A : Type 0} {m n : Exec A} (b : Bool)
      → (b ≡ true → Keeps P m)
      → (b ≡ false → Keeps P n)
      → Keeps P (if b then m else n)
  if-Keeps true h k = h refl
  if-Keeps false h k = k refl

  pub effect-Keeps :
      (f : World → World)
      → ((w : World) (n : ℕ) → P w → P (record (f w) { budget = n }))
      → Keeps P (effect f)
  effect-Keeps f k w p = effect-Post f w p (λ n. k w n p)

  pub os_effect-Keeps :
      (fails : World → Bool) (f : World → World)
      → ((w : World) (n : ℕ) → P w → P (record (f w) { budget = n }))
      → Keeps P (os_effect fails f)
  os_effect-Keeps fails f k w p = os_effect-Post fails f w p (λ n. k w n p)

  -- A transaction that keeps the property of the database, applied or rolled back.
  pub commit-Keeps :
      (op : World → Db → Result (Unit {0}) × Db)
      → ((w : World) (n : ℕ) → P w → P (record w { db = (op w w.db).1; budget = n }))
      → Keeps P (commit op)
  commit-Keeps op k w p =
      commit-Post op w p (λ n db e. moved n db e (k w n p)) (λ n e' db e. moved n db e (k w n p))
    where
      moved :
          {r : Result (Unit {0})} (n : ℕ) (db : Db)
          → op w w.db ≡ (r, db)
          → P (record w { db = (op w w.db).1; budget = n })
          → P (record w { db = db; budget = n })
      moved n db e h =
          subst (λ (x : Result (Unit {0}) × Db). P (record w { db = x.1; budget = n })) e h

-- What a run ships and how far it has come: the objects in the bucket, the watermarks and the offsets
-- are as they were.
pub record SameData (w0 w : World) : Type 0 where
  pub watermarks : w.db.watermarks ≡ w0.db.watermarks
  pub file_offsets : w.db.file_offsets ≡ w0.db.file_offsets
  pub bucket : w.bucket ≡ w0.bucket

abbrev pub SameData-refl : (w : World) → SameData w w
SameData-refl w = record { watermarks = refl; file_offsets = refl; bucket = refl }

-- A property of the database and the bucket alone.
abbrev pub OfStores : (World → Type 0) → Type 0
OfStores P = (w w' : World) → w'.db ≡ w.db → w'.bucket ≡ w.bucket → P w → P w'

pub SameData-OfStores : (w0 : World) → OfStores (SameData w0)
SameData-OfStores w0 w w' d b s = record {
  watermarks = ap (λ (db : Db). db.watermarks) d ∙ s.watermarks;
  file_offsets = ap (λ (db : Db). db.file_offsets) d ∙ s.file_offsets;
  bucket = b ∙ s.bucket;
}

-- An effect on the spool, the run directories or the lock.
pub os_effect-OfStores :
    {P : World → Type 0}
    → OfStores P
    → (fails : World → Bool) (f : World → World) → ((w : World) → (f w).db ≡ w.db)
    → ((w : World) → (f w).bucket ≡ w.bucket)
    → Keeps P (os_effect fails f)
os_effect-OfStores c fails f d b =
    os_effect-Keeps fails f (λ w n s. c w (record (f w) { budget = n }) (d w) (b w) s)
