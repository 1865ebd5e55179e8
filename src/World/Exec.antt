-- ===== src/World/Exec.antt =====
-- Programs that change the world and may raise. What was done before a raise stays done.
use alteryx_server_maintenan.Prelude.{
  ℕ, zero, suc, String, Bool, Option, none, some, Result, ok, raised, Exn, config_error,
  upload_error, exception, killed, if◌then◌else◌,
}
use alteryx_server_maintenan.Prelude.Dict.{string_key}
use alteryx_server_maintenan.State.{Db, sqlite_error}
use alteryx_server_maintenan.World.{World}

abbrev pub Exec : Type 0 → Type 0
Exec A = World → Result A × World

abbrev pub pure : {A : Type 0} → A → Exec A
pure a w = (ok a, w)

abbrev pub raise : {A : Type 0} → Exn → Exec A
raise e w = (raised e, w)

abbrev pub lift : {A : Type 0} → Result A → Exec A
lift r w = (r, w)

abbrev pub continue : {A B : Type 0} → Result A → (A → Exec B) → Exec B
continue (ok a) f w = f a w
continue (raised e) f w = (raised e, w)

infixl 10 ◌>>=◌ ◌>>◌
unfoldable pub ◌>>=◌ : {A B : Type 0} → Exec A → (A → Exec B) → Exec B
◌>>=◌ m f w = let (r, w') = m w in continue r f w'

abbrev pub ◌>>◌ : {B : Type 0} → Exec (Unit {0}) → Exec B → Exec B
m >> n = m >>= λ _. n

-- `except` clauses: the handler says what it does with an exception, `none` to let it pass.
abbrev pub handle : {A : Type 0} → Result A → (Exn → Option (Exec A)) → Exec A
handle (ok a) h w = (ok a, w)
handle (raised e) h w = elim (h e) [ none ↦ (raised e, w) | some m ↦ m w ]

unfoldable pub try_except : {A : Type 0} → Exec A → (Exn → Option (Exec A)) → Exec A
try_except m h w = let (r, w') = m w in handle r h w'

-- `except Exception`: the end of the process is no `Exception`.
abbrev pub except_exception : {A : Type 0} → (Exn → Exec A) → Exn → Option (Exec A)
except_exception h (config_error s) = some (h (config_error s))
except_exception h (upload_error s) = some (h (upload_error s))
except_exception h (exception s) = some (h (exception s))
except_exception h killed = none

-- `except UploadError as e`, with `str(e)`.
abbrev pub except_upload_error : {A : Type 0} → (String → Exec A) → Exn → Option (Exec A)
except_upload_error h (upload_error s) = some (h s)
except_upload_error h (config_error s) = none
except_upload_error h (exception s) = none
except_upload_error h killed = none

-- One durable effect, if the process lives to see it.
abbrev pub spend : ℕ → World → (World → World) → Result (Unit {0}) × World
spend zero w f = (raised killed, w)
spend (suc n) w f = (ok tt, record (f w) { budget = n })

unfoldable pub effect : (World → World) → Exec (Unit {0})
effect f w = spend w.budget w f

-- One transaction of the state store; one that the crash cuts off is rolled back.
abbrev pub spend_commit : ℕ → World → Result (Unit {0}) × Db → Result (Unit {0}) × World
spend_commit zero w r = (raised killed, w)
spend_commit (suc n) w (r, db') = (r, record w { db = db'; budget = n })

unfoldable pub commit : (World → Db → Result (Unit {0}) × Db) → Exec (Unit {0})
commit op w = spend_commit w.budget w (op w w.db)

-- A `SELECT`, which SQLite may refuse.
abbrev pub select : {A : Type 0} → (World → Bool) → (Db → A) → Exec A
select raises f w = (if raises w then raised sqlite_error else ok (f w.db), w)

abbrev pub os_error : Exn
os_error = exception "OSError"

-- An effect of the file system that may raise an `OSError` in its place.
unfoldable pub os_effect : (World → Bool) → (World → World) → Exec (Unit {0})
unfolding effect
os_effect raises f w = if raises w then (raised os_error, w) else effect f w

-- `str(e)` in the handlers of the units.
abbrev pub message : Exn → String
message (config_error s) = s
message (upload_error s) = s
message (exception s) = s
message killed = ""
