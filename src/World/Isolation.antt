-- ===== src/World/Isolation.antt =====
-- Units that are run one after the other, each under a handler of its own.
use alteryx_server_maintenan.Prelude.{
  ◌≡◌, String, List, ◌∷◌, ◌++◌, map, Result, ok, raised, Exn, config_error, upload_error, exception,
  killed,
}
use alteryx_server_maintenan.RunnerTypes.{UnitResult}
use alteryx_server_maintenan.World.{World}
use alteryx_server_maintenan.World.Exec.{Exec, pure, continue, handle, except_exception}
use alteryx_server_maintenan.World.Rules.{Post, returns, raises}

-- One result for each name, in order; or the end of the process.
pub data IsIsolated (names : List String) : Result (List UnitResult) → Type 0 where
  completed :
      {results : List UnitResult}
      → map (λ (u : UnitResult). u.unit) results ≡ names
      → IsIsolated names (ok results)
  died : IsIsolated names (raised killed)

-- The same of one result.
pub data IsOne (name : String) : Result UnitResult → Type 0 where
  one : {u : UnitResult} → u.unit ≡ name → IsOne name (ok u)
  ended : IsOne name (raised killed)

pub handle-IsOne :
    (name : String) (h : Exn → UnitResult) (x : Result UnitResult × World)
    → ((e : Exn) → (h e).unit ≡ name)
    → {R : World → Type 0} → Post (λ u w. u.unit ≡ name) R x
    → IsOne name (handle x.0 (except_exception (λ e. pure (h e))) x.1).0
handle-IsOne name h x k (returns e) = one e
handle-IsOne name h x k (raises {e = config_error s} r) = one (k _)
handle-IsOne name h x k (raises {e = upload_error s} r) = one (k _)
handle-IsOne name h x k (raises {e = exception s} r) = one (k _)
handle-IsOne name h x k (raises {e = killed} r) = ended

pub continue-IsIsolated :
    (name : String) (done names : List String) (x : Result UnitResult × World)
    (f : UnitResult → Exec (List UnitResult))
    → IsOne name x.0
    → ((u : UnitResult) (w : World) → u.unit ≡ name → IsIsolated (done ++ name ∷ names) (f u w).0)
    → IsIsolated (done ++ name ∷ names) (continue x.0 f x.1).0
continue-IsIsolated name done names x f (one e) k = k _ _ e
continue-IsIsolated name done names x f ended k = died
