-- ===== src/Locking/Exclusion.antt =====
-- locking.py: several processes that take and give back the lock. Each step of a process is one call
-- of `acquire` or `release`, or its death.
use alteryx_server_maintenan.Prelude.{
  ℕ, ◌≡◌, ◌≢◌, refl, sym, ap, ◌∙◌, Bool, true, false, ◌==◌, ==_iff, none, some, inl, inr,
  Bool-cases, arith, if◌then◌else◌,
}
use alteryx_server_maintenan.Prelude.Int.{ℤ, pos, negsuc}
use alteryx_server_maintenan.World.{LockFile, no_lock, holds}
use alteryx_server_maintenan.Locking.{owner}

-- `checked` is a process that `acquire` has let pass, but that has not written the file yet.
pub data Phase : Type 0 where
  idle checked running gone : Phase

pub record Machine : Type 0 where
  pub file : LockFile
  pub phase : ℕ → Phase

abbrev not_gone : Phase → Bool
not_gone idle = true
not_gone checked = true
not_gone running = true
not_gone gone = false

-- `psutil.pid_exists`.
abbrev pub exists_in : Machine → ℤ → Bool
exists_in m (pos p) = not_gone (m.phase p)
exists_in m (negsuc p) = false

abbrev pub set_phase : ℕ → Phase → (ℕ → Phase) → ℕ → Phase
set_phase p x phase q = if q == p then x else phase q

pub data Step : Machine → Machine → Type 0 where
  acquires :
      {m : Machine} (p : ℕ)
      → m.phase p ≡ idle
      → owner (exists_in m) m.file ≡ none
      → Step m (record { file = holds (pos p); phase = set_phase p running m.phase })
  is_refused :
      {m : Machine} (p : ℕ) (other : ℤ)
      → m.phase p ≡ idle
      → owner (exists_in m) m.file ≡ some other
      → Step m (record m { phase = set_phase p gone m.phase })
  releases :
      {m : Machine} (p : ℕ)
      → m.phase p ≡ running
      → Step m (record { file = no_lock; phase = set_phase p gone m.phase })
  dies : {m : Machine} (p : ℕ) → Step m (record m { phase = set_phase p gone m.phase })

pub data Reaches (m : Machine) : Machine → Type 0 where
  start : Reaches m m
  then_step : {a b : Machine} → Reaches m a → Step a b → Reaches m b

-- Who runs is named by the file.
abbrev IsNamed : Machine → Type 0
IsNamed m = (p : ℕ) → m.phase p ≡ running → m.file ≡ holds (pos p)

-- A process that runs after another one changed ran before.
still_running :
    (p q : ℕ) (x : Phase) (phase : ℕ → Phase)
    → x ≢ running
    → set_phase p x phase q ≡ running
    → (phase q ≡ running) × (q ≢ p)
still_running p q x phase n r = elim (Bool-cases (q == p)) [
  | inl b ↦ absurd (n (rw b at r))
  | inr b ↦ (rw b at r, λ e. ground (arith, ==_iff q p))
]

gone-running : gone ≢ running
gone-running e = cc

-- A process that runs keeps the others out.
runs-owner :
    (m : Machine) (q : ℕ) → m.phase q ≡ running → owner (exists_in m) (holds (pos q)) ≡ some (pos q)
unfolding owner
runs-owner m q r = rw r refl

same_pid : {p q : ℕ} → holds (pos p) ≡ holds (pos q) → p ≡ q
same_pid e = cc

Step-IsNamed : {a b : Machine} → Step a b → IsNamed a → IsNamed b
Step-IsNamed (acquires {m} p e free) h q r = elim (Bool-cases (q == p)) [
  | inl b ↦ ap (λ n. holds (pos n)) (sym ((==_iff q p).0 b))
  | inr b ↦ absurd (keeps_out (rw b at r))
]
  where
    keeps_out : m.phase q ≡ running → ⊥
    keeps_out s =
        let e : some (pos q) ≡ none =
          sym (runs-owner m q s) ∙ ap (owner (exists_in m)) (sym (h q s)) ∙ free in
        cc
Step-IsNamed (is_refused {m} p other e taken) h q r =
    h q ((still_running p q gone m.phase gone-running r).0)
Step-IsNamed (releases {m} p e) h q r =
    let s = still_running p q gone m.phase gone-running r in
    absurd (s.1 (same_pid (sym (h q s.0) ∙ h p e)))
Step-IsNamed (dies {m} p) h q r = h q ((still_running p q gone m.phase gone-running r).0)

-- Where a call of `acquire` is not interrupted, at most one process runs at any time, whatever the
-- lock file held at first, if none ran then.
pub Reaches-exclusive :
    {m n : Machine}
    → ((p : ℕ) → m.phase p ≢ running)
    → Reaches m n
    → (p q : ℕ) → n.phase p ≡ running
    → n.phase q ≡ running
    → p ≡ q
Reaches-exclusive {m} {n} none_runs r p q e_p e_q = same_pid (sym (named r p e_p) ∙ named r q e_q)
  where
    named : {a : Machine} → Reaches m a → IsNamed a
    named start p e = absurd (none_runs p e)
    named (then_step before s) p e = Step-IsNamed s (named before) p e
