-- ===== src/Locking/Race.antt =====
-- locking.py: the same, where other processes may step between the test of `acquire` and its write.
use alteryx_server_maintenan.Prelude.{ℕ, ◌≡◌, none}
use alteryx_server_maintenan.Prelude.Int.{pos}
use alteryx_server_maintenan.World.{holds}
use alteryx_server_maintenan.Locking.{owner}
use alteryx_server_maintenan.Locking.Exclusion.{
  Machine, idle, checked, running, exists_in, set_phase,
}

pub data SplitStep : Machine → Machine → Type 0 where
  passes :
      {m : Machine} (p : ℕ)
      → m.phase p ≡ idle
      → owner (exists_in m) m.file ≡ none
      → SplitStep m (record m { phase = set_phase p checked m.phase })
  writes :
      {m : Machine} (p : ℕ)
      → m.phase p ≡ checked
      → SplitStep m (record { file = holds (pos p); phase = set_phase p running m.phase })

pub data SplitReaches (m : Machine) : Machine → Type 0 where
  start : SplitReaches m m
  then_step : {a b : Machine} → SplitReaches m a → SplitStep a b → SplitReaches m b
