-- ===== src/World/Turns.antt =====
-- Units that take turns on one world: each goes on from where the one before it has ended.
use alteryx_server_maintenan.Prelude.{◌≢◌, sym, String, List, [], ◌∷◌, All}
use alteryx_server_maintenan.RunnerTypes.{UnitResult}
use alteryx_server_maintenan.World.{World}

-- `Turn` is what a turn with a result does, `Stops` what one does in which the process dies, and
-- `Frames` what either leaves alone.
module _ {C : Type 0} (Turn : C → World → UnitResult → World → Type 0)
    (Stops Frames : C → World → World → Type 0) where
  -- All turns, from the first world to the last.
  pub data Chain : List C → List UnitResult → World → World → Type 0 where
    stop : {w : World} → Chain [] [] w w
    turn :
        {c : C} {cs : List C} {u : UnitResult} {us : List UnitResult} {w w1 w' : World}
        → Turn c w u w1
        → Frames c w w1
        → Chain cs us w1 w'
        → Chain (c ∷ cs) (u ∷ us) w w'

  -- The turns up to the end of the process.
  pub data Cut : List C → World → World → Type 0 where
    untouched : {cs : List C} {w : World} → Cut cs w w
    here : {c : C} {cs : List C} {w w' : World} → Stops c w w' → Frames c w w' → Cut (c ∷ cs) w w'
    later :
        {c : C} {cs : List C} {u : UnitResult} {w w1 w' : World}
        → Turn c w u w1
        → Frames c w w1
        → Cut cs w1 w'
        → Cut (c ∷ cs) w w'

-- What a unit sees of the world, as a relation, and that a unit of another name does not change it.
pub record IsApart {C : Type 0} (name : C → String) (Frames Sees : C → World → World → Type 0)
    : Type 0 where
  pub sees_refl : (c : C) (w : World) → Sees c w w
  pub sees_trans : (c : C) {u v w : World} → Sees c u v → Sees c v w → Sees c u w
  pub apart : (c d : C) → name c ≢ name d → {w w' : World} → Frames c w w' → Sees d w w'

-- No two of the units have the same name.
abbrev pub Distinct : {C : Type 0} → (C → String) → List C → Type 0
Distinct name [] = Unit
Distinct name (c ∷ cs) = All (λ d. name c ≢ name d) cs × Distinct name cs

module _ {C : Type 0} (Turn : C → World → UnitResult → World → Type 0)
    (Stops Frames Sees : C → World → World → Type 0) (name : C → String) where
  -- A unit has had its turn: it saw then what was there at the start, and sees at the end what its
  -- turn has left.
  pub record IsSettled (c : C) (u : UnitResult) (w w' : World) : Type 0 where
    pub before : World
    pub after : World
    pub turn_taken : Turn c before u after
    pub at_start : Sees c w before
    pub at_end : Sees c after w'

  -- One result for each unit, in order, which is that of its turn.
  pub data Settled (w w' : World) : List C → List UnitResult → Type 0 where
    nothing_left : Settled w w' [] []
    and_then :
        {c : C} {cs : List C} {u : UnitResult} {us : List UnitResult}
        → IsSettled c u w w'
        → Settled w w' cs us
        → Settled w w' (c ∷ cs) (u ∷ us)

  module _ (laws : IsApart name Frames Sees) where
    -- The turns of others.
    Chain-Sees :
        (c : C) {cs : List C} {us : List UnitResult} {w w' : World}
        → Chain Turn Stops Frames cs us w w'
        → All (λ d. name c ≢ name d) cs
        → Sees c w w'
    Chain-Sees c {w} stop ne = laws.sees_refl c w
    Chain-Sees c (turn {c = d} t f chain) (ne, rest) =
        laws.sees_trans c (laws.apart d c (λ e. ne (sym e)) f) (Chain-Sees c chain rest)

    -- The turn of another unit before settled ones.
    earlier :
        (c : C) {w w1 w' : World} {cs : List C} {us : List UnitResult}
        → Frames c w w1
        → Settled w1 w' cs us
        → All (λ d. name c ≢ name d) cs
        → Settled w w' cs us
    earlier c f nothing_left ne = nothing_left
    earlier c f (and_then {c = d} s settled) (ne, rest) =
        and_then
          (record {
            before = s.before;
            after = s.after;
            turn_taken = s.turn_taken;
            at_start = laws.sees_trans d (laws.apart c d ne f) s.at_start;
            at_end = s.at_end;
          })
          (earlier c f settled rest)

    -- Units whose names differ do not disturb each other.
    pub Chain-Settled :
        {cs : List C} {us : List UnitResult} {w w' : World}
        → Chain Turn Stops Frames cs us w w'
        → Distinct name cs
        → Settled w w' cs us
    Chain-Settled stop distinct = nothing_left
    Chain-Settled (turn {c} {w} {w1} t f chain) (ne, distinct) =
        and_then
          (record {
            before = w;
            after = w1;
            turn_taken = t;
            at_start = laws.sees_refl c w;
            at_end = Chain-Sees c chain ne;
          })
          (earlier c f (Chain-Settled chain distinct) ne)
