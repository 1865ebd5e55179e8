-- ===== src/Logging/Intercepted.antt =====
-- logging_setup.py: where a record of the standard `logging` is said to come from.
use alteryx_server_maintenan.Prelude.{
  ℕ, ◌+◌, ◌≡◌, refl, ap, String, true, false, Bool-cases, inl, inr, List, [], ◌∷◌, ◌++◌, All,
  length, str_eq, ok, arith,
}
use alteryx_server_maintenan.Logging.{Loguru, StdRecord, level_or, getframe, walk, emit_record}

-- There is no frame, or the first one is not of `logging`.
abbrev pub StartsOutside : String → List String → Type 0
StartsOutside logging_file [] = Unit
StartsOutside logging_file (f ∷ frames) = str_eq f logging_file ≡ false

-- The frames up to the caller of `logging`, and what comes behind them.
pub record IsCaller (logging_file : String) (frames : List String) (steps : ℕ) : Type 0 where
  pub inner : List String
  pub outer : List String
  pub split : frames ≡ inner ++ outer
  pub counted : steps ≡ length inner
  pub of_logging : All (λ f. str_eq f logging_file ≡ true) inner
  pub outside : StartsOutside logging_file outer

walk-IsCaller :
    (logging_file : String) (frames : List String) (depth : ℕ)
    → (steps : ℕ) × (walk logging_file frames depth ≡ depth + steps)
      × IsCaller logging_file frames steps
unfolding walk
walk-IsCaller logging_file [] depth = (
  0,
  omega arith,
  record { inner = []; outer = []; split = refl; counted = refl; of_logging = tt; outside = tt },
)
walk-IsCaller logging_file (f ∷ frames) depth = elim (Bool-cases (str_eq f logging_file)) [
  | inr e ↦ (
    0,
    rw e (omega arith),
    record {
      inner = [];
      outer = f ∷ frames;
      split = refl;
      counted = refl;
      of_logging = tt;
      outside = e;
    },
  )
  | inl e ↦
      let (steps, d, c) = walk-IsCaller logging_file frames (depth + 1) in
      (
        steps + 1,
        rw e (omega (arith, d)),
        record {
          inner = f ∷ c.inner;
          outer = c.outer;
          split = ap (λ (l : List String). f ∷ l) c.split;
          counted = omega (arith, c.counted);
          of_logging = (e, c.of_logging);
          outside = c.outside;
        },
      )
]

-- A record of the standard `logging`, below the six frames that lead to the handler, is passed on with
-- its text and exception, at loguru's level of its name, or by its number if loguru has none; its depth
-- is that of the first frame behind the six that is not of `logging`, or of the end of the stack.
pub emit_record-IsCaller :
    (loguru : Loguru) (logging_file : String) (f0 f1 f2 f3 f4 f5 f6 : String) (frames : List String)
    (r : StdRecord)
    → (depth : ℕ) × IsCaller logging_file (f6 ∷ frames) depth
      × (emit_record loguru logging_file (f0 ∷ f1 ∷ f2 ∷ f3 ∷ f4 ∷ f5 ∷ f6 ∷ frames) r
          ≡ ok (record {
            level = level_or r.levelno (loguru.level_name r.levelname);
            text = r.text;
            depth = 6 + depth;
            exc_info = r.exc_info;
          }))
unfolding emit_record getframe
emit_record-IsCaller loguru logging_file f0 f1 f2 f3 f4 f5 f6 frames r =
    let (steps, d, c) = walk-IsCaller logging_file (f6 ∷ frames) 6 in (steps, c, rw d refl)
