-- ===== src/Logging.antt =====
-- mongo-sync-agent/src/mongo_sync_agent/logging_setup.py: the log sinks of a run, the run id that is
-- stamped on each record, and the records of the standard `logging` that are passed on. What loguru
-- does with a sink is a `Loguru`.
pub mod Configured
pub mod Intercepted
use Prim.Native.String.{◌++◌ as ◌<>◌}
use alteryx_server_maintenan.Prelude.{
  ℕ, zero, suc, ◌+◌, String, Bool, true, false, Option, none, some, List, [], ◌∷◌, ◌++◌, ◌&&◌,
  str_eq, if◌then◌else◌, Result, ok, raised, Exn, exception,
}
use alteryx_server_maintenan.Prelude.Fallible.{◌>>=◌}

pub data Target : Type 0 where
  stderr : Target
  file : String → Target

-- What the file sink is given besides: the size at which it is rotated, the number of old files that
-- are kept, and their compression.
pub record Rotation : Type 0 where
  pub rotation : String
  pub retention : ℕ
  pub compression : String

-- The filters of the module; its only one is `_inject_run_id`.
pub data SinkFilter : Type 0 where
  by_inject_run_id : SinkFilter

-- What `logger.add` is given; `none` where an argument is not.
pub record Sink : Type 0 where
  pub target : Target
  pub level : String
  pub format : String
  pub filter : Option SinkFilter
  pub colorize : Option Bool
  pub rotated : Option Rotation
  pub encoding : Option String
  pub backtrace : Option Bool
  pub diagnose : Option Bool
  pub enqueue : Option Bool

-- A record that a sink is offered: its level, its text, `extra["run_id"]`, if it has one, and whether
-- it is logged in the context in which `set_run_id` was called; another thread has a context of its own.
pub record Message : Type 0 where
  pub level : String
  pub text : String
  pub run_id : Option String
  pub in_context : Bool

-- `level_name` is `logger.level(name).name`, `none` a `ValueError`; `add` says how `logger.add` ends;
-- `takes` whether a sink of the first level takes a record of the second.
pub record Loguru : Type 0 where
  pub upper : String → String
  pub level_name : String → Option String
  pub add : Sink → Result (Unit {0})
  pub takes : String → String → Bool
  pub mkdir : String → Result (Unit {0})

-- `_run_id_var` in the context of the run, the sinks of the logger, and whether the root logger of `logging` has an
-- `_InterceptHandler`.
pub record LogState : Type 0 where
  pub run_id : String
  pub sinks : List Sink
  pub intercepts : Bool

abbrev pub initial_log_state : LogState
initial_log_state = record { run_id = "-"; sinks = []; intercepts = false }

abbrev pub set_run_id : String → LogState → LogState
set_run_id run_id st = record st { run_id = run_id }

-- `_run_id_var.get()`; the default is what another context has.
abbrev pub current_run_id : LogState → Bool → String
current_run_id st in_context = if in_context then st.run_id else "-"

-- `_inject_run_id`.
abbrev pub inject_run_id : LogState → Message → Message × Bool
inject_run_id st m = (record m { run_id = some (current_run_id st m.in_context) }, true)

-- What the filter of a sink makes of a record, and whether it lets it pass.
abbrev pub filtered : LogState → Option SinkFilter → Message → Message × Bool
filtered st none m = (m, true)
filtered st (some by_inject_run_id) m = inject_run_id st m

abbrev pub console_format : String
console_format =
    "<green>{time:YYYY-MM-DD HH:mm:ss}</green> | " <> "<level>{level:<8}</level> | "
    <> "<cyan>{name}</cyan> | " <> "<dim>run={extra[run_id]}</dim> | " <> "{message}"

abbrev pub file_format : String
file_format =
    "{time:YYYY-MM-DDTHH:mm:ss.SSS!UTC}Z | {level:<8} | "
    <> "{name}:{function}:{line} | run={extra[run_id]} | {message}"

abbrev pub console_sink : String → Sink
console_sink level = record {
  target = stderr;
  level = level;
  format = console_format;
  filter = some by_inject_run_id;
  colorize = some true;
  rotated = none;
  encoding = none;
  backtrace = none;
  diagnose = none;
  enqueue = none;
}

abbrev pub file_sink : String → Sink
file_sink log_dir = record {
  target = file (log_dir <> "/msa.log");
  level = "DEBUG";
  format = file_format;
  filter = some by_inject_run_id;
  colorize = none;
  rotated = some (record { rotation = "10 MB"; retention = 5; compression = "gz" });
  encoding = some "utf-8";
  backtrace = some true;
  diagnose = some false;
  enqueue = some false;
}

-- A call that ends as `r` and, where it returns, changes the state; what comes after it.
abbrev pub then_do :
    Result (Unit {0})
    → LogState
    → (LogState → LogState)
    → (LogState → Result (Unit {0}) × LogState)
    → Result (Unit {0}) × LogState
then_do (ok u) st f next = next (f st)
then_do (raised e) st f next = (raised e, st)

abbrev pub with_sink : Sink → LogState → LogState
with_sink s st = record st { sinks = st.sinks ++ s ∷ [] }

module _ (loguru : Loguru) where
  abbrev pub add_sink :
      Sink → LogState → (LogState → Result (Unit {0}) × LogState) → Result (Unit {0}) × LogState
  add_sink s st next = then_do (loguru.add s) st (with_sink s) next

  -- `basicConfig(handlers=[_InterceptHandler()], level=0, force=True)`.
  abbrev pub intercept : LogState → Result (Unit {0}) × LogState
  intercept st = (ok tt, record st { intercepts = true })

  unfoldable pub configure_logging :
      String → String → String → LogState → Result (Unit {0}) × LogState
  configure_logging log_dir run_id level st =
      then_do (loguru.mkdir log_dir) (set_run_id run_id st) (λ s. record s { sinks = [] })
        λ removed.
          add_sink (console_sink (loguru.upper level)) removed
            λ with_console. add_sink (file_sink log_dir) with_console intercept

  -- What the sinks write of a record, each through its filter.
  unfoldable pub written : LogState → List Sink → Message → List (Sink × Message)
  written st [] m = []
  written st (s ∷ sinks) m =
      let rest = written st sinks m in
      let (offered, passes) = filtered st s.filter m in
      if loguru.takes s.level m.level && passes then (s, offered) ∷ rest else rest

-- A record of the standard `logging`.
pub record StdRecord : Type 0 where
  pub levelname : String
  pub levelno : ℕ
  pub text : String
  pub exc_info : Option String

pub data Level : Type 0 where
  by_name : String → Level
  by_number : ℕ → Level

-- What `logger.opt(depth=..., exception=...).log` is called with.
pub record Emitted : Type 0 where
  pub level : Level
  pub text : String
  pub depth : ℕ
  pub exc_info : Option String

abbrev pub level_or : ℕ → Option String → Level
level_or levelno none = by_number levelno
level_or levelno (some name) = by_name name

-- `sys._getframe(6)`, from the files of the frames of the stack, the innermost first.
unfoldable pub getframe : ℕ → List String → Result (List String)
getframe zero [] = raised (exception "ValueError")
getframe zero (f ∷ frames) = ok (f ∷ frames)
getframe (suc n) [] = raised (exception "ValueError")
getframe (suc n) (f ∷ frames) = getframe n frames

-- The loop over the frames of `logging`.
unfoldable pub walk : String → List String → ℕ → ℕ
walk logging_file [] depth = depth
walk logging_file (f ∷ frames) depth =
    let rest = walk logging_file frames (depth + 1) in if str_eq f logging_file then rest else depth

-- `_InterceptHandler.emit`.
unfoldable pub emit_record : Loguru → String → List String → StdRecord → Result Emitted
unfolding getframe walk
emit_record loguru logging_file stack r = do
  frames ← getframe 6 stack
  ok (record {
    level = level_or r.levelno (loguru.level_name r.levelname);
    text = r.text;
    depth = walk logging_file frames 6;
    exc_info = r.exc_info;
  })
