-- ===== src/Logging/Configured.antt =====
-- logging_setup.py: what `configure_logging` leaves, on every ending.
use Prim.Native.String.{◌++◌ as ◌<>◌}
use alteryx_server_maintenan.Prelude.{
  ◌&&◌, none, Option, ◌≡◌, refl, ap, String, Bool, true, false, some, List, [], ◌∷◌, All, Result,
  ok, raised, Exn, if◌then◌else◌,
}
use alteryx_server_maintenan.Logging.{
  Sink, SinkFilter, by_inject_run_id, stderr, file, filtered, Message, Loguru, LogState,
  console_sink, file_sink, then_do, with_sink, add_sink, intercept, configure_logging, written,
}

module _ (loguru : Loguru) (log_dir run_id level : String) where
  -- The console sink: standard error, the level of the configuration, every record stamped.
  pub record IsConsole (s : Sink) : Type 0 where
    pub to_stderr : s.target ≡ stderr
    pub at_level : s.level ≡ loguru.upper level
    pub stamps : s.filter ≡ some by_inject_run_id

  -- The file sink: `msa.log` of the log directory, everything from DEBUG on, every record stamped; it is
  -- rotated at 10 MB, five old files are kept, and the values of variables are not written.
  pub record IsLogFile (s : Sink) : Type 0 where
    pub to_file : s.target ≡ file (log_dir <> "/msa.log")
    pub at_debug : s.level ≡ "DEBUG"
    pub stamps : s.filter ≡ some by_inject_run_id
    pub rotates :
        s.rotated ≡ some (record { rotation = "10 MB"; retention = 5; compression = "gz" })
    pub no_values : s.diagnose ≡ some false

  -- Both sinks are there and no other, records of `logging` are passed on, and what a sink writes of
  -- any record has the id of the run, or "-" if it is of another context.
  pub record IsConfigured (st : LogState) : Type 0 where
    pub console : Sink
    pub log_file : Sink
    pub is_console : IsConsole console
    pub is_log_file : IsLogFile log_file
    pub sinks : st.sinks ≡ console ∷ log_file ∷ []
    pub intercepts : st.intercepts ≡ true
    pub stamped :
        (m : Message)
        → All
            (λ w. w.1.run_id ≡ some (if m.in_context then run_id else "-"))
            (written loguru st st.sinks m)

  -- Where a call raises: the directory cannot be made, and the old sinks are still there; or loguru
  -- refuses a sink, and those that were added before it are the only ones.
  pub data Configures (before : LogState) : Result (Unit {0}) × LogState → Type 0 where
    configured : {st : LogState} → IsConfigured st → Configures before (ok tt, st)
    no_directory :
        {e : Exn}
        → loguru.mkdir log_dir ≡ raised e
        → Configures before (raised e, record before { run_id = run_id })
    no_console :
        {e : Exn} {s : Sink}
        → IsConsole s
        → loguru.add s ≡ raised e
        → Configures before (raised e, record before { run_id = run_id; sinks = [] })
    no_file :
        {e : Exn} {s s' : Sink}
        → IsConsole s
        → IsLogFile s'
        → loguru.add s' ≡ raised e
        → Configures before (raised e, record before { run_id = run_id; sinks = s ∷ [] })

  console_sink-IsConsole : IsConsole (console_sink (loguru.upper level))
  console_sink-IsConsole = record { to_stderr = refl; at_level = refl; stamps = refl }

  file_sink-IsLogFile : IsLogFile (file_sink log_dir)
  file_sink-IsLogFile = record {
    to_file = refl;
    at_debug = refl;
    stamps = refl;
    rotates = refl;
    no_values = refl;
  }

  written-stamped :
      (st : LogState) (sinks : List Sink) (m : Message)
      → st.run_id ≡ run_id
      → All (λ s. s.filter ≡ some by_inject_run_id) sinks
      → All
          (λ w. w.1.run_id ≡ some (if m.in_context then run_id else "-"))
          (written loguru st sinks m)
  unfolding written
  written-stamped st [] m e f = tt
  written-stamped st (s ∷ sinks) m e (f, fs) =
      go (loguru.takes s.level m.level && (filtered st s.filter m).1) (filtered st s.filter m).0 _
        (by_filter s.filter f) (written-stamped st sinks m e fs)
    where
      stamp : Option String
      stamp = some (if m.in_context then run_id else "-")

      by_filter :
          (o : Option SinkFilter) → o ≡ some by_inject_run_id → (filtered st o m).0.run_id ≡ stamp
      by_filter none h = cc
      by_filter (some by_inject_run_id) h = ap (λ r. some (if m.in_context then r else "-")) e

      go :
          (b : Bool) (offered : Message) (rest : List (Sink × Message))
          → offered.run_id ≡ stamp
          → All (λ w. w.1.run_id ≡ stamp) rest
          → All (λ w. w.1.run_id ≡ stamp) (if b then (s, offered) ∷ rest else rest)
      go true offered rest h k = (h, k)
      go false offered rest h k = k

  -- `configure_logging` ends in one of these ways, whatever was configured before: it returns, and
  -- exactly the console sink at the level of the configuration and the rotated file sink are there,
  -- the standard `logging` is passed on, and every record that a sink writes
  -- has the id of this run, or "-" if it is logged in another context;
  -- or it raises what making the directory or adding a sink raises.
  pub configure_logging-Configures :
      (st : LogState) → Configures st (configure_logging loguru log_dir run_id level st)
  unfolding configure_logging
  configure_logging-Configures st = at_mkdir (loguru.mkdir log_dir) refl
    where
      with_run_id : LogState
      with_run_id = record st { run_id = run_id }

      at_file :
          (r : Result (Unit {0}))
          → loguru.add (file_sink log_dir) ≡ r
          → Configures st (
              then_do r
                (record st { run_id = run_id; sinks = console_sink (loguru.upper level) ∷ [] })
                (with_sink (file_sink log_dir))
                (intercept loguru))
      at_file (raised e) h = no_file console_sink-IsConsole file_sink-IsLogFile h
      at_file (ok u) h = configured (record {
        console = _;
        log_file = _;
        is_console = console_sink-IsConsole;
        is_log_file = file_sink-IsLogFile;
        sinks = refl;
        intercepts = refl;
        stamped = λ m. written-stamped _ _ m refl (refl, (refl, tt));
      })

      at_console :
          (r : Result (Unit {0}))
          → loguru.add (console_sink (loguru.upper level)) ≡ r
          → Configures st (
              then_do r
                (record st { run_id = run_id; sinks = [] })
                (with_sink (console_sink (loguru.upper level)))
                λ t. add_sink loguru (file_sink log_dir) t (intercept loguru))
      at_console (raised e) h = no_console console_sink-IsConsole h
      at_console (ok u) h = at_file (loguru.add (file_sink log_dir)) refl

      at_mkdir :
          (r : Result (Unit {0}))
          → loguru.mkdir log_dir ≡ r
          → Configures st (
              then_do r
                (record st { run_id = run_id })
                (λ s. record s { sinks = [] })
                λ t.
                  add_sink loguru
                    (console_sink (loguru.upper level))
                    t
                    λ u. add_sink loguru (file_sink log_dir) u (intercept loguru))
      at_mkdir (raised e) h = no_directory h
      at_mkdir (ok u) h = at_console (loguru.add (console_sink (loguru.upper level))) refl
