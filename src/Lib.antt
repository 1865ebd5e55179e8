-- ===== src/Lib.antt =====
-- The mongo-sync-agent of an Alteryx Server: it copies MongoDB collections, log lines and host metrics
-- incrementally to S3. A run takes a lock and goes over its units one after the other; each unit writes
-- a spool file, uploads it, and only then advances what the SQLite store remembers of it, so that a
-- crash at any point costs a repetition and never data. This library models the agent from its
-- configuration to its exit code and proves it.
--
-- All paths below are under mongo-sync-agent/src/mongo_sync_agent/.
--   Prelude     shared names, Python's exceptions as values (Exceptions), computations that may raise
--               (Fallible), tables under a key (Dict), lists cut by native numbers (Lists), Boolean
--               tests (Tests), texts (Texts)
--   DateTime    the strftime formats and the decimals that the agent writes
--   RunnerTypes runner_types.py: RunContext, UnitResult, RunSummary.exit_code
--   Config      config.py: the records; the values of tomllib (Toml), _require and _optional (Access),
--               the parsers (Parse), load_config (Load), and what they accept and raise (Valid, Loaded)
--   Spool       spool.py: spool_path; setup_spool and sweep_orphans (Sweep)
--   State       state.py: the three tables of StateStore and its operations; _ImmediateTransaction is
--               `transaction`. State/Open is its constructor, on a file that may lack tables;
--               State/Atomic, State/ReadBack and State/Refines are about the rest
--   World       what a run changes outside of its memory (database, spool directory, bucket, lock
--               file), programs on it that may raise (World/Exec), rules for their postconditions
--               (World/Rules), for what they keep on every ending (World/Keeping) and for their
--               returning at all (World/Total), and units that take turns on one world (World/Turns)
--   Sinks, S3   sinks.py and s3.py; Mongo/Extract holds landing.py
--   Mongo       mongo/watermark.py (Watermark, the strategies in Watermark/Strategies and their
--               date-times in Watermark/Clock), mongo/connect.py (Connect) and mongo/extract.py
--               (Extract is extract_collection, where `read_cursor` is the loop and `finish` all that
--               follows it; All is extract_all); Continuity and Delivers are about one run and the next
--   Logs        logs/tailer.py (Tailer), logs/sources.py (Sources) and logs/ship.py (Ship)
--   HostMetrics hostmetrics/collect.py: collect and the sums of the counters, and the query of the disks
--               behind a Windows volume (Volumes)
--   Locking     locking.py: acquire and release; several processes that call them (Exclusion, Race)
--   Logging     logging_setup.py: configure_logging, the stamp of the run id and the handler that
--               passes the standard logging on; its PeakRssTracker is `sample` of Runner
--   Runner      runner.py: run_cycle, with the host metrics in Runner/HostMetricsUnit; what it ends
--               with (Endings) and what a dry run keeps (DryRun)
--   Cli         cli.py and __init__.py: main from the parsed arguments on, and run
--   Tests       runs of the model and the theorems at concrete inputs
--
-- A crash is the exception `killed`, which no handler of the program catches: `World.budget` is the
-- number of durable effects (a file written or removed, an object stored, a transaction) that the
-- process lives to see. A statement for every world is thus one for a crash between any two effects.
-- The surroundings (SQLite, the disk, S3, MongoDB, psutil, kernel32, the clock) are records of functions
-- of the current world (`Env`, `Mongo`, `Disk`, `Calendar`, `Psutil`, `Directories`, `Surroundings`),
-- which may fail or answer differently at each call; the codecs, SHA-256, the class ObjectId (`Bson`)
-- and the JSON of BSON are parameters. A write to a spool file happens whole or not at all; an object
-- is stored whole; a directory is removed whole or not at all. The numbers of the configuration and the
-- offsets are integers, which have no bound in Python, so that nothing overflows but date-times: they
-- are instants in microseconds since the year 1, and what leaves the range of `datetime` raises an
-- OverflowError (`minus_seconds`, `cutoff_of`). A read takes any count up to 2^63: that the memory does
-- not hold it is not modelled.
--
-- Loops are structural, but for two that run on fuel: the backward search of tail_file has as many
-- rounds as the window has bytes, which is enough because the positions fall; drain_file is given 3
-- rounds more than a bound on the size of the file, which is shown to be enough. `decimal` is given one
-- round more than its number, which has no more digits.
--
-- Not modelled: the log messages of the components and what loguru does with a sink, argparse (its
-- result is `Cli.Parsed`), the closing of connections, which changes nothing that is modelled, and
-- everything outside of the agent's package (deployment scripts, Snowflake SQL, the MongoDB backup batch
-- files).
pub mod Prelude
pub mod DateTime
pub mod RunnerTypes
pub mod State
pub mod World
pub mod Sinks
pub mod S3
pub mod Config
pub mod Spool
pub mod Mongo
pub mod Logs
pub mod HostMetrics
pub mod Locking
pub mod Logging
pub mod Cli
pub mod Runner
pub mod Tests
