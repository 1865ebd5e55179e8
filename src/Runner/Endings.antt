-- ===== src/Runner/Endings.antt =====
-- runner.py: what the exit code of a run says.
use mathlib.Core.Path.{subst}
use alteryx_server_maintenan.Prelude.{
  ℕ, ◌≡◌, refl, sym, ap, ◌∙◌, String, Option, none, some, List, if◌then◌else◌, Bool, Result, ok, [],
  ◌∷◌, ◌⊎◌, inl, inr,
}
use alteryx_server_maintenan.Prelude.Dict.{lookup, upsert, lookup-upsert, string_key, beq_refl}
use alteryx_server_maintenan.Prelude.Int.{ℤ}
use alteryx_server_maintenan.Config.{AgentConfig}
use alteryx_server_maintenan.RunnerTypes.{UnitResult, RunSummary, any_failed, exit_code}
use alteryx_server_maintenan.State.{Db, RunRow, record_run, upsert_run, run_row}
use alteryx_server_maintenan.State.Atomic.{transaction-ok}
use alteryx_server_maintenan.World.{World, no_lock}
use alteryx_server_maintenan.World.Exec.{pure, try_except, except_exception}
use alteryx_server_maintenan.World.Rules.{
  Post-map, returns, >>=-Post, gets->>=-Post, asks->>=-Post, commit-Post, try-exception-Post,
}
use alteryx_server_maintenan.Locking.{owner}
use alteryx_server_maintenan.Locking.Laws.{
  SameButLock, Acquires, granted, already_running, acquire-Post, release-Post,
}
use alteryx_server_maintenan.Runner.{
  Surroundings, Progress, conclude, context, run_modules, lock_path, locked, run_cycle,
}
use alteryx_server_maintenan.Runner.Units.{
  Returns, Anything, any_end, units, unit_names, modules-Returns,
}

module _ (raises : ℕ → Bool) (now : String) (dumps : List UnitResult → String) where
  -- A run that is recorded is there, with its units.
  pub record_run-lookup :
      (summary : RunSummary) (db db' : Db)
      → record_run raises now dumps summary db ≡ (ok tt, db')
      → (row : RunRow) × (lookup summary.run_id db'.runs ≡ some row)
        × (row.units_json ≡ dumps summary.units)
  unfolding record_run
  record_run-lookup summary db db' h =
      let row : RunRow = run_row raises now dumps summary in
      let kept =
        transaction-ok raises (upsert_run raises now dumps summary ∷ []) db
          (ap (λ (r : Result (Unit {0}) × Db). r.0) h) in
      let same = sym (ap (λ (r : Result (Unit {0}) × Db). r.1) h) ∙ kept in
      let found : lookup summary.run_id (upsert summary.run_id row db.runs) ≡ some row =
        rw (lookup-upsert summary.run_id summary.run_id row db.runs, beq_refl summary.run_id)
          refl in
      (row, ap (λ (d : Db). lookup summary.run_id d.runs) same ∙ found, refl)

module _ {Doc Oid Client : Type 0} (s : Surroundings Doc Oid Client) (cfg : AgentConfig)
    (only : Option (List String)) (collection : Option String) (dry_run : Bool) where
  -- The store has a summary of the run, with one result for each unit; the code is 1 if one of them
  -- failed, and 0 otherwise.
  pub record IsRecorded (code : ℕ) (w : World) : Type 0 where
    pub results : List UnitResult
    pub names : units results ≡ unit_names s cfg only collection dry_run
    pub row : RunRow
    pub stored : lookup s.run_id w.db.runs ≡ some row
    pub json : row.units_json ≡ s.dumps results
    pub exit : code ≡ (if any_failed results then 1 else 0)

  -- Another process has the lock; or it was free and is given back, and the run is recorded or has ended
  -- early.
  pub data Ending (w : World) : ℕ → World → Type 0 where
    refused : {other : ℤ} → owner (s.pid_exists w) w.lock ≡ some other → Ending w 2 w
    finished :
        {code : ℕ} {w' : World}
        → owner (s.pid_exists w) w.lock ≡ none
        → IsRecorded code w'
        → w'.lock ≡ no_lock
        → Ending w code w'
    fatal : {w' : World} → owner (s.pid_exists w) w.lock ≡ none → w'.lock ≡ no_lock → Ending w 2 w'

  conclude-Returns :
      (p : Progress) (w : World)
      → units p.results ≡ unit_names s cfg only collection dry_run
      → Returns IsRecorded (conclude s cfg only collection dry_run p w)
  unfolding conclude exit_code
  conclude-Returns p w names = gets->>=-Post s.elapsed _ w (
      >>=-Post
        {P = λ _ w'.
          (row : RunRow) × (lookup s.run_id w'.db.runs ≡ some row)
          × (row.units_json ≡ s.dumps p.results)}
        _ _ w (commit-Post _ w tt (λ n db e. record_run-lookup _ _ _ _ w.db db e) (λ n e db h. tt))
        (λ _ w' r. returns (record {
          results = p.results;
          names = names;
          row = r.0;
          stored = r.1;
          json = r.2;
          exit = refl;
        })))

  run_modules-Returns :
      (w : World) → Returns IsRecorded (run_modules s cfg only collection dry_run w)
  unfolding run_modules
  run_modules-Returns w = >>=-Post {P = Anything} _ _ w (any_end _) λ _ w1 _.
      >>=-Post {P = Anything} _ _ w1 (any_end _) λ spool_dir w2 _.
        >>=-Post {P = Anything} _ _ w2 (any_end _) λ swept w3 _.
          >>=-Post {P = Anything} _ _ w3 (any_end _) λ _ w4 _.
            >>=-Post _ _ w4
              (modules-Returns s cfg only collection dry_run
                (context s cfg only collection dry_run spool_dir) w4)
              λ p w5 names. conclude-Returns p w5 names

  -- The end of the `try`: the code of the body, or 2.
  tried-Returns :
      (w : World)
      → Returns
          (λ code w'. IsRecorded code w' ⊎ (code ≡ 2))
          (try_except
            (run_modules s cfg only collection dry_run)
            (except_exception (λ e. pure 2))
            w)
  tried-Returns w =
      try-exception-Post _ (λ e. pure 2) w
        (Post-map (run_modules-Returns w) (λ code w' r. inl r) (λ w' u. u)) (λ w' u. u)
        (λ e w' u. returns (inr refl))

  ending :
      {w : World} (code : ℕ) (w2 w3 : World)
      → owner (s.pid_exists w) w.lock ≡ none
      → IsRecorded code w2 ⊎ (code ≡ 2)
      → w3.lock ≡ no_lock
      → SameButLock w2 w3
      → Ending w code w3
  ending code w2 w3 free (inl r) l c =
      finished free
        (record {
          results = r.results;
          names = r.names;
          row = r.row;
          stored = ap (λ (d : Db). lookup s.run_id d.runs) c.db ∙ r.stored;
          json = r.json;
          exit = r.exit;
        })
        l
  ending {w} code w2 w3 free (inr e) l c = subst (λ n. Ending w n w3) (sym e) (fatal free l)

  locked-Returns :
      (o : Option ℤ) (w w1 : World)
      → Acquires s.env (lock_path s cfg only collection dry_run) s.pid_exists s.pid w o w1
      → Returns (Ending w) (locked s cfg only collection dry_run o w1)
  unfolding locked
  locked-Returns (some other) w w1 (already_running e) = returns (refused e)
  locked-Returns none w w1 (granted e l b) = >>=-Post _ _ w1 (tried-Returns w1) λ code w2 r.
      >>=-Post _ _ w2
        (Post-map (release-Post s.env (lock_path s cfg only collection dry_run) w2) (λ u w3 c. c)
          (λ w3 c. tt))
        (λ u w3 c. returns (ending code w2 w3 e r c.0 c.1))

  -- Every run that ends with a code: another process had the lock, and nothing has changed; or the
  -- lock was free and is free again, and either the summary of the run is in the store, with one result for each
  -- unit that was asked for, in order, and the code says whether one of them failed, or the code
  -- is 2.
  pub run_cycle-Ending :
      (w : World) → Returns (Ending w) (run_cycle s cfg only collection dry_run w)
  unfolding run_cycle
  run_cycle-Ending w = asks->>=-Post _ _ w tt λ _ configured.
      >>=-Post _ _ w
        (Post-map
          (acquire-Post s.env (lock_path s cfg only collection dry_run) s.pid_exists s.pid w)
          (λ o w1 a. a) (λ w1 a. tt))
        (λ o w1 a. locked-Returns o w w1 a)
