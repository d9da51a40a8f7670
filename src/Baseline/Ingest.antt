-- ===== src/Baseline/Ingest.antt =====
-- How a scan ends: `ingest_completed_tool_runs`, and a scan that failed and is started again.
use matrix_scanner_saas.Prelude.{
  ℕ, ◌≡◌, refl, ◌∙◌, inl, inr, Bool, true, false, not, ◌&&◌, none, some, List, [], ◌∷◌, ◌++◌, ◌==◌,
  arith, Bool-cases, Option-cases, any, all, first, ◌⊎◌,
}
use matrix_scanner_saas.Prelude.Results.{Result-cases}
use matrix_scanner_saas.Redaction.{Python}
use matrix_scanner_saas.Models.{Db, ToolRun, run_is_terminal}
use matrix_scanner_saas.Baseline.{
  ScanStatus, State, BaselineScan, BaselineScanStep, run_succeeded, step_succeeded, step_failed,
  fail_scan, completed, conclude, find_run, ended_step, ingest_step, ingest_steps,
  ingest_completed_tool_runs, enqueue_next_baseline_tools, started, start_baseline_scan, may_start,
  preflight_required_baseline_tools, scan_is_running,
}
use matrix_scanner_saas.Baseline.Setup.{
  ToolSpec, ensure_tool, ensure_tools, ensure_baseline_tools, baseline_tool_specs,
}
use matrix_scanner_saas.Baseline.Enqueue.{
  Extends, append_empty, enqueue_next_baseline_tools-IsEnqueued, enqueue_next_baseline_tools_failed,
}

-- The run of the step has ended without success.
abbrev pub has_failed_run : Db → BaselineScanStep → Bool
has_failed_run db step = elim (find_run db step.tool_run) [
  | none ↦ false
  | some run ↦ run_is_terminal run.status && not (run_succeeded run.status)
]

-- The run of the step has succeeded.
abbrev pub has_good_run : Db → BaselineScanStep → Bool
has_good_run db step = elim (find_run db step.tool_run) [
  | none ↦ false
  | some run ↦ run_succeeded run.status
]

module _ (py : Python) (now : ℕ) (db : Db) where
  ingest_step_failed :
      (step : BaselineScanStep)
      → has_failed_run db step ≡ true
      → step_failed (ingest_step py now db step) ≡ true
  unfolding ingest_step ended_step
  ingest_step_failed step h = elim (Option-cases (find_run db step.tool_run)) [
    | inl absent ↦ absurd (ground arith)
    | inr (run, found) ↦ ground arith
  ]

  ingest_step_good :
      (step : BaselineScanStep)
      → has_good_run db step ≡ true
      → step_succeeded (ingest_step py now db step) ≡ true
  unfolding ingest_step ended_step
  ingest_step_good step h = elim (Option-cases (find_run db step.tool_run)) [
    | inl absent ↦ absurd (ground arith)
    | inr (run, found) ↦ ground arith
  ]

  ingest_steps_failed :
      (steps : List BaselineScanStep)
      → any (has_failed_run db) steps ≡ true
      → any step_failed (ingest_steps py now db steps) ≡ true
  unfolding ingest_steps
  ingest_steps_failed [] h = absurd (ground arith)
  ingest_steps_failed (step ∷ steps) h = elim (Bool-cases (has_failed_run db step)) [
    | inl bad ↦ rw (ingest_step_failed step bad) refl
    | inr other ↦ ground (arith, ingest_steps_failed steps)
  ]

  ingest_steps_good :
      (steps : List BaselineScanStep)
      → all (has_good_run db) steps ≡ true
      → all step_succeeded (ingest_steps py now db steps) ≡ true
  unfolding ingest_steps
  ingest_steps_good [] h = refl
  ingest_steps_good (step ∷ steps) h =
      ground (arith, ingest_steps_good steps, ingest_step_good step)

failed_not_all :
    (steps : List BaselineScanStep)
    → any step_failed steps ≡ true
    → all step_succeeded steps ≡ false
failed_not_all [] h = absurd (ground arith)
failed_not_all (step ∷ steps) h = ground (arith, failed_not_all steps)

-- A scan with at least one step, all of whose runs have succeeded, has succeeded after
-- `ingest_completed_tool_runs`, whatever its status was.
pub ingest_completed_tool_runs-succeeded :
    (py : Python) (now : ℕ) (scan : BaselineScan) (step : BaselineScanStep)
    (steps : List BaselineScanStep) (db : Db)
    → all (has_good_run db) (step ∷ steps) ≡ true
    → (ingest_completed_tool_runs py now
        (record { scan = scan; steps = step ∷ steps; db = db })).scan.status
      ≡ ScanStatus.succeeded
unfolding ingest_completed_tool_runs conclude completed
ingest_completed_tool_runs-succeeded py now scan step steps db h =
    rw (ingest_steps_good py now db (step ∷ steps) h) refl

-- A scan of whose steps one has a run that ended without success has failed after
-- `ingest_completed_tool_runs`, whatever its status was.
pub ingest_completed_tool_runs-failed :
    (py : Python) (now : ℕ) (state : State)
    → any (has_failed_run state.db) state.steps ≡ true
    → (ingest_completed_tool_runs py now state).scan.status ≡ ScanStatus.failed
unfolding ingest_completed_tool_runs conclude fail_scan
ingest_completed_tool_runs-failed py now state h =
    let bad = ingest_steps_failed py now state.db state.steps h in
    elim (list_cases state.steps) [
      | inl none_there ↦ absurd (ground arith)
      | inr (step, steps, split) ↦
          rw (split, ingest_completed_tool_runs)
            (rw (failed_not_all (ingest_steps py now state.db state.steps) bad, bad) refl)
    ]
  where
    list_cases :
        (steps : List BaselineScanStep)
        → (steps ≡ []) ⊎ ((x : BaselineScanStep) × (xs : List BaselineScanStep) × (steps ≡ x ∷ xs))
    list_cases [] = inl refl
    list_cases (x ∷ xs) = inr (x, xs, refl)

first-append :
    (p : ToolRun → Bool) (runs more : List ToolRun) (run : ToolRun)
    → first p runs ≡ some run
    → first p (runs ++ more) ≡ some run
first-append p [] more run h = absurd (ground arith)
first-append p (r ∷ runs) more run h = ground (arith, first-append p runs more run)

has_failed_run-append :
    (db db' : Db) (more : List ToolRun) (step : BaselineScanStep)
    → db'.runs ≡ db.runs ++ more
    → has_failed_run db step ≡ true
    → has_failed_run db' step ≡ true
has_failed_run-append db db' more step grown h = elim (Option-cases step.tool_run) [
  | inl unlinked ↦ absurd (ground arith)
  | inr (id, linked) ↦ elim (Option-cases (find_run db step.tool_run)) [
    | inl absent ↦ absurd (ground arith)
    | inr (run, found) ↦
        let before : first (λ (r : ToolRun). r.id == id) db.runs ≡ some run = ground arith in
        let behind : first (λ (r : ToolRun). r.id == id) db'.runs ≡ some run =
          rw grown (first-append (λ (r : ToolRun). r.id == id) db.runs more run before) in
        ground arith
  ]
]

any_failed-append :
    (db db' : Db) (more_runs : List ToolRun) (steps more : List BaselineScanStep)
    → db'.runs ≡ db.runs ++ more_runs
    → any (has_failed_run db) steps ≡ true
    → any (has_failed_run db') (steps ++ more) ≡ true
any_failed-append db db' more_runs [] more grown h = absurd (ground arith)
any_failed-append db db' more_runs (step ∷ steps) more grown h =
    elim (Bool-cases (has_failed_run db step)) [
      | inl bad ↦ rw (has_failed_run-append db db' more_runs step grown bad) refl
      | inr other ↦ ground (arith, any_failed-append db db' more_runs steps more grown)
    ]

any_failed-Extends :
    (steps steps' : List BaselineScanStep) (db db' : Db)
    → Extends steps db steps' db'
    → any (has_failed_run db) steps ≡ true
    → any (has_failed_run db') steps' ≡ true
any_failed-Extends steps steps' db db' e h =
    rw e.steps_added (any_failed-append db db' e.new_runs steps e.more e.runs_added h)

-- A database with the same runs.
any_failed-runs :
    (steps : List BaselineScanStep) (db db' : Db)
    → db'.runs ≡ db.runs
    → any (has_failed_run db) steps ≡ true
    → any (has_failed_run db') steps ≡ true
any_failed-runs steps db db' same h =
    any_failed-Extends steps steps db db'
      (record {
        more = [];
        new_runs = [];
        steps_added = append_empty steps;
        runs_added = same ∙ append_empty db.runs;
      })
      h

runs-ensure_tools : (specs : List ToolSpec) (db : Db) → (ensure_tools specs db).runs ≡ db.runs
unfolding ensure_tools ensure_tool
runs-ensure_tools [] db = refl
runs-ensure_tools (s ∷ specs) db = runs-ensure_tools specs (ensure_tool s db)

module _ (py : Python) (now : ℕ) where
  still_failed_enqueue :
      (state : State)
      → scan_is_running state.scan.status ≡ true
      → any (has_failed_run state.db) state.steps ≡ true
      → let after = (enqueue_next_baseline_tools py now state).1 in
        any (has_failed_run after.db) after.steps ≡ true
  still_failed_enqueue state runs h =
      let after = (enqueue_next_baseline_tools py now state).1 in
      elim (Result-cases (enqueue_next_baseline_tools py now state).0) [
        | inl (u, good) ↦
            let e = (enqueue_next_baseline_tools-IsEnqueued py now state good).extends in
            any_failed-Extends state.steps after.steps state.db after.db e h
        | inr (e, bad) ↦
            let (steps, jobs, same) = enqueue_next_baseline_tools_failed py now state e runs bad in
            rw steps (any_failed-runs state.steps state.db after.db same h)
      ]

  still_failed_start :
      (state : State)
      → any (has_failed_run state.db) state.steps ≡ true
      → let after = (start_baseline_scan py now state).1 in
        any (has_failed_run after.db) after.steps ≡ true
  unfolding start_baseline_scan
  still_failed_start state h =
      let ready : State = record state { db = ensure_baseline_tools state.db } in
      let same : ready.db.runs ≡ state.db.runs =
        unfold ensure_baseline_tools in runs-ensure_tools baseline_tool_specs state.db in
      elim (Bool-cases (may_start state.scan.status)) [
        | inr shut ↦ rw shut h
        | inl opened ↦
            elim (Result-cases (preflight_required_baseline_tools now state.scan ready.db)) [
              | inr (e, bad) ↦
                  rw (opened, bad)
                    (any_failed-runs state.steps state.db (fail_scan now e ready).db
                      (unfold fail_scan in same) h)
              | inl (u, good) ↦
                  rw (opened, good)
                    (still_failed_enqueue (started py now ready) (unfold started in refl)
                      (unfold started in any_failed-runs state.steps state.db ready.db same h))
            ]
      ]

  -- A scan of whose steps one has a run that ended without success never recovers by being started
  -- again: after `start_baseline_scan`, whether it succeeds or not, `ingest_completed_tool_runs` fails the
  -- scan, since the step keeps its run.
  pub start_baseline_scan-ingest :
      (later : ℕ) (state : State)
      → any (has_failed_run state.db) state.steps ≡ true
      → (ingest_completed_tool_runs py later (start_baseline_scan py now state).1).scan.status
        ≡ ScanStatus.failed
  start_baseline_scan-ingest later state h =
      ingest_completed_tool_runs-failed py later (start_baseline_scan py now state).1
        (still_failed_start state h)
