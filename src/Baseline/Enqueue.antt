-- ===== src/Baseline/Enqueue.antt =====
-- What `enqueue_next_baseline_tools` adds to the steps and the runs of a scan, once and again.
use matrix_scanner_saas.Prelude.{
  ℕ, ◌≡◌, refl, sym, ◌∙◌, ap, inl, inr, true, List, [], ◌∷◌, ◌++◌, arith, Bool-cases, String, All,
}
use text.Mathlib.Text.{◌==◌ as str_eq}
use text.Mathlib.TextPositions.{eq_refl}
use matrix_scanner_saas.Prelude.Results.{ok, err, Result-cases}
use matrix_scanner_saas.Redaction.{Python}
use matrix_scanner_saas.Models.{Db, AgentJob, ToolRun}
use matrix_scanner_saas.Gate.{Request, create_tool_run_job}
use matrix_scanner_saas.Gate.Effects.{runs-seeded, create_tool_run_job-IsCreated}
use matrix_scanner_saas.Baseline.{
  ScanError, State, BaselineScan, BaselineScanStep, scan_is_running, fail_scan, has_step, new_step,
  request_of, enqueue_steps, enqueue_all, enqueue_next_baseline_tools,
  preflight_required_baseline_tools,
}
use matrix_scanner_saas.Baseline.Profiles.{tool_keys_for_profile}

-- The steps and the runs are those of before and some more.
pub record Extends (steps : List BaselineScanStep) (db : Db) (steps' : List BaselineScanStep)
    (db' : Db) : Type 0 where
  pub more : List BaselineScanStep
  pub new_runs : List ToolRun
  pub steps_added : steps' ≡ steps ++ more
  pub runs_added : db'.runs ≡ db.runs ++ new_runs

append_assoc : {A : Type 0} (xs ys zs : List A) → (xs ++ ys) ++ zs ≡ xs ++ (ys ++ zs)
append_assoc [] ys zs = refl
append_assoc (x ∷ xs) ys zs = ap (λ t. x ∷ t) (append_assoc xs ys zs)

pub append_empty : {A : Type 0} (xs : List A) → xs ≡ xs ++ []
append_empty [] = refl
append_empty (x ∷ xs) = ap (λ t. x ∷ t) (append_empty xs)

has_step-append :
    (tool_key : String) (steps more : List BaselineScanStep)
    → has_step tool_key steps ≡ true
    → has_step tool_key (steps ++ more) ≡ true
has_step-append tool_key [] more h = absurd (ground arith)
has_step-append tool_key (s ∷ steps) more h = ground (arith, has_step-append tool_key steps more)

has_step-new :
    (tool_key : String) (run : ToolRun) (steps : List BaselineScanStep)
    → str_eq tool_key tool_key ≡ true
    → has_step tool_key (steps ++ (new_step tool_key run ∷ [])) ≡ true
has_step-new tool_key run [] same = ground arith
has_step-new tool_key run (s ∷ steps) same = ground (arith, has_step-new tool_key run steps same)

module _ (py : Python) (now : ℕ) (scan : BaselineScan) where
  created_run :
      (request : Request) (db : Db) (run : ToolRun) (job : AgentJob)
      → (create_tool_run_job py now request db).0 ≡ ok (run, job)
      → (create_tool_run_job py now request db).1.runs ≡ db.runs ++ (run ∷ [])
  created_run request db run job h =
      let made = create_tool_run_job py now request db in
      let c =
        create_tool_run_job-IsCreated py now request db run job made.1 (ap (λ r. (r, made.1)) h) in
      c.run_added ∙ ap (λ (rs : List ToolRun). rs ++ (run ∷ [])) (runs-seeded request db).0

  enqueue_steps-Extends :
      (keys : List String) (steps steps' : List BaselineScanStep) (db db' : Db)
      → enqueue_steps py now scan keys steps db ≡ ok (steps', db')
      → Extends steps db steps' db'
  unfolding enqueue_steps
  enqueue_steps-Extends [] steps steps' db db' h =
      let same : steps ≡ steps' = ground arith in
      let same_db : db ≡ db' = ground arith in
      record {
        more = [];
        new_runs = [];
        steps_added = sym same ∙ append_empty steps;
        runs_added = ap (λ (d : Db). d.runs) (sym same_db) ∙ append_empty db.runs;
      }
  enqueue_steps-Extends (key ∷ keys) steps steps' db db' h =
      elim (Bool-cases (has_step key steps)) [
        | inl there ↦ enqueue_steps-Extends keys steps steps' db db' (ground arith)
        | inr absent ↦ elim (Result-cases (create_tool_run_job py now (request_of scan key) db).0) [
          | inr (e, bad) ↦ absurd (ground arith)
          | inl ((run, job), good) ↦
              let after : Db = (create_tool_run_job py now (request_of scan key) db).1 in
              let next =
                enqueue_steps-Extends keys (steps ++ (new_step key run ∷ [])) steps' after db'
                  (ground arith) in
              record {
                more = new_step key run ∷ next.more;
                new_runs = run ∷ next.new_runs;
                steps_added =
                    next.steps_added ∙ append_assoc steps (new_step key run ∷ []) next.more;
                runs_added =
                    next.runs_added
                    ∙ ap (λ (rs : List ToolRun). rs ++ next.new_runs)
                        (created_run (request_of scan key) db run job good)
                    ∙ append_assoc db.runs (run ∷ []) next.new_runs;
              }
        ]
      ]

  enqueue_steps-has_step :
      (keys : List String) (steps steps' : List BaselineScanStep) (db db' : Db)
      → enqueue_steps py now scan keys steps db ≡ ok (steps', db')
      → All (λ key. has_step key steps' ≡ true) keys
  unfolding enqueue_steps
  enqueue_steps-has_step [] steps steps' db db' h = tt
  enqueue_steps-has_step (key ∷ keys) steps steps' db db' h =
      elim (Bool-cases (has_step key steps)) [
        | inl there ↦
            let rest : enqueue_steps py now scan keys steps db ≡ ok (steps', db') = ground arith in
            let e = enqueue_steps-Extends keys steps steps' db db' rest in
            (
              rw e.steps_added (has_step-append key steps e.more there),
              enqueue_steps-has_step keys steps steps' db db' rest,
            )
        | inr absent ↦ elim (Result-cases (create_tool_run_job py now (request_of scan key) db).0) [
          | inr (e, bad) ↦ absurd (ground arith)
          | inl ((run, job), good) ↦
              let after : Db = (create_tool_run_job py now (request_of scan key) db).1 in
              let grown = steps ++ (new_step key run ∷ []) in
              let rest : enqueue_steps py now scan keys grown after ≡ ok (steps', db') =
                ground arith in
              let e = enqueue_steps-Extends keys grown steps' after db' rest in
              (
                rw e.steps_added
                    (has_step-append key grown e.more (has_step-new key run steps (eq_refl key))),
                enqueue_steps-has_step keys grown steps' after db' rest,
              )
        ]
      ]

-- What a call of `enqueue_next_baseline_tools` that succeeded leaves.
pub record IsEnqueued (before after : State) : Type 0 where
  pub extends : Extends before.steps before.db after.steps after.db
  pub covered :
      All (λ key. has_step key after.steps ≡ true) (tool_keys_for_profile before.scan.profile_key)
  pub still_running : scan_is_running after.scan.status ≡ true

module _ (py : Python) (now : ℕ) (state : State) where
  -- A call of `enqueue_next_baseline_tools` that succeeds leaves the scan running, with every step and
  -- run of before, and with a step for every tool of the scan's profile.
  pub enqueue_next_baseline_tools-IsEnqueued :
      (enqueue_next_baseline_tools py now state).0 ≡ ok tt
      → IsEnqueued state (enqueue_next_baseline_tools py now state).1
  unfolding enqueue_next_baseline_tools
  enqueue_next_baseline_tools-IsEnqueued h = elim (Bool-cases (scan_is_running state.scan.status)) [
    | inr idle ↦ absurd (ground arith)
    | inl runs ↦ elim (Result-cases (enqueue_all py now state)) [
      | inr (e, bad) ↦ absurd (ground arith)
      | inl ((steps', db'), good) ↦
          let added = enqueued steps' db' good in
          rw (good, enqueue_next_baseline_tools)
            (rw runs (record {
              extends =
                  enqueue_steps-Extends py now state.scan _ state.steps steps' state.db db' added;
              covered =
                  enqueue_steps-has_step py now state.scan _ state.steps steps' state.db db' added;
              still_running = runs;
            }))
    ]
  ]
    where
      enqueued :
          (steps' : List BaselineScanStep) (db' : Db)
          → enqueue_all py now state ≡ ok (steps', db')
          → enqueue_steps py now state.scan
              (tool_keys_for_profile state.scan.profile_key)
              state.steps
              state.db
            ≡ ok (steps', db')
      enqueued steps' db' good =
          elim (Result-cases (preflight_required_baseline_tools now state.scan state.db)) [
            | inl (u, fine) ↦ ground arith
            | inr (e, bad) ↦ absurd (ground arith)
          ]

  -- A failure on a running scan leaves the steps, the jobs and the runs.
  pub enqueue_next_baseline_tools_failed :
      (e : ScanError)
      → scan_is_running state.scan.status ≡ true
      → (enqueue_next_baseline_tools py now state).0 ≡ err e
      → let after = (enqueue_next_baseline_tools py now state).1 in
        (after.steps ≡ state.steps)
        × (after.db.jobs ≡ state.db.jobs)
        × (after.db.runs ≡ state.db.runs)
  unfolding enqueue_next_baseline_tools fail_scan
  enqueue_next_baseline_tools_failed e runs h = elim (Result-cases (enqueue_all py now state)) [
    | inl ((steps', db'), good) ↦ absurd (ground arith)
    | inr (e', bad) ↦ rw (bad, enqueue_next_baseline_tools) (rw runs (refl, refl, refl))
  ]

  enqueue_next_baseline_tools-profile_key :
      (enqueue_next_baseline_tools py now state).0 ≡ ok tt
      → (enqueue_next_baseline_tools py now state).1.scan.profile_key ≡ state.scan.profile_key
  unfolding enqueue_next_baseline_tools
  enqueue_next_baseline_tools-profile_key h =
      elim (Bool-cases (scan_is_running state.scan.status)) [
        | inr idle ↦ absurd (ground arith)
        | inl runs ↦ elim (Result-cases (enqueue_all py now state)) [
          | inr (e, bad) ↦ absurd (ground arith)
          | inl ((steps', db'), good) ↦ rw (good, enqueue_next_baseline_tools) (rw runs refl)
        ]
      ]

module _ (py : Python) (later : ℕ) (state : State) where
  -- The loop passes over the tools that have a step.
  enqueue_steps_covered :
      (keys : List String) (steps : List BaselineScanStep)
      → All (λ key. has_step key steps ≡ true) keys
      → enqueue_steps py later state.scan keys steps state.db ≡ ok (steps, state.db)
  unfolding enqueue_steps
  enqueue_steps_covered [] steps h = refl
  enqueue_steps_covered (key ∷ keys) steps h =
      rw (h.0, enqueue_steps) (enqueue_steps_covered keys steps h.1)

  covered_adds_nothing :
      All (λ key. has_step key state.steps ≡ true) (tool_keys_for_profile state.scan.profile_key)
      → let after = (enqueue_next_baseline_tools py later state).1 in
        (after.steps ≡ state.steps)
        × (after.db.jobs ≡ state.db.jobs)
        × (after.db.runs ≡ state.db.runs)
  unfolding enqueue_next_baseline_tools fail_scan
  covered_adds_nothing covered =
      let loop =
        enqueue_steps_covered (tool_keys_for_profile state.scan.profile_key) state.steps covered in
      elim (Bool-cases (scan_is_running state.scan.status)) [
        | inr idle ↦ rw idle (refl, refl, refl)
        | inl runs ↦
            elim (Result-cases (preflight_required_baseline_tools later state.scan state.db)) [
              | inr (e, bad) ↦ rw (runs, bad) (refl, refl, refl)
              | inl (u, fine) ↦ rw (runs, fine, loop) (refl, refl, refl)
            ]
      ]

-- A call of `enqueue_next_baseline_tools` that follows a call that succeeded, at any time, adds no step,
-- no job and no run and takes none away, whether it succeeds or not.
pub enqueue_next_baseline_tools_twice :
    (py : Python) (now later : ℕ) (state : State)
    → (enqueue_next_baseline_tools py now state).0 ≡ ok tt
    → let once = (enqueue_next_baseline_tools py now state).1 in
      let twice = (enqueue_next_baseline_tools py later once).1 in
      (twice.steps ≡ once.steps) × (twice.db.jobs ≡ once.db.jobs) × (twice.db.runs ≡ once.db.runs)
enqueue_next_baseline_tools_twice py now later state h =
    let once = (enqueue_next_baseline_tools py now state).1 in
    covered_adds_nothing py later once (
      rw (enqueue_next_baseline_tools-profile_key py now state h)
        ((enqueue_next_baseline_tools-IsEnqueued py now state h).covered))
