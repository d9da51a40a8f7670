-- ===== src/Diagnostics/Approval.antt =====
-- Who releases a step, and how many runs a session asks for.
use matrix_scanner_saas.Prelude.{
  ℕ, suc, ◌+◌, ◌≤◌, ◌≡◌, refl, ◌∙◌, ap, ◌==◌, length, length-append, inl, inr, true, some, List, [],
  ◌∷◌, leb, arith, Bool-cases, Option-cases, ==_iff,
}
use matrix_scanner_saas.Prelude.Results.{Result, ok, err}
use matrix_scanner_saas.Redaction.{Python}
use matrix_scanner_saas.Models.{Db, ToolRun, AgentJob}
use matrix_scanner_saas.Gate.{Denial, Request, create_tool_run_job}
use matrix_scanner_saas.Gate.Effects.{
  runs-seeded, create_tool_run_job-IsCreated, runs-create_tool_run_job,
}
use matrix_scanner_saas.Diagnostics.{
  DiagnosticStep, State, DiagnosticUser, user_can_start_or_approve, next_awaiting,
  is_allowed_diagnostic_tool, finalize_session, plan_next_step, answer_step, release_step,
  approve_diagnostic_step, sync_completed_tool_runs, request_of,
}

-- One call on the session. The time and the user are those of the call.
pub data Action : Type 0 where
  plan : ℕ → Action
  approve : ℕ → DiagnosticUser → DiagnosticStep → Action
  sync : ℕ → Action

module _ (py : Python) where
  unfoldable pub act : Action → State → State
  act (plan now) state = plan_next_step now state
  act (approve now user step) state = (approve_diagnostic_step py now user step state).1
  act (sync now) state = sync_completed_tool_runs now state

  unfoldable pub act_all : List Action → State → State
  act_all [] state = state
  act_all (action ∷ actions) state = act_all actions (act action state)

-- Between `start` and `state` the session has counted every run that was made, and is within its limit,
-- which has not changed.
pub record IsBounded (start state : State) : Type 0 where
  pub counted :
      length state.db.runs + start.session.tool_run_count
      ≡ length start.db.runs + state.session.tool_run_count
  pub same_limit : state.session.max_tool_runs ≡ start.session.max_tool_runs
  pub within : state.session.tool_run_count ≤ state.session.max_tool_runs

-- What a step of the session may do to the count: nothing, or count the one run that it makes.
pub record IsCounted (state after : State) : Type 0 where
  pub counts :
      length after.db.runs + state.session.tool_run_count
      ≡ length state.db.runs + after.session.tool_run_count
  pub keeps_limit : after.session.max_tool_runs ≡ state.session.max_tool_runs
  pub stays :
      state.session.tool_run_count ≤ state.session.max_tool_runs
      → after.session.tool_run_count ≤ state.session.max_tool_runs

plan_next_step-IsCounted : (now : ℕ) (state : State) → IsCounted state (plan_next_step now state)
unfolding plan_next_step finalize_session
plan_next_step-IsCounted now state = record {
  counts = ground arith;
  keeps_limit = ground arith;
  stays = λ h. ground (arith, h);
}

sync-IsCounted : (now : ℕ) (state : State) → IsCounted state (sync_completed_tool_runs now state)
unfolding sync_completed_tool_runs finalize_session
sync-IsCounted now state = record {
  counts = ground arith;
  keeps_limit = ground arith;
  stays = λ h. ground (arith, h);
}

IsCounted-same : (state : State) → IsCounted state state
IsCounted-same state = record { counts = refl; keeps_limit = refl; stays = λ h. h }

module _ (py : Python) (now : ℕ) (user : DiagnosticUser) where
  -- One run more, and one more that is counted, or neither.
  answer_step-IsCounted :
      (answer : Result Denial (ToolRun × AgentJob)) (after : Db) (step : DiagnosticStep)
      (state : State)
      → suc state.session.tool_run_count ≤ state.session.max_tool_runs
      → ((denial : Denial) → answer ≡ err denial → length after.runs ≡ length state.db.runs)
      → ((run : ToolRun) (job : AgentJob)
          → answer ≡ ok (run, job)
          → length after.runs ≡ suc (length state.db.runs))
      → IsCounted state (answer_step py now user answer after step state)
  unfolding answer_step
  answer_step-IsCounted (err denial) after step state h refused made = record {
    counts = omega (arith, refused denial refl);
    keeps_limit = refl;
    stays = λ e. e;
  }
  answer_step-IsCounted (ok (run, job)) after step state h refused made = record {
    counts = omega (arith, made run job refl);
    keeps_limit = refl;
    stays = λ e. h;
  }

  made_one :
      (request : Request) (db : Db) (run : ToolRun) (job : AgentJob)
      → (create_tool_run_job py now request db).0 ≡ ok (run, job)
      → length (create_tool_run_job py now request db).1.runs ≡ suc (length db.runs)
  made_one request db run job h =
      let made = create_tool_run_job py now request db in
      let created =
        create_tool_run_job-IsCreated py now request db run job made.1 (ap (λ r. (r, made.1)) h) in
      rw (created.run_added, (runs-seeded request db).0)
        (omega (arith, length-append db.runs (run ∷ [])))

  release_step-IsCounted :
      (step : DiagnosticStep) (state : State)
      → IsCounted state (release_step py now user step state).1
  unfolding release_step
  release_step-IsCounted step state =
      elim (Bool-cases (leb state.session.max_tool_runs state.session.tool_run_count)) [
        | inl full ↦ rw full (record { counts = refl; keeps_limit = refl; stays = λ h. h })
        | inr room ↦ elim (Bool-cases (is_allowed_diagnostic_tool step.tool_key)) [
          | inr foreign ↦ rw (room, foreign) (IsCounted-same state)
          | inl known ↦
              let request = request_of user state.session step.tool_key in
              let made = create_tool_run_job py now request state.db in
              rw (room, known)
                (answer_step-IsCounted made.0 made.1 step state (ground arith)
                  (λ denial e.
                    ap (λ rs. length rs)
                      (runs-create_tool_run_job py now request state.db denial e))
                  (made_one request state.db))
        ]
      ]

  approve-IsCounted :
      (step : DiagnosticStep) (state : State)
      → IsCounted state (approve_diagnostic_step py now user step state).1
  unfolding approve_diagnostic_step
  approve-IsCounted step state = elim (Bool-cases (user_can_start_or_approve user)) [
    | inr viewer ↦ rw viewer (IsCounted-same state)
    | inl permitted ↦ elim (Bool-cases (state.session.account == user.account)) [
      | inr foreign ↦ rw (permitted, foreign) (IsCounted-same state)
      | inl own ↦ elim (Option-cases (next_awaiting state.steps)) [
        | inl nothing ↦ rw (permitted, own, nothing) (IsCounted-same state)
        | inr (next, found) ↦ elim (Bool-cases (next.id == step.id)) [
          | inr other ↦ rw (permitted, own, found, other) (IsCounted-same state)
          | inl this ↦ rw (permitted, own, found, this) (release_step-IsCounted step state)
        ]
      ]
    ]
  ]

  -- A step is only released for a user who is an owner or an operator of the session's account, and
  -- only if it is the oldest step of the session that waits for an approval.
  pub approve_diagnostic_step_permitted :
      (step : DiagnosticStep) (state : State)
      → (approve_diagnostic_step py now user step state).0 ≡ ok tt
      → (user_can_start_or_approve user ≡ true)
        × (state.session.account ≡ user.account)
        × ((next : DiagnosticStep) × (next_awaiting state.steps ≡ some next) × (next.id ≡ step.id))
  unfolding approve_diagnostic_step
  approve_diagnostic_step_permitted step state h = elim (Option-cases (next_awaiting state.steps)) [
    | inl nothing ↦ absurd (ground arith)
    | inr (next, found) ↦ (
      ground arith,
      ground (arith, ==_iff state.session.account user.account),
      (next, found, ground (arith, ==_iff next.id step.id)),
    )
  ]

act-IsCounted :
    (py : Python) (action : Action) (state : State) → IsCounted state (act py action state)
unfolding act
act-IsCounted py (plan now) state = plan_next_step-IsCounted now state
act-IsCounted py (approve now user step) state = approve-IsCounted py now user step state
act-IsCounted py (sync now) state = sync-IsCounted now state

further :
    (start state after : State)
    → IsBounded start state
    → IsCounted state after
    → IsBounded start after
further start state after b c = record {
  counted = omega (arith, b.counted, c.counts);
  same_limit = c.keeps_limit ∙ b.same_limit;
  within = omega (arith, c.keeps_limit, c.stays b.within);
}

act_all-further :
    (py : Python) (actions : List Action) (start state : State)
    → IsBounded start state
    → IsBounded start (act_all py actions state)
unfolding act_all
act_all-further py [] start state b = b
act_all-further py (action ∷ actions) start state b =
    act_all-further py actions start (act py action state)
      (further start state (act py action state) b (act-IsCounted py action state))

-- A session never makes more runs than it may. If its count of runs is within its limit, then after any
-- sequence of planning, approvals by any users and synchronisations, the count has grown by exactly the
-- number of rows by which the table of runs has grown, the limit is the one of before, and the count is
-- within it. So the rows that were added are at most as many as the count was below the limit.
pub act_all-IsBounded :
    (py : Python) (actions : List Action) (state : State)
    → state.session.tool_run_count ≤ state.session.max_tool_runs
    → IsBounded state (act_all py actions state)
      × (length (act_all py actions state).db.runs + state.session.tool_run_count
          ≤ length state.db.runs + state.session.max_tool_runs)
act_all-IsBounded py actions state h =
    let bounded =
      act_all-further py actions state state
        (record { counted = refl; same_limit = refl; within = h }) in
    (bounded, omega (arith, bounded.counted, bounded.same_limit, bounded.within))
