-- ===== src/Jobs/Claim.antt =====
-- What `claim_next_job` hands out, and how long the claim holds.
use matrix_scanner_saas.Prelude.{
  ℕ, ◌+◌, ◌≤◌, ◌≡◌, ◌≢◌, refl, sym, ◌∙◌, ap, inl, inr, Bool, true, false, not, ◌&&◌, Bool-cases,
  Option-cases, any, Option, some, none, arith,
}
use matrix_scanner_saas.Prelude.First.{
  FirstAt, first-FirstAt, first-All, first_passes, first_absent,
}
use matrix_scanner_saas.Models.{Db, AgentJob, ScannerAgent, JobStatus, save_job, is_terminal}
use matrix_scanner_saas.Models.Rows.{IsSaved, save_job_same, save_job-IsSaved}
use matrix_scanner_saas.Jobs.{
  default_claim_expiry, is_allowed_tool, belongs_to, is_claimable, next_claimable, take_job,
  rejected_job, claimed_job, claim_next_job,
}

-- The test of the query of `claim_next_job`.
abbrev pub offered : (AgentJob → Bool) → ℕ → ScannerAgent → AgentJob → Bool
offered locked now agent job = not (locked job) && belongs_to agent job && is_claimable now job

-- The row as a claim leaves it: claimed since now for five minutes, and all else as in `job`.
pub record IsMarked (now : ℕ) (job handed : AgentJob) : Type 0 where
  pub claims : handed.status ≡ JobStatus.claimed
  pub since : handed.claimed_at ≡ some now
  pub until : handed.claim_expires_at ≡ some (now + 300)
  pub others : handed ≡ record job {
    status = handed.status;
    claimed_at = handed.claimed_at;
    claim_expires_at = handed.claim_expires_at;
  }

-- `job` is what a successful claim found, `handed` what it gave out, in the database `db`.
pub record IsClaim (locked : AgentJob → Bool) (now : ℕ) (agent : ScannerAgent) (db after : Db)
    (handed : AgentJob) : Type 0 where
  pub job : AgentJob
  pub oldest : FirstAt (offered locked now agent) job db.jobs
  pub allowed : is_allowed_tool db job.tool_key ≡ true
  pub marked : IsMarked now job handed
  pub stored : after.jobs ≡ save_job handed db.jobs
  pub saved : IsSaved handed db.jobs after.jobs
  pub runs_kept : after.runs ≡ db.runs

module _ (locked : AgentJob → Bool) (now : ℕ) (agent : ScannerAgent) (db : Db) where
  take_job-allowed :
      (job handed : AgentJob)
      → (take_job now agent job db).0 ≡ some handed
      → (is_allowed_tool db job.tool_key ≡ true)
        × IsMarked now job handed
        × ((take_job now agent job db).1.jobs ≡ save_job handed db.jobs)
        × ((take_job now agent job db).1.runs ≡ db.runs)
  unfolding take_job claimed_job
  take_job-allowed job handed h = elim (Bool-cases (is_allowed_tool db job.tool_key)) [
    | inr bad ↦ absurd (ground arith)
    | inl good ↦
        let same : handed ≡ claimed_job now job = ground arith in
        (
          good,
          rw same (record { claims = refl; since = refl; until = refl; others = refl }),
          rw (good, same),
          rw good,
        )
  ]

  found_job :
      (handed : AgentJob)
      → (claim_next_job locked now agent db).0 ≡ some handed
      → (job : AgentJob) × (next_claimable locked now agent db.jobs ≡ some job)
        × (claim_next_job locked now agent db ≡ take_job now agent job db)
  unfolding claim_next_job
  found_job handed h = elim (Option-cases (next_claimable locked now agent db.jobs)) [
    | inl none_there ↦ absurd (ground arith)
    | inr (job, found) ↦ (job, found, rw (found, claim_next_job))
  ]

  -- A job that `claim_next_job` hands out is the oldest row that no other transaction has locked, that
  -- belongs to the agent, its server and its account, and that is pending or claimed with a claim that
  -- has expired. Its tool is allowed. It is handed out and stored as claimed, with now as the time of
  -- the claim and an expiry five minutes later, and is otherwise as it was: under its key the table of
  -- jobs has then that row, and under any other key what it had before. No tool run is changed.
  pub claim_next_job-IsClaim :
      (handed : AgentJob)
      → (claim_next_job locked now agent db).0 ≡ some handed
      → IsClaim locked now agent db (claim_next_job locked now agent db).1 handed
  claim_next_job-IsClaim handed h =
      let (job, found, does) = found_job handed h in
      let (allowed, marked, stored, runs_kept) =
        take_job-allowed job handed (ap (λ (r : Option AgentJob × Db). r.0) (sym does) ∙ h) in
      rw does (record {
        job = job;
        oldest =
            first-FirstAt (offered locked now agent) db.jobs job (unfold next_claimable in found);
        allowed = allowed;
        marked = marked;
        stored = stored;
        saved = rw stored (
            save_job-IsSaved (offered locked now agent) job handed db.jobs
              (unfold next_claimable in found) (ap (λ (j : AgentJob). j.id) marked.others));
        runs_kept = runs_kept;
      })

  -- If no row is offered, nothing happens.
  pub claim_next_job_empty :
      any (offered locked now agent) db.jobs ≡ false
      → claim_next_job locked now agent db ≡ (none, db)
  unfolding claim_next_job
  claim_next_job_empty h =
      let absent : next_claimable locked now agent db.jobs ≡ none =
        unfold next_claimable in first_absent (offered locked now agent) db.jobs h in
      rw (absent, claim_next_job)

-- A row that was just claimed is not claimable before its claim has expired.
held :
    (now later : ℕ) (job handed : AgentJob)
    → IsMarked now job handed
    → later ≤ now + default_claim_expiry
    → is_claimable later handed ≡ false
unfolding is_claimable
held now later job handed marked h = ground (arith, marked.claims, marked.until, h)

-- Two claims in a row, by any agents and under any locks, never hand out the same job while the first
-- claim holds, that is if the second is made at most five minutes after the first.
pub claim_next_job_exclusive :
    (locked locked' : AgentJob → Bool) (now later : ℕ) (agent agent' : ScannerAgent) (db : Db)
    (job job' : AgentJob)
    → (claim_next_job locked now agent db).0 ≡ some job
    → (claim_next_job locked' later agent' (claim_next_job locked now agent db).1).0 ≡ some job'
    → later ≤ now + default_claim_expiry
    → job'.id ≢ job.id
claim_next_job_exclusive locked locked' now later agent agent' db job job' h h' soon same =
    let after : Db = (claim_next_job locked now agent db).1 in
    let c = claim_next_job-IsClaim locked now agent db job h in
    let c' = claim_next_job-IsClaim locked' later agent' after job' h' in
    let (again, found, does) = found_job locked' later agent' after job' h' in
    let marked =
      (take_job-allowed locked' later agent' after again job'
        (ap (λ (r : Option AgentJob × Db). r.0) (sym does) ∙ h')).1 in
    let is_job : again ≡ job =
      first-All (offered locked' later agent') (λ j. j.id ≡ job.id → j ≡ job) after.jobs again
        (rw c.stored (save_job_same job db.jobs)) (unfold next_claimable in found)
        (sym (ap (λ (j : AgentJob). j.id) marked.others) ∙ same) in
    let open_again : is_claimable later again ≡ true =
      (ground (
        arith,
        first_passes (offered locked' later agent') after.jobs again
            (unfold next_claimable in found),
      )) in
    let shut : is_claimable later again ≡ false =
      rw is_job (held now later c.job job c.marked soon) in
    absurd (ground arith)

-- Where the oldest offered row is of a tool that is not allowed, nothing is handed out, the row ends
-- as rejected, which is terminal, and the tool runs stay as they are: the run of that job is not told.
pub claim_next_job_refused :
    (locked : AgentJob → Bool) (now : ℕ) (agent : ScannerAgent) (db : Db) (job : AgentJob)
    → next_claimable locked now agent db.jobs ≡ some job
    → is_allowed_tool db job.tool_key ≡ false
    → ((claim_next_job locked now agent db).0 ≡ none)
      × ((claim_next_job locked now agent db).1.jobs ≡ save_job (rejected_job now job) db.jobs)
      × (is_terminal (rejected_job now job).status ≡ true)
      × ((claim_next_job locked now agent db).1.runs ≡ db.runs)
unfolding take_job claim_next_job
claim_next_job_refused locked now agent db job found refused =
    rw (found, claim_next_job) (rw refused (refl, refl, unfold rejected_job in refl, refl))
