-- ===== src/Models/Rows.antt =====
-- Saving a row of a table: the row is found again, and rows with other keys stay.
use matrix_scanner_saas.Prelude.{
  ℕ, ◌≢◌, any, ◌++◌, ◌≡◌, refl, inl, inr, Bool, true, List, [], ◌∷◌, ◌==◌, ==_iff, Bool-cases, All,
  first, some, arith, map,
}
use matrix_scanner_saas.Models.{AgentJob, ToolRun, save_job, save_run}

-- Every row with the key of the saved one is the saved one.
pub save_job-All :
    (P : AgentJob → Type 0) (job : AgentJob) (jobs : List AgentJob)
    → All P jobs
    → P job
    → All P (save_job job jobs)
unfolding save_job
save_job-All P job [] h p = tt
save_job-All P job (j ∷ js) h p = elim (Bool-cases (j.id == job.id)) [
  | inl same ↦ rw same (p, save_job-All P job js h.1 p)
  | inr other ↦ rw other (h.0, save_job-All P job js h.1 p)
]

pub save_job_same :
    (job : AgentJob) (jobs : List AgentJob) → All (λ j. j.id ≡ job.id → j ≡ job) (save_job job jobs)
unfolding save_job
save_job_same job [] = tt
save_job_same job (j ∷ js) = elim (Bool-cases (j.id == job.id)) [
  | inl same ↦ rw same ((λ e. refl), save_job_same job js)
  | inr other ↦ rw other ((λ e. absurd (ground (arith, ==_iff j.id job.id))), save_job_same job js)
]

-- The keys of a table stay, in order.
pub ids-save_job :
    (job : AgentJob) (jobs : List AgentJob)
    → map (λ (j : AgentJob). j.id) (save_job job jobs) ≡ map (λ (j : AgentJob). j.id) jobs
unfolding save_job
ids-save_job job [] = refl
ids-save_job job (j ∷ js) = ground (arith, ids-save_job job js, ==_iff j.id job.id)

-- A run that is saved is what a search by its test finds, where the test holds of the saved row and
-- of the row that it replaces.
pub first-save_run :
    (p : ToolRun → Bool) (run saved : ToolRun) (runs : List ToolRun)
    → saved.id ≡ run.id
    → p saved ≡ true
    → first p runs ≡ some run
    → first p (save_run saved runs) ≡ some saved
unfolding save_run
first-save_run p run saved [] same holds h = absurd (ground arith)
first-save_run p run saved (r ∷ rs) same holds h =
    ground (arith, ==_iff r.id saved.id, first-save_run p run saved rs)

pub save_run-All :
    (P : ToolRun → Type 0) (run : ToolRun) (runs : List ToolRun)
    → All P runs
    → P run
    → All P (save_run run runs)
unfolding save_run
save_run-All P run [] h p = tt
save_run-All P run (r ∷ rs) h p = elim (Bool-cases (r.id == run.id)) [
  | inl same ↦ rw same (p, save_run-All P run rs h.1 p)
  | inr other ↦ rw other (h.0, save_run-All P run rs h.1 p)
]

-- `after` is `jobs` with the row of a key that was there replaced.
pub record IsSaved (job : AgentJob) (jobs after : List AgentJob) : Type 0 where
  pub found_again : first (λ j. j.id == job.id) after ≡ some job
  pub others_kept :
      (id : ℕ)
      → id ≢ job.id
      → first (λ (j : AgentJob). j.id == id) after ≡ first (λ (j : AgentJob). j.id == id) jobs

abbrev pub has_job : ℕ → List AgentJob → Bool
has_job id jobs = any (λ (j : AgentJob). j.id == id) jobs

abbrev pub has_run : ℕ → List ToolRun → Bool
has_run id runs = any (λ (r : ToolRun). r.id == id) runs

-- What is found by its key is there.
pub first-has_job :
    (p : AgentJob → Bool) (job : AgentJob) (jobs : List AgentJob)
    → first p jobs ≡ some job
    → has_job job.id jobs ≡ true
first-has_job p job [] h = absurd (ground arith)
first-has_job p job (j ∷ js) h = elim (Bool-cases (p j)) [
  | inl here ↦ let same : j ≡ job = ground arith in ground (arith, same, ==_iff job.id job.id)
  | inr later ↦ ground (arith, first-has_job p job js)
]

-- A row that is saved under a key of the table is found under that key.
pub first-save_job :
    (job : AgentJob) (jobs : List AgentJob)
    → has_job job.id jobs ≡ true
    → first (λ j. j.id == job.id) (save_job job jobs) ≡ some job
unfolding save_job
first-save_job job [] h = absurd (ground arith)
first-save_job job (j ∷ js) h = ground (arith, first-save_job job js, ==_iff job.id job.id)

-- What is found under other keys is as before.
pub first-save_job_other :
    (job : AgentJob) (jobs : List AgentJob) (id : ℕ)
    → id ≢ job.id
    → first (λ (j : AgentJob). j.id == id) (save_job job jobs)
      ≡ first (λ (j : AgentJob). j.id == id) jobs
unfolding save_job
first-save_job_other job [] id other = refl
first-save_job_other job (j ∷ js) id other = ground (
  arith,
  first-save_job_other job js id other,
  ==_iff j.id job.id,
  ==_iff job.id id,
  ==_iff j.id id,
)

pub has_job-save_job :
    (id : ℕ) (job : AgentJob) (jobs : List AgentJob)
    → has_job id jobs ≡ true
    → has_job id (save_job job jobs) ≡ true
unfolding save_job
has_job-save_job id job [] h = h
has_job-save_job id job (j ∷ js) h = ground (arith, has_job-save_job id job js, ==_iff j.id job.id)

pub has_run-save_run :
    (id : ℕ) (run : ToolRun) (runs : List ToolRun)
    → has_run id runs ≡ true
    → has_run id (save_run run runs) ≡ true
unfolding save_run
has_run-save_run id run [] h = h
has_run-save_run id run (r ∷ rs) h = ground (arith, has_run-save_run id run rs, ==_iff r.id run.id)

pub has_job-append :
    (id : ℕ) (jobs more : List AgentJob) → has_job id jobs ≡ true → has_job id (jobs ++ more) ≡ true
has_job-append id [] more h = absurd (ground arith)
has_job-append id (j ∷ js) more h = ground (arith, has_job-append id js more)

pub has_run-append :
    (id : ℕ) (runs more : List ToolRun) → has_run id runs ≡ true → has_run id (runs ++ more) ≡ true
has_run-append id [] more h = absurd (ground arith)
has_run-append id (r ∷ rs) more h = ground (arith, has_run-append id rs more)

pub save_job-IsSaved :
    (p : AgentJob → Bool) (job saved : AgentJob) (jobs : List AgentJob)
    → first p jobs ≡ some job
    → saved.id ≡ job.id
    → IsSaved saved jobs (save_job saved jobs)
save_job-IsSaved p job saved jobs found same = record {
  found_again = first-save_job saved jobs (rw same (first-has_job p job jobs found));
  others_kept = first-save_job_other saved jobs;
}
