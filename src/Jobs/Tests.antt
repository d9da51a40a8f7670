-- ===== src/Jobs/Tests.antt =====
-- Runs of the job queue, and its theorems at the sample queue.
use matrix_scanner_saas.Prelude.{
  true, ◌≡◌, ◌≢◌, refl, Bool, false, some, List, [], ◌∷◌, arith, first,
}
use matrix_scanner_saas.Prelude.Results.{ok, err}
use matrix_scanner_saas.Text.{Text, codes}
use matrix_scanner_saas.Json.{Value, null, str, obj, end, field, or_empty, truthy}
use matrix_scanner_saas.Redaction.Sample.{sample}
use matrix_scanner_saas.Models.{
  Db, AgentJob, ToolRun, JobStatus, is_reportable, save_job, CustomerRole,
}
use matrix_scanner_saas.Gate.Sample.{owner_agent, asked_by}
use matrix_scanner_saas.Jobs.{
  next_claimable, claimed_job, rejected_job, take_job, claim_next_job, is_allowed_tool,
  may_be_claimed, belongs_to, is_claimable, runs_job, claim_expired, not_claimed, submit_job_result,
  submit_for, accept_result, finished_job,
}
use matrix_scanner_saas.Json.Size.{dumps_size, chars_size}
use matrix_scanner_saas.Jobs.Size.{serialized_size}
use matrix_scanner_saas.Jobs.Claim.{IsClaim, claim_next_job-IsClaim, claim_next_job_exclusive}
use matrix_scanner_saas.Jobs.Submit.{
  IsAccepted, IsTold, submit_job_result-IsAccepted, submit_job_result_error,
  submit_job_result-synced_run,
}
use matrix_scanner_saas.Jobs.Lifecycle.{
  Event, claim, submit, request_run, heartbeat, IsSettled, run_events,
}
use matrix_scanner_saas.Jobs.Lifecycle.Settled.{run_events-IsSettled}
use matrix_scanner_saas.Jobs.Lifecycle.Abandoned.{IsForgotten, IsWaiting, claim_next_job-run_events}
use matrix_scanner_saas.Jobs.Sample.{job, run, queue, stale, stale_queue}

abbrev unlocked : AgentJob → Bool
unlocked j = false

abbrev handed : AgentJob
handed = claimed_job 50 job

abbrev claimed : Db
claimed = (claim_next_job unlocked 50 owner_agent queue).1

claims : (claim_next_job unlocked 50 owner_agent queue).0 ≡ some handed
unfolding claim_next_job next_claimable take_job is_allowed_tool may_be_claimed belongs_to
    is_claimable
claims = refl

claim_next_job-IsClaim_example : IsClaim unlocked 50 owner_agent queue claimed handed
claim_next_job-IsClaim_example = claim_next_job-IsClaim unlocked 50 owner_agent queue handed claims

-- A queue of two jobs.
abbrev second : AgentJob
second = record job { id = 2 }

abbrev two_jobs : Db
two_jobs = record queue { jobs = job ∷ second ∷ [] }

claims_first : (claim_next_job unlocked 50 owner_agent two_jobs).0 ≡ some handed
unfolding claim_next_job next_claimable take_job is_allowed_tool may_be_claimed belongs_to
    is_claimable
claims_first = refl

claims_second :
    (claim_next_job unlocked 350 owner_agent (claim_next_job unlocked 50 owner_agent two_jobs).1).0
    ≡ some (claimed_job 350 second)
unfolding claim_next_job next_claimable take_job is_allowed_tool may_be_claimed belongs_to
    is_claimable save_job claimed_job
claims_second = refl

claim_next_job_exclusive_example : (claimed_job 350 second).id ≢ handed.id
claim_next_job_exclusive_example =
    claim_next_job_exclusive unlocked unlocked 50 350 owner_agent owner_agent two_jobs handed
      (claimed_job 350 second) claims_first claims_second (omega arith)

is_stale : next_claimable unlocked 50 owner_agent stale_queue.jobs ≡ some stale
unfolding next_claimable belongs_to is_claimable
is_stale = refl

not_allowed : is_allowed_tool stale_queue stale.tool_key ≡ false
unfolding is_allowed_tool may_be_claimed
not_allowed = refl

is_waiting : IsWaiting stale run stale_queue
is_waiting = record {
  job_allotted = omega arith;
  linked = refl;
  only = ((λ e. refl), tt);
  allotted = omega arith;
  there = refl;
}

-- What the agent reports.
abbrev output : Value
output = obj (field (codes "a") (str (codes "b")) end)

abbrev events : List Event
events =
    claim unlocked 60 owner_agent
    ∷ submit 70 owner_agent 1 (some JobStatus.succeeded) output []
    ∷ request_run 80 (asked_by CustomerRole.owner)
    ∷ heartbeat 90 owner_agent []
    ∷ []

abbrev hash : Text → Text
hash raw = 35 ∷ raw

claim_next_job-run_events_example :
    IsForgotten 50 stale run
      (run_events sample hash events (claim_next_job unlocked 50 owner_agent stale_queue).1)
claim_next_job-run_events_example =
    claim_next_job-run_events sample hash stale run unlocked 50 owner_agent stale_queue events
      is_waiting is_stale not_allowed

abbrev over : AgentJob
over = rejected_job 50 job

is_settled : IsSettled over (record queue { jobs = over ∷ [] })
unfolding rejected_job
is_settled = record { ended = refl; only = ((λ e. refl), tt); allotted = omega arith }

run_events-IsSettled_example :
    IsSettled over (run_events sample hash events (record queue { jobs = over ∷ [] }))
run_events-IsSettled_example =
    run_events-IsSettled sample hash over events (record queue { jobs = over ∷ [] }) is_settled

abbrev done : AgentJob
done = finished_job 60 JobStatus.succeeded output [] handed

accepted :
    (submit_job_result sample 60 owner_agent 1 (some JobStatus.succeeded) output [] claimed).0
    ≡ ok done
unfolding submit_job_result submit_for accept_result belongs_to claim_next_job next_claimable
    take_job is_allowed_tool may_be_claimed is_claimable save_job claimed_job or_empty truthy
    serialized_size dumps_size chars_size
accepted = refl

submit_job_result-IsAccepted_example :
    IsAccepted sample 60 owner_agent 1
      (some JobStatus.succeeded)
      output
      []
      claimed
      (submit_job_result sample 60 owner_agent 1 (some JobStatus.succeeded) output [] claimed).1
      done
submit_job_result-IsAccepted_example =
    submit_job_result-IsAccepted sample 60 owner_agent 1 done (some JobStatus.succeeded) output []
      claimed accepted

has_run : first (runs_job done) claimed.runs ≡ some run
unfolding finished_job claimed_job claim_next_job next_claimable take_job is_allowed_tool
    may_be_claimed belongs_to is_claimable
has_run = refl

submit_job_result-synced_run_example :
    (reported : JobStatus) × (told : ToolRun) × (some JobStatus.succeeded ≡ some reported)
    × (is_reportable reported ≡ true)
    × (first
          (runs_job done)
          (submit_job_result sample 60 owner_agent 1
            (some JobStatus.succeeded)
            output
            []
            claimed).1.runs
        ≡ some told)
    × IsTold sample 60 reported (or_empty output) [] run told
submit_job_result-synced_run_example =
    submit_job_result-synced_run sample 60 owner_agent 1 done (some JobStatus.succeeded) output []
      claimed run accepted has_run

-- A job that nobody has claimed takes no result.
refused :
    (submit_job_result sample 60 owner_agent 1 (some JobStatus.failed) null [] queue).0
    ≡ err not_claimed
unfolding submit_job_result submit_for belongs_to
refused = refl

claim_expired_apart : not_claimed ≢ claim_expired
claim_expired_apart e = ground arith

submit_job_result_error_example :
    (submit_job_result sample 60 owner_agent 1 (some JobStatus.failed) null [] queue).1 ≡ queue
submit_job_result_error_example =
    submit_job_result_error sample 60 owner_agent 1 (some JobStatus.failed) null [] queue
      not_claimed refused claim_expired_apart
