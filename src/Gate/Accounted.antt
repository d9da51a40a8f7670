-- ===== src/Gate/Accounted.antt =====
-- What any sequence of calls of `create_tool_run_job` leaves behind.
use mathlib.Core.List.{append-nil, append_assoc}
use matrix_scanner_saas.Prelude.{
  ℕ, ◌+◌, ◌≡◌, refl, sym, ◌∙◌, ap, inl, inr, List, [], ◌∷◌, ◌++◌, All, All-append, length,
  length-append, arith,
}
use matrix_scanner_saas.Prelude.Results.{Result-cases}
use matrix_scanner_saas.Redaction.{Python}
use matrix_scanner_saas.Audit.{AuditResult}
use matrix_scanner_saas.Models.{Db, AgentJob, ToolRun, AuditEvent, add_audit}
use matrix_scanner_saas.Gate.{
  Request, Grant, authorize, enqueue, seeded, ensure_system_identity_tool, denial_event,
  create_tool_run_job,
}

-- The calls one after the other, each with its time.
unfoldable pub create_all : Python → List (ℕ × Request) → Db → Db
create_all py [] db = db
create_all py ((now, request) ∷ requests) db =
    create_all py requests (create_tool_run_job py now request db).1

abbrev pub IsDenial : AuditEvent → Type 0
IsDenial event = (event.action ≡ "tool_policy.denied") × (event.result ≡ AuditResult.denied)

-- `after` answers `n` more requests than `db`, each by a run or by a denial.
pub record IsAccounted (n : ℕ) (db after : Db) : Type 0 where
  pub new_runs : List ToolRun
  pub new_jobs : List AgentJob
  pub denials : List AuditEvent
  pub runs_added : after.runs ≡ db.runs ++ new_runs
  pub jobs_added : after.jobs ≡ db.jobs ++ new_jobs
  pub audits_added : after.audits ≡ db.audits ++ denials
  pub all_denied : All IsDenial denials
  pub paired : length new_jobs ≡ length new_runs
  pub answered : length new_runs + length denials ≡ n

grows {ℓ} :
    {A : Type ℓ} (xs ys zs us vs : List A) → ys ≡ xs ++ us → zs ≡ ys ++ vs → zs ≡ xs ++ (us ++ vs)
grows xs ys zs us vs h k = k ∙ ap (λ l. l ++ vs) h ∙ append_assoc xs us vs

IsAccounted-both :
    (m n k : ℕ) (db between after : Db)
    → k ≡ m + n
    → IsAccounted m db between
    → IsAccounted n between after
    → IsAccounted k db after
IsAccounted-both m n k db between after total a b = record {
  new_runs = a.new_runs ++ b.new_runs;
  new_jobs = a.new_jobs ++ b.new_jobs;
  denials = a.denials ++ b.denials;
  runs_added =
      grows db.runs between.runs after.runs a.new_runs b.new_runs a.runs_added b.runs_added;
  jobs_added =
      grows db.jobs between.jobs after.jobs a.new_jobs b.new_jobs a.jobs_added b.jobs_added;
  audits_added =
      grows db.audits between.audits after.audits a.denials b.denials a.audits_added b.audits_added;
  all_denied = All-append IsDenial a.denials b.denials a.all_denied b.all_denied;
  paired = omega (
    arith,
    a.paired,
    b.paired,
    length-append a.new_jobs b.new_jobs,
    length-append a.new_runs b.new_runs,
  );
  answered = omega (
    arith,
    total,
    a.answered,
    b.answered,
    length-append a.new_runs b.new_runs,
    length-append a.denials b.denials,
  );
}

rows-seeded :
    (request : Request) (db : Db)
    → ((seeded request db).runs ≡ db.runs)
      × ((seeded request db).jobs ≡ db.jobs)
      × ((seeded request db).audits ≡ db.audits)
unfolding seeded ensure_system_identity_tool
rows-seeded request db = ground arith

module _ (py : Python) where
  enqueue-IsAccounted :
      (request : Request) (granted : Grant) (db : Db)
      → IsAccounted 1 db (enqueue py request granted db).1
  unfolding enqueue
  enqueue-IsAccounted request granted db = record {
    new_runs = (enqueue py request granted db).0.0 ∷ [];
    new_jobs = (enqueue py request granted db).0.1 ∷ [];
    denials = [];
    runs_added = refl;
    jobs_added = refl;
    audits_added = sym (append-nil db.audits);
    all_denied = tt;
    paired = refl;
    answered = refl;
  }

  denied-IsAccounted :
      (request : Request) (db : Db) → IsAccounted 1 db (add_audit (denial_event request) db)
  denied-IsAccounted request db = record {
    new_runs = [];
    new_jobs = [];
    denials = denial_event request ∷ [];
    runs_added = sym (append-nil db.runs);
    jobs_added = sym (append-nil db.jobs);
    audits_added = refl;
    all_denied = ((refl, refl), tt);
    paired = refl;
    answered = refl;
  }

  seeded-IsAccounted : (request : Request) (db : Db) → IsAccounted 0 db (seeded request db)
  seeded-IsAccounted request db =
      let (runs, jobs, audits) = rows-seeded request db in
      record {
        new_runs = [];
        new_jobs = [];
        denials = [];
        runs_added = runs ∙ sym (append-nil db.runs);
        jobs_added = jobs ∙ sym (append-nil db.jobs);
        audits_added = audits ∙ sym (append-nil db.audits);
        all_denied = tt;
        paired = refl;
        answered = refl;
      }

  pub call-IsAccounted :
      (now : ℕ) (request : Request) (db : Db)
      → IsAccounted 1 db (create_tool_run_job py now request db).1
  unfolding create_tool_run_job
  call-IsAccounted now request db =
      let ready = seeded request db in
      let start = seeded-IsAccounted request db in
      elim (Result-cases (authorize py now ready request)) [
        | inr (e, bad) ↦
            rw (bad, create_tool_run_job)
              (IsAccounted-both 0 1 1 db ready (add_audit (denial_event request) ready) refl start
                (denied-IsAccounted request ready))
        | inl (granted, good) ↦
            rw (good, create_tool_run_job)
              (IsAccounted-both 0 1 1 db ready (enqueue py request granted ready).1 refl start
                (enqueue-IsAccounted request granted ready))
      ]
