-- ===== src/Judge/Queue.antt =====
-- The class JudgeTaskQueue and the recovery at boot of src/judge/judge-task.worker.ts. BullMQ's queue
-- is a parameter: `add` registers a job under the id of its task, and ignores it if it is there. It may
-- throw in the recovery; in the other calls it is taken to succeed.
pub mod Boot
use heimdall_backend.Common.{
  ℕ, ◌-◌, ◌*◌, ◌≡◌, Bool, true, List, [], ◌∷◌, if◌then◌else◌, Result, ok, ◌>>=◌, arith, Bool-cases,
  Result-cases, inl, inr,
}
use heimdall_backend.Debate.Enums.{Uuid, Millis}
use heimdall_backend.Judge.Task.{JudgeTask, JudgeTaskKind, pending, status_eq}
use heimdall_backend.Judge.Tasks.{
  TaskError, CreateTaskInput, create_if_absent, find_pending, reclaim_stale,
}
use heimdall_backend.Judge.Tasks.Creation.{create_if_absent_again}

-- STALE_TIMEOUT_FACTOR
abbrev pub stale_timeout_factor : ℕ
stale_timeout_factor = 3

-- The part of BullMQ's documented behaviour that the code relies on.
pub record JobQueue : Type 1 where
  pub Jobs : Type 0
  pub add : Uuid → Jobs → Jobs
  pub has : Uuid → Jobs → Bool
  pub has-add : (id : Uuid) (jobs : Jobs) → has id (add id jobs) ≡ true
  pub has_still :
      (id other : Uuid) (jobs : Jobs) → has id jobs ≡ true → has id (add other jobs) ≡ true
  pub add_again : (id : Uuid) (jobs : Jobs) → has id jobs ≡ true → add id jobs ≡ jobs

-- A step of the recovery at boot, which may throw.
pub data BootStep : Type 0 where
  reclaiming finding : BootStep
  adding : Uuid → BootStep

module _ (q : JobQueue) where
  unfoldable pub enqueue : JudgeTask → q.Jobs → q.Jobs
  enqueue task jobs = q.add task.id jobs

  unfoldable pub enqueue_all : List JudgeTask → q.Jobs → q.Jobs
  enqueue_all [] jobs = jobs
  enqueue_all (task ∷ tasks) jobs = enqueue_all tasks (enqueue task jobs)

  -- `id` and `now` are the defaults of the row that may be inserted.
  unfoldable pub schedule :
      (JudgeTaskKind → ℕ)
      → Uuid
      → Millis
      → Uuid
      → JudgeTaskKind
      → Uuid
      → List JudgeTask
      → q.Jobs
      → Result TaskError (JudgeTask × List JudgeTask × q.Jobs)
  unfolding enqueue
  schedule max_attempts id now debate_id kind target_id t jobs = do
    (task, t') ←
        create_if_absent id now
          (record {
            debate_id = debate_id;
            kind = kind;
            target_id = target_id;
            max_attempts = max_attempts kind;
          })
          t
    ok (task, t', if status_eq task.status pending then enqueue task jobs else jobs)

  -- The loop of the recovery over the pending tasks: an addition that fails ends it.
  unfoldable pub enqueue_until : (Uuid → Bool) → List JudgeTask → q.Jobs → q.Jobs
  unfolding enqueue
  enqueue_until fails [] jobs = jobs
  enqueue_until fails (task ∷ tasks) jobs =
      let rest = enqueue_until fails tasks (enqueue task jobs) in
      if fails task.id then jobs else rest

  -- `onApplicationBootstrap`, at `app_now` on the application's clock and `now` on the database's.
  -- Where the difference would be negative no row is older than it, nor than 0. A step that fails
  -- changes nothing and ends the recovery, and boot goes on.
  unfoldable pub on_application_bootstrap :
      (BootStep → Bool)
      → Millis
      → Millis
      → Millis
      → List JudgeTask
      → q.Jobs
      → List JudgeTask × q.Jobs
  unfolding enqueue_until
  on_application_bootstrap fails job_timeout_ms app_now now t jobs =
      let (_, t') = reclaim_stale (app_now - job_timeout_ms * stale_timeout_factor) now t in
      if fails reclaiming
      then (t, jobs)
      else if fails finding
      then (t', jobs)
      else (t', enqueue_until (λ id. fails (adding id)) (find_pending t') jobs)

  -- After schedule returned a task, scheduling its target again returns that task and changes
  -- neither the table nor the queue.
  pub schedule_again :
      (max_attempts : JudgeTaskKind → ℕ) (id id' : Uuid) (now later : Millis) (debate_id : Uuid)
      (kind : JudgeTaskKind) (target_id : Uuid) (t : List JudgeTask) (jobs : q.Jobs) {x : JudgeTask}
      {t' : List JudgeTask} {jobs' : q.Jobs}
      → schedule max_attempts id now debate_id kind target_id t jobs ≡ ok (x, t', jobs')
      → schedule max_attempts id' later debate_id kind target_id t' jobs' ≡ ok (x, t', jobs')
  unfolding schedule enqueue
  schedule_again max_attempts id id' now later debate_id kind target_id t jobs {x} {t'} {jobs'} e =
      let input : CreateTaskInput = record {
        debate_id = debate_id;
        kind = kind;
        target_id = target_id;
        max_attempts = max_attempts kind;
      } in
      elim (Result-cases (create_if_absent id now input t)) [
        | inl (made, created) ↦
            let same : (made.0 ≡ x) × (made.1 ≡ t') = ground arith in
            let first : create_if_absent id now input t ≡ ok (x, t') = ground arith in
            let again = create_if_absent_again id id' now later input t first in
            elim (Bool-cases (status_eq x.status pending)) [
              | inl waits ↦
                  let queued : q.add x.id jobs ≡ jobs' = ground arith in
                  rw (again, waits, q.add_again x.id jobs' (rw (← queued) (q.has-add x.id jobs)))
              | inr begun ↦ rw (again, begun)
            ]
        | inr (failed, refused) ↦ absurd (ground arith)
      ]
