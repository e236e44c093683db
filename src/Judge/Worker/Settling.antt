-- ===== src/Judge/Worker/Settling.antt =====
-- How one call of `process` (src/judge/judge-task.worker.ts) leaves the task, whatever the other
-- workers do meanwhile.
use heimdall_backend.Common.{
  ◌*◌, ◌^◌, ◌-◌, ◌++◌, [], ◌∷◌, if◌then◌else◌, ◌<◌, ◌≤◌, ◌≡◌, refl, Bool, true, false, none, some,
  List, ==_refl, arith, Option-cases, Bool-cases, ap, inl, inr, ◌⊎◌,
}
use heimdall_backend.Common.Text.{Text}
use heimdall_backend.Debate.Enums.{Uuid, Millis}
use heimdall_backend.Judge.Task.{JudgeTask, JudgeTaskStatus, pending, processing, status_eq}
use heimdall_backend.Judge.Tasks.{find_by_id, acquire, acquired, settle, complete, fail, release}
use heimdall_backend.Judge.Tasks.Rows.{IsUnique, KeepsKeys}
use heimdall_backend.Judge.Tasks.Ownership.{
  owns, acquire_lem, acquire-IsUnique, settle_lem, settle_not_owned, find_by_id-id,
}
use heimdall_backend.Judge.Worker.{
  StageStatus, started, retrying, TaskOutcome, SettlementOutcome, WorkerEvent, published, recorded,
  notified, returned, StageReportingPolicy, Finish, JudgeTaskHandler, policy_or_default, publish,
  reporting_of, retry_delay_ms, HandlerResult, handled, threw, WorkerConfig, rethrown,
  unrecoverable, run_with_timeout, settle_failed, settle_failure, settle_success, settle_run,
  run_acquired, process, is_retryable,
}

-- A settlement that takes the status or the owner away ends the ownership.
Disowns : (JudgeTask → JudgeTask) → Type 0
Disowns values = (x : JudgeTask) → status_eq (values x).status processing ≡ false

settled_not_owned :
    (task_id request_id : Uuid) (values : JudgeTask → JudgeTask) (t : List JudgeTask)
    → KeepsKeys values
    → Disowns values
    → IsUnique t
    → owns task_id request_id (settle task_id request_id values t).1 ≡ false
unfolding Disowns
settled_not_owned task_id request_id values t k d u =
    let (won, row, same) = settle_lem task_id request_id values t k u in
    elim (Option-cases (find_by_id task_id t)) [
      | inl e ↦ ground arith
      | inr (x, e) ↦ ground (arith, d x)
    ]

-- A stage is published if the policy allows it.
abbrev pub stage_of : StageReportingPolicy → JudgeTask → StageStatus → List WorkerEvent
stage_of p task status = if p status task then published status task ∷ [] else []

-- What a run that came to a result reports, in order, and how it ends: it completes, it is tried
-- again after a delay that doubles with every attempt, or it fails for good.
pub data Report (backoff_ms : Millis) (task : JudgeTask) (p : StageReportingPolicy)
    : HandlerResult → List WorkerEvent → Finish → Type 0 where
  completes :
      Report backoff_ms task p handled
        (stage_of p task started
          ++ (recorded SettlementOutcome.completed task none
              ∷ (stage_of p task StageStatus.completed
                  ++ (notified TaskOutcome.completed task ∷ []))))
        returned
  retries :
      (non_retryable : Bool) (reason : Text)
      → non_retryable ≡ false
      → task.attempt < task.max_attempts
      → Report backoff_ms task p
          (threw non_retryable reason)
          (stage_of p task started
            ++ (recorded SettlementOutcome.retry task (some (backoff_ms * 2 ^ (task.attempt - 1)))
                ∷ stage_of p task retrying))
          (rethrown reason)
  gives_up :
      (non_retryable : Bool) (reason : Text)
      → (non_retryable ≡ true) ⊎ (task.max_attempts ≤ task.attempt)
      → Report backoff_ms task p
          (threw non_retryable reason)
          (stage_of p task started
            ++ (recorded SettlementOutcome.failed task none
                ∷ (stage_of p task StageStatus.failed ++ (notified TaskOutcome.failed task ∷ []))))
          (unrecoverable reason)

handler_cases :
    (h : HandlerResult) → (h ≡ handled) ⊎ ((n : Bool) × (reason : Text) × (h ≡ threw n reason))
handler_cases handled = inl refl
handler_cases (threw n reason) = inr (n, reason, refl)

module _ (config : WorkerConfig) (request_id : Uuid) (now : Millis) where
  settle_run-not_owned :
      (task : JudgeTask) (h : HandlerResult) (t : List JudgeTask)
      → IsUnique t
      → owns task.id request_id (settle_run config request_id now task h t).table ≡ false
  unfolding settle_run settle_success settle_failure settle_failed complete fail release Disowns
  settle_run-not_owned task handled t u =
      settled_not_owned task.id request_id _ t (λ x. (refl, refl, refl)) (λ x. refl) u
  settle_run-not_owned task (threw non_retryable reason) t u =
      elim (Bool-cases (is_retryable task non_retryable)) [
        | inl again ↦
            rw again
              (settled_not_owned task.id request_id _ t (λ x. (refl, refl, refl)) (λ x. refl) u)
        | inr last ↦
            rw last
              (settled_not_owned task.id request_id _ t (λ x. (refl, refl, refl)) (λ x. refl) u)
      ]

  run_acquired-not_owned :
      (others : List JudgeTask → List JudgeTask) (task : JudgeTask) (t : List JudgeTask)
      → ((u : List JudgeTask) → IsUnique u → IsUnique (others u))
      → IsUnique t
      → owns task.id request_id (run_acquired config request_id now others task t).table ≡ false
  unfolding run_acquired settle_failed fail Disowns
  run_acquired-not_owned others task t keep u = elim (Option-cases (config.handlers task.kind)) [
    | inl e ↦
        rw (e, run_acquired)
          (settled_not_owned task.id request_id _ (others t) (λ x. (refl, refl, refl)) (λ x. refl)
            (keep t u))
    | inr (h, e) ↦
        rw (e, run_acquired)
          (settle_run-not_owned task (run_with_timeout config (h.handle task)) (others t)
            (keep t u))
  ]

  -- However the handler ends, be it by an error or by running out of time, and whatever the others
  -- did meanwhile that keeps the keys unique, the call does not leave the task owned by its own
  -- attempt, which did not own it before.
  pub process-not_owned :
      (task_id : Uuid) (acquired_at : Millis) (others : List JudgeTask → List JudgeTask)
      (t : List JudgeTask)
      → ((u : List JudgeTask) → IsUnique u → IsUnique (others u))
      → IsUnique t
      → owns task_id request_id t ≡ false
      → owns task_id request_id (process config request_id now task_id acquired_at others t).table
        ≡ false
  unfolding process
  process-not_owned task_id acquired_at others t keep u fresh =
      elim (acquire_lem task_id request_id acquired_at t u) [
        | inl (x, found, was_pending, got, row) ↦
            let same : (acquired request_id acquired_at x).id ≡ task_id =
              find_by_id-id task_id t x found in
            let done =
              run_acquired-not_owned others (acquired request_id acquired_at x)
                (acquire task_id request_id acquired_at t).1 keep
                (acquire-IsUnique task_id request_id acquired_at t u) in
            ground (arith, done, same, x.id)
        | inr (idle, same) ↦ ground (arith, same)
      ]

  -- A failure of an attempt that owns its task is retried exactly if the error allows it and the
  -- attempts are not used up: the task is then pending again with the attempts that it had, and
  -- the error is thrown on. Otherwise the task has failed and BullMQ is told not to retry.
  pub settle_failure_lem :
      (task : JudgeTask) (non_retryable : Bool) (reason : Text) (t : List JudgeTask)
      → IsUnique t
      → find_by_id task.id t ≡ some task
      → task.status ≡ processing
      → task.request_id ≡ some request_id
      → let r = settle_failure config request_id now task non_retryable reason t in
        (((non_retryable ≡ false)
            × (task.attempt < task.max_attempts)
            × (r.finish ≡ rethrown reason)
            × (find_by_id task.id r.table
                ≡ some (record task {
                  status = pending;
                  last_error = some reason;
                  request_id = none;
                  updated_at = now;
                })))
          ⊎ (((non_retryable ≡ true) ⊎ (task.max_attempts ≤ task.attempt))
              × (r.finish ≡ unrecoverable reason)
              × (find_by_id task.id r.table
                  ≡ some (record task {
                    status = JudgeTaskStatus.failed;
                    last_error = some reason;
                    updated_at = now;
                  }))))
  unfolding settle_failure settle_failed release fail
  settle_failure_lem task non_retryable reason t u found p q =
      let again =
        settle_lem task.id request_id
          (λ x. record x {
            status = pending;
            last_error = some reason;
            request_id = none;
            updated_at = now;
          })
          t (λ x. (refl, refl, refl)) u in
      let last =
        settle_lem task.id request_id
          (λ x. record x {
            status = JudgeTaskStatus.failed;
            last_error = some reason;
            updated_at = now;
          })
          t (λ x. (refl, refl, refl)) u in
      ground (arith, again, last, ==_refl request_id)

  settle_run-late :
      (task : JudgeTask) (h : HandlerResult) (t : List JudgeTask)
      → IsUnique t
      → owns task.id request_id t ≡ false
      → (settle_run config request_id now task h t).table ≡ t
  unfolding settle_run settle_success settle_failure settle_failed complete fail release
  settle_run-late task handled t u lost =
      ap (λ r. r.1) (settle_not_owned task.id request_id _ t (λ x. (refl, refl, refl)) u lost)
  settle_run-late task (threw non_retryable reason) t u lost =
      elim (Bool-cases (is_retryable task non_retryable)) [
        | inl again ↦ rw again (
            ap (λ r. r.1)
              (settle_not_owned task.id request_id _ t (λ x. (refl, refl, refl)) u lost))
        | inr last ↦ rw last (
            ap (λ r. r.1)
              (settle_not_owned task.id request_id _ t (λ x. (refl, refl, refl)) u lost))
      ]

  publish_lem :
      (task : JudgeTask) (handler : JudgeTaskHandler)
      → config.handlers task.kind ≡ some handler
      → (status : StageStatus)
      → publish config task status
        ≡ stage_of (policy_or_default handler.stage_reporting) task status
  unfolding publish reporting_of
  publish_lem task handler e status = rw (e, reporting_of)

  -- If there is a handler for the kind of the task, and the attempt lost the task while the handler
  -- ran, then its settlement changes no row of the tasks. Nevertheless it publishes the stages that the
  -- policy of the handler allows, and tells the listener that the task was completed, or that it failed
  -- if the failure is final, and ends as that result does. What the listener writes is not part of this.
  pub run_acquired_late :
      (others : List JudgeTask → List JudgeTask) (task : JudgeTask) (t : List JudgeTask)
      (handler : JudgeTaskHandler)
      → config.handlers task.kind ≡ some handler
      → IsUnique (others t)
      → owns task.id request_id (others t) ≡ false
      → let r = run_acquired config request_id now others task t in
        (r.table ≡ others t)
        × Report config.backoff_ms task
            (policy_or_default handler.stage_reporting)
            (run_with_timeout config (handler.handle task))
            r.events
            r.finish
  unfolding run_acquired settle_run settle_success settle_failure settle_failed retry_delay_ms
  run_acquired_late others task t handler e u lost =
      let done = run_with_timeout config (handler.handle task) in
      let same = settle_run-late task done (others t) u lost in
      let says = publish_lem task handler e in
      (
        rw (e, run_acquired) same,
        elim (handler_cases done) [
          | inl fine ↦
              rw (e, run_acquired, fine, says started, says StageStatus.completed) completes
          | inr (n, reason, thrown) ↦ elim (Bool-cases (is_retryable task n)) [
            | inl again ↦
                rw (e, run_acquired, thrown, again, says started, says retrying)
                  (retries n reason (ground arith) (ground arith))
            | inr last ↦
                rw (e, run_acquired, thrown, last, says started, says StageStatus.failed)
                  (gives_up n reason (ground arith))
          ]
        ],
      )
