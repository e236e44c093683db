-- ===== src/Judge/Worker.antt =====
-- The class JudgeTaskWorker of src/judge/judge-task.worker.ts: one call of `process`. What other
-- workers do to the table while the handler runs is the argument `others`; log lines and the text
-- of the stage messages are left out.
pub mod Settling
use heimdall_backend.Common.{
  ℕ, ◌+◌, ◌-◌, ◌*◌, ◌^◌, Bool, true, false, not, ◌&&◌, Option, none, some, List, [], ◌∷◌, ◌++◌, ltb,
  leb, if◌then◌else◌,
}
use heimdall_backend.Common.Text.{Text}
use heimdall_backend.Debate.Enums.{Uuid, Millis}
use heimdall_backend.Judge.Task.{JudgeTask, JudgeTaskKind, JudgeTaskStatus, status_eq}
use heimdall_backend.Judge.Tasks.{find_by_id, acquire, complete, fail, release}

-- DebateProcessingStageStatus
pub data StageStatus : Type 0 where
  started retrying completed failed : StageStatus

pub data TaskOutcome : Type 0 where
  completed failed : TaskOutcome

pub data SettlementOutcome : Type 0 where
  completed retry failed : SettlementOutcome

abbrev pub StageReportingPolicy : Type 0
StageReportingPolicy = StageStatus → JudgeTask → Bool

-- REPORT_ALL_STAGES and REPORT_FIRST_ATTEMPT_START_ONLY of judge-stage-reporting.ts.
unfoldable pub report_all_stages : StageReportingPolicy
report_all_stages status task = true

unfoldable pub report_first_attempt_start_only : StageReportingPolicy
report_first_attempt_start_only started task = leb task.attempt 1
report_first_attempt_start_only _ task = false

-- What came of `handler.handle`: an error says whether it is a NonRetryableTaskError.
pub data HandlerResult : Type 0 where
  handled : HandlerResult
  threw : Bool → Text → HandlerResult

-- A handler takes some time, or never comes back.
pub record HandlerRun : Type 0 where
  pub duration : Option Millis
  pub result : HandlerResult

pub record JudgeTaskHandler : Type 0 where
  pub stage_reporting : Option StageReportingPolicy
  pub handle : JudgeTask → HandlerRun

pub record WorkerConfig : Type 0 where
  pub handlers : JudgeTaskKind → Option JudgeTaskHandler
  pub job_timeout_ms : Millis
  pub backoff_ms : Millis
  pub timeout_reason : Text
  pub no_handler_reason : JudgeTaskKind → Text

pub data WorkerEvent : Type 0 where
  published : StageStatus → JudgeTask → WorkerEvent
  recorded : SettlementOutcome → JudgeTask → Option Millis → WorkerEvent
  notified : TaskOutcome → JudgeTask → WorkerEvent

-- How the call ends: BullMQ calls again after a backoff exactly if an ordinary error is thrown.
pub data Finish : Type 0 where
  returned : Finish
  rethrown : Text → Finish
  unrecoverable : Text → Finish

-- `table` is what the settlement leaves. `notified` is the call of the listener, which runs after it and
-- whose own writes are those of onTaskSettled.
pub record ProcessResult : Type 0 where
  pub table : List JudgeTask
  pub events : List WorkerEvent
  pub finish : Finish

unfoldable pub run_with_timeout : WorkerConfig → HandlerRun → HandlerResult
run_with_timeout config run = elim run.duration [
  | none ↦ threw false config.timeout_reason
  | some d ↦ if ltb d config.job_timeout_ms then run.result else threw false config.timeout_reason
]

-- Called with the attempt of an acquired task, which is at least 1.
unfoldable pub retry_delay_ms : WorkerConfig → ℕ → Millis
retry_delay_ms config attempt = config.backoff_ms * 2 ^ (attempt - 1)

abbrev pub policy_or_default : Option StageReportingPolicy → StageReportingPolicy
policy_or_default none = report_all_stages
policy_or_default (some p) = p

unfoldable pub reporting_of : WorkerConfig → JudgeTaskKind → StageReportingPolicy
unfolding report_all_stages
reporting_of config kind = elim (config.handlers kind) [
  | none ↦ report_all_stages
  | some h ↦ policy_or_default h.stage_reporting
]

unfoldable pub publish : WorkerConfig → JudgeTask → StageStatus → List WorkerEvent
unfolding reporting_of
publish config task status =
    if reporting_of config task.kind status task then published status task ∷ [] else []

abbrev pub is_retryable : JudgeTask → Bool → Bool
is_retryable task non_retryable = not non_retryable && ltb task.attempt task.max_attempts

module _ (config : WorkerConfig) (request_id : Uuid) (now : Millis) where
  unfoldable pub settle_failed : JudgeTask → Text → List JudgeTask → ProcessResult
  settle_failed task reason t = record {
    table = (fail task.id request_id reason now t).1;
    events =
        recorded SettlementOutcome.failed task none ∷ publish config task StageStatus.failed
        ++ notified TaskOutcome.failed task ∷ [];
    finish = unrecoverable reason;
  }

  unfoldable pub settle_failure : JudgeTask → Bool → Text → List JudgeTask → ProcessResult
  settle_failure task non_retryable reason t =
      if is_retryable task non_retryable
      then record {
        table = (release task.id request_id reason now t).1;
        events =
            recorded SettlementOutcome.retry task (some (retry_delay_ms config task.attempt))
            ∷ publish config task StageStatus.retrying;
        finish = rethrown reason;
      }
      else settle_failed task reason t

  unfoldable pub settle_success : JudgeTask → List JudgeTask → ProcessResult
  settle_success task t = record {
    table = (complete task.id request_id now t).1;
    events =
        recorded SettlementOutcome.completed task none ∷ publish config task StageStatus.completed
        ++ notified TaskOutcome.completed task ∷ [];
    finish = returned;
  }

  unfoldable pub settle_run : JudgeTask → HandlerResult → List JudgeTask → ProcessResult
  settle_run task handled t = settle_success task t
  settle_run task (threw non_retryable reason) t = settle_failure task non_retryable reason t

  -- `before` was published before the handler ran.
  abbrev pub after_events : List WorkerEvent → ProcessResult → ProcessResult
  after_events before r = record r { events = before ++ r.events }

  -- The part of `process` after the task was acquired.
  unfoldable pub run_acquired :
      (List JudgeTask → List JudgeTask) → JudgeTask → List JudgeTask → ProcessResult
  run_acquired others task t = elim (config.handlers task.kind) [
    | none ↦ settle_failed task (config.no_handler_reason task.kind) (others t)
    | some handler ↦
        after_events (publish config task StageStatus.started)
          (settle_run task (run_with_timeout config (handler.handle task)) (others t))
  ]

  unfoldable pub process :
      Uuid → Millis → (List JudgeTask → List JudgeTask) → List JudgeTask → ProcessResult
  process task_id acquired_at others t =
      let nothing : ProcessResult = record { table = t; events = []; finish = returned } in
      elim (find_by_id task_id t) [
        | none ↦ nothing
        | some task ↦
            if status_eq task.status JudgeTaskStatus.completed
            then nothing
            else let (got, t') = acquire task_id request_id acquired_at t in
              elim got [
                | none ↦ record { table = t'; events = []; finish = returned }
                | some acquired ↦ run_acquired others acquired t'
              ]
      ]
