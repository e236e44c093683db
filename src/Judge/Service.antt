-- ===== src/Judge/Service.antt =====
-- The class JudgeService of src/judge/judge.service.ts. A call returns its result or what it throws, and
-- the world that it leaves: an exception undoes no statement that was committed before it. Log lines
-- and the rendering of a judgment's texts are left out.
pub mod Requests
pub mod Readiness
pub mod Again
pub mod History
pub mod Leaves
pub mod Steps
pub mod Retrying
pub mod Ended
use heimdall_backend.Common.{
  ℕ, suc, ◌+◌, ◌*◌, Bool, not, ◌&&◌, ◌||◌, Option, none, some, List, [], ◌∷◌, ◌++◌, ◌==◌, ltb,
  if◌then◌else◌, Result, ok, err, is_some,
}
use heimdall_backend.Common.Text.{Text, trim, is_empty}
use heimdall_backend.Common.Tables.{find_by, sort_by}
use heimdall_backend.Database.{Database, find_debate}
use heimdall_backend.Debate.Enums.{
  Uuid, Millis, DebateStatus, judgment_failed, DebateOutcome, DebateOutcomeKind,
}
use heimdall_backend.Debate.Rows.{Debate, DebateMessage, DebateChatTurn}
use heimdall_backend.Debate.Turns.{get_or}
use heimdall_backend.Outcomes.{Wording, MessageDraw, apply_within, announce, RoomEvent}
use heimdall_backend.Judge.Task.{JudgeTask, JudgeTaskKind, analyzer, fact_check, judge, kind_eq}
use heimdall_backend.Judge.Tasks.{find_by_target}
use heimdall_backend.Judge.Tasks.Counts.{count_by_kind, CountsByKind}
use heimdall_backend.Judge.Queue.{JobQueue, schedule}
use heimdall_backend.Judge.Worker.{TaskOutcome}
use heimdall_backend.Judge.Results.{
  ResultError, rolled_back, fail_judgment, start_judging, status_in, judgeable_statuses,
}
use heimdall_backend.Judge.Request.{is_message_of, is_earlier}

pub data JudgeReadiness : Type 0 where
  started not_finalized already_completed analyzer_failed in_progress : JudgeReadiness

-- JudgeErrorCode, and what the services that are called throw.
pub data ServiceError : Type 0 where
  not_finalized in_progress already_completed processing_failed retry_not_ready nothing_to_retry
        result_not_ready forbidden debate_not_found unexpected :
      ServiceError

-- The configuration of the pipeline, and the fixed words of the system messages.
pub record ServiceEnv : Type 0 where
  pub max_attempts : JudgeTaskKind → ℕ
  pub judge_retry_cooldown_seconds : ℕ
  pub wording : Wording

-- What one call draws: the id of a new task for a target, the instants that it reads on the clocks of
-- the database and of the application, and those of a system message.
pub record ServiceDraw : Type 0 where
  pub task_id : JudgeTaskKind → Uuid → Uuid
  pub db_now : Millis
  pub app_now : Millis
  pub message : MessageDraw

-- The tables, the jobs that wait, and what was sent to the rooms.
pub record World (q : JobQueue) : Type 0 where
  pub db : Database
  pub jobs : q.Jobs
  pub events : List RoomEvent

-- RETRYABLE_KINDS
abbrev pub retryable_kinds : List JudgeTaskKind
retryable_kinds = analyzer ∷ judge ∷ []

unfoldable pub failure_of : Debate → DebateOutcome
failure_of debate = record {
  debate_id = debate.id;
  community_id = debate.community_id;
  kind = DebateOutcomeKind.judgment_failed;
  status = DebateStatus.failed;
  reason = some judgment_failed;
  winner_id = none;
}

-- The function that the service passes as `withinTransaction`.
unfoldable pub apply_failure :
    ServiceEnv → ServiceDraw → Debate → Database → Result ResultError Database
unfolding failure_of
apply_failure env draw debate db =
    elim (apply_within env.wording draw.message (failure_of debate) db) [
      | ok after ↦ ok after
      | err e ↦ err rolled_back
    ]

-- `turn.body ?? ''` with nothing but white space.
abbrev pub is_blank : Option Text → Bool
is_blank body = is_empty (trim (get_or body []))

abbrev pub is_judgeable : Option DebateStatus → Bool
is_judgeable = status_in judgeable_statuses

abbrev pub is_completed : Option DebateStatus → Bool
is_completed = status_in (DebateStatus.completed ∷ [])

-- `await call`, and then what follows it.
abbrev pub and_then {ℓ κ} :
    {A : Type ℓ} {B : Type κ} {q : JobQueue}
    → Result ServiceError A × World q
    → (A → World q → Result ServiceError B × World q)
    → Result ServiceError B × World q
and_then (ok a, w) next = next a w
and_then (err e, w) next = (err e, w)

abbrev pub is_waiting : CountsByKind → Bool
is_waiting counts =
    ltb 0 (counts.analyzer.pending + counts.analyzer.processing)
    || ltb 0 (counts.fact_check.pending + counts.fact_check.processing)

abbrev pub is_analyzable : DebateMessage → Bool
is_analyzable turn = is_some turn.sequence && not (is_blank turn.body)

-- The rows that `resumeAnalyzers` reads.
unfoldable pub analyzable_turns : Uuid → Database → List DebateMessage
analyzable_turns debate_id db =
    sort_by is_earlier (find_by (is_message_of debate_id) db.debate_messages)

module _ (q : JobQueue) (env : ServiceEnv) (draw : ServiceDraw) where
  -- The private method of the service.
  unfoldable pub close_judgment : Debate → World q → Result ServiceError (Unit {0}) × World q
  unfolding apply_failure
  close_judgment debate w =
      elim (fail_judgment debate.id (apply_failure env draw debate) draw.db_now w.db) [
        | err e ↦ (err unexpected, w)
        | ok (moved, db) ↦ (
          ok tt,
          record w {
            db = db;
            events = if moved then w.events ++ announce (failure_of debate) db else w.events;
          },
        )
      ]

  -- `queue.schedule`
  unfoldable pub schedule_task :
      Uuid → JudgeTaskKind → Uuid → World q → Result ServiceError (Unit {0}) × World q
  schedule_task debate_id kind target_id w =
      elim (schedule q env.max_attempts (draw.task_id kind target_id) draw.db_now debate_id kind
        target_id w.db.tasks w.jobs) [
          | err e ↦ (err unexpected, w)
          | ok (task, tasks, jobs) ↦
              (ok tt, record w { db = record w.db { tasks = tasks }; jobs = jobs })
        ]

  unfoldable pub on_turn_finalized :
      DebateChatTurn → World q → Result ServiceError (Unit {0}) × World q
  on_turn_finalized turn w =
      if is_empty (trim turn.content)
      then (ok tt, w)
      else schedule_task turn.debate_id analyzer turn.id w

  -- The last step of `tryStartJudge`.
  unfoldable pub prepare_judge : Uuid → World q → Result ServiceError JudgeReadiness × World q
  prepare_judge debate_id w = and_then (schedule_task debate_id judge debate_id w) λ done w'.
      (ok JudgeReadiness.started, record w' { db = (start_judging debate_id draw.db_now w'.db).1 })

  -- `tryStartJudge` of a debate that may be judged.
  unfoldable pub start_if_ready :
      Debate → CountsByKind → World q → Result ServiceError JudgeReadiness × World q
  start_if_ready debate counts w =
      if ltb 0 counts.analyzer.failed
      then and_then (close_judgment debate w) (λ done w'. (ok JudgeReadiness.analyzer_failed, w'))
      else if is_waiting counts
      then (ok JudgeReadiness.in_progress, w)
      else prepare_judge debate.id w

  unfoldable pub try_start_judge : Uuid → World q → Result ServiceError JudgeReadiness × World q
  try_start_judge debate_id w = elim (find_debate debate_id w.db) [
    | none ↦ (err debate_not_found, w)
    | some debate ↦
        if is_completed debate.debate_status
        then (ok JudgeReadiness.already_completed, w)
        else if is_judgeable debate.debate_status
        then start_if_ready debate (count_by_kind debate_id w.db.tasks) w
        else (ok JudgeReadiness.not_finalized, w)
  ]

  unfoldable pub on_debate_ended : Uuid → World q → Result ServiceError (Unit {0}) × World q
  on_debate_ended debate_id w = and_then (try_start_judge debate_id w) (λ readiness w'. (ok tt, w'))

  -- The part of `onTaskSettled` for a task of the judge.
  unfoldable pub judge_settled :
      JudgeTask → TaskOutcome → World q → Result ServiceError (Unit {0}) × World q
  judge_settled task TaskOutcome.completed w = (ok tt, w)
  judge_settled task TaskOutcome.failed w = elim (find_debate task.debate_id w.db) [
    | none ↦ (err debate_not_found, w)
    | some debate ↦ close_judgment debate w
  ]

  unfoldable pub on_task_settled :
      JudgeTask → TaskOutcome → World q → Result ServiceError (Unit {0}) × World q
  on_task_settled task outcome w =
      if kind_eq task.kind judge
      then judge_settled task outcome w
      else and_then (try_start_judge task.debate_id w) (λ readiness w'. (ok tt, w'))

  -- The loop of `resumeAnalyzers`, with the number that was scheduled so far.
  unfoldable pub resume_turns :
      Uuid → List DebateMessage → ℕ → World q → Result ServiceError ℕ × World q
  resume_turns debate_id [] scheduled w = (ok scheduled, w)
  resume_turns debate_id (turn ∷ turns) scheduled w =
      let skip = resume_turns debate_id turns scheduled w in
      if is_analyzable turn && not (is_some (find_by_target analyzer turn.id w.db.tasks))
      then and_then (schedule_task debate_id analyzer turn.id w)
          (λ done w'. resume_turns debate_id turns (suc scheduled) w')
      else skip

  unfoldable pub resume_analyzers : Uuid → World q → Result ServiceError ℕ × World q
  unfolding analyzable_turns
  resume_analyzers debate_id w = resume_turns debate_id (analyzable_turns debate_id w.db) 0 w
