-- ===== src/Judge/Service/Ended.antt =====
-- The class JudgeService (src/judge/judge.service.ts) and a debate that ended without a judgment: by a
-- forfeit, or with a silent side.
use heimdall_backend.Common.{
  ◌≡◌, ◌≢◌, true, false, some, ok, arith, Bool-cases, inl, inr, is_some, any,
}
use heimdall_backend.Database.{find_debate}
use heimdall_backend.Debate.Enums.{Uuid, DebateStatus, judgment_failed}
use heimdall_backend.Debate.Rows.{Debate, DebateChatTurn}
use heimdall_backend.Debate.Turns.{resolve_speakers, resolve_side}
use heimdall_backend.Judge.Task.{JudgeTask, judge, kind_eq}
use heimdall_backend.Judge.Results.{find_judgment}
use heimdall_backend.Judge.Queue.{JobQueue}
use heimdall_backend.Judge.Worker.{TaskOutcome}
use heimdall_backend.Judge.Service.{
  ServiceEnv, ServiceDraw, World, JudgeReadiness, try_start_judge, on_debate_ended, on_task_settled,
  on_turn_finalized,
}
use heimdall_backend.Judge.Service.Requests.{
  request_start, request_judgment, retry_judgment, as_participant, retry_as_participant,
  is_ended_unjudged,
}
use heimdall_backend.Judge.Service.History.{has_ended, find_row}
use heimdall_backend.Judge.Service.Steps.{service_calls-keep_end}

module _ (q : JobQueue) (env : ServiceEnv) (draw : ServiceDraw) (debate_id member_id : Uuid)
    (w : World q) (d : Debate) (found : find_debate debate_id w.db ≡ some d)
    (failed : d.debate_status ≡ some DebateStatus.failed)
    (unjudged : d.end_reason ≢ some judgment_failed) where
  not_startable : try_start_judge q env draw debate_id w ≡ (ok JudgeReadiness.not_finalized, w)
  unfolding any try_start_judge
  not_startable = rw (found, try_start_judge, failed)

  is_unjudged : is_ended_unjudged d ≡ true
  unfolding any
  is_unjudged = ground arith

  request_start_idle : (request_start q env draw debate_id member_id w).1 ≡ w
  unfolding request_start
  request_start_idle = elim (Bool-cases (is_some (resolve_side (resolve_speakers d) member_id))) [
    | inl speaks ↦ rw (found, as_participant, speaks, not_startable)
    | inr stranger ↦ rw (found, as_participant, stranger)
  ]

  retry_judgment_idle : (retry_judgment q env draw debate_id member_id w).1 ≡ w
  unfolding retry_judgment retry_as_participant
  retry_judgment_idle = elim (Bool-cases (is_some (resolve_side (resolve_speakers d) member_id))) [
    | inr stranger ↦ rw (found, as_participant, stranger)
    | inl speaks ↦ elim (Bool-cases (is_some (find_judgment debate_id w.db))) [
      | inl there ↦ rw (found, as_participant, speaks, there)
      | inr none_there ↦ rw (found, as_participant, speaks, none_there, is_unjudged)
    ]
  ]

  task_settled_idle :
      (task : JudgeTask) (outcome : TaskOutcome)
      → task.debate_id ≡ debate_id
      → task.kind ≢ judge
      → (on_task_settled q env draw task outcome w).1 ≡ w
  unfolding on_task_settled
  task_settled_idle task outcome same other =
      let not_judge : kind_eq task.kind judge ≡ false = ground arith in
      rw (not_judge, same, not_startable)

  -- A debate that was forfeited or ended by silence is not taken up again. When it ends, when one of its
  -- analyses or fact checks is settled, and when a member asks for a start or for a retry, the call
  -- leaves tables, queue and rooms as they were. A request for a judgment and the hook of a turn, which
  -- may schedule analyses, keep the row of the debate.
  pub ended_unjudged_stays :
      (turn : DebateChatTurn) (task : JudgeTask) (outcome : TaskOutcome)
      → task.debate_id ≡ debate_id
      → task.kind ≢ judge
      → find_row debate_id w.db ≡ some d
      → ((on_debate_ended q env draw debate_id w).1 ≡ w)
        × ((on_task_settled q env draw task outcome w).1 ≡ w)
        × ((request_start q env draw debate_id member_id w).1 ≡ w)
        × ((retry_judgment q env draw debate_id member_id w).1 ≡ w)
        × (find_row debate_id (request_judgment q env draw debate_id member_id w).1.db ≡ some d)
        × (find_row debate_id (on_turn_finalized q env draw turn w).1.db ≡ some d)
  unfolding on_debate_ended
  ended_unjudged_stays turn task outcome same other row =
      let ended : has_ended d ≡ true = ground (arith, is_unjudged) in
      let (finalized, _, _, _, requested, _) =
        service_calls-keep_end q env draw debate_id member_id turn task outcome w debate_id d ended
          row in
      (
        rw not_startable,
        task_settled_idle task outcome same other,
        request_start_idle,
        retry_judgment_idle,
        requested,
        finalized,
      )
