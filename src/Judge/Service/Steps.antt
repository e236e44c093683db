-- ===== src/Judge/Service/Steps.antt =====
-- Every call of the class JudgeService (src/judge/judge.service.ts) is a sequence of steps of the
-- pipeline, also when it ends with an exception, and so keeps the end of a debate.
use heimdall_backend.Common.{
  ℕ, ◌≡◌, true, some, sym, subst, List, arith, Option-cases, Bool-cases, inl, inr, is_some,
}
use heimdall_backend.Database.{Database, find_debate}
use heimdall_backend.Debate.Enums.{Uuid}
use heimdall_backend.Debate.Rows.{Debate, DebateChatTurn}
use heimdall_backend.Common.Text.{trim, is_empty}
use heimdall_backend.Judge.Task.{JudgeTask, analyzer, judge, kind_eq}
use heimdall_backend.Judge.Tasks.{find_failed}
use heimdall_backend.Judge.Queue.{JobQueue}
use heimdall_backend.Judge.Worker.{TaskOutcome}
use heimdall_backend.Judge.Results.{find_judgment}
use heimdall_backend.Judge.Service.{
  ServiceEnv, ServiceDraw, World, JudgeReadiness, and_then, try_start_judge, resume_analyzers,
  analyzable_turns, judge_settled, on_debate_ended, on_task_settled, on_turn_finalized,
  retryable_kinds,
}
use heimdall_backend.Judge.Service.Requests.{
  retry_resumed, retry_as_participant, judge_or_resume, request_start, reread, retry_judgment,
  request_judgment, is_ended_unjudged, is_nothing, is_cooled_down,
}
use heimdall_backend.Judge.Service.History.{Reaches, here, has_ended, find_row, Reaches-keeps_end}
use heimdall_backend.Judge.Service.Leaves.{
  Leaves, and_then-Leaves, close_judgment-Leaves, schedule_task-Leaves, try_start_judge-Leaves,
  resume_turns-Leaves, throw_readiness-Leaves, restart-Leaves, as_participant-Leaves,
}

module _ (q : JobQueue) (base : Database) (env : ServiceEnv) (draw : ServiceDraw) where
  retry_resumed-Leaves :
      (debate_id : Uuid) (failed : List JudgeTask) (missing : ℕ) (w : World q)
      → Reaches base w.db
      → Leaves q base (retry_resumed q env draw debate_id failed missing w)
  unfolding retry_resumed
  retry_resumed-Leaves debate_id failed missing w r =
      elim (Bool-cases (is_nothing failed missing)) [
        | inl nothing ↦ rw nothing r
        | inr some_work ↦ elim (Bool-cases (is_cooled_down env draw.app_now failed)) [
          | inl cool ↦ rw (some_work, cool) (restart-Leaves q base env draw debate_id w r)
          | inr hot ↦ rw (some_work, hot) r
        ]
      ]

  retry_as_participant-Leaves :
      (debate_id : Uuid) (debate : Debate) (w : World q)
      → Reaches base w.db
      → Leaves q base (retry_as_participant q env draw debate_id debate w)
  unfolding retry_as_participant resume_analyzers
  retry_as_participant-Leaves debate_id debate w r =
      elim (Bool-cases (is_some (find_judgment debate_id w.db))) [
        | inl judged ↦ rw judged r
        | inr unjudged ↦ elim (Bool-cases (is_ended_unjudged debate)) [
          | inl ended ↦ rw (unjudged, ended) r
          | inr open_ ↦
              rw (unjudged, open_)
                (and_then-Leaves q base (resume_analyzers q env draw debate_id w) _
                  (resume_turns-Leaves q base env draw debate_id (analyzable_turns debate_id w.db) 0
                    w r)
                  (retry_resumed-Leaves debate_id
                    (find_failed debate_id retryable_kinds w.db.tasks)))
        ]
      ]

  judge_or_resume-Leaves :
      (debate_id : Uuid) (debate : Debate) (w : World q)
      → Reaches base w.db
      → Leaves q base (judge_or_resume q env draw debate_id debate w)
  unfolding judge_or_resume resume_analyzers
  judge_or_resume-Leaves debate_id debate w r = elim (Option-cases (find_judgment debate_id w.db)) [
    | inr (judgment, judged) ↦ rw (judged, judge_or_resume) r
    | inl unjudged ↦
        rw (unjudged, judge_or_resume)
          (and_then-Leaves q base (resume_analyzers q env draw debate_id w) _
            (resume_turns-Leaves q base env draw debate_id (analyzable_turns debate_id w.db) 0 w r)
            (λ scheduled w' r'. throw_readiness-Leaves q base env draw debate_id w' r'))
  ]

  -- The listener, for a task of the judge.
  judge_settled-Leaves :
      (task : JudgeTask) (outcome : TaskOutcome) (w : World q)
      → Reaches base w.db
      → Leaves q base (judge_settled q env draw task outcome w)
  unfolding judge_settled
  judge_settled-Leaves task TaskOutcome.completed w r = r
  judge_settled-Leaves task TaskOutcome.failed w r =
      elim (Option-cases (find_debate task.debate_id w.db)) [
        | inl missing ↦ rw (missing, judge_settled) r
        | inr (debate, found) ↦
            rw (found, judge_settled) (close_judgment-Leaves q base env draw debate w r)
      ]

  on_task_settled-Leaves :
      (task : JudgeTask) (outcome : TaskOutcome) (w : World q)
      → Reaches base w.db
      → Leaves q base (on_task_settled q env draw task outcome w)
  unfolding on_task_settled
  on_task_settled-Leaves task outcome w r = elim (Bool-cases (kind_eq task.kind judge)) [
    | inr other ↦ rw other (
        and_then-Leaves q base (try_start_judge q env draw task.debate_id w) _
          (try_start_judge-Leaves q base env draw task.debate_id w r) (λ readiness w' r'. r'))
    | inl of_judge ↦ rw of_judge (judge_settled-Leaves task outcome w r)
  ]

  turn_finalized-Leaves :
      (turn : DebateChatTurn) (w : World q)
      → Reaches base w.db
      → Leaves q base (on_turn_finalized q env draw turn w)
  unfolding on_turn_finalized
  turn_finalized-Leaves turn w r = elim (Bool-cases (is_empty (trim turn.content))) [
    | inl blank ↦ rw blank r
    | inr said ↦ rw said (schedule_task-Leaves q base env draw turn.debate_id analyzer turn.id w r)
  ]

  -- Reading the debate again changes nothing.
  reread-same :
      (debate_id : Uuid) (readiness : JudgeReadiness) (w : World q)
      → (reread q env draw debate_id readiness w).1 ≡ w
  reread-same debate_id readiness w = ground (arith, Option-cases (find_debate debate_id w.db))

  reread-Leaves :
      (debate_id : Uuid) (readiness : JudgeReadiness) (w : World q)
      → Reaches base w.db
      → Leaves q base (reread q env draw debate_id readiness w)
  reread-Leaves debate_id readiness w r =
      subst (λ w'. Reaches base w'.db) (sym (reread-same debate_id readiness w)) r

service_calls-Reaches :
    (q : JobQueue) (env : ServiceEnv) (draw : ServiceDraw) (debate_id member_id : Uuid)
    (turn : DebateChatTurn) (task : JudgeTask) (outcome : TaskOutcome) (w : World q)
    → Reaches w.db (on_turn_finalized q env draw turn w).1.db
      × Reaches w.db (on_debate_ended q env draw debate_id w).1.db
      × Reaches w.db (on_task_settled q env draw task outcome w).1.db
      × Reaches w.db (request_start q env draw debate_id member_id w).1.db
      × Reaches w.db (request_judgment q env draw debate_id member_id w).1.db
      × Reaches w.db (retry_judgment q env draw debate_id member_id w).1.db
unfolding on_turn_finalized on_debate_ended request_start request_judgment retry_judgment
service_calls-Reaches q env draw debate_id member_id turn task outcome w =
    let started = try_start_judge-Leaves q w.db env draw debate_id w here in
    (
      turn_finalized-Leaves q w.db env draw turn w here,
      and_then-Leaves q w.db (try_start_judge q env draw debate_id w) _ started
          (λ readiness w' r. r),
      on_task_settled-Leaves q w.db env draw task outcome w here,
      as_participant-Leaves q w.db env draw debate_id member_id
          (λ debate w'.
            and_then (try_start_judge q env draw debate_id w') (reread q env draw debate_id))
          w here
          (λ debate.
            and_then-Leaves q w.db (try_start_judge q env draw debate_id w)
              (reread q env draw debate_id) started
              (λ readiness w' r. reread-Leaves q w.db env draw debate_id readiness w' r)),
      as_participant-Leaves q w.db env draw debate_id member_id
          (judge_or_resume q env draw debate_id) w here
          (λ debate. judge_or_resume-Leaves q w.db env draw debate_id debate w here),
      as_participant-Leaves q w.db env draw debate_id member_id
          (retry_as_participant q env draw debate_id) w here
          (λ debate. retry_as_participant-Leaves q w.db env draw debate_id debate w here),
    )

-- A debate that was judged, forfeited or ended by silence keeps its row as it is, the winner and the
-- reason included, in every call of the service that changes tables, whatever the call answers or
-- throws, and whatever debate it is about: the two hooks of the chat, the listener of the worker, and
-- the requests for a start, for a judgment and for a retry.
pub service_calls-keep_end :
    (q : JobQueue) (env : ServiceEnv) (draw : ServiceDraw) (debate_id member_id : Uuid)
    (turn : DebateChatTurn) (task : JudgeTask) (outcome : TaskOutcome) (w : World q) (id : Uuid)
    (d : Debate)
    → has_ended d ≡ true
    → find_row id w.db ≡ some d
    → (find_row id (on_turn_finalized q env draw turn w).1.db ≡ some d)
      × (find_row id (on_debate_ended q env draw debate_id w).1.db ≡ some d)
      × (find_row id (on_task_settled q env draw task outcome w).1.db ≡ some d)
      × (find_row id (request_start q env draw debate_id member_id w).1.db ≡ some d)
      × (find_row id (request_judgment q env draw debate_id member_id w).1.db ≡ some d)
      × (find_row id (retry_judgment q env draw debate_id member_id w).1.db ≡ some d)
service_calls-keep_end q env draw debate_id member_id turn task outcome w id d ended found =
    let (finalized, over, settled, started, requested, retried) =
      service_calls-Reaches q env draw debate_id member_id turn task outcome w in
    let keep : (after : Database) → Reaches w.db after → find_row id after ≡ some d =
      λ after r. Reaches-keeps_end id d ended r found in
    (
      keep _ finalized,
      keep _ over,
      keep _ settled,
      keep _ started,
      keep _ requested,
      keep _ retried,
    )
