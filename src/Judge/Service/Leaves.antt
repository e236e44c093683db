-- ===== src/Judge/Service/Leaves.antt =====
-- What the parts of the calls of JudgeService (src/judge/judge.service.ts) do to the tables.
use heimdall_backend.Common.{
  ℕ, suc, List, [], ◌∷◌, ok, err, Result, Result-cases, Option-cases, Bool-cases, inl, inr, ltb,
  is_some, ◌&&◌, not,
}
use heimdall_backend.Database.{Database, find_debate}
use heimdall_backend.Debate.Enums.{Uuid}
use heimdall_backend.Debate.Rows.{Debate, DebateMessage}
use heimdall_backend.Debate.Turns.{resolve_side, resolve_speakers}
use heimdall_backend.Judge.Task.{JudgeTaskKind, analyzer, judge}
use heimdall_backend.Judge.Tasks.{find_by_target}
use heimdall_backend.Judge.Tasks.Counts.{CountsByKind, count_by_kind}
use heimdall_backend.Judge.Queue.{JobQueue, schedule}
use heimdall_backend.Judge.Rows.{DebateJudgmentResult}
use heimdall_backend.Judge.Results.{fail_judgment}
use heimdall_backend.Judge.Service.{
  ServiceEnv, ServiceDraw, ServiceError, World, and_then, close_judgment, schedule_task,
  prepare_judge, start_if_ready, try_start_judge, resume_turns, apply_failure, is_waiting,
  is_judgeable, is_completed, is_analyzable,
}
use heimdall_backend.Judge.Service.Requests.{as_participant, throw_readiness, restart}
use heimdall_backend.Judge.Service.History.{Reaches, next, starts, fails, restores, tasks}

module _ (q : JobQueue) (base : Database) where
  -- The tables that a call leaves are reached from the base.
  abbrev pub Leaves {ℓ} : {A : Type ℓ} → Result ServiceError A × World q → Type 0
  Leaves call = Reaches base call.1.db

  pub and_then-Leaves {ℓ κ} :
      {A : Type ℓ} {B : Type κ} (call : Result ServiceError A × World q)
      (following : A → World q → Result ServiceError B × World q)
      → Leaves call
      → ((a : A) (w : World q) → Reaches base w.db → Leaves (following a w))
      → Leaves (and_then call following)
  and_then-Leaves (ok a, w) following r f = f a w r
  and_then-Leaves (err e, w) following r f = r

  module _ (env : ServiceEnv) (draw : ServiceDraw) where
    pub close_judgment-Leaves :
        (debate : Debate) (w : World q)
        → Reaches base w.db
        → Leaves (close_judgment q env draw debate w)
    unfolding close_judgment
    close_judgment-Leaves debate w r =
        elim (Result-cases
          (fail_judgment debate.id (apply_failure env draw debate) draw.db_now w.db)) [
            | inr (e, refused) ↦ rw (refused, close_judgment) r
            | inl ((moved, db), done) ↦
                rw (done, close_judgment) (next r (fails env draw debate w.db done))
          ]

    pub schedule_task-Leaves :
        (debate_id : Uuid) (kind : JudgeTaskKind) (target_id : Uuid) (w : World q)
        → Reaches base w.db
        → Leaves (schedule_task q env draw debate_id kind target_id w)
    unfolding schedule_task
    schedule_task-Leaves debate_id kind target_id w r =
        elim (Result-cases (
          schedule q env.max_attempts (draw.task_id kind target_id) draw.db_now debate_id kind
            target_id w.db.tasks w.jobs)) [
              | inr (e, refused) ↦ rw (refused, schedule_task) r
              | inl ((task, t, jobs), done) ↦ rw (done, schedule_task) (next r (tasks t w.db))
            ]

    pub prepare_judge-Leaves :
        (debate_id : Uuid) (w : World q)
        → Reaches base w.db
        → Leaves (prepare_judge q env draw debate_id w)
    unfolding prepare_judge
    prepare_judge-Leaves debate_id w r =
        and_then-Leaves (schedule_task q env draw debate_id judge debate_id w) _
          (schedule_task-Leaves debate_id judge debate_id w r)
          (λ done w' r'. next r' (starts debate_id draw.db_now w'.db))

    pub start_if_ready-Leaves :
        (debate : Debate) (counts : CountsByKind) (w : World q)
        → Reaches base w.db
        → Leaves (start_if_ready q env draw debate counts w)
    unfolding start_if_ready
    start_if_ready-Leaves debate counts w r = elim (Bool-cases (ltb 0 counts.analyzer.failed)) [
      | inl failed ↦ rw failed (
          and_then-Leaves (close_judgment q env draw debate w) _ (close_judgment-Leaves debate w r)
            (λ done w' r'. r'))
      | inr fine ↦ elim (Bool-cases (is_waiting counts)) [
        | inl waits ↦ rw (fine, waits) r
        | inr ready ↦ rw (fine, ready) (prepare_judge-Leaves debate.id w r)
      ]
    ]

    pub try_start_judge-Leaves :
        (debate_id : Uuid) (w : World q)
        → Reaches base w.db
        → Leaves (try_start_judge q env draw debate_id w)
    unfolding try_start_judge
    try_start_judge-Leaves debate_id w r = elim (Option-cases (find_debate debate_id w.db)) [
      | inl missing ↦ rw (missing, try_start_judge) r
      | inr (debate, found) ↦ elim (Bool-cases (is_completed debate.debate_status)) [
        | inl over ↦ rw (found, try_start_judge, over) r
        | inr open_ ↦ elim (Bool-cases (is_judgeable debate.debate_status)) [
          | inl judgeable ↦
              rw (found, try_start_judge, open_, judgeable)
                (start_if_ready-Leaves debate (count_by_kind debate_id w.db.tasks) w r)
          | inr early ↦ rw (found, try_start_judge, open_, early) r
        ]
      ]
    ]

    pub resume_turns-Leaves :
        (debate_id : Uuid) (turns : List DebateMessage) (n : ℕ) (w : World q)
        → Reaches base w.db
        → Leaves (resume_turns q env draw debate_id turns n w)
    unfolding resume_turns
    resume_turns-Leaves debate_id [] n w r = r
    resume_turns-Leaves debate_id (turn ∷ turns) n w r =
        elim (Bool-cases
          (is_analyzable turn && not (is_some (find_by_target analyzer turn.id w.db.tasks)))) [
            | inr skip ↦ rw skip (resume_turns-Leaves debate_id turns n w r)
            | inl due ↦ rw due (
                and_then-Leaves (schedule_task q env draw debate_id analyzer turn.id w) _
                  (schedule_task-Leaves debate_id analyzer turn.id w r)
                  (λ done w' r'. resume_turns-Leaves debate_id turns (suc n) w' r'))
          ]

    pub throw_readiness-Leaves :
        (debate_id : Uuid) (w : World q)
        → Reaches base w.db
        → Leaves
            (throw_readiness {A = DebateJudgmentResult} (try_start_judge q env draw debate_id w))
    unfolding throw_readiness
    throw_readiness-Leaves debate_id w r =
        and_then-Leaves (try_start_judge q env draw debate_id w) _
          (try_start_judge-Leaves debate_id w r) (λ readiness w' r'. r')

    pub restart-Leaves :
        (debate_id : Uuid) (w : World q)
        → Reaches base w.db
        → Leaves (restart q env draw debate_id w)
    unfolding restart
    restart-Leaves debate_id w r =
        throw_readiness-Leaves debate_id _
          (next (next r (restores debate_id draw.db_now w.db)) (tasks _ _))

    pub as_participant-Leaves {ℓ} :
        {A : Type ℓ} (debate_id member_id : Uuid)
        (following : Debate → World q → Result ServiceError A × World q) (w : World q)
        → Reaches base w.db
        → ((debate : Debate) → Leaves (following debate w))
        → Leaves (as_participant debate_id member_id following w)
    as_participant-Leaves debate_id member_id following w r f =
        elim (Option-cases (find_debate debate_id w.db)) [
          | inl missing ↦ rw (missing, as_participant) r
          | inr (debate, found) ↦
              elim (Bool-cases (is_some (resolve_side (resolve_speakers debate) member_id))) [
                | inl speaks ↦ rw (found, as_participant, speaks) (f debate)
                | inr stranger ↦ rw (found, as_participant, stranger) r
              ]
        ]
