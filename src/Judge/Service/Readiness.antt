-- ===== src/Judge/Service/Readiness.antt =====
-- When tryStartJudge of src/judge/judge.service.ts starts the judgment.
use heimdall_backend.Common.{
  ℕ, ◌≡◌, ◌↔◌, true, false, some, List, ok, arith, Result-cases, Bool-cases, inl, inr, length, any,
  ltb,
}
use heimdall_backend.Common.Tables.{find_by}
use heimdall_backend.Database.{find_debate}
use heimdall_backend.Debate.Enums.{Uuid, Millis}
use heimdall_backend.Debate.Rows.{Debate}
use heimdall_backend.Judge.Task.{
  JudgeTask, JudgeTaskKind, JudgeTaskStatus, analyzer, fact_check, judge,
}
use heimdall_backend.Judge.Tasks.{CreateTaskInput}
use heimdall_backend.Judge.Tasks.Counts.{count_by_kind, count_by_kind_lem, is_task, CountsByKind}
use heimdall_backend.Judge.Tasks.Creation.{create_if_absent_lem}
use heimdall_backend.Judge.Queue.{JobQueue, schedule}
use heimdall_backend.Judge.Service.{
  ServiceEnv, ServiceDraw, World, JudgeReadiness, try_start_judge, start_if_ready, prepare_judge,
  schedule_task, close_judgment, is_waiting, is_judgeable,
}

-- The number of tasks of the debate of a kind and in a status.
abbrev pub tasks_in : Uuid → JudgeTaskKind → JudgeTaskStatus → List JudgeTask → ℕ
tasks_in debate_id k s t = length (find_by (is_task debate_id k s) t)

-- Scheduling never fails.
schedule_total :
    (q : JobQueue) (max_attempts : JudgeTaskKind → ℕ) (id : Uuid) (now : Millis) (debate_id : Uuid)
    (kind : JudgeTaskKind) (target_id : Uuid) (t : List JudgeTask) (jobs : q.Jobs)
    → (r : JudgeTask × List JudgeTask × q.Jobs) × (schedule q max_attempts id now debate_id kind
          target_id t jobs
        ≡ ok r)
unfolding schedule
schedule_total q max_attempts id now debate_id kind target_id t jobs =
    let input : CreateTaskInput = record {
      debate_id = debate_id;
      kind = kind;
      target_id = target_id;
      max_attempts = max_attempts kind;
    } in
    elim (Result-cases (schedule q max_attempts id now debate_id kind target_id t jobs)) [
      | inl done ↦ done
      | inr (e, refused) ↦ absurd (ground (arith, create_if_absent_lem id now input t))
    ]

module _ (q : JobQueue) (env : ServiceEnv) (draw : ServiceDraw) where
  prepare_judge-started :
      (debate_id : Uuid) (w : World q)
      → (prepare_judge q env draw debate_id w).0 ≡ ok JudgeReadiness.started
  unfolding prepare_judge schedule_task
  prepare_judge-started debate_id w =
      let (r, made) =
        schedule_total q env.max_attempts (draw.task_id judge debate_id) draw.db_now debate_id judge
          debate_id w.db.tasks w.jobs in
      ground (arith, made)

  pub close_judgment-ne-started :
      (debate : Debate) (counts : CountsByKind) (w : World q)
      → ((start_if_ready q env draw debate counts w).0 ≡ ok JudgeReadiness.started)
        ↔ ((counts.analyzer.failed ≡ 0) × (is_waiting counts ≡ false))
  unfolding start_if_ready
  close_judgment-ne-started debate counts w = elim (Bool-cases (ltb 0 counts.analyzer.failed)) [
    | inl failed ↦ elim (Result-cases (close_judgment q env draw debate w).0) [
      | inl (done, closed) ↦ ground arith
      | inr (e, refused) ↦ ground arith
    ]
    | inr none_failed ↦ ground (arith, prepare_judge-started debate.id w)
  ]

  -- For a debate that exists, tryStartJudge starts the judgment exactly if the debate is over and not yet
  -- judged, no analysis has failed for good, and no analysis and no fact check is waiting or running.
  -- Fact checks that have failed do not hold it up.
  pub try_start_judge_iff :
      (debate_id : Uuid) (w : World q) {debate : Debate}
      → find_debate debate_id w.db ≡ some debate
      → ((try_start_judge q env draw debate_id w).0 ≡ ok JudgeReadiness.started) ↔ (
          (is_judgeable debate.debate_status ≡ true)
          × (tasks_in debate_id analyzer JudgeTaskStatus.failed w.db.tasks ≡ 0)
          × (tasks_in debate_id analyzer JudgeTaskStatus.pending w.db.tasks ≡ 0)
          × (tasks_in debate_id analyzer JudgeTaskStatus.processing w.db.tasks ≡ 0)
          × (tasks_in debate_id fact_check JudgeTaskStatus.pending w.db.tasks ≡ 0)
          × (tasks_in debate_id fact_check JudgeTaskStatus.processing w.db.tasks ≡ 0))
  unfolding try_start_judge any
  try_start_judge_iff debate_id w {debate} found =
      let counts = count_by_kind debate_id w.db.tasks in
      ground (
        arith,
        close_judgment-ne-started debate counts w,
        count_by_kind_lem debate_id analyzer JudgeTaskStatus.failed w.db.tasks,
        count_by_kind_lem debate_id analyzer JudgeTaskStatus.pending w.db.tasks,
        count_by_kind_lem debate_id analyzer JudgeTaskStatus.processing w.db.tasks,
        count_by_kind_lem debate_id fact_check JudgeTaskStatus.pending w.db.tasks,
        count_by_kind_lem debate_id fact_check JudgeTaskStatus.processing w.db.tasks,
      )
