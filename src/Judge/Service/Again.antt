-- ===== src/Judge/Service/Again.antt =====
-- That tryStartJudge of src/judge/judge.service.ts may be called again.
use heimdall_backend.Common.{
  ℕ, ◌≡◌, refl, sym, ap, ◌∙◌, true, false, none, some, List, [], ◌∷◌, ok, arith, Result-cases,
  Option-cases, inl, inr, if◌then◌else◌, any,
}
use heimdall_backend.Common.Tables.{find_by, find_one_by-updated}
use heimdall_backend.Database.{Database, find_debate, is_found}
use heimdall_backend.Debate.Enums.{Uuid, Millis, DebateStatus}
use heimdall_backend.Debate.Rows.{Debate}
use heimdall_backend.Judge.Task.{
  JudgeTask, JudgeTaskKind, JudgeTaskStatus, analyzer, fact_check, judge, kind_eq,
}
use heimdall_backend.Judge.Tasks.{CreateTaskInput, create_if_absent, new_task}
use heimdall_backend.Judge.Tasks.Table.{insert_or_ignore}
use heimdall_backend.Judge.Tasks.Counts.{
  count_by_kind, count_by_kind_lem, is_task, field_of, bucket_of,
}
use heimdall_backend.Judge.Queue.{JobQueue, schedule, schedule_again}
use heimdall_backend.Judge.Results.{start_judging, is_in_stage, in_next_stage, no_options}
use heimdall_backend.Judge.Results.Settlement.{start_judging_again}
use heimdall_backend.Judge.Service.{
  ServiceEnv, ServiceDraw, World, JudgeReadiness, try_start_judge, start_if_ready, prepare_judge,
  schedule_task, is_waiting, is_judgeable,
}
use heimdall_backend.Judge.Service.Readiness.{close_judgment-ne-started}

-- A new task of the judge is none of another kind, so the counts of the others do not change.
insert-find_by :
    (debate_id : Uuid) (k : JudgeTaskKind) (s : JudgeTaskStatus) (row : JudgeTask)
    (t : List JudgeTask)
    → row.kind ≡ judge
    → kind_eq judge k ≡ false
    → find_by (is_task debate_id k s) (insert_or_ignore row t) ≡ find_by (is_task debate_id k s) t
unfolding find_by insert_or_ignore
insert-find_by debate_id k s row [] e n = ground arith
insert-find_by debate_id k s row (x ∷ t) e n =
    ground (arith, insert-find_by debate_id k s row t e n)

module _ (q : JobQueue) where
  scheduled_table :
      (max_attempts : JudgeTaskKind → ℕ) (id : Uuid) (now : Millis) (debate_id : Uuid)
      (kind : JudgeTaskKind) (target_id : Uuid) (t : List JudgeTask) (jobs : q.Jobs) {x : JudgeTask}
      {t' : List JudgeTask} {jobs' : q.Jobs}
      → schedule q max_attempts id now debate_id kind target_id t jobs ≡ ok (x, t', jobs')
      → (row : JudgeTask) × (row.kind ≡ kind) × (t' ≡ insert_or_ignore row t)
  unfolding schedule create_if_absent new_task
  scheduled_table max_attempts id now debate_id kind target_id t jobs e =
      let input : CreateTaskInput = record {
        debate_id = debate_id;
        kind = kind;
        target_id = target_id;
        max_attempts = max_attempts kind;
      } in
      (new_task id now input, refl, ground arith)

  prepare_judge-eq :
      (env : ServiceEnv) (draw : ServiceDraw) (debate_id : Uuid) (w : World q) {w' : World q}
      → prepare_judge q env draw debate_id w ≡ (ok JudgeReadiness.started, w')
      → (x : JudgeTask) × (t : List JudgeTask) × (jobs : q.Jobs) × (schedule q env.max_attempts
            (draw.task_id judge debate_id)
            draw.db_now
            debate_id
            judge
            debate_id
            w.db.tasks
            w.jobs
          ≡ ok (x, t, jobs))
        × (w' ≡ record w {
          db = (start_judging debate_id draw.db_now (record w.db { tasks = t })).1;
          jobs = jobs;
        })
        × (w'.db.tasks ≡ t)
  unfolding prepare_judge schedule_task start_judging
  prepare_judge-eq env draw debate_id w e =
      elim (Result-cases (
        schedule q env.max_attempts (draw.task_id judge debate_id) draw.db_now debate_id judge
          debate_id w.db.tasks w.jobs)) [
            | inl ((x, t, jobs), done) ↦ (x, t, jobs, done, ground arith, ground arith)
            | inr (e', refused) ↦ absurd (ground arith)
          ]

  -- The judgment that was prepared is prepared again without a change.
  prepare_judge_again :
      (env : ServiceEnv) (draw draw' : ServiceDraw) (debate_id : Uuid) (w : World q) {w' : World q}
      → prepare_judge q env draw debate_id w ≡ (ok JudgeReadiness.started, w')
      → prepare_judge q env draw' debate_id w' ≡ (ok JudgeReadiness.started, w')
  unfolding prepare_judge schedule_task start_judging
  prepare_judge_again env draw draw' debate_id w {w'} e =
      let (x, t, jobs, done, whole, tasks) = prepare_judge-eq env draw debate_id w e in
      let again =
        schedule_again q env.max_attempts (draw.task_id judge debate_id)
          (draw'.task_id judge debate_id) draw.db_now draw'.db_now debate_id judge debate_id
          w.db.tasks w.jobs done in
      let stays =
        start_judging_again debate_id draw.db_now draw'.db_now (record w.db { tasks = t }) in
      let moved : (start_judging debate_id draw'.db_now w'.db).1 ≡ w'.db =
        rw whole (ap (λ r. r.1) stays) in
      let known : schedule q env.max_attempts (draw'.task_id judge debate_id) draw'.db_now debate_id
            judge debate_id w'.db.tasks w'.jobs
          ≡ ok (x, w'.db.tasks, w'.jobs) =
        rw whole again in
      ground (arith, known, moved)

  -- What the counts of the other kinds were before a task of the judge is scheduled, they are after.
  counts_kept :
      (debate_id : Uuid) (k : JudgeTaskKind) (s : JudgeTaskStatus) (row : JudgeTask)
      (t : List JudgeTask)
      → row.kind ≡ judge
      → kind_eq judge k ≡ false
      → field_of s (bucket_of k (count_by_kind debate_id (insert_or_ignore row t)))
        ≡ field_of s (bucket_of k (count_by_kind debate_id t))
  counts_kept debate_id k s row t e n = ground (
    arith,
    count_by_kind_lem debate_id k s t,
    count_by_kind_lem debate_id k s (insert_or_ignore row t),
    insert-find_by debate_id k s row t e n,
  )

  module _ (env : ServiceEnv) (draw : ServiceDraw) where
    is_ready :
        (debate_id : Uuid) (w : World q) {debate : Debate}
        → find_debate debate_id w.db ≡ some debate
        → is_judgeable debate.debate_status ≡ true
        → (count_by_kind debate_id w.db.tasks).analyzer.failed ≡ 0
        → is_waiting (count_by_kind debate_id w.db.tasks) ≡ false
        → try_start_judge q env draw debate_id w ≡ prepare_judge q env draw debate.id w
    unfolding try_start_judge start_if_ready any
    is_ready debate_id w found judgeable none_failed none_waits = ground arith

    was_ready :
        (debate_id : Uuid) (w : World q)
        → (try_start_judge q env draw debate_id w).0 ≡ ok JudgeReadiness.started
        → (debate : Debate) × (find_debate debate_id w.db ≡ some debate)
          × (is_judgeable debate.debate_status ≡ true)
          × ((count_by_kind debate_id w.db.tasks).analyzer.failed ≡ 0)
          × (is_waiting (count_by_kind debate_id w.db.tasks) ≡ false)
    unfolding try_start_judge
    was_ready debate_id w e = elim (Option-cases (find_debate debate_id w.db)) [
      | inl missing ↦ absurd (ground arith)
      | inr (debate, found) ↦
          let facts =
            close_judgment-ne-started q env draw debate (count_by_kind debate_id w.db.tasks) w in
          (debate, found, ground arith, ground (arith, facts), ground (arith, facts))
    ]

  -- The debate is found again after it was moved to the judging stage, and may still be judged.
  found_again :
      (debate_id id : Uuid) (now : Millis) (t : List JudgeTask) (db : Database) {debate : Debate}
      → find_debate debate_id db ≡ some debate
      → is_judgeable debate.debate_status ≡ true
      → (d : Debate) × (find_debate debate_id (start_judging id now (record db { tasks = t })).1
          ≡ some d)
        × (is_judgeable d.debate_status ≡ true)
        × (d.id ≡ debate.id)
  unfolding find_debate start_judging any
  found_again debate_id id now t db {debate} found judgeable =
      let stage = is_in_stage id (DebateStatus.debate_finalized ∷ []) none in
      let moved = in_next_stage DebateStatus.judging no_options now in
      let again =
        find_one_by-updated stage (is_found db.communities debate_id) moved db.debates (λ y h. refl)
          found in
      ((if stage debate then moved debate else debate), again, ground arith, ground arith)

  still_ready :
      (debate_id : Uuid) (row : JudgeTask) (t : List JudgeTask)
      → row.kind ≡ judge
      → (count_by_kind debate_id t).analyzer.failed ≡ 0
      → is_waiting (count_by_kind debate_id t) ≡ false
      → ((count_by_kind debate_id (insert_or_ignore row t)).analyzer.failed ≡ 0)
        × (is_waiting (count_by_kind debate_id (insert_or_ignore row t)) ≡ false)
  still_ready debate_id row t kind none_failed none_waits = ground (
    arith,
    counts_kept debate_id analyzer JudgeTaskStatus.failed row t kind refl,
    counts_kept debate_id analyzer JudgeTaskStatus.pending row t kind refl,
    counts_kept debate_id analyzer JudgeTaskStatus.processing row t kind refl,
    counts_kept debate_id fact_check JudgeTaskStatus.pending row t kind refl,
    counts_kept debate_id fact_check JudgeTaskStatus.processing row t kind refl,
  )

  -- If tryStartJudge answered STARTED, then calling it again, at whatever time, answers STARTED again
  -- and changes nothing: no table, no queue, no message.
  pub try_start_judge_again :
      (env : ServiceEnv) (draw draw' : ServiceDraw) (debate_id : Uuid) (w : World q) {w' : World q}
      → try_start_judge q env draw debate_id w ≡ (ok JudgeReadiness.started, w')
      → try_start_judge q env draw' debate_id w' ≡ (ok JudgeReadiness.started, w')
  try_start_judge_again env draw draw' debate_id w {w'} e =
      let (debate, found, judgeable, none_failed, none_waits) =
        was_ready env draw debate_id w (ap (λ r. r.0) e) in
      let prepared =
        sym (is_ready env draw debate_id w found judgeable none_failed none_waits) ∙ e in
      let (x, t, jobs, done, whole, tasks) = prepare_judge-eq env draw debate.id w prepared in
      let (row, kind, table) =
        scheduled_table env.max_attempts (draw.task_id judge debate.id) draw.db_now debate.id judge
          debate.id w.db.tasks w.jobs done in
      let (d, found', judgeable', same) =
        found_again debate_id debate.id draw.db_now t w.db found judgeable in
      let facts = still_ready debate_id row w.db.tasks kind none_failed none_waits in
      let at_tasks = tasks ∙ table in
      let here : find_debate debate_id w'.db ≡ some d = rw whole found' in
      let ready =
        is_ready env draw' debate_id w' here judgeable' (rw at_tasks facts.0)
          (rw at_tasks facts.1) in
      ready ∙ rw same (prepare_judge_again env draw draw' debate.id w prepared)
