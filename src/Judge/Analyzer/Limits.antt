-- ===== src/Judge/Analyzer/Limits.antt =====
-- How many fact checks the analyzer (src/judge/argument-analyzer.service.ts) orders.
use heimdall_backend.Common.{
  ℕ, zero, suc, ◌+◌, ◌≤◌, ◌≡◌, refl, List, [], ◌∷◌, length, ok, arith, Result-cases, Option-cases,
  Bool-cases, inl, inr, if◌then◌else◌,
}
use heimdall_backend.Database.{Database}
use heimdall_backend.Debate.Enums.{Uuid, Millis, DebatePhase, opening, rebuttal_question, closing}
use heimdall_backend.Judge.Task.{JudgeTask, JudgeTaskKind, fact_check}
use heimdall_backend.Judge.Tasks.{create_if_absent, find_by_target, new_task}
use heimdall_backend.Judge.Tasks.Table.{insert_or_ignore}
use heimdall_backend.Judge.Queue.{JobQueue, schedule}
use heimdall_backend.Judge.Rows.{DebateArgumentComponent, AnalyzedComponent, AnalyzerResult}
use heimdall_backend.Judge.Results.Graph.{
  ReplaceTurnGraphInput, replace_turn_graph, new_components, delete_components,
}
use heimdall_backend.Judge.Results.Graph.Links.{replaced}
use heimdall_backend.Judge.Analyzer.{
  AnalyzerEnv, AnalyzerDraw, analyze_turn, schedule_checks, analyze,
}
use heimdall_backend.Judge.Validator.{
  limit_from, uncheck_all, limited, max_fact_checks_per_turn, limit_fact_checks, skip_fact_checks,
}
use heimdall_backend.Judge.Analyzer.Accepted.{analyzed}

-- The number of components that want a fact check.
unfoldable wanted : List AnalyzedComponent → ℕ
wanted [] = 0
wanted (c ∷ cs) = (if c.needs_fact_check then 1 else 0) + wanted cs

unfoldable ordered : List DebateArgumentComponent → ℕ
ordered [] = 0
ordered (c ∷ cs) = (if c.needs_fact_check then 1 else 0) + ordered cs

limit_from-bounded : (n : ℕ) (cs : List AnalyzedComponent) → wanted (limit_from n cs) ≤ n
unfolding wanted limit_from
limit_from-bounded n [] = ground arith
limit_from-bounded zero (c ∷ cs) = ground (arith, limit_from-bounded 0 cs)
limit_from-bounded (suc n) (c ∷ cs) =
    ground (arith, limit_from-bounded n cs, limit_from-bounded (suc n) cs)

uncheck_all-bounded : (cs : List AnalyzedComponent) → wanted (uncheck_all cs) ≡ 0
unfolding wanted uncheck_all
uncheck_all-bounded [] = refl
uncheck_all-bounded (c ∷ cs) = ground (arith, uncheck_all-bounded cs)

limited-bounded :
    (phase : DebatePhase) (result : AnalyzerResult)
    → wanted (limited phase result).components ≤ max_fact_checks_per_turn
unfolding limited limit_fact_checks skip_fact_checks
limited-bounded opening result = limit_from-bounded 3 result.components
limited-bounded rebuttal_question result = limit_from-bounded 3 result.components
limited-bounded closing result = ground (arith, uncheck_all-bounded result.components)

ordered-new_components :
    (input : ReplaceTurnGraphInput) (ids : ℕ → Uuid) (now : Millis) (index : ℕ)
    (cs : List AnalyzedComponent)
    → ordered (new_components input ids now index cs) ≡ wanted cs
unfolding ordered wanted new_components
ordered-new_components input ids now index [] = refl
ordered-new_components input ids now index (c ∷ cs) =
    ground (arith, ordered-new_components input ids now (suc index) cs)

length-insert_or_ignore :
    (row : JudgeTask) (t : List JudgeTask) → length (insert_or_ignore row t) ≤ suc (length t)
unfolding insert_or_ignore
length-insert_or_ignore row [] = ground arith
length-insert_or_ignore row (x ∷ t) = ground (arith, length-insert_or_ignore row t)

-- Scheduling adds one task at most.
schedule-length :
    (q : JobQueue) (max_attempts : JudgeTaskKind → ℕ) (id : Uuid) (now : Millis) (debate_id : Uuid)
    (kind : JudgeTaskKind) (target_id : Uuid) (t : List JudgeTask) (jobs : q.Jobs)
    {task : JudgeTask} {t' : List JudgeTask} {jobs' : q.Jobs}
    → schedule q max_attempts id now debate_id kind target_id t jobs ≡ ok (task, t', jobs')
    → length t' ≤ suc (length t)
unfolding schedule create_if_absent
schedule-length q max_attempts id now debate_id kind target_id t jobs {task} {t'} {jobs'} e =
    let row = new_task id now (record {
      debate_id = debate_id;
      kind = kind;
      target_id = target_id;
      max_attempts = max_attempts kind;
    }) in
    elim (Option-cases (find_by_target kind target_id (insert_or_ignore row t))) [
      | inl missing ↦ absurd (ground arith)
      | inr (found, there) ↦ ground (arith, length-insert_or_ignore row t)
    ]

module _ (q : JobQueue) (env : AnalyzerEnv) (draw : AnalyzerDraw) where
  schedule_checks-bounded :
      (debate_id : Uuid) (cs : List DebateArgumentComponent) (db : Database) (jobs : q.Jobs)
      → length (schedule_checks q env draw debate_id cs db jobs).1.tasks
        ≤ length db.tasks + ordered cs
  unfolding schedule_checks ordered
  schedule_checks-bounded debate_id [] db jobs = ground arith
  schedule_checks-bounded debate_id (c ∷ cs) db jobs = elim (Bool-cases c.needs_fact_check) [
    | inr skipped ↦ ground (arith, schedule_checks-bounded debate_id cs db jobs)
    | inl checked ↦
        elim (Result-cases (
          schedule q env.max_attempts (draw.task_id c.id) draw.now debate_id fact_check c.id
            db.tasks jobs)) [
              | inr (e, refused) ↦ ground arith
              | inl ((task, tasks, jobs'), done) ↦ ground (
                arith,
                schedule_checks-bounded debate_id cs (record db { tasks = tasks }) jobs',
                schedule-length q env.max_attempts (draw.task_id c.id) draw.now debate_id fact_check
                    c.id db.tasks jobs done,
              )
            ]
  ]

  -- Whatever the model answers and however the call ends, one analysis adds at most three tasks to
  -- those that the others left meanwhile.
  pub analyze-bounded :
      (others : Database → Database) (task : JudgeTask) (db : Database) (jobs : q.Jobs)
      → length (analyze q env draw others task db jobs).1.tasks ≤ length (others db).tasks + 3
  unfolding analyze delete_components
  analyze-bounded others task db jobs = elim (Result-cases (analyze_turn env task db)) [
    | inr (e, refused) ↦ ground arith
    | inl (input, done) ↦
        elim (Result-cases
          (replace_turn_graph draw.component_id draw.relation_id draw.now input (others db))) [
            | inr (e, refused) ↦ ground arith
            | inl ((saved, after), stored) ↦
                let (phase, result, _, whole, _, _, _, _, _) = analyzed env task db done in
                let (rows, added, same, all) =
                  replaced draw.component_id draw.relation_id draw.now input (others db) stored in
                (ground (
                  arith,
                  schedule_checks-bounded input.debate_id saved after jobs,
                  ordered-new_components input draw.component_id draw.now 0 input.result.components,
                  limited-bounded phase result,
                  same,
                  whole,
                  all,
                ))
          ]
  ]
