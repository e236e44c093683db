-- ===== src/Judge/Service/Requests.antt =====
-- The requests that src/judge/judge.service.ts answers: startJudging, requestJudgment, retryJudgment
-- and getResult. A judgment is answered as it is stored.
use heimdall_backend.Common.{
  ℕ, zero, ◌+◌, ◌*◌, Bool, true, false, ◌&&◌, Option, none, some, List, [], ◌∷◌, ltb, not,
  if◌then◌else◌, Result, ok, err, is_some,
}
use heimdall_backend.Common.Maps.{lookup, insert}
use heimdall_backend.Common.Tables.{filter_map}
use heimdall_backend.Database.{Database, find_debate}
use heimdall_backend.Debate.Enums.{Uuid, Millis, DebateSide, DebateStatus, judgment_failed}
use heimdall_backend.Debate.Rows.{Debate}
use heimdall_backend.Debate.Turns.{resolve_speakers, resolve_side}
use heimdall_backend.Judge.Task.{JudgeTask}
use heimdall_backend.Judge.Tasks.{find_failed, reset_failed}
use heimdall_backend.Judge.Queue.{JobQueue, enqueue_all}
use heimdall_backend.Judge.Rows.{
  DebateJudgmentResult, DebateFactCheckResult, DebateArgumentComponent,
}
use heimdall_backend.Judge.Results.{
  restore_finalized, find_judgment, find_fact_checks, find_components, reason_matches, status_in,
}
use heimdall_backend.Judge.Service.{
  ServiceEnv, ServiceDraw, ServiceError, World, JudgeReadiness, forbidden, debate_not_found,
  nothing_to_retry, retry_not_ready, result_not_ready, and_then, processing_failed, try_start_judge,
  resume_analyzers, retryable_kinds,
}

-- `Math.max(...failedAt)`, from the first on.
unfoldable pub latest : Millis → List JudgeTask → Millis
latest first [] = first
latest first (x ∷ xs) = latest (if ltb first x.updated_at then x.updated_at else first) xs

-- `assertCooldownPassed`
unfoldable pub is_cooled_down : ServiceEnv → Millis → List JudgeTask → Bool
unfolding latest
is_cooled_down env now [] = true
is_cooled_down env now (x ∷ xs) =
    not (ltb now (latest x.updated_at xs + env.judge_retry_cooldown_seconds * 1000))

-- A debate that ended without a judgment: by a forfeit, or with a silent side.
abbrev pub is_ended_unjudged : Debate → Bool
is_ended_unjudged d =
    status_in (DebateStatus.failed ∷ []) d.debate_status
    && not (reason_matches (some judgment_failed) d.end_reason)

unfoldable pub components_by_id :
    List DebateArgumentComponent
    → List (Uuid × DebateArgumentComponent)
    → List (Uuid × DebateArgumentComponent)
components_by_id [] m = m
components_by_id (c ∷ cs) m = components_by_id cs (insert c.id c m)

abbrev pub paired :
    DebateFactCheckResult
    → Option DebateArgumentComponent
    → Option (DebateFactCheckResult × DebateArgumentComponent)
paired check none = none
paired check (some component) = some (check, component)

-- FactCheckResultDto.from is given a check and its component.
unfoldable pub load_fact_checks :
    Uuid → Database → List (DebateFactCheckResult × DebateArgumentComponent)
unfolding components_by_id
load_fact_checks debate_id db =
    let components = components_by_id (find_components debate_id db) [] in
    filter_map (λ check. paired check (lookup check.component_id components))
      (find_fact_checks debate_id db)

pub record DebateResult : Type 0 where
  pub debate : Debate
  pub viewer_side : Option DebateSide
  pub judgment_result : DebateJudgmentResult
  pub fact_checks : List (DebateFactCheckResult × DebateArgumentComponent)

-- `findOneOrThrow` and `assertParticipant`, before what follows.
abbrev pub as_participant {ℓ} :
    {A : Type ℓ} {q : JobQueue}
    → Uuid
    → Uuid
    → (Debate → World q → Result ServiceError A × World q)
    → World q
    → Result ServiceError A × World q
as_participant debate_id member_id next w = elim (find_debate debate_id w.db) [
  | none ↦ (err debate_not_found, w)
  | some debate ↦
      if is_some (resolve_side (resolve_speakers debate) member_id)
      then next debate w
      else (err forbidden, w)
]

unfoldable pub to_readiness_exception : JudgeReadiness → ServiceError
to_readiness_exception JudgeReadiness.not_finalized = ServiceError.not_finalized
to_readiness_exception JudgeReadiness.already_completed = ServiceError.already_completed
to_readiness_exception JudgeReadiness.analyzer_failed = processing_failed
to_readiness_exception JudgeReadiness.started = ServiceError.in_progress
to_readiness_exception JudgeReadiness.in_progress = ServiceError.in_progress

-- `throw this.toReadinessException(await this.tryStartJudge(debateId))`
unfoldable pub throw_readiness {ℓ} :
    {A : Type ℓ} {q : JobQueue}
    → Result ServiceError JudgeReadiness × World q
    → Result ServiceError A × World q
unfolding to_readiness_exception
throw_readiness call = and_then call (λ readiness w. (err (to_readiness_exception readiness), w))

abbrev pub is_nothing : List JudgeTask → ℕ → Bool
is_nothing [] zero = true
is_nothing _ _ = false

module _ (q : JobQueue) (env : ServiceEnv) (draw : ServiceDraw) where
  unfoldable pub get_result : Uuid → Uuid → World q → Result ServiceError DebateResult × World q
  unfolding load_fact_checks
  get_result debate_id member_id w = elim (find_debate debate_id w.db) [
    | none ↦ (err debate_not_found, w)
    | some debate ↦ elim (find_judgment debate_id w.db) [
      | none ↦ (err result_not_ready, w)
      | some judgment ↦ (
        ok (record {
          debate = debate;
          viewer_side = resolve_side (resolve_speakers debate) member_id;
          judgment_result = judgment;
          fact_checks = load_fact_checks debate_id w.db;
        }),
        w,
      )
    ]
  ]

  -- The answer of `startJudging`: the debate as it is then, or the exception.
  abbrev pub reread : Uuid → JudgeReadiness → World q → Result ServiceError Debate × World q
  reread debate_id JudgeReadiness.not_finalized w = (err ServiceError.not_finalized, w)
  reread debate_id readiness w = elim (find_debate debate_id w.db) [
    | none ↦ (err debate_not_found, w)
    | some debate ↦ (ok debate, w)
  ]

  unfoldable pub request_start : Uuid → Uuid → World q → Result ServiceError Debate × World q
  request_start debate_id member_id =
      as_participant debate_id member_id
        λ debate w. and_then (try_start_judge q env draw debate_id w) (reread debate_id)

  -- What `requestJudgment` does for a participant.
  unfoldable pub judge_or_resume :
      Uuid → Debate → World q → Result ServiceError DebateJudgmentResult × World q
  judge_or_resume debate_id debate w = elim (find_judgment debate_id w.db) [
    | some completed ↦ (ok completed, w)
    | none ↦
        and_then (resume_analyzers q env draw debate_id w)
          λ scheduled w'. throw_readiness (try_start_judge q env draw debate_id w')
  ]

  unfoldable pub request_judgment :
      Uuid → Uuid → World q → Result ServiceError DebateJudgmentResult × World q
  unfolding judge_or_resume
  request_judgment debate_id member_id =
      as_participant debate_id member_id (judge_or_resume debate_id)

  -- The part of `retryJudgment` after its checks: the debate is restored before the tasks are queued.
  unfoldable pub restart : Uuid → World q → Result ServiceError DebateJudgmentResult × World q
  restart debate_id w =
      let restored = (restore_finalized debate_id draw.db_now w.db).1 in
      let (tasks, table) = reset_failed debate_id retryable_kinds draw.db_now restored.tasks in
      throw_readiness (
        try_start_judge q env draw debate_id
          (record w { db = record restored { tasks = table }; jobs = enqueue_all q tasks w.jobs }))

  -- The part of `retryJudgment` after the missing analyses were filled in.
  unfoldable pub retry_resumed :
      Uuid → List JudgeTask → ℕ → World q → Result ServiceError DebateJudgmentResult × World q
  unfolding is_cooled_down restart
  retry_resumed debate_id failed missing w =
      if is_nothing failed missing
      then (err nothing_to_retry, w)
      else if is_cooled_down env draw.app_now failed
      then restart debate_id w
      else (err retry_not_ready, w)

  -- What `retryJudgment` does for a participant.
  unfoldable pub retry_as_participant :
      Uuid → Debate → World q → Result ServiceError DebateJudgmentResult × World q
  unfolding retry_resumed
  retry_as_participant debate_id debate w =
      if is_some (find_judgment debate_id w.db)
      then (err ServiceError.already_completed, w)
      else if is_ended_unjudged debate
      then (err nothing_to_retry, w)
      else and_then (resume_analyzers q env draw debate_id w)
          (retry_resumed debate_id (find_failed debate_id retryable_kinds w.db.tasks))

  unfoldable pub retry_judgment :
      Uuid → Uuid → World q → Result ServiceError DebateJudgmentResult × World q
  unfolding retry_as_participant
  retry_judgment debate_id member_id =
      as_participant debate_id member_id (retry_as_participant debate_id)
