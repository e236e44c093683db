-- ===== src/Judge/Service/Retrying.antt =====
-- When retryJudgment of src/judge/judge.service.ts restarts the pipeline, and how it is refused.
use heimdall_backend.Common.{
  ℕ, zero, suc, ◌+◌, ◌*◌, ◌<◌, ◌≤◌, ◌≡◌, ◌≢◌, refl, true, false, none, some, List, [], ◌∷◌, ltb,
  if◌then◌else◌, Result, ok, err, arith, any, All, Option-cases, Bool-cases, inl, inr, ◌⊎◌,
}
use heimdall_backend.Database.{find_debate}
use heimdall_backend.Debate.Enums.{Uuid, Millis, DebateStatus, judgment_failed}
use heimdall_backend.Debate.Rows.{Debate}
use heimdall_backend.Debate.Turns.{resolve_speakers, resolve_side}
use heimdall_backend.Judge.Task.{JudgeTask}
use heimdall_backend.Judge.Tasks.{find_failed}
use heimdall_backend.Judge.Queue.{JobQueue}
use heimdall_backend.Judge.Rows.{DebateJudgmentResult}
use heimdall_backend.Judge.Results.{find_judgment, status_in}
use heimdall_backend.Judge.Service.{
  ServiceEnv, ServiceDraw, ServiceError, World, forbidden, debate_not_found, nothing_to_retry,
  retry_not_ready, and_then, resume_analyzers, retryable_kinds,
}
use heimdall_backend.Judge.Service.Requests.{
  latest, is_cooled_down, is_ended_unjudged, is_nothing, restart, retry_resumed,
  retry_as_participant, retry_judgment, as_participant,
}

-- The `cooldown` milliseconds have passed since the failure.
abbrev pub IsPast : Millis → Millis → JudgeTask → Type 0
IsPast cooldown now x = x.updated_at + cooldown ≤ now

latest-IsPast :
    (cooldown now first : Millis) (xs : List JudgeTask)
    → latest first xs + cooldown ≤ now
    → (first + cooldown ≤ now) × All (IsPast cooldown now) xs
unfolding latest
latest-IsPast cooldown now first [] h = (h, tt)
latest-IsPast cooldown now first (x ∷ xs) h =
    let (a, b) =
      latest-IsPast cooldown now (if ltb first x.updated_at then x.updated_at else first) xs h in
    (ground (arith, a), (ground (arith, a), b))

latest_recent :
    (cooldown now first : Millis) (xs : List JudgeTask)
    → now < latest first xs + cooldown
    → (now < first + cooldown) ⊎ (any (λ x. ltb now (x.updated_at + cooldown)) xs ≡ true)
unfolding latest any
latest_recent cooldown now first [] h = inl h
latest_recent cooldown now first (x ∷ xs) h =
    let rest =
      latest_recent cooldown now (if ltb first x.updated_at then x.updated_at else first) xs h in
    ground (arith, rest)

call_cases {ℓ} :
    {A : Type ℓ} {q : JobQueue} (r : Result ServiceError A × World q)
    → ((a : A) × (w : World q) × (r ≡ (ok a, w)))
      ⊎ ((e : ServiceError) × (w : World q) × (r ≡ (err e, w)))
call_cases (ok a, w) = inl (a, w, refl)
call_cases (err e, w) = inr (e, w, refl)

module _ (q : JobQueue) (env : ServiceEnv) (draw : ServiceDraw) (debate_id member_id : Uuid)
    (w : World q) where
  -- The cooldown in milliseconds, and the failed tasks that a retry would reset.
  abbrev cooldown_ms : Millis
  cooldown_ms = env.judge_retry_cooldown_seconds * 1000

  abbrev failed_tasks : List JudgeTask
  failed_tasks = find_failed debate_id retryable_kinds w.db.tasks

  -- The member speaks in the debate that was found.
  pub record Speaks (debate : Debate) : Type 0 where
    pub found : find_debate debate_id w.db ≡ some debate
    pub speaks : resolve_side (resolve_speakers debate) member_id ≢ none

  -- Such a debate is neither judged, nor failed but for its judgment.
  pub record IsOpen (debate : Debate) : Type 0 where
    pub participant : Speaks debate
    pub unjudged : find_judgment debate_id w.db ≡ none
    pub not_ended :
        (debate.debate_status ≢ some DebateStatus.failed)
        ⊎ (debate.end_reason ≡ some judgment_failed)

  -- What may come of a request for a retry, with what it leaves.
  pub data Retry : Result ServiceError DebateJudgmentResult × World q → Type 0 where
    unknown : find_debate debate_id w.db ≡ none → Retry (err debate_not_found, w)
    by_stranger :
        (debate : Debate)
        → find_debate debate_id w.db ≡ some debate
        → resolve_side (resolve_speakers debate) member_id ≡ none
        → Retry (err forbidden, w)
    judged :
        (debate : Debate) (judgment : DebateJudgmentResult)
        → Speaks debate
        → find_judgment debate_id w.db ≡ some judgment
        → Retry (err ServiceError.already_completed, w)
    ended_otherwise :
        (debate : Debate)
        → Speaks debate
        → find_judgment debate_id w.db ≡ none
        → debate.debate_status ≡ some DebateStatus.failed
        → debate.end_reason ≢ some judgment_failed
        → Retry (err nothing_to_retry, w)
    stopped :
        (debate : Debate) (e : ServiceError) (w' : World q)
        → IsOpen debate
        → resume_analyzers q env draw debate_id w ≡ (err e, w')
        → Retry (err e, w')
    nothing :
        (debate : Debate) (w' : World q)
        → IsOpen debate
        → resume_analyzers q env draw debate_id w ≡ (ok 0, w')
        → failed_tasks ≡ []
        → Retry (err nothing_to_retry, w')
    too_soon :
        (debate : Debate) (missing : ℕ) (w' : World q)
        → IsOpen debate
        → resume_analyzers q env draw debate_id w ≡ (ok missing, w')
        → any (λ x. ltb draw.app_now (x.updated_at + cooldown_ms)) failed_tasks ≡ true
        → Retry (err retry_not_ready, w')
    restarts :
        (debate : Debate) (missing : ℕ) (w' : World q)
        → IsOpen debate
        → resume_analyzers q env draw debate_id w ≡ (ok missing, w')
        → (missing ≢ 0) ⊎ (failed_tasks ≢ [])
        → All (IsPast cooldown_ms draw.app_now) failed_tasks
        → Retry (restart q env draw debate_id w')

  -- The debate ended without a judgment exactly if it failed for another reason.
  ended_unjudged_lem :
      (debate : Debate)
      → ((debate.debate_status ≡ some DebateStatus.failed)
          × (debate.end_reason ≢ some judgment_failed)
          × (is_ended_unjudged debate ≡ true))
        ⊎ (((debate.debate_status ≢ some DebateStatus.failed)
              ⊎ (debate.end_reason ≡ some judgment_failed))
            × (is_ended_unjudged debate ≡ false))
  unfolding any
  ended_unjudged_lem debate = elim (Bool-cases (is_ended_unjudged debate)) [
    | inl ended ↦ inl (ground arith, (λ e. ground arith), ended)
    | inr runs ↦ elim (Bool-cases (status_in (DebateStatus.failed ∷ []) debate.debate_status)) [
      | inl failed_ ↦ inr (inr (ground arith), runs)
      | inr other ↦ inr (inl (λ e. ground arith), runs)
    ]
  ]

  cooled_down_lem :
      (xs : List JudgeTask)
      → ((is_cooled_down env draw.app_now xs ≡ true) × All (IsPast cooldown_ms draw.app_now) xs)
        ⊎ ((is_cooled_down env draw.app_now xs ≡ false)
            × (any (λ x. ltb draw.app_now (x.updated_at + cooldown_ms)) xs ≡ true))
  unfolding is_cooled_down any
  cooled_down_lem [] = inl (refl, tt)
  cooled_down_lem (x ∷ xs) =
      elim (Bool-cases (ltb draw.app_now (latest x.updated_at xs + cooldown_ms))) [
        | inl recent ↦
            inr
              (ground arith, ground (arith, latest_recent cooldown_ms draw.app_now x.updated_at xs))
        | inr past ↦
            inl
              (ground arith, latest-IsPast cooldown_ms draw.app_now x.updated_at xs (ground arith))
      ]

  nothing_lem :
      (xs : List JudgeTask) (n : ℕ)
      → ((is_nothing xs n ≡ true) × (xs ≡ []) × (n ≡ 0))
        ⊎ ((is_nothing xs n ≡ false) × ((n ≢ 0) ⊎ (xs ≢ [])))
  nothing_lem [] zero = inl (refl, refl, refl)
  nothing_lem [] (suc n) = inr (refl, inl (λ e. ground arith))
  nothing_lem (x ∷ xs) n = inr (refl, inr (λ e. ground arith))

  retry_resuming_lem :
      (debate : Debate)
      → IsOpen debate
      → Retry (
          and_then
            (resume_analyzers q env draw debate_id w)
            (retry_resumed q env draw debate_id failed_tasks))
  unfolding retry_resumed
  retry_resuming_lem debate h = elim (call_cases (resume_analyzers q env draw debate_id w)) [
    | inr (e, w', refused) ↦ rw refused (stopped debate e w' h refused)
    | inl (missing, w', done) ↦ elim (nothing_lem failed_tasks missing) [
      | inl (idle, none_failed, zero_) ↦
          rw (done, idle) (nothing debate w' h (rw (← zero_) done) none_failed)
      | inr (due, some_work) ↦ elim (cooled_down_lem failed_tasks) [
        | inl (cool, past) ↦ rw (done, due, cool) (restarts debate missing w' h done some_work past)
        | inr (hot, recent) ↦ rw (done, due, hot) (too_soon debate missing w' h done recent)
      ]
    ]
  ]

  retry_as_participant_lem :
      (debate : Debate) → Speaks debate → Retry (retry_as_participant q env draw debate_id debate w)
  unfolding retry_as_participant
  retry_as_participant_lem debate p = elim (Option-cases (find_judgment debate_id w.db)) [
    | inr (judgment, there) ↦ rw there (judged debate judgment p there)
    | inl unjudged ↦ elim (ended_unjudged_lem debate) [
      | inl (status, reason, ended) ↦
          rw (unjudged, ended) (ended_otherwise debate p unjudged status reason)
      | inr (open_, runs) ↦
          rw (unjudged, runs)
            (retry_resuming_lem debate
              (record { participant = p; unjudged = unjudged; not_ended = open_ }))
    ]
  ]

  -- A retry restarts the pipeline only for a speaker of a debate that has no judgment and did not end
  -- without one, once an analysis was missing or a task had failed, and the cooldown has passed since
  -- every failure; then it goes on from the tables in which the missing analyses are scheduled. In each
  -- other case it is refused for the reason that holds, and restarts nothing: before the analyses are
  -- looked at it changes nothing, and afterwards it leaves what scheduling the missing ones left.
  pub retry_judgment_lem : Retry (retry_judgment q env draw debate_id member_id w)
  unfolding retry_judgment retry_as_participant retry_resumed
  retry_judgment_lem = elim (Option-cases (find_debate debate_id w.db)) [
    | inl missing ↦ rw (missing, as_participant) (unknown missing)
    | inr (debate, found) ↦ elim (Option-cases (resolve_side (resolve_speakers debate) member_id)) [
      | inl stranger ↦ rw (found, as_participant, stranger) (by_stranger debate found stranger)
      | inr (side, speaks) ↦
          rw (found, as_participant, speaks)
            (retry_as_participant_lem debate (record { found = found; speaks = λ e. ground arith }))
    ]
  ]
