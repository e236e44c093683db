-- ===== src/Judge/Queue/Boot.antt =====
-- What the recovery at boot of src/judge/judge-task.worker.ts achieves, and how it may end early.
use heimdall_backend.Common.{
  subst, sym, ◌∙◌, ◌-◌, ◌*◌, ◌≡◌, refl, Bool, true, false, not, ◌&&◌, ◌||◌, List, [], ◌∷◌, arith,
  any, All, Bool-cases, inl, inr, ◌⊎◌,
}
use heimdall_backend.Debate.Enums.{Uuid, Millis}
use heimdall_backend.Judge.Task.{JudgeTask, pending, status_eq}
use heimdall_backend.Judge.Tasks.{find_pending, find_stale, reclaim_stale}
use heimdall_backend.Judge.Tasks.Table.{find_by}
use heimdall_backend.Judge.Tasks.Recovery.{is_stale, reclaim_stale-find_stale}
use heimdall_backend.Judge.Queue.{
  JobQueue, BootStep, reclaiming, finding, adding, stale_timeout_factor, enqueue, enqueue_until,
  on_application_bootstrap,
}

find_by-All :
    (p f : JudgeTask → Bool) (t : List JudgeTask)
    → All (λ x. f x ≡ true) (find_by p t)
    → All (λ x. (not (p x) || f x) ≡ true) t
unfolding find_by
find_by-All p f [] h = tt
find_by-All p f (x ∷ xs) h = elim (Bool-cases (p x)) [
  | inl here ↦
      let same : find_by p (x ∷ xs) ≡ x ∷ find_by p xs = ground arith in
      let rest = subst (All (λ y. f y ≡ true)) same h in
      (ground (arith, rest.0), find_by-All p f xs rest.1)
  | inr elsewhere ↦
      let same : find_by p (x ∷ xs) ≡ find_by p xs = ground arith in
      (ground arith, find_by-All p f xs (subst (All (λ y. f y ≡ true)) same h))
]

find_by_none :
    (p : JudgeTask → Bool) (t : List JudgeTask) → find_by p t ≡ [] → All (λ x. p x ≡ false) t
unfolding find_by
find_by_none p [] e = tt
find_by_none p (x ∷ xs) e = (ground arith, find_by_none p xs (ground arith))

any-find_by :
    (p f : JudgeTask → Bool) (t : List JudgeTask) → any f (find_by p t) ≡ any (λ x. p x && f x) t
unfolding find_by any
any-find_by p f [] = refl
any-find_by p f (x ∷ xs) = ground (arith, any-find_by p f xs)

module _ (q : JobQueue) (fails : Uuid → Bool) where
  enqueue_until-has_still :
      (tasks : List JudgeTask) (id : Uuid) (jobs : q.Jobs)
      → q.has id jobs ≡ true
      → q.has id (enqueue_until q fails tasks jobs) ≡ true
  unfolding enqueue_until enqueue
  enqueue_until-has_still [] id jobs h = h
  enqueue_until-has_still (x ∷ xs) id jobs h = elim (Bool-cases (fails x.id)) [
    | inl stopped ↦ rw stopped h
    | inr added ↦
        rw added (enqueue_until-has_still xs id (q.add x.id jobs) (q.has_still id x.id jobs h))
  ]

  enqueue_until-All :
      (tasks : List JudgeTask) (jobs : q.Jobs)
      → any (λ x. fails x.id) tasks ≡ false
      → All (λ x. q.has x.id (enqueue_until q fails tasks jobs) ≡ true) tasks
  unfolding enqueue_until enqueue any
  enqueue_until-All [] jobs e = tt
  enqueue_until-All (x ∷ xs) jobs e =
      let added : fails x.id ≡ false = ground arith in
      let same : enqueue_until q fails (x ∷ xs) jobs ≡ enqueue_until q fails xs (q.add x.id jobs) =
        rw added in
      subst (λ jobs'. All (λ y. q.has y.id jobs' ≡ true) (x ∷ xs)) (sym same)
        (
          enqueue_until-has_still xs x.id (q.add x.id jobs) (q.has-add x.id jobs),
          enqueue_until-All xs (q.add x.id jobs) (ground arith),
        )

-- The recovery at boot, whichever of its steps throw: if the tasks cannot be reclaimed, table and queue
-- are as before. Otherwise no row of the table is left processing since before the deadline of stale
-- tasks, and every row whose status is pending has a job in the queue, unless the pending tasks could
-- not be read, where the queue is as before, or one of them could not be added.
pub on_application_bootstrap_lem :
    (q : JobQueue) (fails : BootStep → Bool) (job_timeout_ms app_now now : Millis)
    (t : List JudgeTask) (jobs : q.Jobs)
    → let (t', jobs') = on_application_bootstrap q fails job_timeout_ms app_now now t jobs in
      ((fails reclaiming ≡ true) × (t' ≡ t) × (jobs' ≡ jobs))
      ⊎ (All (λ x. is_stale (app_now - job_timeout_ms * stale_timeout_factor) x ≡ false) t'
          × (((fails finding ≡ true) × (jobs' ≡ jobs))
              ⊎ ((any (λ x. status_eq x.status pending && fails (adding x.id)) t' ≡ true)
                  ⊎ All (λ x. (not (status_eq x.status pending) || q.has x.id jobs') ≡ true) t')))
unfolding on_application_bootstrap find_pending
on_application_bootstrap_lem q fails job_timeout_ms app_now now t jobs =
    let before = app_now - job_timeout_ms * stale_timeout_factor in
    let t' : List JudgeTask = (reclaim_stale before now t).1 in
    let fresh : All (λ x. is_stale before x ≡ false) t' =
      find_by_none (is_stale before) t'
        (unfold find_stale in reclaim_stale-find_stale before now t) in
    elim (Bool-cases (fails reclaiming)) [
      | inl unclaimed ↦ rw unclaimed (inl (refl, refl, refl))
      | inr claimed ↦ elim (Bool-cases (fails finding)) [
        | inl unread ↦ rw (claimed, unread) (inr (fresh, inl (refl, refl)))
        | inr read ↦ elim (Bool-cases (any (λ x. fails (adding x.id)) (find_pending t'))) [
          | inl refused ↦
              rw (claimed, read)
                (inr (
                  fresh,
                  inr (
                      inl (
                        sym (
                          any-find_by (λ x. status_eq x.status pending) (λ x. fails (adding x.id))
                            t')
                        ∙ refused)),
                ))
          | inr added ↦
              rw (claimed, read)
                (inr (
                  fresh,
                  inr (
                      inr (
                        find_by-All (λ x. status_eq x.status pending)
                          (λ x.
                            q.has x.id
                              (enqueue_until q (λ id. fails (adding id)) (find_pending t') jobs))
                          t'
                          (enqueue_until-All q (λ id. fails (adding id)) (find_pending t') jobs
                            added))),
                ))
        ]
      ]
    ]
