-- ===== src/Judge/Tasks/Counts.antt =====
-- countByKind of src/judge/judge-task.repository.ts: one loop over a debate's tasks.
use heimdall_backend.Common.{
  ℕ, suc, ◌+◌, ◌≡◌, List, [], ◌∷◌, length, arith, Bool, ◌&&◌, ◌==◌, if◌then◌else◌, Bool-cases, inl,
  inr,
}
use heimdall_backend.Debate.Enums.{Uuid}
use heimdall_backend.Judge.Task.{
  JudgeTask, JudgeTaskKind, analyzer, fact_check, judge, JudgeTaskStatus, pending, processing,
  completed, failed, kind_eq, status_eq,
}
use heimdall_backend.Judge.Tasks.Table.{find_by}

pub record TaskStatusCounts : Type 0 where
  pub total : ℕ
  pub pending : ℕ
  pub processing : ℕ
  pub completed : ℕ
  pub failed : ℕ

-- `Record<JudgeTaskKind, TaskStatusCounts>`
pub record CountsByKind : Type 0 where
  pub analyzer : TaskStatusCounts
  pub fact_check : TaskStatusCounts
  pub judge : TaskStatusCounts

abbrev pub empty_counts : TaskStatusCounts
empty_counts = record { total = 0; pending = 0; processing = 0; completed = 0; failed = 0 }

abbrev pub no_counts : CountsByKind
no_counts = record { analyzer = empty_counts; fact_check = empty_counts; judge = empty_counts }

-- `bucket.total += 1; bucket[STATUS_FIELD[task.status]] += 1;`
unfoldable pub count_status : JudgeTaskStatus → TaskStatusCounts → TaskStatusCounts
count_status pending c = record c { total = suc c.total; pending = suc c.pending }
count_status processing c = record c { total = suc c.total; processing = suc c.processing }
count_status completed c = record c { total = suc c.total; completed = suc c.completed }
count_status failed c = record c { total = suc c.total; failed = suc c.failed }

unfoldable pub count_task : JudgeTaskKind → JudgeTaskStatus → CountsByKind → CountsByKind
unfolding count_status
count_task analyzer s c = record c { analyzer = count_status s c.analyzer }
count_task fact_check s c = record c { fact_check = count_status s c.fact_check }
count_task judge s c = record c { judge = count_status s c.judge }

unfoldable pub count_tasks : List JudgeTask → CountsByKind → CountsByKind
count_tasks [] c = c
count_tasks (x ∷ xs) c = count_tasks xs (count_task x.kind x.status c)

unfoldable pub count_by_kind : Uuid → List JudgeTask → CountsByKind
count_by_kind debate_id t = count_tasks (find_by (λ x. x.debate_id == debate_id) t) no_counts

-- The bucket of a kind, and in it the field of a status (STATUS_FIELD).
abbrev pub bucket_of : JudgeTaskKind → CountsByKind → TaskStatusCounts
bucket_of analyzer c = c.analyzer
bucket_of fact_check c = c.fact_check
bucket_of judge c = c.judge

abbrev pub field_of : JudgeTaskStatus → TaskStatusCounts → ℕ
field_of pending c = c.pending
field_of processing c = c.processing
field_of completed c = c.completed
field_of failed c = c.failed

abbrev pub is_task : Uuid → JudgeTaskKind → JudgeTaskStatus → JudgeTask → Bool
is_task debate_id k s x = x.debate_id == debate_id && kind_eq x.kind k && status_eq x.status s

count_task_lem :
    (k l : JudgeTaskKind) (s u : JudgeTaskStatus) (c : CountsByKind)
    → field_of s (bucket_of k (count_task l u c))
      ≡ field_of s (bucket_of k c) + (if kind_eq l k && status_eq u s then 1 else 0)
unfolding count_task
count_task_lem k l s u c = ground arith

count_tasks_lem :
    (debate_id : Uuid) (k : JudgeTaskKind) (s : JudgeTaskStatus) (t : List JudgeTask)
    (c : CountsByKind)
    → field_of s (bucket_of k (count_tasks (find_by (λ x. x.debate_id == debate_id) t) c))
      ≡ field_of s (bucket_of k c) + length (find_by (is_task debate_id k s) t)
unfolding count_tasks find_by
count_tasks_lem debate_id k s [] c = omega arith
count_tasks_lem debate_id k s (x ∷ xs) c = elim (Bool-cases (x.debate_id == debate_id)) [
  | inl here ↦ rw here (
      ground (
        arith,
        count_tasks_lem debate_id k s xs (count_task x.kind x.status c),
        count_task_lem k x.kind s x.status c,
      ))
  | inr elsewhere ↦ rw elsewhere (count_tasks_lem debate_id k s xs c)
]

-- Each count of countByKind is the number of the debate's tasks of that kind and status.
pub count_by_kind_lem :
    (debate_id : Uuid) (k : JudgeTaskKind) (s : JudgeTaskStatus) (t : List JudgeTask)
    → field_of s (bucket_of k (count_by_kind debate_id t))
      ≡ length (find_by (is_task debate_id k s) t)
unfolding count_by_kind
count_by_kind_lem debate_id k s t = ground (arith, count_tasks_lem debate_id k s t no_counts)
