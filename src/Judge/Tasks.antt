-- ===== src/Judge/Tasks.antt =====
-- The class JudgeTaskRepository of src/judge/judge-task.repository.ts over a table of tasks. An SQL
-- statement is one step; `now` is the database's clock and `id` the default of a new row.
pub mod Table
pub mod Counts
pub mod Rows
pub mod Ownership
pub mod Creation
pub mod Recovery
use heimdall_backend.Common.{
  ℕ, suc, ◌+◌, Bool, true, false, ◌&&◌, ◌||◌, Option, none, some, List, [], ◌∷◌, ◌++◌, map, ◌==◌,
  ltb, if◌then◌else◌, is_some, Result, ok, err, or_throw, ◌>>=◌,
}
use heimdall_backend.Common.Text.{Text}
use heimdall_backend.Debate.Enums.{Uuid, Millis}
use heimdall_backend.Judge.Task.{
  JudgeTaskKind, analyzer, fact_check, judge, JudgeTaskStatus, pending, processing, completed,
  failed, JudgeTask, kind_eq, status_eq,
}
use Table.{find_one_by, find_by, update_where, affected_by, insert_or_ignore, id_in, request_eq}

pub record CreateTaskInput : Type 0 where
  pub debate_id : Uuid
  pub kind : JudgeTaskKind
  pub target_id : Uuid
  pub max_attempts : ℕ

-- `throw new Error(...)`: the row that was just made or found is missing.
pub data TaskError : Type 0 where
  row_missing : TaskError

unfoldable pub find_by_id : Uuid → List JudgeTask → Option JudgeTask
find_by_id task_id t = find_one_by (λ x. x.id == task_id) t

unfoldable pub find_by_target : JudgeTaskKind → Uuid → List JudgeTask → Option JudgeTask
find_by_target kind target_id t =
    find_one_by (λ x. kind_eq x.kind kind && x.target_id == target_id) t

unfoldable pub find_pending : List JudgeTask → List JudgeTask
find_pending t = find_by (λ x. status_eq x.status pending) t

-- `kind: In(kinds)`
unfoldable pub kind_in : List JudgeTaskKind → JudgeTaskKind → Bool
kind_in [] k = false
kind_in (l ∷ ls) k = kind_eq l k || kind_in ls k

unfoldable pub find_failed : Uuid → List JudgeTaskKind → List JudgeTask → List JudgeTask
find_failed debate_id kinds t =
    find_by (λ x. x.debate_id == debate_id && kind_in kinds x.kind && status_eq x.status failed) t

-- The row that `createIfAbsent` inserts.
unfoldable pub new_task : Uuid → Millis → CreateTaskInput → JudgeTask
new_task id now input = record {
  id = id;
  debate_id = input.debate_id;
  kind = input.kind;
  target_id = input.target_id;
  status = pending;
  attempt = 0;
  max_attempts = input.max_attempts;
  request_id = none;
  last_error = none;
  updated_at = now;
}

unfoldable pub create_if_absent :
    Uuid → Millis → CreateTaskInput → List JudgeTask → Result TaskError (JudgeTask × List JudgeTask)
create_if_absent id now input t = do
  let inserted = insert_or_ignore (new_task id now input) t
  task ← or_throw (find_by_target input.kind input.target_id inserted) row_missing
  ok (task, inserted)

-- The WHERE and the SET of `acquire`.
abbrev pub is_acquirable : Uuid → JudgeTask → Bool
is_acquirable task_id x = x.id == task_id && status_eq x.status pending

abbrev pub acquired : Uuid → Millis → JudgeTask → JudgeTask
acquired request_id now x = record x {
  status = processing;
  request_id = some request_id;
  attempt = x.attempt + 1;
  updated_at = now;
}

unfoldable pub acquire : Uuid → Uuid → Millis → List JudgeTask → Option JudgeTask × List JudgeTask
acquire task_id request_id now t =
    let t' = update_where (is_acquirable task_id) (acquired request_id now) t in
    if affected_by (is_acquirable task_id) t == 0 then (none, t') else (find_by_id task_id t', t')

-- The WHERE of `settle`: this attempt still owns the task.
abbrev pub is_owned : Uuid → Uuid → JudgeTask → Bool
is_owned task_id request_id x =
    x.id == task_id && (status_eq x.status processing && request_eq x.request_id request_id)

unfoldable pub settle :
    Uuid → Uuid → (JudgeTask → JudgeTask) → List JudgeTask → Bool × List JudgeTask
settle task_id request_id values t = (
  ltb 0 (affected_by (is_owned task_id request_id) t),
  update_where (is_owned task_id request_id) values t,
)

unfoldable pub complete : Uuid → Uuid → Millis → List JudgeTask → Bool × List JudgeTask
complete task_id request_id now =
    settle task_id request_id
      (λ x. record x { status = completed; last_error = none; updated_at = now })

unfoldable pub fail : Uuid → Uuid → Text → Millis → List JudgeTask → Bool × List JudgeTask
fail task_id request_id last_error now =
    settle task_id request_id
      (λ x. record x { status = failed; last_error = some last_error; updated_at = now })

unfoldable pub release : Uuid → Uuid → Text → Millis → List JudgeTask → Bool × List JudgeTask
release task_id request_id last_error now = settle task_id request_id (λ x. record x {
  status = pending;
  last_error = some last_error;
  request_id = none;
  updated_at = now;
})

abbrev pub ids_of : List JudgeTask → List Uuid
ids_of = map λ x. x.id

-- The UPDATE of `resetFailed`, for the ids that it read before.
unfoldable pub reset_update : List Uuid → Millis → List JudgeTask → List JudgeTask
reset_update ids now =
    update_where (λ x. id_in ids x.id && status_eq x.status failed)
      (λ x. record x { status = pending; attempt = 0; request_id = none; updated_at = now })

unfoldable pub reset_failed :
    Uuid → List JudgeTaskKind → Millis → List JudgeTask → List JudgeTask × List JudgeTask
reset_failed debate_id kinds now t = elim (find_failed debate_id kinds t) [
  | [] ↦ ([], t)
  | x ∷ xs ↦
      let ids = ids_of (x ∷ xs) in
      let t' = reset_update ids now t in (find_by (λ y. id_in ids y.id) t', t')
]

-- The UPDATE of `reclaimStale`, for the ids that it read before.
unfoldable pub reclaim_update : List Uuid → Millis → List JudgeTask → List JudgeTask
reclaim_update ids now =
    update_where (λ x. id_in ids x.id && status_eq x.status processing)
      (λ x. record x { status = pending; request_id = none; updated_at = now })

unfoldable pub find_stale : Millis → List JudgeTask → List JudgeTask
find_stale stale_before t =
    find_by (λ x. status_eq x.status processing && ltb x.updated_at stale_before) t

unfoldable pub reclaim_stale : Millis → Millis → List JudgeTask → List JudgeTask × List JudgeTask
reclaim_stale stale_before now t = elim (find_stale stale_before t) [
  | [] ↦ ([], t)
  | x ∷ xs ↦
      let ids = ids_of (x ∷ xs) in
      let t' = reclaim_update ids now t in (find_by (λ y. id_in ids y.id) t', t')
]
