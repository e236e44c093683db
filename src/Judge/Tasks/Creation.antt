-- ===== src/Judge/Tasks/Creation.antt =====
-- createIfAbsent of src/judge/judge-task.repository.ts.
use heimdall_backend.Common.{
  ◌≡◌, false, none, some, List, [], ◌∷◌, ◌==◌, arith, All, Option-cases, inl, inr, ◌⊎◌, ok,
}
use heimdall_backend.Debate.Enums.{Uuid, Millis}
use heimdall_backend.Judge.Task.{JudgeTask, kind_eq_refl}
use heimdall_backend.Judge.Tasks.{CreateTaskInput, new_task, create_if_absent, find_by_target}
use heimdall_backend.Judge.Tasks.Table.{find_one_by, insert_or_ignore, same_target}
use heimdall_backend.Judge.Tasks.Rows.{IsNew, IsUnique}

insert_or_ignore-found :
    (row : JudgeTask) (t : List JudgeTask) {x : JudgeTask}
    → find_by_target row.kind row.target_id t ≡ some x
    → insert_or_ignore row t ≡ t
unfolding insert_or_ignore find_by_target find_one_by
insert_or_ignore-found row [] e = cc
insert_or_ignore-found row (y ∷ ys) {x} e = ground (arith, insert_or_ignore-found row ys {x = x})

insert_or_ignore-missing :
    (row : JudgeTask) (t : List JudgeTask)
    → find_by_target row.kind row.target_id t ≡ none
    → find_by_target row.kind row.target_id (insert_or_ignore row t) ≡ some row
unfolding insert_or_ignore find_by_target find_one_by
insert_or_ignore-missing row [] e = ground (arith, kind_eq_refl row.kind)
insert_or_ignore-missing row (y ∷ ys) e = ground (arith, insert_or_ignore-missing row ys)

insert_or_ignore-IsNew :
    (x row : JudgeTask) (t : List JudgeTask)
    → ((x.id == row.id) ≡ false)
    → (same_target x row ≡ false)
    → IsNew x t
    → IsNew x (insert_or_ignore row t)
unfolding insert_or_ignore
insert_or_ignore-IsNew x row [] a b h = ((a, b), tt)
insert_or_ignore-IsNew x row (y ∷ ys) a b h =
    ground (arith, insert_or_ignore-IsNew x row ys a b h.1)

-- An insertion that ignores conflicts keeps the unique keys of a table, if the new row's id is
-- fresh.
pub insert_or_ignore-IsUnique :
    (row : JudgeTask) (t : List JudgeTask)
    → All (λ x. (x.id == row.id) ≡ false) t
    → IsUnique t
    → IsUnique (insert_or_ignore row t)
unfolding insert_or_ignore
insert_or_ignore-IsUnique row [] f u = (tt, tt)
insert_or_ignore-IsUnique row (x ∷ xs) f u =
    ground (arith, insert_or_ignore-IsNew x row xs f.0, insert_or_ignore-IsUnique row xs f.1 u.1)

-- createIfAbsent always returns a task: the one of that target, with the table as it was, or else
-- the new one, which the table then holds for its target.
pub create_if_absent_lem :
    (id : Uuid) (now : Millis) (input : CreateTaskInput) (t : List JudgeTask)
    → ((x : JudgeTask) × (find_by_target input.kind input.target_id t ≡ some x)
        × (create_if_absent id now input t ≡ ok (x, t)))
      ⊎ ((find_by_target input.kind input.target_id t ≡ none)
          × ((t' : List JudgeTask) × (create_if_absent id now input t
                ≡ ok (new_task id now input, t'))
              × (find_by_target input.kind input.target_id t' ≡ some (new_task id now input))))
unfolding create_if_absent new_task
create_if_absent_lem id now input t =
    elim (Option-cases (find_by_target input.kind input.target_id t)) [
      | inl e ↦
          let there = insert_or_ignore-missing (new_task id now input) t e in
          inr (e, (insert_or_ignore (new_task id now input) t, rw there, there))
      | inr (x, e) ↦
          let same = insert_or_ignore-found (new_task id now input) t {x = x} e in
          inl (x, e, rw (same, e))
    ]

create_if_absent-found :
    (id : Uuid) (now : Millis) (input : CreateTaskInput) (t : List JudgeTask) {x : JudgeTask}
    {t' : List JudgeTask}
    → create_if_absent id now input t ≡ ok (x, t')
    → find_by_target input.kind input.target_id t' ≡ some x
create_if_absent-found id now input t e = ground (arith, create_if_absent_lem id now input t)

-- After createIfAbsent returned a task, a second call for the same target returns that same task
-- and changes no row.
pub create_if_absent_again :
    (id id' : Uuid) (now later : Millis) (input : CreateTaskInput) (t : List JudgeTask)
    {x : JudgeTask} {t' : List JudgeTask}
    → create_if_absent id now input t ≡ ok (x, t')
    → create_if_absent id' later input t' ≡ ok (x, t')
create_if_absent_again id id' now later input t {x} {t'} e =
    elim (create_if_absent_lem id' later input t') [
      | inl (y, found, same) ↦ ground (arith, create_if_absent-found id now input t e)
      | inr (missing, _) ↦ absurd (ground (arith, create_if_absent-found id now input t e))
    ]
