-- ===== src/Judge/Tasks/Ownership.antt =====
-- Who owns a task: acquire, complete, fail, release and reclaimStale of
-- src/judge/judge-task.repository.ts.
use heimdall_backend.Common.{
  ◌≡◌, refl, ◌≢◌, Bool, true, false, ◌&&◌, none, some, List, [], ◌∷◌, ◌==◌, if◌then◌else◌, arith,
  Option-cases, Bool-cases, inl, inr, ◌⊎◌, ap,
}
use mathlib.Core.Option
use heimdall_backend.Common.Text.{Text}
use heimdall_backend.Debate.Enums.{Uuid, Millis}
use heimdall_backend.Judge.Task.{JudgeTask, pending, processing, status_eq}
use heimdall_backend.Judge.Tasks.{
  find_by_id, acquire, acquired, is_acquirable, is_owned, settle, complete, fail, release,
  reclaim_update,
}
use heimdall_backend.Judge.Tasks.Table.{update_where, affected_by, find_one_by, request_eq, id_in}
use heimdall_backend.Judge.Tasks.Rows.{
  IsUnique, KeepsKeys, find_by_id-update_where, affected_by_id, row_meets, update_where-IsUnique,
}

-- The attempt `request_id` owns the task.
abbrev pub owns : Uuid → Uuid → List JudgeTask → Bool
owns task_id request_id t =
    row_meets (λ x. status_eq x.status processing && request_eq x.request_id request_id)
      (find_by_id task_id t)

update_where-same :
    (p : JudgeTask → Bool) (f : JudgeTask → JudgeTask) (t : List JudgeTask)
    → affected_by p t ≡ 0
    → update_where p f t ≡ t
unfolding update_where affected_by
update_where-same p f [] e = refl
update_where-same p f (x ∷ xs) e = ground (arith, update_where-same p f xs)

-- The rows that a statement `WHERE id = … AND p` leaves, read by the id.
module _ (id : Uuid) (p : JudgeTask → Bool) (f : JudgeTask → JudgeTask) (k : KeepsKeys f) where
  update_by_id :
      (t : List JudgeTask)
      → find_by_id id (update_where (λ x. x.id == id && p x) f t)
        ≡ Option.map (λ x. if p x then f x else x) (find_by_id id t)
  unfolding find_by_id find_one_by update_where
  update_by_id [] = refl
  update_by_id (x ∷ xs) = ground (arith, k x, update_by_id xs)

acquired-KeepsKeys : (request_id : Uuid) (now : Millis) → KeepsKeys (acquired request_id now)
acquired-KeepsKeys request_id now x = (refl, refl, refl)

pub acquire-IsUnique :
    (task_id request_id : Uuid) (now : Millis) (t : List JudgeTask)
    → IsUnique t
    → IsUnique (acquire task_id request_id now t).1
unfolding acquire
acquire-IsUnique task_id request_id now t u =
    let w =
      update_where-IsUnique (is_acquirable task_id) (acquired request_id now)
        (acquired-KeepsKeys request_id now) t u in
    elim (Bool-cases (affected_by (is_acquirable task_id) t == 0)) [
      | inl e ↦ rw e w
      | inr e ↦ rw e w
    ]

-- In a table with unique keys, acquiring a task that is pending returns the row as it then is,
-- processing, owned by this attempt and with one more attempt counted. Otherwise nothing is
-- returned and no row changes.
pub acquire_lem :
    (task_id request_id : Uuid) (now : Millis) (t : List JudgeTask)
    → IsUnique t
    → ((x : JudgeTask) × (find_by_id task_id t ≡ some x)
        × (x.status ≡ pending)
        × ((acquire task_id request_id now t).0 ≡ some (acquired request_id now x))
        × (find_by_id task_id (acquire task_id request_id now t).1
            ≡ some (acquired request_id now x)))
      ⊎ ((row_meets (λ x. status_eq x.status pending) (find_by_id task_id t) ≡ false)
          × (acquire task_id request_id now t ≡ (none, t)))
unfolding acquire
acquire_lem task_id request_id now t u =
    let n = affected_by_id task_id (λ x. status_eq x.status pending) t u in
    let found =
      update_by_id task_id (λ x. status_eq x.status pending) (acquired request_id now)
        (acquired-KeepsKeys request_id now) t in
    elim (Option-cases (find_by_id task_id t)) [
      | inl e ↦ inr (
        rw e,
        ground (arith, update_where-same (is_acquirable task_id) (acquired request_id now) t),
      )
      | inr (x, e) ↦ elim (Bool-cases (status_eq x.status pending)) [
        | inl yes_pending ↦ inl (x, e, ground arith, ground arith, ground arith)
        | inr not_pending ↦ inr (
          rw e not_pending,
          ground (arith, update_where-same (is_acquirable task_id) (acquired request_id now) t),
        )
      ]
    ]

-- In a table with unique keys, no second attempt acquires a task that was just acquired, and the
-- second call changes no row.
pub acquire_once :
    (task_id first second : Uuid) (now later : Millis) (t : List JudgeTask) {x : JudgeTask}
    → IsUnique t
    → (acquire task_id first now t).0 ≡ some x
    → acquire task_id second later (acquire task_id first now t).1
      ≡ (none, (acquire task_id first now t).1)
acquire_once task_id first second now later t u e = elim (acquire_lem task_id first now t u) [
  | inl (y, found, was_pending, got, row) ↦
      elim (acquire_lem task_id second later (acquire task_id first now t).1
        (acquire-IsUnique task_id first now t u)) [
          | inl (z, found', pending', _, _) ↦ absurd (ground arith)
          | inr (_, same) ↦ same
        ]
  | inr (_, same) ↦ absurd (ground (arith, ap (λ r. r.0) same))
]

-- In a table with unique keys, a settlement by values that keep the keys reports success exactly
-- if the attempt still owns the task, and then changes the row of that task. Without ownership no
-- row changes.
pub settle_lem :
    (task_id request_id : Uuid) (values : JudgeTask → JudgeTask) (t : List JudgeTask)
    → KeepsKeys values
    → IsUnique t
    → ((settle task_id request_id values t).0 ≡ owns task_id request_id t)
      × (find_by_id task_id (settle task_id request_id values t).1 ≡ (
          if owns task_id request_id t
          then Option.map values (find_by_id task_id t)
          else find_by_id task_id t))
      × ((owns task_id request_id t ≡ true) ⊎ ((settle task_id request_id values t).1 ≡ t))
unfolding settle
settle_lem task_id request_id values t k u =
    let test =
      λ (x : JudgeTask). status_eq x.status processing && request_eq x.request_id request_id in
    let n = affected_by_id task_id test t u in
    let found = update_by_id task_id test values k t in
    (
      ground arith,
      ground (arith, Option-cases (find_by_id task_id t)),
      ground (
        arith,
        update_where-same (is_owned task_id request_id) values t,
        Bool-cases (owns task_id request_id t),
      ),
    )

-- An attempt that does not own the task settles nothing.
pub settle_not_owned :
    (task_id request_id : Uuid) (values : JudgeTask → JudgeTask) (t : List JudgeTask)
    → KeepsKeys values
    → IsUnique t
    → owns task_id request_id t ≡ false
    → settle task_id request_id values t ≡ (false, t)
settle_not_owned task_id request_id values t k u lost =
    let (won, _, same) = settle_lem task_id request_id values t k u in
    ground (arith, same, won, lost)

reclaim-IsUnique :
    (ids : List Uuid) (now : Millis) (t : List JudgeTask)
    → IsUnique t
    → IsUnique (reclaim_update ids now t)
unfolding reclaim_update
reclaim-IsUnique ids now t u =
    update_where-IsUnique (λ x. id_in ids x.id && status_eq x.status processing)
      (λ x. record x { status = pending; request_id = none; updated_at = now })
      (λ x. (refl, refl, refl)) t u

-- A row found by an id has it.
pub find_by_id-id :
    (id : Uuid) (t : List JudgeTask) (x : JudgeTask) → find_by_id id t ≡ some x → x.id ≡ id
unfolding find_by_id find_one_by
find_by_id-id id [] x e = cc
find_by_id-id id (y ∷ ys) x e = ground (arith, find_by_id-id id ys x)

reclaim_row :
    (ids : List Uuid) (now : Millis) (task_id : Uuid) (t : List JudgeTask)
    → find_by_id task_id (reclaim_update ids now t)
      ≡ Option.map
          (λ x.
            if id_in ids x.id && status_eq x.status processing
            then record x { status = pending; request_id = none; updated_at = now }
            else x)
          (find_by_id task_id t)
unfolding reclaim_update
reclaim_row ids now task_id t =
    find_by_id-update_where (λ x. id_in ids x.id && status_eq x.status processing)
      (λ x. record x { status = pending; request_id = none; updated_at = now })
      (λ x. (refl, refl, refl)) task_id t

reclaimed_not_owned :
    (task_id first : Uuid) (ids : List Uuid) (now : Millis) (t : List JudgeTask)
    → id_in ids task_id ≡ true
    → owns task_id first (reclaim_update ids now t) ≡ false
reclaimed_not_owned task_id first ids now t i = elim (Option-cases (find_by_id task_id t)) [
  | inl e ↦ ground (arith, reclaim_row ids now task_id t)
  | inr (x, e) ↦
      let same = find_by_id-id task_id t x e in
      ground (arith, reclaim_row ids now task_id t, ap (id_in ids) same)
]

acquired_by_other :
    (task_id first second : Uuid) (now : Millis) (t : List JudgeTask)
    → first ≢ second
    → IsUnique t
    → owns task_id first t ≡ false
    → owns task_id first (acquire task_id second now t).1 ≡ false
acquired_by_other task_id first second now t ne u lost = elim (acquire_lem task_id second now t u) [
  | inl (x, found, was_pending, got, row) ↦ ground arith
  | inr (_, same) ↦ rw same lost
]

-- In a table with unique keys, an attempt whose task was reclaimed, and offered to another attempt
-- with a different id since, can neither complete nor fail nor release it: each call reports false
-- and changes no row.
pub late_attempt_dropped :
    (task_id first second : Uuid) (ids : List Uuid) (at_reclaim at_acquire now : Millis)
    (reason : Text) (t : List JudgeTask)
    → first ≢ second
    → IsUnique t
    → id_in ids task_id ≡ true
    → let t' = (acquire task_id second at_acquire (reclaim_update ids at_reclaim t)).1 in
      (complete task_id first now t' ≡ (false, t'))
      × (fail task_id first reason now t' ≡ (false, t'))
      × (release task_id first reason now t' ≡ (false, t'))
unfolding complete fail release
late_attempt_dropped task_id first second ids at_reclaim at_acquire now reason t ne u i =
    let t' = (acquire task_id second at_acquire (reclaim_update ids at_reclaim t)).1 in
    let u' = reclaim-IsUnique ids at_reclaim t u in
    let w = acquire-IsUnique task_id second at_acquire (reclaim_update ids at_reclaim t) u' in
    let lost =
      acquired_by_other task_id first second at_acquire (reclaim_update ids at_reclaim t) ne u'
        (reclaimed_not_owned task_id first ids at_reclaim t i) in
    (
      settle_not_owned task_id first _ t' (λ x. (refl, refl, refl)) w lost,
      settle_not_owned task_id first _ t' (λ x. (refl, refl, refl)) w lost,
      settle_not_owned task_id first _ t' (λ x. (refl, refl, refl)) w lost,
    )
