-- ===== src/Judge/Tasks/Table.antt =====
-- The SQL that JudgeTaskRepository sends (src/judge/judge-task.repository.ts) over a table as the
-- list of its rows: SELECT, the conditional UPDATE with its number of affected rows, and INSERT with
-- ON CONFLICT DO NOTHING on the unique index (kind, target_id).
use heimdall_backend.Common.{
  Bool, false, ◌&&◌, Option, none, some, List, [], ◌∷◌, ◌==◌, if◌then◌else◌,
}
use heimdall_backend.Debate.Enums.{Uuid}
use heimdall_backend.Judge.Task.{JudgeTask, kind_eq}
unfoldable pub use heimdall_backend.Common.Tables.{
  find_one_by, find_by, update_where, affected_by, id_in,
}

-- The two rows have the same key of the unique index.
abbrev pub same_target : JudgeTask → JudgeTask → Bool
same_target x y = kind_eq x.kind y.kind && x.target_id == y.target_id

unfoldable pub insert_or_ignore : JudgeTask → List JudgeTask → List JudgeTask
insert_or_ignore row [] = row ∷ []
insert_or_ignore row (x ∷ xs) = if same_target x row then x ∷ xs else x ∷ insert_or_ignore row xs

-- `request_id = :requestId`, which a NULL never satisfies.
abbrev pub request_eq : Option Uuid → Uuid → Bool
request_eq none r = false
request_eq (some q) r = q == r
