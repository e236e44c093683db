-- ===== src/Judge/Task.antt =====
-- One task of the pipeline: src/judge/entities/judge-task.entity.ts and src/judge/judge.types.ts.
use heimdall_backend.Common.{ℕ, ◌≡◌, refl, Option, Bool, true, false, arith}
use heimdall_backend.Common.Text.{Text}
use heimdall_backend.Debate.Enums.{Uuid, Millis}

pub data JudgeTaskKind : Type 0 where
  analyzer fact_check judge : JudgeTaskKind

pub data JudgeTaskStatus : Type 0 where
  pending processing completed failed : JudgeTaskStatus

-- The column `created_at` is never read.
pub record JudgeTask : Type 0 where
  pub id : Uuid
  pub debate_id : Uuid
  pub kind : JudgeTaskKind
  pub target_id : Uuid
  pub status : JudgeTaskStatus
  pub attempt : ℕ
  pub max_attempts : ℕ
  pub request_id : Option Uuid
  pub last_error : Option Text
  pub updated_at : Millis

abbrev pub kind_eq : JudgeTaskKind → JudgeTaskKind → Bool
kind_eq analyzer analyzer = true
kind_eq fact_check fact_check = true
kind_eq judge judge = true
kind_eq _ _ = false

abbrev pub status_eq : JudgeTaskStatus → JudgeTaskStatus → Bool
status_eq pending pending = true
status_eq processing processing = true
status_eq completed completed = true
status_eq failed failed = true
status_eq _ _ = false

pub kind_eq_refl : (k : JudgeTaskKind) → kind_eq k k ≡ true
kind_eq_refl analyzer = refl
kind_eq_refl fact_check = refl
kind_eq_refl judge = refl

pub kind_eq→eq : (k l : JudgeTaskKind) → kind_eq k l ≡ true → k ≡ l
kind_eq→eq k l h = ground arith
