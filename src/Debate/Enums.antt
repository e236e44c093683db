-- ===== src/Debate/Enums.antt =====
-- Enumerations of src/debates (debate-status, debate-end-reason, debate-turn), of
-- src/common/entities/resource-status.enum.ts, and of
-- src/debate-outcomes/debate-outcome.types.ts. Uuids enter only through equality, and instants as
-- milliseconds, so both are numbers.
use heimdall_backend.Common.{ℕ, ◌≡◌, refl, Option, Bool, true, false, arith}

abbrev pub Uuid : Type 0
Uuid = ℕ

-- The result of `Date.getTime()`.
abbrev pub Millis : Type 0
Millis = ℕ

pub data DebateStatus : Type 0 where
  ready in_progress debate_finalized judging completed failed : DebateStatus

pub data DebateEndReason : Type 0 where
  all_turns_finalized forfeit total_time_expired judgment_failed : DebateEndReason

pub data ResourceStatus : Type 0 where
  normal deleted admin_deleted : ResourceStatus

pub data DebatePhase : Type 0 where
  opening rebuttal_question closing : DebatePhase

pub data DebateSide : Type 0 where
  side_a side_b : DebateSide

pub data DebateOutcomeKind : Type 0 where
  started result forfeit total_timeout judgment_failed : DebateOutcomeKind

pub record DebateOutcome : Type 0 where
  pub debate_id : Uuid
  pub community_id : Uuid
  pub kind : DebateOutcomeKind
  pub status : DebateStatus
  pub reason : Option DebateEndReason
  pub winner_id : Option Uuid

-- `===` on the enumerations.
abbrev pub phase_eq : DebatePhase → DebatePhase → Bool
phase_eq opening opening = true
phase_eq rebuttal_question rebuttal_question = true
phase_eq closing closing = true
phase_eq _ _ = false

abbrev pub side_eq : DebateSide → DebateSide → Bool
side_eq side_a side_a = true
side_eq side_b side_b = true
side_eq _ _ = false

abbrev pub is_in_progress : DebateStatus → Bool
is_in_progress in_progress = true
is_in_progress _ = false

abbrev pub is_normal : ResourceStatus → Bool
is_normal normal = true
is_normal _ = false

abbrev pub is_ready : DebateStatus → Bool
is_ready ready = true
is_ready _ = false

pub phase_eq_refl : (p : DebatePhase) → phase_eq p p ≡ true
phase_eq_refl opening = refl
phase_eq_refl rebuttal_question = refl
phase_eq_refl closing = refl

pub side_eq_refl : (s : DebateSide) → side_eq s s ≡ true
side_eq_refl side_a = refl
side_eq_refl side_b = refl

pub phase_eq→eq : (p q : DebatePhase) → phase_eq p q ≡ true → p ≡ q
phase_eq→eq p q h = ground arith

pub side_eq→eq : (s t : DebateSide) → side_eq s t ≡ true → s ≡ t
side_eq→eq s t h = ground arith
