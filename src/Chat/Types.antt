-- ===== src/Chat/Types.antt =====
-- The types of src/debate-chat/debate-chat-state.ts and debate-chat.types.ts.
use heimdall_backend.Common.{ℕ, Bool, Option, none, List, []}
use heimdall_backend.Common.Text.{Text}
use heimdall_backend.Debate.Enums.{
  Uuid, Millis, DebateStatus, DebateEndReason, DebatePhase, DebateSide, DebateOutcome,
}
use heimdall_backend.Debate.Rows.{DraftMessage, DebateChatTurn}
use heimdall_backend.Debate.Schedule.{DebateTurnSchedule, ScheduleError}
use heimdall_backend.Debate.Turns.{DebateSpeakers}

-- DebateChatErrorCode, DebateErrorCode.NOT_FOUND, a plain `Error` of the schedule, and a transaction
-- of the store that the database rolls back.
pub data ChatError : Type 0 where
  not_participant speaker_mismatch opponent_missing not_in_progress turn_mismatch : ChatError
  turn_character_limit_exceeded finalize_in_progress turn_empty : ChatError
  debate_not_found rolled_back : ChatError
  internal : ScheduleError → ChatError

-- `now` and `generateId`: the k-th reading of the clock and the k-th identifier.
pub record Env : Type 0 where
  pub now : ℕ → Millis
  pub generate_id : ℕ → Uuid

pub record DebateTurnLimits : Type 0 where
  pub max_total_characters : ℕ
  pub max_duration_seconds : ℕ

pub record TurnCommand : Type 0 where
  pub speaker_id : Uuid
  pub speaker_side : DebateSide
  pub phase : DebatePhase
  pub round : ℕ

-- `TurnCommand & { content: string }`
pub record DraftCommand : Type 0 where
  pub command : TurnCommand
  pub open command use *
  pub content : Text

pub data DraftAppendStatus : Type 0 where
  appended duplicate : DraftAppendStatus

pub record DraftAppendResult : Type 0 where
  pub status : DraftAppendStatus
  pub message : DraftMessage

pub record TurnFinalizeResult : Type 0 where
  pub turn : DebateChatTurn
  pub ended : Bool
  pub end_reason : Option DebateEndReason
  pub outcome : Option DebateOutcome

pub record DebateRowChanges : Type 0 where
  pub debate_status : DebateStatus
  pub started_at : Option Millis
  pub ended_at : Option Millis
  pub expires_at : Option Millis
  pub winner_id : Option Uuid
  pub end_reason : Option DebateEndReason

pub record DebateChatStateChanges : Type 0 where
  pub appended_drafts : List (ℕ × DraftMessage)
  pub finalized_turn : Option DebateChatTurn
  pub cleared_draft_turn_index : Option ℕ
  pub debate : Option DebateRowChanges
  pub end_reason : Option DebateEndReason
  pub outcome : Option DebateOutcome

abbrev pub empty_changes : DebateChatStateChanges
empty_changes = record {
  appended_drafts = [];
  finalized_turn = none;
  cleared_draft_turn_index = none;
  debate = none;
  end_reason = none;
  outcome = none;
}

pub record CurrentTurn : Type 0 where
  pub phase : DebatePhase
  pub round : ℕ
  pub turn_side : DebateSide
  pub started_at : Millis
  pub max_duration_seconds : ℕ
  pub max_total_characters : ℕ

pub record DebateChatSnapshot : Type 0 where
  pub current_turn : Option CurrentTurn
  pub turns : List DebateChatTurn
  pub draft_messages : List DraftMessage

-- The private fields of the class DebateChatState. `reads` and `drawn` count the readings of the
-- clock and the identifiers used so far.
pub record DebateChatState : Type 0 where
  pub debate_id : Uuid
  pub community_id : Uuid
  pub speakers : DebateSpeakers
  pub schedule : DebateTurnSchedule
  pub limits : DebateTurnLimits
  pub status : DebateStatus
  pub started_at : Option Millis
  pub ended_at : Option Millis
  pub expires_at : Option Millis
  pub winner_id : Option Uuid
  pub end_reason : Option DebateEndReason
  pub turns : List DebateChatTurn
  pub drafts : List DraftMessage
  pub drafts_by_client_message_id : List (Uuid × DraftMessage)
  pub changes : DebateChatStateChanges
  pub reads : ℕ
  pub drawn : ℕ
