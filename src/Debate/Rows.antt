-- ===== src/Debate/Rows.antt =====
-- The rows of src/debates/entities that the chat reads and writes, and the messages and turns that
-- are derived from them.
use heimdall_backend.Common.{ℕ, Option}
use heimdall_backend.Common.Text.{Text}
use heimdall_backend.Debate.Enums.{
  Uuid, Millis, DebateStatus, DebateEndReason, DebatePhase, DebateSide, ResourceStatus,
}

-- The columns of `debate` that the modelled code uses.
pub record Debate : Type 0 where
  pub id : Uuid
  pub community_id : Uuid
  pub topic : Text
  pub rebuttal_question_rounds : ℕ
  pub host_id : Uuid
  pub host_nickname : Text
  pub opponent_id : Option Uuid
  pub opponent_nickname : Option Text
  pub debate_status : Option DebateStatus
  pub started_at : Option Millis
  pub ended_at : Option Millis
  pub expires_at : Option Millis
  pub judging_started_at : Option Millis
  pub winner_id : Option Uuid
  pub end_reason : Option DebateEndReason
  pub status : ResourceStatus

-- The columns of `debate_message` that the modelled code uses.
pub record DebateMessage : Type 0 where
  pub id : Uuid
  pub debate_id : Uuid
  pub member_id : Uuid
  pub body : Option Text
  pub sequence : Option ℕ
  pub created_at : Millis
  pub status : ResourceStatus

pub record DraftMessage : Type 0 where
  pub id : Uuid
  pub debate_id : Uuid
  pub client_message_id : Option Uuid
  pub speaker_id : Uuid
  pub speaker_side : DebateSide
  pub phase : DebatePhase
  pub round : ℕ
  pub content : Text
  pub created_at : Millis

pub record DebateChatTurn : Type 0 where
  pub draft : DraftMessage
  pub open draft use *
  pub sequence : ℕ

pub record TurnSlot : Type 0 where
  pub phase : DebatePhase
  pub round : ℕ
  pub side : DebateSide
