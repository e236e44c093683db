-- ===== src/Chat/State.antt =====
-- The class DebateChatState of src/debate-chat/debate-chat-state.ts. A method that changes the
-- object returns the new state; one that may throw returns a Result, and a caller drops the object
-- when it is thrown out of.
use heimdall_backend.Common.{
  ℕ, suc, ◌+◌, ◌*◌, ◌&&◌, Option, none, some, List, [], ◌∷◌, ◌++◌, if◌then◌else◌, ◌==◌, ltb, length,
  last?, Result, ok, err, ◌>>=◌, ◌>>◌, guard, or_throw,
}
use mathlib.Core.Option
use heimdall_backend.Common.Maps.{lookup, insert}
use heimdall_backend.Debate.Enums.{
  Uuid, Millis, DebateStatus, in_progress, failed, DebateEndReason, total_time_expired, DebateSide,
  DebateOutcome, DebateOutcomeKind, is_ready, is_in_progress, side_eq, phase_eq,
}
use heimdall_backend.Debate.Rows.{DraftMessage, TurnSlot}
use heimdall_backend.Debate.Schedule.{size}
use heimdall_backend.Debate.Turns.{
  speaker_of, opposite_side, resolve_side, CurrentTurnPosition, derive_current_turn,
}
use heimdall_backend.Chat.Types.{
  ChatError, not_participant, speaker_mismatch, not_in_progress, turn_mismatch,
  turn_character_limit_exceeded, Env, TurnCommand, DraftCommand, appended, duplicate,
  DraftAppendResult, DebateChatStateChanges, empty_changes, DebateChatState,
}

-- TERMINAL_OUTCOME_KINDS: the reasons that end a debate without a judgment.
abbrev pub terminal_outcome_kind : DebateEndReason → Option DebateOutcomeKind
terminal_outcome_kind DebateEndReason.forfeit = some DebateOutcomeKind.forfeit
terminal_outcome_kind total_time_expired = some DebateOutcomeKind.total_timeout
terminal_outcome_kind _ = none

unfoldable pub total_characters : List DraftMessage → ℕ
total_characters [] = 0
total_characters (d ∷ ds) = length d.content + total_characters ds

unfoldable pub record_debate_change : DebateChatState → DebateChatState
record_debate_change s = record s {
  changes = record changes {
    debate = some (record {
      debate_status = status;
      started_at = started_at;
      ended_at = ended_at;
      expires_at = expires_at;
      winner_id = winner_id;
      end_reason = end_reason;
    });
  };
}
  where
    open s use {changes, status, started_at, ended_at, expires_at, winner_id, end_reason}

unfoldable pub current_position : DebateChatState → Option CurrentTurnPosition
current_position s = derive_current_turn (record {
  debate_status = s.status;
  schedule = s.schedule;
  finalized_turn_count = length s.turns;
  last_turn_created_at = Option.map (λ t. t.created_at) (last? s.turns);
  started_at = s.started_at;
})

unfoldable pub current_slot : DebateChatState → Option TurnSlot
unfolding current_position
current_slot s = Option.map (λ p. p.slot) (current_position s)

unfoldable pub current_turn_started_at : DebateChatState → Option Millis
unfolding current_position
current_turn_started_at s = elim (current_position s) [ none ↦ none | some p ↦ p.started_at ]

unfoldable pub current_turn_deadline : DebateChatState → Option Millis
unfolding current_turn_started_at
current_turn_deadline s =
    Option.map (λ t. t + s.limits.max_duration_seconds * 1000) (current_turn_started_at s)

unfoldable pub require_speaker_side : DebateChatState → Uuid → Result ChatError DebateSide
require_speaker_side s member_id =
    or_throw (resolve_side (some s.speakers) member_id) not_participant

unfoldable pub assert_command_allowed :
    DebateChatState → Uuid → TurnCommand → Result ChatError TurnSlot
unfolding current_slot
assert_command_allowed s member_id command = do
  slot ← or_throw (current_slot s) not_in_progress
  side ← or_throw (resolve_side (some s.speakers) member_id) not_participant
  guard (command.speaker_id == member_id && side_eq command.speaker_side side) speaker_mismatch
  guard (side_eq slot.side side && phase_eq slot.phase command.phase && slot.round == command.round)
      turn_mismatch
  ok slot

unfoldable pub drain_changes : DebateChatState → DebateChatStateChanges × DebateChatState
drain_changes s = (s.changes, record s { changes = empty_changes })

abbrev pub remember :
    Option Uuid → DraftMessage → List (Uuid × DraftMessage) → List (Uuid × DraftMessage)
remember none message m = m
remember (some id) message m = insert id message m

-- `this.drafts.push(message)` and the two records of it.
unfoldable pub push_draft : DebateChatState → DraftMessage → DebateChatState
push_draft s message = record s {
  drafts = s.drafts ++ message ∷ [];
  drafts_by_client_message_id =
      remember message.client_message_id message s.drafts_by_client_message_id;
  changes = record s.changes {
    appended_drafts = s.changes.appended_drafts ++ (length s.turns, message) ∷ [];
  };
  reads = suc s.reads;
  drawn = suc s.drawn;
}

-- `clientMessageId !== undefined ? this.draftsByClientMessageId.get(clientMessageId) : undefined`
unfoldable pub find_duplicate : DebateChatState → Option Uuid → Option DraftMessage
find_duplicate s none = none
find_duplicate s (some id) = lookup id s.drafts_by_client_message_id

module _ (env : Env) where
  unfoldable pub start : DebateChatState → DebateChatState
  unfolding record_debate_change
  start s =
      let now = env.now s.reads in
      if is_ready s.status
      then record_debate_change (record s {
        status = in_progress;
        started_at = some now;
        expires_at = some (now + size s.schedule * s.limits.max_duration_seconds * 1000);
        reads = suc s.reads;
      })
      else s

  unfoldable pub end_debate :
      DebateChatState → DebateStatus → DebateEndReason → Option DebateOutcome × DebateChatState
  unfolding record_debate_change
  end_debate s status reason =
      let ended = record_debate_change (record s {
        status = status;
        ended_at = some (env.now s.reads);
        reads = suc s.reads;
        end_reason = some reason;
        changes = record s.changes { end_reason = some reason };
      }) in
      let outcome : Option DebateOutcome =
        Option.map
          (λ kind. record {
            debate_id = s.debate_id;
            community_id = s.community_id;
            kind = kind;
            status = status;
            reason = some reason;
            winner_id = s.winner_id;
          })
          (terminal_outcome_kind reason) in
      (outcome, record ended { changes = record ended.changes { outcome = outcome } })

  -- `as DebateOutcome` is no check: the result is an Option here too.
  unfoldable pub forfeit :
      DebateChatState → Uuid → Result ChatError (Option DebateOutcome × DebateChatState)
  forfeit s member_id = do
    side ← require_speaker_side s member_id
    guard (is_in_progress s.status) not_in_progress
    ok (
        end_debate (record s { winner_id = some (speaker_of s.speakers (opposite_side side)) })
          failed DebateEndReason.forfeit)

  -- The message that `appendDraft` builds.
  unfoldable pub new_draft : DebateChatState → Uuid → DraftCommand → Option Uuid → DraftMessage
  new_draft s member_id command client_message_id = record {
    id = env.generate_id s.drawn;
    debate_id = s.debate_id;
    client_message_id = client_message_id;
    speaker_id = member_id;
    speaker_side = command.speaker_side;
    phase = command.phase;
    round = command.round;
    content = command.content;
    created_at = env.now s.reads;
  }

  unfoldable pub append_draft :
      DebateChatState
      → Uuid
      → DraftCommand
      → Option Uuid
      → Result ChatError (DraftAppendResult × DebateChatState)
  append_draft s member_id command client_message_id = do
    slot ← assert_command_allowed s member_id command.command
    elim (find_duplicate s client_message_id) [
      | some message ↦ ok (record { status = duplicate; message = message }, s)
      | none ↦
          if ltb s.limits.max_total_characters (total_characters s.drafts + length command.content)
          then err turn_character_limit_exceeded
          else let message = new_draft s member_id command client_message_id in
            ok (record { status = appended; message = message }, push_draft s message)
    ]
