-- ===== src/Debate/Turns.antt =====
-- The functions of src/debates/debate-turn.ts: who speaks for which side, the conversion of a
-- stored row into a turn, and the derivation of the current turn.
use heimdall_backend.Common.{
  ℕ, zero, suc, Option, none, some, if◌then◌else◌, ◌==◌, or_else, Result, ok, ◌>>=◌, or_throw, [],
}
use heimdall_backend.Debate.Enums.{
  Uuid, Millis, DebateStatus, DebateSide, side_a, side_b, is_in_progress,
}
use heimdall_backend.Debate.Rows.{Debate, DebateMessage, DebateChatTurn, TurnSlot}
use heimdall_backend.Debate.Schedule.{DebateTurnSchedule, ScheduleError, slot_not_in_schedule, at}

pub record DebateSpeakers : Type 0 where
  pub side_a : Uuid
  pub side_b : Uuid

-- `speakers[side]`
abbrev pub speaker_of : DebateSpeakers → DebateSide → Uuid
speaker_of sp side_a = sp.side_a
speaker_of sp side_b = sp.side_b

unfoldable pub resolve_speakers : Debate → Option DebateSpeakers
resolve_speakers d = elim d.opponent_id [
  | none ↦ none
  | some opponent ↦ some (record { side_a = d.host_id; side_b = opponent })
]

unfoldable pub opposite_side : DebateSide → DebateSide
opposite_side side_a = side_b
opposite_side side_b = side_a

unfoldable pub resolve_side : Option DebateSpeakers → Uuid → Option DebateSide
resolve_side none member_id = none
resolve_side (some sp) member_id =
    if member_id == sp.side_a
    then some side_a
    else if member_id == sp.side_b
    then some side_b
    else none

-- `schedule.at(sequence - 1)`, where the index is -1 for a sequence of 0 or null.
unfoldable pub slot_of_sequence : DebateTurnSchedule → Option ℕ → Option TurnSlot
slot_of_sequence schedule none = none
slot_of_sequence schedule (some zero) = none
slot_of_sequence schedule (some (suc index)) = at schedule index

-- `value ?? fallback`
abbrev pub get_or {ℓ} : {A : Type ℓ} → Option A → A → A
get_or none d = d
get_or (some a) d = a

-- `throw new Error(...)` where the row has no slot in the schedule.
unfoldable pub to_debate_turn :
    DebateMessage → DebateSpeakers → DebateTurnSchedule → Result ScheduleError DebateChatTurn
unfolding slot_of_sequence
to_debate_turn row speakers schedule = do
  slot ← or_throw (slot_of_sequence schedule row.sequence) slot_not_in_schedule
  ok (record {
    draft = record {
      id = row.id;
      debate_id = row.debate_id;
      client_message_id = none;
      speaker_id = row.member_id;
      speaker_side = if row.member_id == speakers.side_a then side_a else side_b;
      phase = slot.phase;
      round = slot.round;
      content = get_or row.body [];
      created_at = row.created_at;
    };
    sequence = get_or row.sequence 0;
  })

pub record CurrentTurnInput : Type 0 where
  pub debate_status : DebateStatus
  pub schedule : DebateTurnSchedule
  pub finalized_turn_count : ℕ
  pub last_turn_created_at : Option Millis
  pub started_at : Option Millis

pub record CurrentTurnPosition : Type 0 where
  pub slot : TurnSlot
  pub started_at : Option Millis

unfoldable pub derive_current_turn : CurrentTurnInput → Option CurrentTurnPosition
derive_current_turn input =
    if is_in_progress input.debate_status
    then elim (at input.schedule input.finalized_turn_count) [
      | none ↦ none
      | some slot ↦
          some (record {
            slot = slot;
            started_at = or_else input.last_turn_created_at input.started_at;
          })
    ]
    else none
