-- ===== src/Chat/Allowed.antt =====
-- Who may send a command, and when (assertCommandAllowed of src/debate-chat/debate-chat-state.ts).
use heimdall_backend.Common.{◌≡◌, ◌↔◌, none, some, if◌then◌else◌, length, last?, or_else, ok, arith}
use mathlib.Core.Option
use heimdall_backend.Debate.Enums.{Uuid, is_in_progress, side_eq_refl, phase_eq_refl}
use heimdall_backend.Debate.Rows.{TurnSlot}
use heimdall_backend.Debate.Schedule.{at}
use heimdall_backend.Debate.Turns.{resolve_side, speaker_of, derive_current_turn}
use heimdall_backend.Chat.Types.{TurnCommand, DebateChatState}
use heimdall_backend.Chat.State.{current_slot, current_turn_started_at, assert_command_allowed}

-- The current turn is the scheduled one at the number of confirmed turns.
pub current_slot_lem :
    (s : DebateChatState)
    → current_slot s ≡ (if is_in_progress s.status then at s.schedule (length s.turns) else none)
unfolding current_slot derive_current_turn
current_slot_lem s = ground arith

-- It starts when the one before was confirmed, or else when the debate started.
pub current_turn_started_at_lem :
    (s : DebateChatState) {slot : TurnSlot}
    → current_slot s ≡ some slot
    → current_turn_started_at s
      ≡ or_else (Option.map (λ t. t.created_at) (last? s.turns)) s.started_at
unfolding current_slot current_turn_started_at derive_current_turn
current_turn_started_at_lem s e = ground arith

pub record IsAllowed (s : DebateChatState) (member_id : Uuid) (command : TurnCommand)
    (slot : TurnSlot) : Type 0 where
  pub current : current_slot s ≡ some slot
  pub side : resolve_side (some s.speakers) member_id ≡ some slot.side
  pub speaker_id : command.speaker_id ≡ member_id
  pub speaker_side : command.speaker_side ≡ slot.side
  pub phase : command.phase ≡ slot.phase
  pub round : command.round ≡ slot.round

-- A command passes with a slot exactly when that is the current slot, the member is the speaker of
-- its side, and the command names that member, side, phase and round.
pub assert_command_allowed_iff :
    (s : DebateChatState) (member_id : Uuid) (command : TurnCommand) (slot : TurnSlot)
    → (assert_command_allowed s member_id command ≡ ok slot) ↔ IsAllowed s member_id command slot
unfolding assert_command_allowed
assert_command_allowed_iff s member_id command slot = (sound, complete)
  where
    sound :
        assert_command_allowed s member_id command ≡ ok slot → IsAllowed s member_id command slot
    sound e = ground arith

    complete :
        IsAllowed s member_id command slot → assert_command_allowed s member_id command ≡ ok slot
    complete a = ground (arith, side_eq_refl slot.side, phase_eq_refl slot.phase)

-- A member who resolves to a side is its speaker.
pub speaker_of-resolve_side :
    (s : DebateChatState) (member_id : Uuid) (slot : TurnSlot)
    → resolve_side (some s.speakers) member_id ≡ some slot.side
    → speaker_of s.speakers slot.side ≡ member_id
unfolding resolve_side
speaker_of-resolve_side s member_id slot e = ground arith
