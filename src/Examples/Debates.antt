-- ===== src/Examples/Debates.antt =====
-- A debate of the members 10 and 20 with no rebuttal round, over a clock that passes the turn limit
-- of one second at each reading: src/debate-chat/debate-chat-state.ts.
use heimdall_backend.Common.{
  ℕ, zero, suc, ◌+◌, ◌*◌, ◌-◌, ◌≡◌, ◌≢◌, refl, ◌↔◌, ◌⊎◌, none, some, [], ◌∷◌, ok, err, arith,
}
use heimdall_backend.Common.Maps.{lookup, insert}
use heimdall_backend.Debate.Enums.{
  Millis, DebateStatus, ready, in_progress, failed, opening, side_a, DebateEndReason,
}
use heimdall_backend.Debate.Rows.{TurnSlot, DraftMessage}
use heimdall_backend.Debate.Schedule.{new, size, at, build, push_round, push_rebuttals}
use heimdall_backend.Debate.Turns.{resolve_side, opposite_side, derive_current_turn}
use heimdall_backend.Chat.Types.{
  Env, TurnCommand, DraftCommand, empty_changes, DebateChatState, turn_empty, TurnFinalizeResult,
  appended, duplicate,
}
use heimdall_backend.Chat.State.{
  start, append_draft, assert_command_allowed, current_slot, current_position,
  current_turn_deadline, current_turn_started_at, total_characters, find_duplicate, forfeit,
  end_debate, require_speaker_side, push_draft, new_draft,
}
use heimdall_backend.Chat.Confirm.{confirm_turn, finalize_turn, expire_turn, finish_all_turns}
use heimdall_backend.Chat.Allowed.{IsAllowed, assert_command_allowed_iff}
use heimdall_backend.Chat.Invariant.{Inv}
use heimdall_backend.Chat.Appending.{append_draft-Inv, append_draft_again}
use heimdall_backend.Chat.Ending.{Forfeit, Finish, finish_all_turns-Finish, forfeit_lem}
use heimdall_backend.Chat.Confirming.{IsConfirmed, confirm_turn-total}
use heimdall_backend.Chat.Starting.{IsStarted, start-IsStarted}
use heimdall_backend.Chat.Expiring.{finalize_turn_lem, expire_turn_due, after_reading}
use heimdall_backend.Chat.Timeout.{AreSpaced, expire_times, expire_times-ends}

abbrev pub slow : Env
slow = record { now = λ k. 2000 * k; generate_id = λ k. 100 + k }

-- A clock that stands still.
abbrev still : Env
still = record { now = λ k. 0; generate_id = λ k. 100 + k }

abbrev pub prepared : DebateStatus → DebateChatState
prepared status = record {
  debate_id = 1;
  community_id = 2;
  speakers = record { side_a = 10; side_b = 20 };
  schedule = new 0;
  limits = record { max_total_characters = 5; max_duration_seconds = 1 };
  status = status;
  started_at = some 0;
  ended_at = none;
  expires_at = some 4000;
  winner_id = none;
  end_reason = none;
  turns = [];
  drafts = [];
  drafts_by_client_message_id = [];
  changes = empty_changes;
  reads = 1;
  drawn = 0;
}

abbrev pub first_slot : TurnSlot
first_slot = record { phase = opening; round = 1; side = side_a }

abbrev pub first_command : TurnCommand
first_command = record { speaker_id = 10; speaker_side = side_a; phase = opening; round = 1 }

abbrev pub hello : DraftCommand
hello = record { command = first_command; content = 72 ∷ 105 ∷ [] }

abbrev too_long : DraftCommand
too_long = record { command = first_command; content = 1 ∷ 2 ∷ 3 ∷ 4 ∷ 5 ∷ 6 ∷ [] }

pub prepared-Inv : (status : DebateStatus) → Inv 0 (prepared status)
unfolding total_characters size new build push_round push_rebuttals
prepared-Inv status = record {
  facts = record { schedule = refl; turns = tt; drafts = tt; filed = tt; bounded = omega arith };
  running =
      λ h. record { begun = refl; not_ended = refl; no_reason = refl; has_turn = omega arith };
  unstarted = λ h. (refl, refl, refl);
}

prepared-slot : current_slot (prepared in_progress) ≡ some first_slot
unfolding current_slot current_position derive_current_turn at new build push_round push_rebuttals
prepared-slot = refl

prepared-deadline : current_turn_deadline (prepared in_progress) ≡ some 1000
unfolding current_turn_deadline current_turn_started_at current_position derive_current_turn at new
    build push_round push_rebuttals
prepared-deadline = refl

-- The clock of a timer: five milliseconds pass between the two readings of a call, and a second
-- from a call to the next.
abbrev ticks : ℕ → Millis
ticks zero = 0
ticks (suc zero) = 1005
ticks (suc (suc k)) = ticks k + 1010

abbrev timer : Env
timer = record { now = ticks; generate_id = λ k. 100 + k }

timer-AreSpaced : AreSpaced timer 1000 1 (size (new 0) - 0)
unfolding size new build push_round push_rebuttals
timer-AreSpaced = ground arith

start-IsStarted_example :
    Inv 0 (start slow (prepared ready))
    × IsStarted slow (prepared ready) (start slow (prepared ready))
start-IsStarted_example = start-IsStarted slow 0 (prepared ready) (prepared-Inv ready) refl

assert_command_allowed_iff_example :
    (assert_command_allowed (prepared in_progress) 10 first_command ≡ ok first_slot)
    ↔ IsAllowed (prepared in_progress) 10 first_command first_slot
assert_command_allowed_iff_example =
    assert_command_allowed_iff (prepared in_progress) 10 first_command first_slot

-- The draft that is stored first.
abbrev pub said : DraftMessage
said = record {
  id = 100;
  debate_id = 1;
  client_message_id = some 7;
  speaker_id = 10;
  speaker_side = side_a;
  phase = opening;
  round = 1;
  content = 72 ∷ 105 ∷ [];
  created_at = 2000;
}

abbrev pub spoken : DebateChatState
spoken = record (prepared in_progress) {
  drafts = said ∷ [];
  drafts_by_client_message_id = (7, said) ∷ [];
  changes = record empty_changes { appended_drafts = (0, said) ∷ [] };
  reads = 2;
  drawn = 1;
}

pub said-append_draft :
    append_draft slow (prepared in_progress) 10 hello (some 7)
    ≡ ok (record { status = appended; message = said }, spoken)
unfolding append_draft assert_command_allowed current_slot current_position derive_current_turn at
    new build push_round push_rebuttals resolve_side find_duplicate total_characters push_draft
    new_draft lookup insert
said-append_draft = refl

pub spoken-Inv : Inv 0 spoken
spoken-Inv =
    append_draft-Inv slow 0 (prepared in_progress) 10 hello (some 7) said-append_draft
      (prepared-Inv in_progress)

append_draft-Inv_example : Inv 0 spoken
append_draft-Inv_example =
    append_draft-Inv slow 0 (prepared in_progress) 10 hello (some 7) said-append_draft
      (prepared-Inv in_progress)

pub spoken-slot : current_slot spoken ≡ some first_slot
unfolding current_slot current_position derive_current_turn at new build push_round push_rebuttals
spoken-slot = refl

spoken-IsAllowed : IsAllowed spoken 10 first_command first_slot
unfolding resolve_side
spoken-IsAllowed = record {
  current = spoken-slot;
  side = refl;
  speaker_id = refl;
  speaker_side = refl;
  phase = refl;
  round = refl;
}

append_draft_again_example :
    append_draft slow spoken 10 too_long (some 7)
    ≡ ok (record { status = duplicate; message = said }, spoken)
append_draft_again_example =
    append_draft_again slow (prepared in_progress) 10 10 hello too_long 7 first_slot
      said-append_draft spoken-IsAllowed

confirm_turn-total_example :
    (r : TurnFinalizeResult) × (s' : DebateChatState) × (confirm_turn slow spoken first_slot
      ≡ ok (r, s'))
    × Inv 0 s'
    × IsConfirmed slow spoken first_slot r s'
confirm_turn-total_example = confirm_turn-total slow 0 spoken first_slot spoken-Inv spoken-slot

finalize_turn_lem_example :
    ((said ∷ [] ≡ []) × (finalize_turn slow spoken 10 first_command ≡ err turn_empty))
    ⊎ ((said ∷ [] ≢ [])
        × ((r : TurnFinalizeResult) × (s' : DebateChatState) × (finalize_turn slow spoken 10
                first_command
              ≡ ok (r, s'))
            × Inv 0 s'
            × IsConfirmed slow spoken first_slot r s'))
finalize_turn_lem_example =
    finalize_turn_lem slow 0 spoken 10 first_command first_slot spoken-Inv spoken-IsAllowed

expire_turn_due_example :
    (r : TurnFinalizeResult) × (s' : DebateChatState) × (expire_turn slow (prepared in_progress)
      ≡ ok (some r, s'))
    × Inv 0 s'
    × IsConfirmed slow (after_reading (prepared in_progress)) first_slot r s'
expire_turn_due_example =
    expire_turn_due slow 0 (prepared in_progress) first_slot 1000 (prepared-Inv in_progress)
      prepared-slot prepared-deadline (omega arith)

expire_times-ends_example :
    (s' : DebateChatState) × (expire_times timer (size (new 0) - 0) (prepared in_progress) ≡ ok s')
    × (s'.status ≢ in_progress)
    × Inv 0 s'
expire_times-ends_example =
    expire_times-ends timer 0 (prepared in_progress) 1000 (prepared-Inv in_progress) timer-AreSpaced
      refl prepared-deadline (omega arith)

abbrev one_sided : DebateChatState
one_sided = record (prepared in_progress) { turns = record { draft = said; sequence = 1 } ∷ [] }

finish_all_turns-Finish_example :
    Finish one_sided (finish_all_turns slow one_sided).1 (finish_all_turns slow one_sided).0
finish_all_turns-Finish_example = finish_all_turns-Finish slow one_sided

forfeit_lem_example : Forfeit spoken 20 (forfeit slow spoken 20)
forfeit_lem_example = forfeit_lem slow spoken 20

guest_forfeits :
    forfeit slow spoken 20
    ≡ ok (end_debate slow (record spoken { winner_id = some 10 }) failed DebateEndReason.forfeit)
unfolding forfeit require_speaker_side resolve_side opposite_side
guest_forfeits = refl
