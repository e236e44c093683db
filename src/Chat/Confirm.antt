-- ===== src/Chat/Confirm.antt =====
-- The class DebateChatState of src/debate-chat/debate-chat-state.ts, continued: a turn is confirmed
-- by its speaker or by the clock, and the debate ends with the last one.
use heimdall_backend.Common.{
  suc, Bool, true, false, not, ◌&&◌, Option, none, some, List, [], ◌∷◌, ◌++◌, map, if◌then◌else◌,
  ltb, length, any, Result, ok, err, ◌>>=◌,
}
use mathlib.Core.Option
use heimdall_backend.Common.Text.{is_empty, trim, join_lines}
use heimdall_backend.Debate.Enums.{
  Uuid, debate_finalized, failed, all_turns_finalized, total_time_expired, DebateSide, side_a,
  side_b, DebateOutcome, side_eq,
}
use heimdall_backend.Debate.Rows.{DebateChatTurn, TurnSlot}
use heimdall_backend.Debate.Schedule.{next}
use heimdall_backend.Debate.Turns.{speaker_of, get_or}
use heimdall_backend.Chat.Types.{
  ChatError, turn_empty, internal, Env, TurnCommand, TurnFinalizeResult, CurrentTurn,
  DebateChatSnapshot, DebateChatState,
}
use heimdall_backend.Chat.State.{
  current_slot, current_turn_started_at, current_turn_deadline, assert_command_allowed, end_debate,
}

-- Some confirmed turn of the side is not blank.
unfoldable pub spoke : List DebateChatTurn → DebateSide → Bool
spoke turns side =
    any (λ turn. side_eq turn.speaker_side side && not (is_empty (trim turn.content))) turns

-- `this.turns.push(turn); this.drafts = [];` and the record of both.
unfoldable pub push_turn : DebateChatState → DebateChatTurn → DebateChatState
push_turn s turn = record s {
  turns = s.turns ++ turn ∷ [];
  drafts = [];
  changes = record s.changes {
    cleared_draft_turn_index = some (length s.turns);
    finalized_turn = some turn;
  };
  reads = suc s.reads;
  drawn = suc s.drawn;
}

-- `this.schedule.next(slot)`, whose exception passes through.
abbrev pub next_slot : DebateChatState → TurnSlot → Result ChatError (Option TurnSlot)
next_slot s slot = elim (next s.schedule slot) [ ok n ↦ ok n | err e ↦ err (internal e) ]

module _ (env : Env) where
  unfoldable pub finish_all_turns : DebateChatState → Option DebateOutcome × DebateChatState
  finish_all_turns s =
      let side_a_spoke = spoke s.turns side_a in
      let side_b_spoke = spoke s.turns side_b in
      if side_a_spoke && side_b_spoke
      then end_debate env s debate_finalized all_turns_finalized
      else end_debate env
          (record s {
            winner_id =
                if side_a_spoke
                then some s.speakers.side_a
                else if side_b_spoke
                then some s.speakers.side_b
                else none;
          })
          failed total_time_expired

  -- The turn that `confirmTurn` builds from the drafts.
  unfoldable pub new_turn : DebateChatState → TurnSlot → DebateChatTurn
  new_turn s slot = record {
    draft = record {
      id = env.generate_id s.drawn;
      debate_id = s.debate_id;
      client_message_id = none;
      speaker_id = speaker_of s.speakers slot.side;
      speaker_side = slot.side;
      phase = slot.phase;
      round = slot.round;
      content = join_lines (map (λ d. d.content) s.drafts);
      created_at = env.now s.reads;
    };
    sequence = suc (length s.turns);
  }

  unfoldable pub confirm_turn :
      DebateChatState → TurnSlot → Result ChatError (TurnFinalizeResult × DebateChatState)
  confirm_turn s slot = do
    let turn = new_turn s slot
    let pushed = push_turn s turn
    following ← next_slot pushed slot
    elim following [
      | some _ ↦
          ok (record { turn = turn; ended = false; end_reason = none; outcome = none }, pushed)
      | none ↦
          let (outcome, finished) = finish_all_turns pushed in
          ok (
            record {
              turn = turn;
              ended = true;
              end_reason = finished.end_reason;
              outcome = outcome;
            },
            finished,
          )
    ]

  unfoldable pub finalize_turn :
      DebateChatState → Uuid → TurnCommand → Result ChatError (TurnFinalizeResult × DebateChatState)
  finalize_turn s member_id command = do
    slot ← assert_command_allowed s member_id command
    elim s.drafts [ [] ↦ err turn_empty | _ ∷ _ ↦ confirm_turn s slot ]

  -- The test reads the clock once, and only if there is a deadline.
  unfoldable pub expire_turn :
      DebateChatState → Result ChatError (Option TurnFinalizeResult × DebateChatState)
  expire_turn s = elim (current_slot s) [
    | none ↦ ok (none, s)
    | some slot ↦ elim (current_turn_deadline s) [
      | none ↦ ok (none, s)
      | some deadline ↦
          let read = record s { reads = suc s.reads } in
          if ltb (env.now s.reads) deadline
          then ok (none, read)
          else do (result, confirmed) ← confirm_turn read slot; ok (some result, confirmed)
    ]
  ]

  -- `currentTurn()`, whose start falls back on the clock. The calls after it read no clock, so this
  -- reading is not counted.
  unfoldable pub current_turn : DebateChatState → Option CurrentTurn
  current_turn s =
      Option.map
        (λ slot. record {
          phase = slot.phase;
          round = slot.round;
          turn_side = slot.side;
          started_at = get_or (current_turn_started_at s) (env.now s.reads);
          max_duration_seconds = s.limits.max_duration_seconds;
          max_total_characters = s.limits.max_total_characters;
        })
        (current_slot s)

  unfoldable pub snapshot : DebateChatState → DebateChatSnapshot
  unfolding current_turn
  snapshot s = record { current_turn = current_turn s; turns = s.turns; draft_messages = s.drafts }
