-- ===== src/Judge/Slots.antt =====
-- The place of a turn in the schedule (src/judge/judge-turn-slot.ts), and the end of a handler that
-- may not be tried again.
use heimdall_backend.Common.{ℕ, some, Result, or_throw}
use heimdall_backend.Debate.Rows.{Debate, TurnSlot}
use heimdall_backend.Debate.Schedule.{new}
use heimdall_backend.Debate.Turns.{slot_of_sequence}

-- What a handler of the pipeline throws: NonRetryableTaskError, the NOT_FOUND of findOneOrThrow, the
-- failure of a language model, an answer that a validator refuses, and a statement that fails.
pub data TaskFailure : Type 0 where
  turn_missing component_missing out_of_schedule no_opponent debate_not_found no_answer
        invalid_graph invalid_sources statement_failed :
      TaskFailure

-- The side of the slot is dropped by the callers.
unfoldable pub resolve_turn_slot : Debate → ℕ → Result TaskFailure TurnSlot
resolve_turn_slot debate sequence =
    or_throw (slot_of_sequence (new debate.rebuttal_question_rounds) (some sequence))
      out_of_schedule
