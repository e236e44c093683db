-- ===== src/Debate/Schedule.antt =====
-- The class DebateTurnSchedule of src/debates/debate-turn.ts: the order of the turns of one debate.
pub mod Loop
pub mod Positions
use heimdall_backend.Common.{
  ℕ, zero, suc, Bool, ◌&&◌, Option, none, some, List, [], ◌∷◌, ◌++◌, ltb, ◌==◌, if◌then◌else◌,
  length, get_elem?, Result, ok, err, ◌>>=◌, or_throw,
}
use mathlib.Core.Option
use heimdall_backend.Debate.Enums.{
  DebatePhase, opening, rebuttal_question, closing, side_a, side_b, phase_eq, side_eq,
}
use heimdall_backend.Debate.Rows.{TurnSlot}

-- `throw new Error(...)`: a slot that is not in the schedule.
pub data ScheduleError : Type 0 where
  slot_not_in_schedule : ScheduleError

pub record DebateTurnSchedule : Type 0 where
  pub slots : List TurnSlot

unfoldable pub push_round : List TurnSlot → DebatePhase → ℕ → List TurnSlot
push_round slots phase round =
    slots
    ++ record { phase = phase; round = round; side = side_a }
      ∷ record { phase = phase; round = round; side = side_b }
      ∷ []

-- `for (let round = …; round <= rebuttalQuestionRounds; round++)`, with `left` rounds to go.
unfoldable pub push_rebuttals : List TurnSlot → ℕ → ℕ → List TurnSlot
push_rebuttals slots round zero = slots
push_rebuttals slots round (suc left) =
    push_rebuttals (push_round slots rebuttal_question round) (suc round) left

unfoldable pub build : ℕ → List TurnSlot
build rounds = push_round (push_rebuttals (push_round [] opening 1) 1 rounds) closing 1

-- The constructor. A number of rounds that is not a natural number is refused there.
unfoldable pub new : ℕ → DebateTurnSchedule
new rounds = record { slots = build rounds }

unfoldable pub size : DebateTurnSchedule → ℕ
size s = length s.slots

unfoldable pub at : DebateTurnSchedule → ℕ → Option TurnSlot
at s index = if ltb index (length s.slots) then get_elem? s.slots index else none

-- `candidate` is the same slot as `slot`.
abbrev pub slot_eq : TurnSlot → TurnSlot → Bool
slot_eq candidate slot =
    phase_eq candidate.phase slot.phase
    && candidate.round == slot.round
    && side_eq candidate.side slot.side

unfoldable pub find_index : (TurnSlot → Bool) → List TurnSlot → Option ℕ
find_index p [] = none
find_index p (x ∷ xs) = if p x then some 0 else Option.map suc (find_index p xs)

unfoldable pub index_of : DebateTurnSchedule → TurnSlot → Result ScheduleError ℕ
index_of s slot =
    or_throw (find_index (λ candidate. slot_eq candidate slot) s.slots) slot_not_in_schedule

unfoldable pub next : DebateTurnSchedule → TurnSlot → Result ScheduleError (Option TurnSlot)
next s current = do
  index ← index_of s current
  ok (if ltb (suc index) (length s.slots) then get_elem? s.slots (suc index) else none)

unfoldable pub is_last : DebateTurnSchedule → TurnSlot → Result ScheduleError Bool
is_last s current = do index ← index_of s current; ok (suc index == length s.slots)
