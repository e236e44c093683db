-- ===== src/Examples/Schedules.antt =====
-- A schedule with one rebuttal round: src/debates/debate-turn.ts.
use heimdall_backend.Common.{◌≡◌, refl, some}
use heimdall_backend.Debate.Enums.{rebuttal_question, side_b}
use heimdall_backend.Debate.Rows.{TurnSlot}
use heimdall_backend.Debate.Schedule.{new, at, build, push_round, push_rebuttals}
use heimdall_backend.Debate.Schedule.Loop.{slot_of}
use heimdall_backend.Debate.Schedule.Positions.{at-new}

abbrev last_answer : TurnSlot
last_answer = record { phase = rebuttal_question; round = 1; side = side_b }

at-new_example : at (new 1) 3 ≡ slot_of 1 3
at-new_example = at-new 1 3

at_three : at (new 1) 3 ≡ some last_answer
unfolding at new build push_round push_rebuttals
at_three = refl
