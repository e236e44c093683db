-- ===== src/Debate/Schedule/Loop.antt =====
-- What the loop of DebateTurnSchedule.build puts at each place.
use heimdall_backend.Common.{
  ℕ, zero, suc, ◌+◌, ◌-◌, ◌*◌, ◌/◌, ◌%◌, ◌≡◌, refl, Option, none, some, List, [], ◌∷◌, ltb, ◌==◌,
  if◌then◌else◌, length, get_elem?, length-append, get_elem?-none, arith,
}
use heimdall_backend.Debate.Enums.{
  DebatePhase, opening, rebuttal_question, closing, DebateSide, side_a, side_b,
}
use heimdall_backend.Debate.Rows.{TurnSlot}
use heimdall_backend.Debate.Schedule.{push_round, push_rebuttals, build}

-- Every round is SIDE_A and then SIDE_B.
abbrev pub side_at : ℕ → DebateSide
side_at i = if i % 2 == 0 then side_a else side_b

abbrev pub slot : DebatePhase → ℕ → ℕ → TurnSlot
slot phase round i = record { phase = phase; round = round; side = side_at i }

get_elem?-push_round :
    (xs : List TurnSlot) (phase : DebatePhase) (round i : ℕ)
    → get_elem? (push_round xs phase round) i ≡ (
        if ltb i (length xs)
        then get_elem? xs i
        else if ltb i (length xs + 2)
        then some (slot phase round (i - length xs))
        else none)
unfolding push_round
get_elem?-push_round [] phase round zero = refl
get_elem?-push_round [] phase round (suc zero) = refl
get_elem?-push_round [] phase round (suc (suc i)) = ground arith
get_elem?-push_round (x ∷ xs) phase round zero = ground arith
get_elem?-push_round (x ∷ xs) phase round (suc i) =
    ground (arith, get_elem?-push_round xs phase round i)

length-push_round :
    (xs : List TurnSlot) (phase : DebatePhase) (round : ℕ)
    → length (push_round xs phase round) ≡ length xs + 2
unfolding push_round
length-push_round xs phase round = omega (arith, length-append {0} xs)

pub length-push_rebuttals :
    (xs : List TurnSlot) (round left : ℕ)
    → length (push_rebuttals xs round left) ≡ length xs + 2 * left
unfolding push_rebuttals
length-push_rebuttals xs round zero = omega arith
length-push_rebuttals xs round (suc left) = omega (
  arith,
  length-push_rebuttals (push_round xs rebuttal_question round) (suc round) left,
  length-push_round xs rebuttal_question round,
)

get_elem?-push_rebuttals :
    (xs : List TurnSlot) (round left i : ℕ)
    → get_elem? (push_rebuttals xs round left) i ≡ (
        if ltb i (length xs)
        then get_elem? xs i
        else if ltb i (length xs + 2 * left)
        then some (slot rebuttal_question (round + (i - length xs) / 2) (i - length xs))
        else none)
unfolding push_rebuttals
get_elem?-push_rebuttals xs round zero i = ground (arith, get_elem?-none {0} xs i)
get_elem?-push_rebuttals xs round (suc left) i = ground (
  arith,
  get_elem?-push_rebuttals (push_round xs rebuttal_question round) (suc round) left i,
  length-push_round xs rebuttal_question round,
  get_elem?-push_round xs rebuttal_question round i,
)

-- The whole schedule, read off its index: the turns of one round stand side by side.
unfoldable pub slot_of : ℕ → ℕ → Option TurnSlot
slot_of rounds i =
    if ltb i 2
    then some (slot opening 1 i)
    else if ltb i (2 * rounds + 2)
    then some (slot rebuttal_question ((i - 2) / 2 + 1) i)
    else if ltb i (2 * rounds + 4)
    then some (slot closing 1 i)
    else none

pub length-build : (rounds : ℕ) → length (build rounds) ≡ 2 * rounds + 4
unfolding build
length-build rounds = omega (
  arith,
  length-push_round (push_rebuttals (push_round [] opening 1) 1 rounds) closing 1,
  length-push_rebuttals (push_round [] opening 1) 1 rounds,
  length-push_round [] opening 1,
)

pub get_elem?-build : (rounds i : ℕ) → get_elem? (build rounds) i ≡ slot_of rounds i
unfolding build slot_of
get_elem?-build rounds i = ground (
  arith,
  get_elem?-push_round (push_rebuttals (push_round [] opening 1) 1 rounds) closing 1 i,
  length-push_rebuttals (push_round [] opening 1) 1 rounds,
  get_elem?-push_rebuttals (push_round [] opening 1) 1 rounds i,
  length-push_round [] opening 1,
  get_elem?-push_round [] opening 1 i,
)
