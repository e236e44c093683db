-- ===== src/Judge/Scores.antt =====
-- The arithmetic of a judgment: the weights, the total, the winner, the penalties and the validator of
-- src/judge/debate-judge.service.ts. A double that this code computes is a multiple of 2^-54, so it
-- is the number of these units, and every operation rounds to 53 bits, ties to even.
pub mod Rounding
pub mod Winner
use heimdall_backend.Common.{
  ℕ, zero, suc, ◌+◌, ◌*◌, ◌^◌, ◌/◌, ◌%◌, ◌&&◌, List, [], ◌∷◌, ltb, leb, ◌==◌, if◌then◌else◌, Option,
  some, none, Result, ok, err, ◌>>=◌, ◌>>◌, guard, not,
}
use heimdall_backend.Common.Text.{trim, is_empty}
use heimdall_backend.Debate.Enums.{Uuid}
use heimdall_backend.Debate.Rows.{Debate}
use heimdall_backend.Judge.Rows.{
  Score, natural, other, SideJudgment, SideResult, DebateJudgeResult, DebateViolation,
  ViolationSeverity, minor, moderate, high, severe, JudgmentWinner, side_a, side_b, draw,
}

-- MIN_SCORE is 0.
abbrev pub max_score : ℕ
max_score = 100

-- The bits of a double's significand.
abbrev significand : ℕ
significand = 2 ^ 53

-- A number rounded to a multiple of `unit`, where a number halfway goes to the even multiple.
unfoldable pub round_to : ℕ → ℕ → ℕ
round_to unit n =
    let q = n / unit in
    let r = 2 * (n % unit) in
    if ltb r unit then q * unit else if ltb unit r then (q + 1) * unit else (q + q % 2) * unit

-- A number rounded to 53 bits, by doubling the unit until the bits fit; `left` doublings are tried,
-- and ten are enough for the numbers of this code, which are below 2^62.
unfoldable pub to_double : ℕ → ℕ → ℕ → ℕ
unfolding round_to
to_double zero unit n = n
to_double (suc left) unit n =
    let more = to_double left (2 * unit) n in
    if ltb n (significand * unit) then round_to unit n else more

abbrev pub double : ℕ → ℕ
double = to_double 10 1

-- SCORE_WEIGHTS, the doubles 0.4 and 0.3 in units of 2^-54.
abbrev pub argumentation_weight : ℕ
argumentation_weight = 7_205_759_403_792_794

abbrev pub interaction_weight : ℕ
interaction_weight = 5_404_319_552_844_595

abbrev pub factual_reliability_weight : ℕ
factual_reliability_weight = 5_404_319_552_844_595

-- `Math.round`, to the nearest integer, a half upwards.
unfoldable pub math_round : ℕ → ℕ
math_round n = (n + 2 ^ 53) / 2 ^ 54

-- DebateSideScores of a validated answer.
pub record SideScores : Type 0 where
  pub argumentation_score : ℕ
  pub interaction_score : ℕ
  pub factual_reliability_score : ℕ

unfoldable pub weighted_sum : SideScores → ℕ
weighted_sum s = double (
    double (
      double (s.argumentation_score * argumentation_weight)
      + double (s.interaction_score * interaction_weight))
    + double (s.factual_reliability_score * factual_reliability_weight))

unfoldable pub calculate_total_score : SideScores → ℕ
unfolding weighted_sum math_round
calculate_total_score s = math_round (weighted_sum s)

unfoldable pub decide_winner : ℕ → ℕ → JudgmentWinner
decide_winner side_a_total side_b_total =
    if side_a_total == side_b_total
    then draw
    else if ltb side_b_total side_a_total
    then side_a
    else side_b

-- SOCIAL_CREDIT_PENALTY
unfoldable pub social_credit_penalty : ViolationSeverity → ℕ
social_credit_penalty minor = 1
social_credit_penalty moderate = 3
social_credit_penalty high = 7
social_credit_penalty severe = 15

-- `violations.reduce((sum, violation) => ..., 0)`, from a sum on.
unfoldable pub add_penalties : ℕ → List DebateViolation → ℕ
unfolding social_credit_penalty
add_penalties sum [] = sum
add_penalties sum (v ∷ vs) = add_penalties (sum + social_credit_penalty v.severity) vs

unfoldable pub to_social_credit_penalty : List DebateViolation → ℕ
unfolding add_penalties
to_social_credit_penalty violations = add_penalties 0 violations

-- `throw new JudgmentScoreValidationError(...)`
pub data ValidationError : Type 0 where
  bad_score empty_feedback empty_reason : ValidationError

unfoldable pub validate_score : Score → Result ValidationError ℕ
validate_score other = err bad_score
validate_score (natural n) = do guard (leb n max_score) bad_score; ok n

-- The scores of one side, in the order of the checks.
unfoldable pub validate_side : SideJudgment → Result ValidationError SideScores
unfolding validate_score
validate_side j = do
  argumentation ← validate_score j.argumentation_score
  interaction ← validate_score j.interaction_score
  factual_reliability ← validate_score j.factual_reliability_score
  guard (not (is_empty (trim j.feedback))) empty_feedback
  ok (record {
    argumentation_score = argumentation;
    interaction_score = interaction;
    factual_reliability_score = factual_reliability;
  })

unfoldable pub validate_judgment :
    DebateJudgeResult → Result ValidationError (SideScores × SideScores)
unfolding validate_side
validate_judgment result = do
  a ← validate_side result.side_a
  b ← validate_side result.side_b
  guard (not (is_empty (trim result.overall_reason))) empty_reason
  ok (a, b)

-- What is stored of a side.
unfoldable pub side_result : SideScores → SideJudgment → SideResult
side_result s j = record {
  argumentation_score = s.argumentation_score;
  interaction_score = s.interaction_score;
  factual_reliability_score = s.factual_reliability_score;
  total_score = calculate_total_score s;
  feedback = j.feedback;
  violations = j.violations;
  social_credit_penalty = to_social_credit_penalty j.violations;
}

unfoldable pub resolve_winner_id : Debate → JudgmentWinner → Option Uuid
resolve_winner_id debate side_a = some debate.host_id
resolve_winner_id debate side_b = debate.opponent_id
resolve_winner_id debate draw = none
