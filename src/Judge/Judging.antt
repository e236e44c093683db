-- ===== src/Judge/Judging.antt =====
-- The class DebateJudgeService of src/judge/debate-judge.service.ts: one run of the judge for a debate.
-- The language model is a parameter, and what the rest of the program does to the tables while it
-- answers is the argument `others`. Log lines are left out.
pub mod Once
pub mod Effects
use heimdall_backend.Judge.Request.{load_transcript, load_argument_graph}
use heimdall_backend.Common.{
  ◌&&◌, Option, some, List, [], ◌∷◌, ◌==◌, if◌then◌else◌, Result, ok, err, or_throw, ◌>>=◌,
}
use heimdall_backend.Common.Text.{Text}
use heimdall_backend.Database.{Database, find_debate}
use heimdall_backend.Debate.Enums.{
  Uuid, Millis, side_a, side_b, DebateStatus, all_turns_finalized, DebateOutcome, DebateOutcomeKind,
}
use heimdall_backend.Debate.Rows.{Debate}
use heimdall_backend.Debate.Turns.{DebateSpeakers, resolve_speakers, get_or}
use heimdall_backend.Members.{deduct_social_credit}
use heimdall_backend.Outcomes.{Wording, MessageDraw, apply_within, announce, RoomEvent}
use heimdall_backend.Judge.Task.{JudgeTask}
use heimdall_backend.Judge.Rows.{DebateJudgeRequest, DebateJudgeResult, JudgmentWinner}
use heimdall_backend.Judge.Results.{
  ResultError, already_settled, rolled_back, constraint_violated, SaveJudgmentInput,
  complete_judgment,
}
use heimdall_backend.Judge.Scores.{
  ValidationError, SideScores, validate_judgment, calculate_total_score, decide_winner, side_result,
  to_social_credit_penalty, resolve_winner_id,
}

-- What the handler throws: only the second ends the task without a retry.
pub data HandleError : Type 0 where
  debate_not_found no_opponent judge_failed settlement_failed : HandleError
  invalid_judgment : ValidationError → HandleError

-- The language model, and the fixed words that the code has.
pub record JudgeEnv : Type 0 where
  pub judge : DebateJudgeRequest → Option DebateJudgeResult
  pub silent_turn_placeholder : Text
  pub wording : Wording

-- The ids and the instants that one run draws.
pub record JudgeDraw : Type 0 where
  pub judgment_id : Uuid
  pub now : Millis
  pub message : MessageDraw

unfoldable pub to_request : JudgeEnv → Debate → DebateSpeakers → Database → DebateJudgeRequest
unfolding load_transcript load_argument_graph
to_request env debate speakers db =
    let graph = load_argument_graph debate.id db in
    record {
      topic = debate.topic;
      side_a_nickname = debate.host_nickname;
      side_b_nickname = get_or debate.opponent_nickname [];
      turns = load_transcript env.silent_turn_placeholder debate speakers db;
      components = graph.0;
      relations = graph.1;
    }

unfoldable pub winner_of : SideScores → SideScores → JudgmentWinner
winner_of a b = decide_winner (calculate_total_score a) (calculate_total_score b)

unfoldable pub to_input : Debate → SideScores → SideScores → DebateJudgeResult → SaveJudgmentInput
unfolding winner_of
to_input debate a b result = record {
  debate_id = debate.id;
  winner = winner_of a b;
  side_a = side_result a result.side_a;
  side_b = side_result b result.side_b;
  overall_reason = result.overall_reason;
  model = result.model;
  winner_id = resolve_winner_id debate (winner_of a b);
}

-- `debate.endReason ?? DebateEndReason.ALL_TURNS_FINALIZED`
unfoldable pub to_outcome : Debate → Option Uuid → DebateOutcome
to_outcome debate winner_id = record {
  debate_id = debate.id;
  community_id = debate.community_id;
  kind = DebateOutcomeKind.result;
  status = DebateStatus.completed;
  reason = some (get_or debate.end_reason all_turns_finalized);
  winner_id = winner_id;
}

-- The penalties of both sides.
unfoldable pub deduct_penalties : DebateSpeakers → DebateJudgeResult → Database → Database
deduct_penalties speakers result db = record db {
  members =
      deduct_social_credit speakers.side_b (to_social_credit_penalty result.side_b.violations) (
        deduct_social_credit speakers.side_a (to_social_credit_penalty result.side_a.violations)
          db.members);
}

-- The function that is passed as `withinTransaction`.
unfoldable pub settle_within :
    JudgeEnv
    → MessageDraw
    → DebateSpeakers
    → DebateJudgeResult
    → DebateOutcome
    → Database
    → Result ResultError Database
unfolding deduct_penalties
settle_within env draw speakers result outcome db =
    elim (apply_within env.wording draw outcome (deduct_penalties speakers result db)) [
      | ok after ↦ ok after
      | err e ↦ err rolled_back
    ]

abbrev pub validated :
    Result ValidationError (SideScores × SideScores) → Result HandleError (SideScores × SideScores)
validated (ok scores) = ok scores
validated (err e) = err (invalid_judgment e)

-- The end of `handle`: the transaction, and the announcement if it was committed.
unfoldable pub settle_judgment :
    JudgeEnv
    → JudgeDraw
    → Debate
    → DebateSpeakers
    → SideScores × SideScores
    → DebateJudgeResult
    → Database
    → Result HandleError (List RoomEvent × Database)
unfolding to_input to_outcome settle_within
settle_judgment env draw debate speakers scores result db =
    let input = to_input debate scores.0 scores.1 result in
    let outcome = to_outcome debate input.winner_id in
    elim (complete_judgment draw.judgment_id input
      (settle_within env draw.message speakers result outcome) draw.now db) [
        | ok after ↦ ok (announce outcome after, after)
        | err already_settled ↦ ok ([], db)
        | err rolled_back ↦ err settlement_failed
        | err constraint_violated ↦ err settlement_failed
      ]

unfoldable pub handle :
    JudgeEnv
    → JudgeDraw
    → (Database → Database)
    → JudgeTask
    → Database
    → Result HandleError (List RoomEvent × Database)
unfolding to_request settle_judgment
handle env draw others task db = do
  debate ← or_throw (find_debate task.debate_id db) debate_not_found
  speakers ← or_throw (resolve_speakers debate) no_opponent
  result ← or_throw (env.judge (to_request env debate speakers db)) judge_failed
  scores ← validated (validate_judgment result)
  settle_judgment env draw debate speakers scores result (others db)
