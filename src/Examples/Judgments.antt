-- ===== src/Examples/Judgments.antt =====
-- One debate that is over, with its two members and its community, and the judgment of it.
use heimdall_backend.Common.{
  ◌+◌, ◌≤◌, ◌≡◌, ◌⊎◌, refl, true, none, some, List, [], ◌∷◌, ◌==◌, Result, ok, err, arith, any, ◌*◌,
}
use mathlib.Core.Option
use heimdall_backend.Common.Text.{Text, trim}
use heimdall_backend.Common.Int.{pos}
use heimdall_backend.Common.Tables.{find_one_by, is_affected, find_by, update_where}
use heimdall_backend.Database.{Database, find_debate}
use heimdall_backend.Debate.Enums.{DebateStatus, all_turns_finalized, normal}
use heimdall_backend.Debate.Rows.{Debate}
use heimdall_backend.Debate.Turns.{DebateSpeakers, resolve_speakers}
use heimdall_backend.Members.{Member}
use heimdall_backend.Members.Scores.{find_member, scored}
use heimdall_backend.Communities.{Community, CommunityState}
use heimdall_backend.Outcomes.{Wording, RoomEvent, apply_within, announce, create}
use heimdall_backend.Judge.Task.{JudgeTask, judge, JudgeTaskStatus}
use heimdall_backend.Judge.Rows.{
  DebateJudgeResult, SideJudgment, natural, profanity, severe, JudgmentWinner,
}
use heimdall_backend.Judge.Scores.{
  SideScores, validate_judgment, calculate_total_score, to_double, decide_winner, resolve_winner_id,
}
use heimdall_backend.Judge.Results.{complete_judgment, is_in_stage, judgeable_statuses, judgment_of}
use heimdall_backend.Judge.Judging.{
  JudgeEnv, JudgeDraw, handle, settle_judgment, to_input, to_outcome,
}
use heimdall_backend.Judge.Judging.Once.{handle_once}
use heimdall_backend.Judge.Judging.Effects.{settle_judgment_lem, penalty_of, reward_of}
use heimdall_backend.Judge.Results.Settlement.{IsSettled, judged_tables}
use heimdall_backend.Judge.Scores.Winner.{
  calculate_total_score_near, decide_winner_ahead, IsValid, tenths,
}

abbrev word : Text
word = 0x61 ∷ []

abbrev pub ended : Debate
ended = record {
  id = 1;
  community_id = 2;
  topic = word;
  rebuttal_question_rounds = 0;
  host_id = 10;
  host_nickname = word;
  opponent_id = some 20;
  opponent_nickname = some word;
  debate_status = some DebateStatus.debate_finalized;
  started_at = some 0;
  ended_at = some 900;
  expires_at = some 4000;
  judging_started_at = none;
  winner_id = none;
  end_reason = some all_turns_finalized;
  status = normal;
}

abbrev pub host : Member
host = record { id = 10; nickname = word; social_credit = pos 100; rating = 0; status = normal }

abbrev pub opponent : Member
opponent = record host { id = 20 }

abbrev pub room : Community
room = record { id = 2; state = CommunityState.active; status = normal }

abbrev pub tables : Database
tables = record {
  debates = ended ∷ [];
  debate_messages = [];
  communities = room ∷ [];
  community_messages = [];
  members = host ∷ opponent ∷ [];
  tasks = [];
  components = [];
  relations = [];
  fact_checks = [];
  judgments = [];
}

abbrev pub clean : SideJudgment
clean = record {
  argumentation_score = natural 90;
  interaction_score = natural 80;
  factual_reliability_score = natural 70;
  feedback = word;
  violations = [];
}

-- The other side is weaker, and has violated the rules once.
abbrev rude : SideJudgment
rude = record clean {
  argumentation_score = natural 50;
  violations = record { type = profanity; severity = severe; evidence = word } ∷ [];
}

abbrev answer : DebateJudgeResult
answer = record { side_a = clean; side_b = rude; overall_reason = word; model = word }

abbrev pub words : Wording
words = record {
  versus = word;
  has_started = word;
  is_draw = word;
  winner_is = word;
  has_forfeited = word;
  is_timed_out = word;
}

abbrev pub model : JudgeEnv
model = record { judge = λ request. some answer; silent_turn_placeholder = word; wording = words }

abbrev pub draw : JudgeDraw
draw = record { judgment_id = 500; now = 1000; message = record { id = 600; now = 1001 } }

abbrev pub task : JudgeTask
task = record {
  id = 7;
  debate_id = 1;
  kind = judge;
  target_id = 1;
  status = JudgeTaskStatus.processing;
  attempt = 1;
  max_attempts = 3;
  request_id = some 70;
  last_error = none;
  updated_at = 950;
}

abbrev pub or_nothing {ℓ κ} : {E : Type ℓ} {A : Type κ} → A → Result E A → A
or_nothing a (ok b) = b
or_nothing a (err e) = a

-- What the first run of the judge leaves, and the second one after it.
unfoldable first_run : List RoomEvent × Database
unfolding handle
first_run = or_nothing ([], tables) (handle model draw (λ d. d) task tables)

unfoldable second_run : List RoomEvent × Database
unfolding handle first_run
second_run = or_nothing ([], tables) (handle model draw (λ d. first_run.1) task tables)

first_handled : handle model draw (λ d. d) task tables ≡ ok first_run
unfolding first_run find_debate find_one_by any resolve_speakers validate_judgment trim
    complete_judgment is_affected apply_within resolve_winner_id decide_winner calculate_total_score
    to_double update_where create
first_handled = refl

second_handled : handle model draw (λ d. first_run.1) task tables ≡ ok second_run
unfolding first_run second_run find_debate find_one_by any resolve_speakers validate_judgment trim
    complete_judgment is_affected apply_within resolve_winner_id decide_winner calculate_total_score
    to_double update_where create
second_handled = refl

handle_once_example : (second_run.0 ≡ []) × (second_run.1 ≡ first_run.1)
handle_once_example =
    handle_once model model draw draw (λ d. d) task task tables tables refl first_handled
      second_handled

abbrev pair : DebateSpeakers
pair = record { side_a = 10; side_b = 20 }

abbrev scores : SideScores × SideScores
scores = (
  record { argumentation_score = 90; interaction_score = 80; factual_reliability_score = 70 },
  record { argumentation_score = 50; interaction_score = 80; factual_reliability_score = 70 },
)

unfoldable settled : List RoomEvent × Database
settled = or_nothing ([], tables) (settle_judgment model draw ended pair scores answer tables)

was_settled : settle_judgment model draw ended pair scores answer tables ≡ ok settled
unfolding settled settle_judgment find_debate find_one_by any complete_judgment is_affected
    apply_within resolve_winner_id decide_winner calculate_total_score to_double update_where create
was_settled = refl

settle_judgment_lem_example :
    (IsSettled ended.id tables × (settled.0 ≡ []) × (settled.1 ≡ tables))
    ⊎ ((is_affected (is_in_stage ended.id judgeable_statuses none) tables.debates ≡ true)
        × (settled.1.debates
            ≡ (judged_tables draw.judgment_id
                (to_input ended scores.0 scores.1 answer)
                draw.now
                tables).debates)
        × (find_by (λ j. j.debate_id == ended.id) settled.1.judgments
            ≡ judgment_of draw.judgment_id draw.now (to_input ended scores.0 scores.1 answer) ∷ [])
        × (find_member 20 settled.1.members
            ≡ Option.map
                (scored
                  (penalty_of pair answer 20)
                  (reward_of (to_input ended scores.0 scores.1 answer).winner_id 20))
                (find_member 20 tables.members))
        × (settled.0
            ≡ announce
                (to_outcome ended (to_input ended scores.0 scores.1 answer).winner_id)
                settled.1))
settle_judgment_lem_example =
    settle_judgment_lem model draw ended pair scores answer 20 tables was_settled

validated : validate_judgment answer ≡ ok scores
unfolding validate_judgment trim
validated = refl

scores-IsValid : IsValid scores.0 × IsValid scores.1
scores-IsValid = (ground arith, ground arith)

calculate_total_score_near_example :
    (10 * calculate_total_score scores.0 ≤ tenths scores.0 + 5)
    × (tenths scores.0 ≤ 10 * calculate_total_score scores.0 + 5)
calculate_total_score_near_example = calculate_total_score_near scores.0 scores-IsValid.0

decide_winner_ahead_example :
    (decide_winner (calculate_total_score scores.0) (calculate_total_score scores.1)
      ≡ JudgmentWinner.side_a)
    × (decide_winner (calculate_total_score scores.1) (calculate_total_score scores.0)
        ≡ JudgmentWinner.side_b)
decide_winner_ahead_example =
    decide_winner_ahead scores.0 scores.1 scores-IsValid.0 scores-IsValid.1 (omega arith)

-- The exact weighted sums of these two are the same, seven and a half.
abbrev even : SideScores × SideScores
even = (
  record { argumentation_score = 0; interaction_score = 1; factual_reliability_score = 24 },
  record { argumentation_score = 6; interaction_score = 1; factual_reliability_score = 16 },
)

half_points : (calculate_total_score even.0 ≡ 7) × (calculate_total_score even.1 ≡ 8)
unfolding calculate_total_score to_double
half_points = (refl, refl)
