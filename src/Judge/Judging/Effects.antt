-- ===== src/Judge/Judging/Effects.antt =====
-- All that a judgment of src/judge/debate-judge.service.ts writes, or nothing of it.
use heimdall_backend.Common.{
  ℕ, ◌+◌, ◌≡◌, ap, true, Option, none, some, List, [], ◌∷◌, ok, arith, Result-cases, Bool-cases,
  inl, inr, ◌⊎◌, ◌==◌, ==_refl, if◌then◌else◌,
}
use mathlib.Core.Option
use heimdall_backend.Common.Tables.{is_affected, find_by, delete_where}
use heimdall_backend.Database.{Database}
use heimdall_backend.Debate.Enums.{DebateOutcome, Uuid}
use heimdall_backend.Debate.Rows.{Debate}
use heimdall_backend.Debate.Turns.{DebateSpeakers}
use heimdall_backend.Members.{Member, debate_win_reward}
use heimdall_backend.Members.Scores.{scored, find_member, find-deduct-deduct, find-reward-scored}
use heimdall_backend.Outcomes.{MessageDraw, apply_within, announce, RoomEvent, reward_winner}
use heimdall_backend.Outcomes.Frame.{apply_within-frame}
use heimdall_backend.Judge.Rows.{DebateJudgeResult, DebateJudgmentResult}
use heimdall_backend.Judge.Scores.{SideScores, to_social_credit_penalty}
use heimdall_backend.Judge.Results.{is_in_stage, judgeable_statuses, judgment_of, replace_judgment}
use heimdall_backend.Judge.Results.Settlement.{IsSettled, complete_judgment_open, judged_tables}
use heimdall_backend.Judge.Judging.{
  JudgeEnv, JudgeDraw, settle_within, settle_judgment, deduct_penalties, to_input, to_outcome,
}
use heimdall_backend.Judge.Judging.Once.{settle_judgment_settled, settle_within-rolled_back}

-- A debate's judgment replaces all that were stored for it.
replace_judgment_single :
    (row : DebateJudgmentResult) (t : List DebateJudgmentResult)
    → find_by (λ j. j.debate_id == row.debate_id) (replace_judgment row t) ≡ row ∷ []
unfolding replace_judgment find_by delete_where
replace_judgment_single row [] = ground (arith, ==_refl row.debate_id)
replace_judgment_single row (j ∷ t) = ground (arith, replace_judgment_single row t)

-- What a member pays for the violations of both sides, and gets as the winner.
abbrev pub penalty_of : DebateSpeakers → DebateJudgeResult → Uuid → ℕ
penalty_of speakers result i =
    (if i == speakers.side_a then to_social_credit_penalty result.side_a.violations else 0)
    + (if i == speakers.side_b then to_social_credit_penalty result.side_b.violations else 0)

abbrev pub reward_of : Option Uuid → Uuid → ℕ
reward_of none i = 0
reward_of (some winner_id) i = if i == winner_id then debate_win_reward else 0

reward_winner-scored :
    (i : Uuid) (winner : Option Uuid) (p : ℕ) (db : Database) (o : Option Member)
    → find_member i db.members ≡ Option.map (scored p 0) o
    → find_member i (reward_winner winner db).members ≡ Option.map (scored p (reward_of winner i)) o
unfolding reward_winner
reward_winner-scored i none p db o e = e
reward_winner-scored i (some w) p db o e = find-reward-scored i w p db.members o e

-- What the transaction of a judgment writes besides the judgment.
settle_within-frame :
    (env : JudgeEnv) (draw : MessageDraw) (speakers : DebateSpeakers) (result : DebateJudgeResult)
    (outcome : DebateOutcome) (db : Database) {after : Database}
    → settle_within env draw speakers result outcome db ≡ ok after
    → (after.judgments ≡ db.judgments)
      × (after.debates ≡ db.debates)
      × (after.members
          ≡ (reward_winner outcome.winner_id (deduct_penalties speakers result db)).members)
unfolding settle_within
settle_within-frame env draw speakers result outcome db {after} e =
    let paid = deduct_penalties speakers result db in
    elim (Result-cases (apply_within env.wording draw outcome paid)) [
      | inr (e', refused) ↦ absurd (ground arith)
      | inl (d, applied) ↦
          let same : d ≡ after = ground arith in
          let frame = apply_within-frame env.wording draw outcome paid applied in
          rw (← same)
            (ap (λ t. t.judgments) frame, ap (λ t. t.debates) frame, ap (λ t. t.members) frame)
    ]

-- A judgment that is settled without an error either finds that the debate may not be judged any
-- more, and then changes no table and announces nothing; or it finds a debate that may. Then the
-- debate is completed with its winner, the judgment is the only one of the debate, every member has
-- paid exactly the penalties of the sides that the member speaks for and got the reward exactly if
-- the member won, and the outcome is announced.
pub settle_judgment_lem :
    (env : JudgeEnv) (draw : JudgeDraw) (debate : Debate) (speakers : DebateSpeakers)
    (scores : SideScores × SideScores) (result : DebateJudgeResult) (i : Uuid) (db : Database)
    {events : List RoomEvent} {after : Database}
    → settle_judgment env draw debate speakers scores result db ≡ ok (events, after)
    → let input = to_input debate scores.0 scores.1 result in
      (IsSettled debate.id db × (events ≡ []) × (after ≡ db))
      ⊎ ((is_affected (is_in_stage debate.id judgeable_statuses none) db.debates ≡ true)
          × (after.debates ≡ (judged_tables draw.judgment_id input draw.now db).debates)
          × (find_by (λ j. j.debate_id == debate.id) after.judgments
              ≡ judgment_of draw.judgment_id draw.now input ∷ [])
          × (find_member i after.members
              ≡ Option.map
                  (scored (penalty_of speakers result i) (reward_of input.winner_id i))
                  (find_member i db.members))
          × (events ≡ announce (to_outcome debate input.winner_id) after))
unfolding settle_judgment to_input to_outcome judgment_of deduct_penalties
settle_judgment_lem env draw debate speakers scores result i db {events} {after} e =
    let input = to_input debate scores.0 scores.1 result in
    let outcome = to_outcome debate input.winner_id in
    let within = settle_within env draw.message speakers result outcome in
    let tables = judged_tables draw.judgment_id input draw.now db in
    let row = judgment_of draw.judgment_id draw.now input in
    elim (Bool-cases (is_affected (is_in_stage debate.id judgeable_statuses none) db.debates)) [
      | inr idle ↦
          let nothing = settle_judgment_settled env draw debate speakers scores result db idle in
          inl (idle, ground (arith, nothing), ground (arith, nothing))
      | inl moved ↦
          let opened = complete_judgment_open draw.judgment_id input within draw.now db moved in
          elim (Result-cases (within tables)) [
            | inr (failure, refused) ↦ absurd (
                ground (
                  arith,
                  opened,
                  settle_within-rolled_back env draw.message speakers result outcome tables refused,
                ))
            | inl (d, done) ↦
                let same : d ≡ after = ground (arith, opened) in
                let told : events ≡ announce outcome after = ground (arith, opened) in
                let (judgments, debates, members) =
                  settle_within-frame env draw.message speakers result outcome tables done in
                let paid =
                  find-deduct-deduct i speakers.side_a speakers.side_b
                    (to_social_credit_penalty result.side_a.violations)
                    (to_social_credit_penalty result.side_b.violations) db.members in
                inr (
                  moved,
                  rw (← same) debates,
                  rw (← same, judgments) (replace_judgment_single row db.judgments),
                  rw (← same, members)
                      (reward_winner-scored i input.winner_id (penalty_of speakers result i)
                        (deduct_penalties speakers result tables) (find_member i db.members) paid),
                  told,
                )
          ]
    ]
