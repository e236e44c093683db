-- ===== src/Judge/Judging/Once.antt =====
-- A debate is judged once: two runs of the judge in src/judge/debate-judge.service.ts.
use heimdall_backend.Common.{
  ◌≡◌, sym, ap, ◌∙◌, none, some, List, [], ok, err, arith, Result-cases, Option-cases, Bool-cases,
  inl, inr,
}
use heimdall_backend.Common.Tables.{is_affected, find_one_by-holds}
use heimdall_backend.Database.{Database, find_debate, is_found}
use heimdall_backend.Debate.Enums.{DebateOutcome, Uuid}
use heimdall_backend.Debate.Rows.{Debate}
use heimdall_backend.Debate.Turns.{DebateSpeakers, resolve_speakers}
use heimdall_backend.Outcomes.{MessageDraw, apply_within, RoomEvent}
use heimdall_backend.Outcomes.Frame.{apply_within-frame}
use heimdall_backend.Judge.Task.{JudgeTask}
use heimdall_backend.Judge.Rows.{DebateJudgeResult}
use heimdall_backend.Judge.Scores.{SideScores, validate_judgment}
use heimdall_backend.Judge.Results.{ResultError, rolled_back, is_in_stage, judgeable_statuses}
use heimdall_backend.Judge.Results.Settlement.{
  IsSettled, KeepsDebates, complete_judgment-IsSettled, complete_judgment_settled,
  complete_judgment_open, judged_tables,
}
use heimdall_backend.Judge.Judging.{
  JudgeEnv, JudgeDraw, settle_within, settle_judgment, handle, deduct_penalties, to_input,
  to_outcome, to_request,
}

pub settle_within-KeepsDebates :
    (env : JudgeEnv) (draw : MessageDraw) (speakers : DebateSpeakers) (result : DebateJudgeResult)
    (outcome : DebateOutcome)
    → KeepsDebates (settle_within env draw speakers result outcome)
unfolding settle_within
settle_within-KeepsDebates env draw speakers result outcome db after e =
    let paid = deduct_penalties speakers result db in
    elim (Result-cases (apply_within env.wording draw outcome paid)) [
      | inr (e', refused) ↦ absurd (ground arith)
      | inl (d, applied) ↦
          let same : d ≡ after = ground arith in
          rw (← same)
            (ap (λ t. t.debates) (apply_within-frame env.wording draw outcome paid applied))
    ]

pub settle_within-rolled_back :
    (env : JudgeEnv) (draw : MessageDraw) (speakers : DebateSpeakers) (result : DebateJudgeResult)
    (outcome : DebateOutcome) (db : Database) {e : ResultError}
    → settle_within env draw speakers result outcome db ≡ err e
    → e ≡ rolled_back
unfolding settle_within
settle_within-rolled_back env draw speakers result outcome db r = ground arith

module _ (env : JudgeEnv) (draw : JudgeDraw) (debate : Debate) (speakers : DebateSpeakers)
    (scores : SideScores × SideScores) (result : DebateJudgeResult) where
  -- A judgment of a debate that is settled changes nothing and sends nothing.
  pub settle_judgment_settled :
      (db : Database)
      → IsSettled debate.id db
      → settle_judgment env draw debate speakers scores result db ≡ ok ([], db)
  unfolding settle_judgment to_input
  settle_judgment_settled db settled =
      let input = to_input debate scores.0 scores.1 result in
      let outcome = to_outcome debate input.winner_id in
      let refused =
        complete_judgment_settled draw.judgment_id input
          (settle_within env draw.message speakers result outcome) draw.now db settled in
      rw (refused, settle_judgment)

  -- A judgment that did not fail leaves the debate settled.
  pub settle_judgment-IsSettled :
      (db : Database) {events : List RoomEvent} {after : Database}
      → settle_judgment env draw debate speakers scores result db ≡ ok (events, after)
      → IsSettled debate.id after
  unfolding settle_judgment to_input
  settle_judgment-IsSettled db {events} {after} e =
      let input = to_input debate scores.0 scores.1 result in
      let outcome = to_outcome debate input.winner_id in
      let within = settle_within env draw.message speakers result outcome in
      let tables = judged_tables draw.judgment_id input draw.now db in
      elim (Bool-cases (is_affected (is_in_stage debate.id judgeable_statuses none) db.debates)) [
        | inr idle ↦
            let same : after ≡ db = ground (arith, settle_judgment_settled db idle) in rw same idle
        | inl moved ↦
            let opened = complete_judgment_open draw.judgment_id input within draw.now db moved in
            elim (Result-cases (within tables)) [
              | inl (d, done) ↦
                  let same : d ≡ after = ground (arith, opened) in
                  rw (← same) (
                    complete_judgment-IsSettled draw.judgment_id input within draw.now db
                      (settle_within-KeepsDebates env draw.message speakers result outcome)
                      (opened ∙ done))
              | inr (failure, refused) ↦
                  let back =
                    settle_within-rolled_back env draw.message speakers result outcome tables
                      refused in
                  absurd (ground (arith, opened, back))
            ]
      ]

found_id : (id : Uuid) (db : Database) {d : Debate} → find_debate id db ≡ some d → d.id ≡ id
unfolding find_debate
found_id id db {d} e =
    ground (arith, find_one_by-holds (is_found db.communities id) db.debates {x = d} e)

-- What a run of the judge that did not fail has done: it settled the judgment of the task's debate on
-- the tables that `others` left.
pub handle-settle_judgment :
    (env : JudgeEnv) (draw : JudgeDraw) (others : Database → Database) (task : JudgeTask)
    (db : Database) {events : List RoomEvent} {after : Database}
    → handle env draw others task db ≡ ok (events, after)
    → (debate : Debate) × (speakers : DebateSpeakers) × (scores : SideScores × SideScores)
      × (result : DebateJudgeResult) × (find_debate task.debate_id db ≡ some debate)
      × (resolve_speakers debate ≡ some speakers)
      × (env.judge (to_request env debate speakers db) ≡ some result)
      × (validate_judgment result ≡ ok scores)
      × (settle_judgment env draw debate speakers scores result (others db) ≡ ok (events, after))
unfolding handle
handle-settle_judgment env draw others task db {events} {after} e =
    elim (Option-cases (find_debate task.debate_id db)) [
      | inl missing ↦ absurd (ground arith)
      | inr (debate, found) ↦ elim (Option-cases (resolve_speakers debate)) [
        | inl alone ↦ absurd (ground arith)
        | inr (speakers, pair) ↦
            elim (Option-cases (env.judge (to_request env debate speakers db))) [
              | inl silent ↦ absurd (ground arith)
              | inr (result, answered) ↦ elim (Result-cases (validate_judgment result)) [
                | inr (e', invalid) ↦ absurd (ground arith)
                | inl (scores, valid) ↦
                    (debate, speakers, scores, result, found, pair, answered, valid, ground arith)
              ]
            ]
      ]
    ]

-- If one run of the judge for a debate has finished without an error, then any other run for it that
-- comes to its end on the tables that the first one left, whatever it read before and whatever its
-- model answered, changes no table and announces nothing: the judgment, the penalties and the reward
-- are not repeated.
pub handle_once :
    (env env' : JudgeEnv) (draw draw' : JudgeDraw) (others : Database → Database)
    (task task' : JudgeTask) (db earlier : Database) {events events' : List RoomEvent}
    {after after' : Database}
    → task'.debate_id ≡ task.debate_id
    → handle env draw others task db ≡ ok (events, after)
    → handle env' draw' (λ d. after) task' earlier ≡ ok (events', after')
    → (events' ≡ []) × (after' ≡ after)
handle_once env env' draw draw' others task task' db earlier {events} {events'} {after} {after'}
      same first second =
    let (debate, speakers, scores, result, found, _, _, _, settled) =
      handle-settle_judgment env draw others task db first in
    let (debate', speakers', scores', result', found', _, _, _, settled') =
      handle-settle_judgment env' draw' (λ d. after) task' earlier second in
    let one =
      settle_judgment-IsSettled env draw debate speakers scores result (others db) settled in
    let ids : debate'.id ≡ debate.id =
      found_id task'.debate_id earlier found' ∙ same ∙ sym (found_id task.debate_id db found) in
    let two =
      settle_judgment_settled env' draw' debate' speakers' scores' result' after (rw ids one) in
    ground (arith, two)
