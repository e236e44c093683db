-- ===== src/Judge/Service/History.antt =====
-- Whatever sequence of steps the judging pipeline (src/judge) takes, a debate that has its end keeps it.
use heimdall_backend.Common.{
  ℕ, ◌≡◌, refl, ap, Bool, true, false, ◌||◌, Option, none, some, List, [], ◌∷◌, ok, arith,
  Result-cases, Bool-cases, inl, inr, ◌==◌, any,
}
use heimdall_backend.Common.Tables.{find_one_by, find_one_by-update_where}
use heimdall_backend.Database.{Database}
use heimdall_backend.Debate.Enums.{Uuid, Millis, DebateStatus, judgment_failed}
use heimdall_backend.Debate.Rows.{Debate}
use heimdall_backend.Debate.Turns.{DebateSpeakers}
use heimdall_backend.Outcomes.{RoomEvent, apply_within}
use heimdall_backend.Outcomes.Frame.{apply_within-frame}
use heimdall_backend.Judge.Task.{JudgeTask}
use heimdall_backend.Judge.Rows.{DebateArgumentComponent, DebateJudgeResult}
use heimdall_backend.Judge.Scores.{SideScores}
use heimdall_backend.Judge.Results.{
  start_judging, fail_judgment, restore_finalized, status_in, is_in_stage, judgeable_statuses,
}
use heimdall_backend.Judge.Results.Settlement.{KeepsDebates, fail_judgment-debates}
use heimdall_backend.Judge.Results.Graph.{
  ReplaceTurnGraphInput, replace_turn_graph, SaveFactCheckInput, replace_fact_check,
  delete_components,
}
use heimdall_backend.Judge.Results.Graph.Links.{replaced}
use heimdall_backend.Judge.Judging.{JudgeEnv, JudgeDraw, settle_judgment, to_input}
use heimdall_backend.Judge.Judging.Effects.{settle_judgment_lem}
use heimdall_backend.Judge.Service.{ServiceEnv, ServiceDraw, apply_failure, failure_of}
use heimdall_backend.Judge.Service.Requests.{is_ended_unjudged}

-- A debate was judged, or it ended without a judgment: by a forfeit or with a silent side.
abbrev pub has_ended : Debate → Bool
has_ended d = status_in (DebateStatus.completed ∷ []) d.debate_status || is_ended_unjudged d

abbrev pub find_row : Uuid → Database → Option Debate
find_row id db = find_one_by (λ d. d.id == id) db.debates

-- One step of the pipeline: what it commits to the tables at once.
pub data JudgeStep : Database → Database → Type 0 where
  starts : (id : Uuid) (now : Millis) (db : Database) → JudgeStep db (start_judging id now db).1
  fails :
      (env : ServiceEnv) (draw : ServiceDraw) (debate : Debate) (db : Database) {moved : Bool}
      {after : Database}
      → fail_judgment debate.id (apply_failure env draw debate) draw.db_now db ≡ ok (moved, after)
      → JudgeStep db after
  restores :
      (id : Uuid) (now : Millis) (db : Database) → JudgeStep db (restore_finalized id now db).1
  judges :
      (env : JudgeEnv) (draw : JudgeDraw) (debate : Debate) (speakers : DebateSpeakers)
      (scores : SideScores × SideScores) (result : DebateJudgeResult) (db : Database)
      {events : List RoomEvent} {after : Database}
      → settle_judgment env draw debate speakers scores result db ≡ ok (events, after)
      → JudgeStep db after
  graphs :
      (ids relation_ids : ℕ → Uuid) (now : Millis) (input : ReplaceTurnGraphInput) (db : Database)
      {saved : List DebateArgumentComponent} {after : Database}
      → replace_turn_graph ids relation_ids now input db ≡ ok (saved, after)
      → JudgeStep db after
  checks :
      (id : Uuid) (now : Millis) (input : SaveFactCheckInput) (db : Database)
      → JudgeStep db (replace_fact_check id now input db).1
  tasks : (t : List JudgeTask) (db : Database) → JudgeStep db (record db { tasks = t })

pub data Reaches (db : Database) : Database → Type 0 where
  here : Reaches db db
  next : {d after : Database} → Reaches db d → JudgeStep d after → Reaches db after

apply_failure-KeepsDebates :
    (env : ServiceEnv) (draw : ServiceDraw) (debate : Debate)
    → KeepsDebates (apply_failure env draw debate)
unfolding apply_failure
apply_failure-KeepsDebates env draw debate db after e =
    elim (Result-cases (apply_within env.wording draw.message (failure_of debate) db)) [
      | inr (e', refused) ↦ absurd (ground arith)
      | inl (d, applied) ↦
          let same : d ≡ after = ground arith in
          rw (← same) (
            ap (λ t. t.debates)
              (apply_within-frame env.wording draw.message (failure_of debate) db applied))
    ]

-- A debate that has its end is in none of the stages that a transition leaves.
not_in_stage :
    (id : Uuid) (d : Debate)
    → has_ended d ≡ true
    → (is_in_stage id judgeable_statuses none d ≡ false)
      × (is_in_stage id (DebateStatus.debate_finalized ∷ []) none d ≡ false)
      × (is_in_stage id (DebateStatus.failed ∷ []) (some judgment_failed) d ≡ false)
unfolding any
not_in_stage id d h = (ground arith, ground arith, ground arith)

module _ (id : Uuid) (d : Debate) (ended : has_ended d ≡ true) where
  JudgeStep-keeps :
      {db after : Database}
      → JudgeStep db after
      → find_row id db ≡ some d
      → find_row id after ≡ some d
  unfolding start_judging restore_finalized replace_fact_check delete_components to_input
  JudgeStep-keeps (starts j now db) h =
      find_one_by-update_where _ _ _ db.debates (λ y p. refl) h (not_in_stage j d ended).1
  JudgeStep-keeps (restores j now db) h =
      find_one_by-update_where _ _ _ db.debates (λ y p. refl) h (not_in_stage j d ended).2
  JudgeStep-keeps (fails env draw debate db e) h =
      let rows =
        fail_judgment-debates debate.id (apply_failure env draw debate) draw.db_now db
          (apply_failure-KeepsDebates env draw debate) e in
      rw rows (
        find_one_by-update_where _ _ _ db.debates (λ y p. refl) h
          (not_in_stage debate.id d ended).0)
  JudgeStep-keeps (judges env draw debate speakers scores result db e) h =
      elim (settle_judgment_lem env draw debate speakers scores result 0 db e) [
        | inl (settled, quiet, same) ↦ rw same h
        | inr (open_, rows, _, _, _) ↦ rw rows (
            find_one_by-update_where _ _ _ db.debates (λ y p. refl) h
              (not_in_stage debate.id d ended).0)
      ]
  JudgeStep-keeps (graphs ids relation_ids now input db e) h =
      let (rows, added, same, whole) = replaced ids relation_ids now input db e in rw whole h
  JudgeStep-keeps (checks j now input db) h =
      elim (Bool-cases (any (λ c. c.id == input.component_id) db.components)) [
        | inl there ↦ rw there h
        | inr missing ↦ rw missing h
      ]
  JudgeStep-keeps (tasks t db) h = h

  -- A debate that was judged, forfeited or ended by silence stays as it is, its winner and its reason
  -- included, whatever steps the judging pipeline takes in whatever order: no retry revives it, no late
  -- judgment and no late failure overwrites it.
  pub Reaches-keeps_end :
      {db after : Database}
      → Reaches db after
      → find_row id db ≡ some d
      → find_row id after ≡ some d
  Reaches-keeps_end here h = h
  Reaches-keeps_end (next r s) h = JudgeStep-keeps s (Reaches-keeps_end r h)
