-- ===== src/Judge/Analyzer.antt =====
-- The class ArgumentAnalyzerService of src/judge/argument-analyzer.service.ts. A handler returns its
-- result or what it throws, with the tables and the jobs that it leaves. Log lines are left out.
pub mod Accepted
pub mod Validated
pub mod Linked
pub mod Limits
use heimdall_backend.Judge.Validator.{refs_of, validate_graph, limited}
use heimdall_backend.Common.{
  ℕ, suc, ◌+◌, Bool, not, ◌&&◌, ◌||◌, Option, List, [], ◌∷◌, ◌==◌, if◌then◌else◌, Result, ok, err,
  or_throw, ◌>>=◌, ◌>>◌,
}
use heimdall_backend.Common.Text.{Text}
use heimdall_backend.Common.Maps.{insert}
use heimdall_backend.Common.Tables.{find_one_by}
use heimdall_backend.Database.{Database, find_debate}
use heimdall_backend.Debate.Enums.{Uuid, Millis, is_normal, DebatePhase, DebateSide, side_a, side_b}
use heimdall_backend.Debate.Rows.{Debate, DebateMessage, TurnSlot}
use heimdall_backend.Debate.Turns.{resolve_speakers, get_or}
use heimdall_backend.Judge.Task.{JudgeTask, JudgeTaskKind, fact_check}
use heimdall_backend.Judge.Queue.{JobQueue, schedule}
use heimdall_backend.Judge.Rows.{
  ArgumentComponentKind, DebateArgumentComponent, AnalyzerResult, Ref,
}
use heimdall_backend.Judge.Results.{find_components_before}
use heimdall_backend.Judge.Results.Graph.{ReplaceTurnGraphInput, replace_turn_graph}
use heimdall_backend.Judge.Slots.{
  TaskFailure, turn_missing, debate_not_found, no_opponent, no_answer, statement_failed,
  resolve_turn_slot,
}

pub record AnalyzerTurn : Type 0 where
  pub sequence : ℕ
  pub phase : DebatePhase
  pub round : ℕ
  pub speaker_side : DebateSide
  pub speaker_nickname : Text
  pub content : Text

pub record AnalyzerKnownComponent : Type 0 where
  pub ref : Ref
  pub speaker_side : DebateSide
  pub kind : ArgumentComponentKind
  pub statement : Text

-- The field `logContext` goes to the log only.
pub record AnalyzerRequest : Type 0 where
  pub topic : Text
  pub turn : AnalyzerTurn
  pub previous_components : List AnalyzerKnownComponent

-- The language model, and what the code reads of an alias: the number that stands for `p${index + 1}`,
-- and whether an alias is blank.
pub record AnalyzerEnv : Type 0 where
  pub analyze : AnalyzerRequest → Option AnalyzerResult
  pub known_ref : ℕ → Ref
  pub is_blank_ref : Ref → Bool
  pub max_attempts : JudgeTaskKind → ℕ

-- The ids that new rows draw, and the clock of the database.
pub record AnalyzerDraw : Type 0 where
  pub component_id : ℕ → Uuid
  pub relation_id : ℕ → Uuid
  pub task_id : Uuid → Uuid
  pub now : Millis

-- `findTurnOrThrow`: the row with its sequence.
unfoldable pub find_turn : Uuid → List DebateMessage → Result TaskFailure (DebateMessage × ℕ)
find_turn turn_id rows = do
  turn ← or_throw (find_one_by (λ m. m.id == turn_id && is_normal m.status) rows) turn_missing
  sequence ← or_throw turn.sequence turn_missing
  ok (turn, sequence)

-- `resolveSide` of the class, which is not the one of the turn rules.
unfoldable pub resolve_speaker_side : Debate → Uuid → Result TaskFailure DebateSide
resolve_speaker_side debate member_id = do
  speakers ← or_throw (resolve_speakers debate) no_opponent
  ok (if member_id == speakers.side_a then side_a else side_b)

unfoldable pub resolve_nickname : Debate → Uuid → Text
resolve_nickname debate member_id =
    if member_id == debate.host_id then debate.host_nickname else get_or debate.opponent_nickname []

-- The entries of `knownRefToId`, from an index on.
unfoldable pub known_refs :
    (ℕ → Ref) → ℕ → List DebateArgumentComponent → List (Ref × Uuid) → List (Ref × Uuid)
known_refs known_ref index [] m = m
known_refs known_ref index (c ∷ cs) m =
    known_refs known_ref (suc index) cs (insert (known_ref index) c.id m)

unfoldable pub to_known_components :
    (ℕ → Ref) → ℕ → List DebateArgumentComponent → List AnalyzerKnownComponent
to_known_components known_ref index [] = []
to_known_components known_ref index (c ∷ cs) =
    record {
      ref = known_ref index;
      speaker_side = c.speaker_side;
      kind = c.kind;
      statement = c.statement;
    }
    ∷ to_known_components known_ref (suc index) cs

-- What is asked of the model.
unfoldable pub to_analyzer_request :
    (ℕ → Ref)
    → Debate
    → DebateMessage
    → ℕ
    → TurnSlot
    → DebateSide
    → List DebateArgumentComponent
    → AnalyzerRequest
unfolding to_known_components resolve_nickname
to_analyzer_request known_ref debate turn sequence slot side previous = record {
  topic = debate.topic;
  turn = record {
    sequence = sequence;
    phase = slot.phase;
    round = slot.round;
    speaker_side = side;
    speaker_nickname = resolve_nickname debate turn.member_id;
    content = get_or turn.body [];
  };
  previous_components = to_known_components known_ref 0 previous;
}

-- `handle` until it writes: what is to be stored of the turn.
unfoldable pub analyze_turn :
    AnalyzerEnv → JudgeTask → Database → Result TaskFailure ReplaceTurnGraphInput
unfolding find_turn resolve_turn_slot resolve_speaker_side to_analyzer_request
analyze_turn env task db = do
  found ← find_turn task.target_id db.debate_messages
  debate ← or_throw (find_debate task.debate_id db) debate_not_found
  slot ← resolve_turn_slot debate found.1
  side ← resolve_speaker_side debate found.0.member_id
  let previous = find_components_before task.debate_id found.1 db
  let known = known_refs env.known_ref 0 previous []
  analyzed ←
      or_throw
        (env.analyze (to_analyzer_request env.known_ref debate found.0 found.1 slot side previous))
        no_answer
  checked ← validate_graph env.is_blank_ref (refs_of known) analyzed
  ok (record {
    debate_id = task.debate_id;
    turn_id = found.0.id;
    turn_sequence = found.1;
    speaker_id = found.0.member_id;
    speaker_side = side;
    result = limited slot.phase analyzed;
    known_ref_to_id = known;
  })

module _ (q : JobQueue) (env : AnalyzerEnv) (draw : AnalyzerDraw) where
  -- The loop over the saved components.
  unfoldable pub schedule_checks :
      Uuid
      → List DebateArgumentComponent
      → Database
      → q.Jobs
      → Result TaskFailure (Unit {0}) × Database × q.Jobs
  schedule_checks debate_id [] db jobs = (ok tt, db, jobs)
  schedule_checks debate_id (c ∷ cs) db jobs =
      let skip = schedule_checks debate_id cs db jobs in
      if c.needs_fact_check
      then elim (schedule q env.max_attempts (draw.task_id c.id) draw.now debate_id fact_check c.id
          db.tasks jobs) [
            | err e ↦ (err statement_failed, db, jobs)
            | ok (task, tasks, jobs') ↦
                schedule_checks debate_id cs (record db { tasks = tasks }) jobs'
          ]
      else skip

  -- `others` is what other requests do to the tables during the call, until it writes. A call that
  -- throws before it writes leaves just that.
  unfoldable pub analyze :
      (Database → Database)
      → JudgeTask
      → Database
      → q.Jobs
      → Result TaskFailure (Unit {0}) × Database × q.Jobs
  analyze others task db jobs = elim (analyze_turn env task db) [
    | err e ↦ (err e, others db, jobs)
    | ok input ↦
        elim (replace_turn_graph draw.component_id draw.relation_id draw.now input (others db)) [
          | err e ↦ (err statement_failed, others db, jobs)
          | ok (saved, after) ↦ schedule_checks input.debate_id saved after jobs
        ]
  ]
