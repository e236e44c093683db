-- ===== src/Judge/Results.antt =====
-- The class JudgeResultRepository of src/judge/judge-result.repository.ts. An SQL statement is one
-- step; each reading of a clock and each id that a new row draws is an argument.
pub mod Settlement
pub mod Graph
use heimdall_backend.Common.{
  ℕ, Bool, true, false, ◌&&◌, ◌||◌, Option, none, some, List, [], ◌∷◌, ◌++◌, ◌==◌, ltb, leb, any,
  if◌then◌else◌, or_else, Result, ok, ◌>>=◌, ◌>>◌, guard,
}
use heimdall_backend.Common.Text.{Text}
use heimdall_backend.Common.Tables.{
  find_by, find_one_by, update_where, is_affected, delete_where, sort_by,
}
use heimdall_backend.Database.{Database}
use heimdall_backend.Debate.Enums.{
  Uuid, Millis, is_normal, DebateStatus, DebateEndReason, all_turns_finalized, judgment_failed,
  forfeit, total_time_expired,
}
use heimdall_backend.Debate.Rows.{Debate}
use heimdall_backend.Judge.Rows.{
  DebateArgumentComponent, DebateArgumentRelation, DebateFactCheckResult, DebateJudgmentResult,
  JudgmentWinner, SideResult,
}

-- JudgmentAlreadySettledError, what `withinTransaction` throws, and a constraint of the database
-- that an INSERT violates.
pub data ResultError : Type 0 where
  already_settled rolled_back constraint_violated : ResultError

-- `===` on the enumerations.
abbrev pub status_eq : DebateStatus → DebateStatus → Bool
status_eq DebateStatus.ready DebateStatus.ready = true
status_eq DebateStatus.in_progress DebateStatus.in_progress = true
status_eq DebateStatus.debate_finalized DebateStatus.debate_finalized = true
status_eq DebateStatus.judging DebateStatus.judging = true
status_eq DebateStatus.completed DebateStatus.completed = true
status_eq DebateStatus.failed DebateStatus.failed = true
status_eq _ _ = false

abbrev pub reason_eq : DebateEndReason → DebateEndReason → Bool
reason_eq all_turns_finalized all_turns_finalized = true
reason_eq forfeit forfeit = true
reason_eq total_time_expired total_time_expired = true
reason_eq judgment_failed judgment_failed = true
reason_eq _ _ = false

-- `debate_status IN (...)`, which a NULL never satisfies.
abbrev pub status_in : List DebateStatus → Option DebateStatus → Bool
status_in expected none = false
status_in expected (some s) = any (status_eq s) expected

-- `end_reason = :expectedEndReason`, where that is given.
abbrev pub reason_matches : Option DebateEndReason → Option DebateEndReason → Bool
reason_matches none reason = true
reason_matches (some e) none = false
reason_matches (some e) (some reason) = reason_eq reason e

-- An option that is `undefined` is `none`; a winner that is given may be NULL.
pub record DebateTransitionOptions : Type 0 where
  pub end_reason : Option DebateEndReason
  pub winner_id : Option (Option Uuid)
  pub expected_end_reason : Option DebateEndReason

abbrev pub no_options : DebateTransitionOptions
no_options = record { end_reason = none; winner_id = none; expected_end_reason = none }

-- JUDGEABLE_STATUSES
abbrev pub judgeable_statuses : List DebateStatus
judgeable_statuses = DebateStatus.debate_finalized ∷ DebateStatus.judging ∷ []

-- The WHERE and the SET of `transitionDebate`.
abbrev pub is_in_stage : Uuid → List DebateStatus → Option DebateEndReason → Debate → Bool
is_in_stage debate_id expected reason d =
    d.id == debate_id
    && (is_normal d.status
        && (status_in expected d.debate_status && reason_matches reason d.end_reason))

abbrev pub given {ℓ} : {A : Type ℓ} → Option A → A → A
given none a = a
given (some b) a = b

abbrev pub in_next_stage : DebateStatus → DebateTransitionOptions → Millis → Debate → Debate
in_next_stage next options now d = record d {
  debate_status = some next;
  judging_started_at =
      if status_eq next DebateStatus.judging then some now else d.judging_started_at;
  end_reason = or_else options.end_reason d.end_reason;
  winner_id = given options.winner_id d.winner_id;
}

unfoldable pub transition_debate :
    Uuid
    → DebateStatus
    → List DebateStatus
    → DebateTransitionOptions
    → Millis
    → Database
    → Bool × Database
transition_debate debate_id next expected options now db =
    let stage = is_in_stage debate_id expected options.expected_end_reason in
    (
      is_affected stage db.debates,
      record db { debates = update_where stage (in_next_stage next options now) db.debates },
    )

unfoldable pub start_judging : Uuid → Millis → Database → Bool × Database
unfolding transition_debate
start_judging debate_id now =
    transition_debate debate_id DebateStatus.judging (DebateStatus.debate_finalized ∷ []) no_options
      now

-- The exception of `withinTransaction` rolls the transaction back.
unfoldable pub fail_judgment :
    Uuid
    → (Database → Result ResultError Database)
    → Millis
    → Database
    → Result ResultError (Bool × Database)
unfolding transition_debate
fail_judgment debate_id within_transaction now db =
    let (moved, db') =
      transition_debate debate_id DebateStatus.failed judgeable_statuses
        (record no_options { end_reason = some judgment_failed }) now db in
    if moved then (do after ← within_transaction db'; ok (true, after)) else ok (false, db')

unfoldable pub restore_finalized : Uuid → Millis → Database → Bool × Database
unfolding transition_debate
restore_finalized debate_id now =
    transition_debate debate_id DebateStatus.debate_finalized (DebateStatus.failed ∷ [])
      (record {
        end_reason = some all_turns_finalized;
        winner_id = none;
        expected_end_reason = some judgment_failed;
      })
      now

pub record SaveJudgmentInput : Type 0 where
  pub debate_id : Uuid
  pub winner : JudgmentWinner
  pub side_a : SideResult
  pub side_b : SideResult
  pub overall_reason : Text
  pub model : Text
  pub winner_id : Option Uuid

-- The row that is saved: all columns of the input but the winner's id.
unfoldable pub judgment_of : Uuid → Millis → SaveJudgmentInput → DebateJudgmentResult
judgment_of id now input = record {
  id = id;
  debate_id = input.debate_id;
  winner = input.winner;
  side_a = input.side_a;
  side_b = input.side_b;
  overall_reason = input.overall_reason;
  model = input.model;
  judged_at = now;
}

unfoldable pub replace_judgment :
    DebateJudgmentResult → List DebateJudgmentResult → List DebateJudgmentResult
replace_judgment row t = delete_where (λ j. j.debate_id == row.debate_id) t ++ row ∷ []

unfoldable pub complete_judgment :
    Uuid
    → SaveJudgmentInput
    → (Database → Result ResultError Database)
    → Millis
    → Database
    → Result ResultError Database
unfolding transition_debate replace_judgment judgment_of
complete_judgment id input within_transaction now db = do
  let (moved, db') =
      transition_debate input.debate_id DebateStatus.completed judgeable_statuses
        (record no_options { winner_id = some input.winner_id }) now db
  guard moved already_settled
  within_transaction
      (record db' { judgments = replace_judgment (judgment_of id now input) db'.judgments })

unfoldable pub find_judgment : Uuid → Database → Option DebateJudgmentResult
find_judgment debate_id db = find_one_by (λ j. j.debate_id == debate_id) db.judgments

-- `order: { turnSequence: 'ASC', createdAt: 'ASC' }`
abbrev pub is_spoken_before : DebateArgumentComponent → DebateArgumentComponent → Bool
is_spoken_before c d =
    ltb c.turn_sequence d.turn_sequence
    || (c.turn_sequence == d.turn_sequence && leb c.created_at d.created_at)

unfoldable pub find_components : Uuid → Database → List DebateArgumentComponent
find_components debate_id db =
    sort_by is_spoken_before (find_by (λ c. c.debate_id == debate_id) db.components)

unfoldable pub find_components_before : Uuid → ℕ → Database → List DebateArgumentComponent
find_components_before debate_id turn_sequence db =
    sort_by is_spoken_before
      (find_by (λ c. c.debate_id == debate_id && ltb c.turn_sequence turn_sequence) db.components)

unfoldable pub find_relations : Uuid → Database → List DebateArgumentRelation
find_relations debate_id db = find_by (λ r. r.debate_id == debate_id) db.relations

unfoldable pub find_component_by_id : Uuid → Database → Option DebateArgumentComponent
find_component_by_id component_id db = find_one_by (λ c. c.id == component_id) db.components

unfoldable pub find_fact_checks : Uuid → Database → List DebateFactCheckResult
find_fact_checks debate_id db =
    sort_by (λ c d. leb c.checked_at d.checked_at)
      (find_by (λ c. c.debate_id == debate_id) db.fact_checks)
