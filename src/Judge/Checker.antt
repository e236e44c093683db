-- ===== src/Judge/Checker.antt =====
-- The class FactCheckerService of src/judge/fact-checker.service.ts. Log lines are left out.
pub mod Sources
use heimdall_backend.Common.{
  ℕ, zero, suc, Bool, true, false, not, ◌&&◌, ◌||◌, Option, none, some, List, [], ◌∷◌, ◌==◌,
  if◌then◌else◌, Result, ok, err, or_throw, ◌>>=◌, ◌>>◌, guard,
}
use heimdall_backend.Common.Text.{Text, trim, is_empty}
use heimdall_backend.Common.Tables.{find_one_by}
use heimdall_backend.Database.{Database, find_debate}
use heimdall_backend.Debate.Enums.{Uuid, Millis, is_normal}
use heimdall_backend.Debate.Rows.{DebateMessage}
use heimdall_backend.Debate.Turns.{get_or}
use heimdall_backend.Judge.Task.{JudgeTask}
use heimdall_backend.Judge.Rows.{
  DebateArgumentComponent, VerificationStatus, insufficient_evidence, not_verifiable,
  FactCheckSource,
}
use heimdall_backend.Judge.Results.{find_component_by_id}
use heimdall_backend.Judge.Results.Graph.{SaveFactCheckInput, replace_fact_check}
use heimdall_backend.Judge.Slots.{
  TaskFailure, component_missing, debate_not_found, no_answer, invalid_sources, statement_failed,
  resolve_turn_slot,
}

-- The field `logContext` goes to the log only.
pub record FactCheckRequest : Type 0 where
  pub topic : Text
  pub statement : Text
  pub context : Text

pub record FactCheckOutcome : Type 0 where
  pub status : VerificationStatus
  pub reason : Text
  pub sources : List FactCheckSource

-- STATUSES_WITHOUT_SOURCES
abbrev pub is_without_sources : VerificationStatus → Bool
is_without_sources insufficient_evidence = true
is_without_sources not_verifiable = true
is_without_sources _ = false

-- MAX_SOURCES
abbrev pub max_sources : ℕ
max_sources = 3

-- `sources.slice(0, n)`
unfoldable pub first_sources : ℕ → List FactCheckSource → List FactCheckSource
first_sources zero sources = []
first_sources (suc n) [] = []
first_sources (suc n) (s ∷ sources) = s ∷ first_sources n sources

abbrev pub has_sources : List FactCheckSource → Bool
has_sources [] = false
has_sources (s ∷ sources) = true

unfoldable pub validate_sources : FactCheckOutcome → Result TaskFailure (Unit {0})
validate_sources outcome = do
  guard (not (is_empty (trim outcome.reason))) invalid_sources
  guard (is_without_sources outcome.status || has_sources outcome.sources) invalid_sources
  ok tt

-- `turn?.body ?? component.statement`
unfoldable pub load_context : DebateArgumentComponent → List DebateMessage → Text
load_context component rows =
    elim (find_one_by (λ m. m.id == component.turn_id && is_normal m.status) rows) [
      | none ↦ component.statement
      | some turn ↦ get_or turn.body component.statement
    ]

-- `handle` until it writes: what is to be stored of the component.
unfoldable pub check_component :
    (FactCheckRequest → Option FactCheckOutcome)
    → JudgeTask
    → Database
    → Result TaskFailure SaveFactCheckInput
unfolding validate_sources
check_component check task db = do
  component ← or_throw (find_component_by_id task.target_id db) component_missing
  debate ← or_throw (find_debate task.debate_id db) debate_not_found
  slot ← resolve_turn_slot debate component.turn_sequence
  let context = load_context component db.debate_messages
  checked ←
      or_throw
        (check
          (record { topic = debate.topic; statement = component.statement; context = context }))
        no_answer
  valid ← validate_sources checked
  ok (record {
    debate_id = task.debate_id;
    component_id = component.id;
    status = checked.status;
    reason = trim checked.reason;
    sources = first_sources max_sources checked.sources;
  })

-- `others` is what other requests do to the tables during the call, until it writes; a call that throws
-- before it writes leaves just that. `id` and `now` are what the new row draws.
unfoldable pub check_fact :
    (FactCheckRequest → Option FactCheckOutcome)
    → (Database → Database)
    → Uuid
    → Millis
    → JudgeTask
    → Database
    → Result TaskFailure (Unit {0}) × Database
check_fact check others id now task db = elim (check_component check task db) [
  | err e ↦ (err e, others db)
  | ok input ↦
      let (outcome, after) = replace_fact_check id now input (others db) in
      (elim outcome [ err e ↦ err statement_failed | ok u ↦ ok u ], after)
]
