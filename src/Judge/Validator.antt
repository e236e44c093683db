-- ===== src/Judge/Validator.antt =====
-- The check of an analyzed graph and the limit of its fact checks: validateGraph, limitFactChecks and
-- skipFactChecks of src/judge/argument-analyzer.service.ts.
use heimdall_backend.Common.{
  ℕ, zero, suc, Bool, true, false, not, ◌||◌, List, [], ◌∷◌, ◌==◌, leb, length, if◌then◌else◌,
  Result, ok, ◌>>=◌, ◌>>◌, guard,
}
use heimdall_backend.Common.Text.{trim, is_empty}
use heimdall_backend.Common.Tables.{id_in}
use heimdall_backend.Debate.Enums.{Uuid, DebatePhase, opening, rebuttal_question, closing}
use heimdall_backend.Judge.Rows.{AnalyzedComponent, AnalyzedRelation, AnalyzerResult, Ref}
use heimdall_backend.Judge.Slots.{TaskFailure, invalid_graph}

-- MAX_STATEMENT_LENGTH and MAX_FACT_CHECKS_PER_TURN
abbrev pub max_statement_length : ℕ
max_statement_length = 500

abbrev pub max_fact_checks_per_turn : ℕ
max_fact_checks_per_turn = 3

-- FACT_CHECK_PHASES
abbrev pub is_checked_phase : DebatePhase → Bool
is_checked_phase opening = true
is_checked_phase rebuttal_question = true
is_checked_phase closing = false

unfoldable pub refs_of : List (Ref × Uuid) → List Ref
refs_of [] = []
refs_of (e ∷ m) = e.0 ∷ refs_of m

-- The first loop of `validateGraph`, with the aliases that it has met.
unfoldable pub check_components :
    (Ref → Bool) → List Ref → List Ref → List AnalyzedComponent → Result TaskFailure (List Ref)
check_components is_blank_ref known seen [] = ok seen
check_components is_blank_ref known seen (c ∷ cs) = do
  guard (not (is_blank_ref c.ref)) invalid_graph
  guard (not (id_in seen c.ref || id_in known c.ref)) invalid_graph
  guard (not (is_empty (trim c.statement))) invalid_graph
  guard (leb (length (trim c.statement)) max_statement_length) invalid_graph
  check_components is_blank_ref known (c.ref ∷ seen) cs

-- The second loop.
unfoldable pub check_relations :
    List Ref → List Ref → List AnalyzedRelation → Result TaskFailure (Unit {0})
check_relations new known [] = ok tt
check_relations new known (r ∷ rs) = do
  guard (id_in new r.from_ref) invalid_graph
  guard (id_in new r.to_ref || id_in known r.to_ref) invalid_graph
  guard (not (r.from_ref == r.to_ref)) invalid_graph
  check_relations new known rs

unfoldable pub validate_graph :
    (Ref → Bool) → List Ref → AnalyzerResult → Result TaskFailure (Unit {0})
validate_graph is_blank_ref known result = do
  new ← check_components is_blank_ref known [] result.components
  check_relations new known result.relations

abbrev pub unchecked : AnalyzedComponent → AnalyzedComponent
unchecked c = record c { needs_fact_check = false }

-- The map of `limitFactChecks`, with `remaining`.
unfoldable pub limit_from : ℕ → List AnalyzedComponent → List AnalyzedComponent
limit_from remaining [] = []
limit_from zero (c ∷ cs) = (if c.needs_fact_check then unchecked c else c) ∷ limit_from zero cs
limit_from (suc n) (c ∷ cs) = c ∷ limit_from (if c.needs_fact_check then n else suc n) cs

unfoldable pub limit_fact_checks : AnalyzerResult → AnalyzerResult
unfolding limit_from
limit_fact_checks result = record result {
  components = limit_from max_fact_checks_per_turn result.components;
}

unfoldable pub uncheck_all : List AnalyzedComponent → List AnalyzedComponent
uncheck_all [] = []
uncheck_all (c ∷ cs) = unchecked c ∷ uncheck_all cs

unfoldable pub skip_fact_checks : AnalyzerResult → AnalyzerResult
unfolding uncheck_all
skip_fact_checks result = record result { components = uncheck_all result.components }

unfoldable pub limited : DebatePhase → AnalyzerResult → AnalyzerResult
unfolding limit_fact_checks skip_fact_checks
limited phase result =
    if is_checked_phase phase then limit_fact_checks result else skip_fact_checks result
