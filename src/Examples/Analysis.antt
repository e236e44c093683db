-- ===== src/Examples/Analysis.antt =====
-- A turn of the debate of Examples.Judgments that is analyzed and checked: src/judge.
use heimdall_backend.Outcomes.{RoomEvent, apply_within, create}
use heimdall_backend.Judge.Judging.{handle}
use heimdall_backend.Judge.Scores.{
  validate_judgment, resolve_winner_id, decide_winner, calculate_total_score, to_double,
}
use heimdall_backend.Judge.Results.{complete_judgment, find_components_before, find_component_by_id}
use heimdall_backend.Common.Tables.{
  is_affected, update_where, find_one_by, find_by, delete_where, id_in, sort_by, insert_sorted,
}
use heimdall_backend.Examples.Judgments.{model, draw, or_nothing, task as judge_task, tables}
use heimdall_backend.Common.Text.{trim}
use heimdall_backend.Judge.Results.Graph.{
  set_refs, ids_of, new_relations, previous_ids, ReplaceTurnGraphInput, replace_turn_graph,
  is_of_turn, new_components, delete_components, replace_fact_check,
}
use heimdall_backend.Judge.Queue.{enqueue, schedule}
use heimdall_backend.Common.{
  ◌+◌, ◌≡◌, refl, true, false, none, some, List, [], ◌∷◌, ◌++◌, any, ok, length, ◌≤◌, ◌==◌, ℕ, All,
  Option, arith,
}
use heimdall_backend.Common.Maps.{lookup, insert}
use heimdall_backend.Database.{Database, find_debate}
use heimdall_backend.Debate.Enums.{Uuid, side_a, normal, side_b}
use heimdall_backend.Judge.Task.{JudgeTask, analyzer, fact_check, JudgeTaskStatus}
use heimdall_backend.Judge.Tasks.{create_if_absent, find_by_target, new_task}
use heimdall_backend.Judge.Tasks.Table.{insert_or_ignore}
use heimdall_backend.Judge.Rows.{
  DebateArgumentComponent, DebateArgumentRelation, claim, rebuttal, attack, AnalyzerResult,
  supported, DebateFactCheckResult,
}
use heimdall_backend.Judge.Results.Graph.Links.{IsLinked}
use heimdall_backend.Judge.Results.Graph.Replaced.{replace_turn_graph_components}
use heimdall_backend.Examples.Jobs.{list_queue}
use mathlib.Core.Option
use heimdall_backend.Debate.Rows.{DebateMessage}
use heimdall_backend.Judge.Analyzer.{
  AnalyzerEnv, AnalyzerDraw, analyze_turn, analyze, find_turn, known_refs, resolve_speaker_side,
  schedule_checks,
}
use heimdall_backend.Judge.Validator.{
  validate_graph, check_components, check_relations, refs_of, limited, limit_from,
}
use heimdall_backend.Judge.Analyzer.Validated.{analyze_turn-stored}
use heimdall_backend.Judge.Analyzer.Linked.{CarriesSequence, analyze-IsLinked}
use heimdall_backend.Judge.Analyzer.Limits.{analyze-bounded}
use heimdall_backend.Judge.Checker.{FactCheckRequest, FactCheckOutcome, check_fact, check_component}
use heimdall_backend.Judge.Checker.Sources.{IsSourced, check_fact-IsSourced}
use heimdall_backend.Debate.Turns.{slot_of_sequence, resolve_speakers}
use heimdall_backend.Debate.Schedule.{new, at, build, push_round, push_rebuttals}
use heimdall_backend.Judge.Slots.{resolve_turn_slot}

abbrev component : Uuid → Uuid → ℕ → DebateArgumentComponent
component id turn_id sequence = record {
  id = id;
  debate_id = 1;
  turn_id = turn_id;
  turn_sequence = sequence;
  speaker_id = 10;
  speaker_side = side_a;
  kind = claim;
  statement = [];
  needs_fact_check = false;
  created_at = 500;
}

abbrev relation : DebateArgumentRelation
relation = record {
  id = 90;
  debate_id = 1;
  from_component_id = 62;
  to_component_id = 61;
  kind = attack;
}

-- Turn 51 attacks turn 50, and is analyzed again.
abbrev graph : Database
graph = record tables {
  components = component 61 50 1 ∷ component 62 51 2 ∷ [];
  relations = relation ∷ [];
}

abbrev analysis : ReplaceTurnGraphInput
analysis = record {
  debate_id = 1;
  turn_id = 51;
  turn_sequence = 2;
  speaker_id = 20;
  speaker_side = side_a;
  result = record {
    components = record { ref = 2; kind = rebuttal; statement = []; needs_fact_check = false } ∷ [];
    relations = record { from_ref = 2; to_ref = 1; kind = attack } ∷ [];
  };
  known_ref_to_id = (1, 61) ∷ [];
}

abbrev saved : List DebateArgumentComponent
saved = new_components analysis (λ i. 70 + i) 600 0 analysis.result.components

abbrev replaced : Database
replaced = record tables {
  components = component 61 50 1 ∷ saved;
  relations = record relation { id = 91; from_component_id = 70 } ∷ [];
}

was_replaced :
    replace_turn_graph (λ i. 70 + i) (λ i. 91 + i) 600 analysis graph ≡ ok (saved, replaced)
unfolding replace_turn_graph new_relations lookup insert delete_where id_in find_by
was_replaced = refl

graph-IsLinked : IsLinked graph
unfolding any
graph-IsLinked = record { relations = ((refl, refl), tt); fact_checks = tt }

replace_turn_graph_components_example :
    (replaced.components ≡ delete_where (is_of_turn 1 51) graph.components ++ saved)
    × (find_by (is_of_turn 1 51) replaced.components ≡ saved)
    × (length saved ≡ length analysis.result.components)
replace_turn_graph_components_example =
    replace_turn_graph_components (λ i. 70 + i) (λ i. 91 + i) 600 analysis graph
      ((refl, tt), (tt, tt)) was_replaced

abbrev message : Uuid → Uuid → ℕ → DebateMessage
message id member_id sequence = record {
  id = id;
  debate_id = 1;
  member_id = member_id;
  body = some (0x61 ∷ []);
  sequence = some sequence;
  created_at = 400;
  status = normal;
}

abbrev spoken : Database
spoken = record graph { debate_messages = message 50 10 1 ∷ message 51 20 2 ∷ [] }

-- The model finds a rebuttal of the first turn, which it does not want to be checked twice.
abbrev answered : AnalyzerResult
answered = record {
  components =
      record { ref = 2; kind = rebuttal; statement = 0x61 ∷ []; needs_fact_check = true } ∷ [];
  relations = record { from_ref = 2; to_ref = 101; kind = attack } ∷ [];
}

abbrev analyzer_env : AnalyzerEnv
analyzer_env = record {
  analyze = λ request. some answered;
  known_ref = λ index. 101 + index;
  is_blank_ref = λ ref. ref == 0;
  max_attempts = λ kind. 3;
}

abbrev analyzer_draw : AnalyzerDraw
analyzer_draw = record {
  component_id = λ i. 70 + i;
  relation_id = λ i. 91 + i;
  task_id = λ target. 500 + target;
  now = 600;
}

abbrev analysis_task : JudgeTask
analysis_task = record {
  id = 8;
  debate_id = 1;
  kind = analyzer;
  target_id = 51;
  status = JudgeTaskStatus.processing;
  attempt = 1;
  max_attempts = 3;
  request_id = some 71;
  last_error = none;
  updated_at = 550;
}

abbrev stored : ReplaceTurnGraphInput
stored = record analysis {
  result = answered;
  known_ref_to_id = (101, 61) ∷ [];
  speaker_side = side_b;
}

was_analyzed : analyze_turn analyzer_env analysis_task spoken ≡ ok stored
unfolding analyze_turn find_one_by find_debate any slot_of_sequence at new build push_round
    push_rebuttals resolve_speakers validate_graph check_components id_in refs_of known_refs
    find_components_before sort_by insert find_by insert_sorted trim check_relations find_turn
    limited limit_from resolve_speaker_side resolve_turn_slot
was_analyzed = refl

analyze_turn-stored_example :
    (saved : List DebateArgumentComponent) × (after : Database) × (replace_turn_graph
        (λ i. 70 + i)
        (λ i. 91 + i)
        600
        stored
        spoken
      ≡ ok (saved, after))
analyze_turn-stored_example =
    analyze_turn-stored analyzer_env analysis_task spoken spoken (λ i. 70 + i) (λ i. 91 + i) 600
      was_analyzed

spoken-CarriesSequence : All (CarriesSequence spoken.debate_messages) spoken.components
unfolding find_turn find_one_by
spoken-CarriesSequence = ((λ found e. ground arith), ((λ found e. ground arith), tt))

spoken-IsLinked : IsLinked spoken
unfolding any
spoken-IsLinked = record { relations = ((refl, refl), tt); fact_checks = tt }

analyze-IsLinked_example :
    IsLinked (analyze list_queue analyzer_env analyzer_draw (λ d. d) analysis_task spoken []).1
analyze-IsLinked_example =
    analyze-IsLinked list_queue analyzer_env analyzer_draw (λ d. d) analysis_task spoken []
      ((refl, tt), (tt, tt)) spoken-CarriesSequence refl spoken-IsLinked

analyze-bounded_example :
    length (analyze list_queue analyzer_env analyzer_draw (λ d. d) analysis_task spoken []).1.tasks
    ≤ length spoken.tasks + 3
analyze-bounded_example =
    analyze-bounded list_queue analyzer_env analyzer_draw (λ d. d) analysis_task spoken []

-- One task is scheduled for the one component.
ordered_one :
    Option.map
      (λ (t : JudgeTask). t.target_id)
      (find_one_by
        (λ t. true)
        (analyze list_queue analyzer_env analyzer_draw (λ d. d) analysis_task spoken []).1.tasks)
    ≡ some 70
unfolding analyze analyze_turn find_one_by find_debate any slot_of_sequence at new build push_round
    push_rebuttals resolve_speakers validate_graph check_components id_in refs_of known_refs
    find_components_before sort_by insert find_by insert_sorted trim check_relations find_turn
    limited limit_from resolve_speaker_side resolve_turn_slot lookup delete_where schedule_checks
    enqueue schedule delete_components ids_of new_components new_relations previous_ids
    replace_turn_graph set_refs insert_or_ignore create_if_absent find_by_target new_task
ordered_one = refl

abbrev checker : FactCheckRequest → Option FactCheckOutcome
checker request = some (record {
  status = supported;
  reason = 0x61 ∷ [];
  sources = record { title = []; publisher = []; url = [] } ∷ [];
})

abbrev check_task : JudgeTask
check_task = record analysis_task { kind = fact_check; target_id = 61 }

check_fact-IsSourced_example :
    All IsSourced (check_fact checker (λ d. d) 95 700 check_task spoken).1.fact_checks
check_fact-IsSourced_example = check_fact-IsSourced checker (λ d. d) 95 700 check_task spoken tt

was_checked :
    Option.map
      (λ (f : DebateFactCheckResult). f.component_id)
      (find_one_by (λ f. true) (check_fact checker (λ d. d) 95 700 check_task spoken).1.fact_checks)
    ≡ some 61
unfolding check_fact find_one_by check_component find_component_by_id find_debate any
    resolve_turn_slot slot_of_sequence at new build push_round push_rebuttals trim
    replace_fact_check delete_where
was_checked = refl

unfoldable judged_run : List RoomEvent × Database
unfolding handle
judged_run = or_nothing ([], spoken) (handle model draw (λ d. d) judge_task spoken)

was_judged : handle model draw (λ d. d) judge_task spoken ≡ ok judged_run
unfolding judged_run find_debate find_one_by any resolve_speakers validate_judgment trim
    complete_judgment is_affected apply_within resolve_winner_id decide_winner calculate_total_score
    to_double update_where create
was_judged = refl
