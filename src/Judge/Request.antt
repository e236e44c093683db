-- ===== src/Judge/Request.antt =====
-- What the judge of a debate is shown: loadTranscript and loadArgumentGraph of
-- src/judge/debate-judge.service.ts.
use heimdall_backend.Common.{
  ℕ, suc, leb, Bool, ◌&&◌, Option, none, some, List, [], ◌∷◌, map, ◌==◌, if◌then◌else◌,
}
use heimdall_backend.Common.Text.{Text, trim}
use heimdall_backend.Common.Maps.{lookup, insert}
use heimdall_backend.Common.Tables.{find_by, filter_map, sort_by}
use heimdall_backend.Database.{Database}
use heimdall_backend.Debate.Enums.{Uuid, is_normal}
use heimdall_backend.Debate.Rows.{Debate, DebateMessage}
use heimdall_backend.Debate.Schedule.{DebateTurnSchedule, new}
use heimdall_backend.Debate.Turns.{DebateSpeakers, resolve_side, slot_of_sequence, get_or}
use heimdall_backend.Judge.Rows.{
  JudgeTranscriptTurn, JudgeComponentSummary, JudgeRelationSummary, DebateArgumentComponent,
  DebateArgumentRelation, DebateFactCheckResult, Ref, VerificationStatus,
}
use heimdall_backend.Judge.Results.{find_components, find_fact_checks, find_relations}

unfoldable pub to_transcript_turn :
    Text → Debate → DebateSpeakers → DebateTurnSchedule → DebateMessage → Option JudgeTranscriptTurn
to_transcript_turn placeholder debate speakers schedule row =
    elim (slot_of_sequence schedule row.sequence) [
      | none ↦ none
      | some slot ↦ elim (resolve_side (some speakers) row.member_id) [
        | none ↦ none
        | some side ↦ some (record {
          sequence = get_or row.sequence 0;
          phase = slot.phase;
          round = slot.round;
          speaker_side = side;
          speaker_nickname =
              if row.member_id == debate.host_id
              then debate.host_nickname
              else get_or debate.opponent_nickname [];
          content = elim (trim (get_or row.body [])) [ [] ↦ placeholder | c ∷ cs ↦ c ∷ cs ];
        })
      ]
    ]

-- The WHERE of `loadTranscript`; PostgreSQL puts a sequence of NULL last, and such a row is dropped.
abbrev pub is_message_of : Uuid → DebateMessage → Bool
is_message_of debate_id row = row.debate_id == debate_id && is_normal row.status

abbrev pub is_earlier : DebateMessage → DebateMessage → Bool
is_earlier x y = leb (get_or x.sequence 0) (get_or y.sequence 0)

unfoldable pub load_transcript :
    Text → Debate → DebateSpeakers → Database → List JudgeTranscriptTurn
unfolding to_transcript_turn
load_transcript placeholder debate speakers db =
    filter_map
      (to_transcript_turn placeholder debate speakers (new debate.rebuttal_question_rounds))
      (sort_by is_earlier (find_by (is_message_of debate.id) db.debate_messages))

-- `new Map(checks.map((check) => [check.componentId, check]))`, where the last check of a key stays.
unfoldable pub checks_by_component :
    List DebateFactCheckResult
    → List (Uuid × DebateFactCheckResult)
    → List (Uuid × DebateFactCheckResult)
checks_by_component [] m = m
checks_by_component (check ∷ checks) m =
    checks_by_component checks (insert check.component_id check m)

-- The alias of the component at `index` is `#${index + 1}`, the number after it.
unfoldable pub refs_by_component :
    ℕ → List DebateArgumentComponent → List (Uuid × Ref) → List (Uuid × Ref)
refs_by_component index [] m = m
refs_by_component index (c ∷ cs) m = refs_by_component (suc index) cs (insert c.id (suc index) m)

unfoldable pub summarize_relation :
    List (Uuid × Ref) → DebateArgumentRelation → Option JudgeRelationSummary
summarize_relation refs r = elim (lookup r.from_component_id refs) [
  | none ↦ none
  | some from_ref ↦ elim (lookup r.to_component_id refs) [
    | none ↦ none
    | some to_ref ↦ some (record { from_ref = from_ref; to_ref = to_ref; kind = r.kind })
  ]
]

abbrev pub fact_check_of : Option DebateFactCheckResult → Option (VerificationStatus × Text)
fact_check_of none = none
fact_check_of (some check) = some (check.status, check.reason)

unfoldable pub summarize_component :
    List (Uuid × Ref)
    → List (Uuid × DebateFactCheckResult)
    → DebateArgumentComponent
    → JudgeComponentSummary
summarize_component refs checks c = record {
  ref = get_or (lookup c.id refs) 0;
  speaker_side = c.speaker_side;
  kind = c.kind;
  statement = c.statement;
  fact_check = fact_check_of (lookup c.id checks);
}

unfoldable pub load_argument_graph :
    Uuid → Database → List JudgeComponentSummary × List JudgeRelationSummary
unfolding checks_by_component refs_by_component summarize_relation summarize_component
load_argument_graph debate_id db =
    let components = find_components debate_id db in
    let checks = checks_by_component (find_fact_checks debate_id db) [] in
    let refs = refs_by_component 0 components [] in
    (
      map (summarize_component refs checks) components,
      filter_map (summarize_relation refs) (find_relations debate_id db),
    )
