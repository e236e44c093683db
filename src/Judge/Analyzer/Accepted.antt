-- ===== src/Judge/Analyzer/Accepted.antt =====
-- What an analysis that was accepted consists of (src/judge/argument-analyzer.service.ts).
use heimdall_backend.Common.{◌≡◌, [], ok, arith, Result-cases, Option-cases, inl, inr}
use heimdall_backend.Database.{Database, find_debate}
use heimdall_backend.Debate.Enums.{DebatePhase}
use heimdall_backend.Debate.Rows.{DebateMessage}
use heimdall_backend.Judge.Task.{JudgeTask}
use heimdall_backend.Judge.Rows.{AnalyzerResult}
use heimdall_backend.Judge.Results.{find_components_before}
use heimdall_backend.Judge.Results.Graph.{ReplaceTurnGraphInput}
use heimdall_backend.Judge.Slots.{resolve_turn_slot}
use heimdall_backend.Judge.Analyzer.{
  AnalyzerEnv, analyze_turn, find_turn, resolve_speaker_side, to_analyzer_request, known_refs,
}
use heimdall_backend.Judge.Validator.{refs_of, validate_graph, limited}

-- The answer that was accepted, limited to the fact checks of its phase, and the aliases of the
-- components of the turns before.
pub analyzed :
    (env : AnalyzerEnv) (task : JudgeTask) (db : Database) {input : ReplaceTurnGraphInput}
    → analyze_turn env task db ≡ ok input
    → (phase : DebatePhase) × (result : AnalyzerResult) × (validate_graph env.is_blank_ref
          (refs_of input.known_ref_to_id)
          result
        ≡ ok tt)
      × (input.result ≡ limited phase result)
      × (input.debate_id ≡ task.debate_id)
      × (turn : DebateMessage) × (find_turn task.target_id db.debate_messages
          ≡ ok (turn, input.turn_sequence))
      × (input.turn_id ≡ turn.id)
      × (input.known_ref_to_id
          ≡ known_refs env.known_ref 0
              (find_components_before task.debate_id input.turn_sequence db)
              [])
unfolding analyze_turn
analyzed env task db {input} e = elim (Result-cases (find_turn task.target_id db.debate_messages)) [
  | inr (e', missing) ↦ absurd (ground arith)
  | inl (found, turn) ↦ elim (Option-cases (find_debate task.debate_id db)) [
    | inl missing ↦ absurd (ground arith)
    | inr (debate, there) ↦ elim (Result-cases (resolve_turn_slot debate found.1)) [
      | inr (e', outside) ↦ absurd (ground arith)
      | inl (slot, inside) ↦ elim (Result-cases (resolve_speaker_side debate found.0.member_id)) [
        | inr (e', alone) ↦ absurd (ground arith)
        | inl (side, speaks) ↦
            let previous = find_components_before task.debate_id found.1 db in
            let known = known_refs env.known_ref 0 previous [] in
            elim (Option-cases (
              env.analyze
                (to_analyzer_request env.known_ref debate found.0 found.1 slot side previous))) [
                  | inl silent ↦ absurd (ground arith)
                  | inr (result, answered) ↦
                      elim (Result-cases (validate_graph env.is_blank_ref (refs_of known) result)) [
                        | inr (e', refused) ↦ absurd (ground arith)
                        | inl (u, valid) ↦ (
                          slot.phase,
                          result,
                          ground arith,
                          ground arith,
                          ground arith,
                          found.0,
                          ground arith,
                          ground arith,
                          ground arith,
                        )
                      ]
                ]
      ]
    ]
  ]
]
