-- ===== src/Judge/Checker/Sources.antt =====
-- What src/judge/fact-checker.service.ts stores of a check.
use heimdall_backend.Common.{
  ℕ, zero, suc, ◌≤◌, ◌≡◌, refl, Bool, true, ◌||◌, Option, List, [], ◌∷◌, length, ok, arith,
  Result-cases, Option-cases, Bool-cases, inl, inr, All, All-append, any, ◌==◌,
}
use heimdall_backend.Common.Tables.{delete_where}
use heimdall_backend.Database.{Database, find_debate}
use heimdall_backend.Debate.Enums.{Uuid, Millis}
use heimdall_backend.Judge.Task.{JudgeTask}
use heimdall_backend.Judge.Rows.{DebateFactCheckResult, FactCheckSource}
use heimdall_backend.Judge.Results.{find_component_by_id}
use heimdall_backend.Judge.Results.Graph.{SaveFactCheckInput, replace_fact_check}
use heimdall_backend.Judge.Slots.{resolve_turn_slot}
use heimdall_backend.Judge.Checker.{
  FactCheckRequest, FactCheckOutcome, is_without_sources, max_sources, first_sources, has_sources,
  validate_sources, load_context, check_component, check_fact,
}

-- A check that claims something has a source, and no check has more than three.
abbrev pub IsSourced : DebateFactCheckResult → Type 0
IsSourced f =
    (length f.sources ≤ max_sources) × (is_without_sources f.status || has_sources f.sources ≡ true)

first_sources-bounded : (n : ℕ) (s : List FactCheckSource) → length (first_sources n s) ≤ n
unfolding first_sources
first_sources-bounded zero s = ground arith
first_sources-bounded (suc n) [] = ground arith
first_sources-bounded (suc n) (x ∷ s) = ground (arith, first_sources-bounded n s)

first_sources-has_sources :
    (n : ℕ) (s : List FactCheckSource) → has_sources (first_sources (suc n) s) ≡ has_sources s
unfolding first_sources
first_sources-has_sources n [] = refl
first_sources-has_sources n (x ∷ s) = refl

check_component-IsSourced :
    (check : FactCheckRequest → Option FactCheckOutcome) (task : JudgeTask) (db : Database)
    {input : SaveFactCheckInput}
    → check_component check task db ≡ ok input
    → (length input.sources ≤ max_sources)
      × (is_without_sources input.status || has_sources input.sources ≡ true)
unfolding check_component validate_sources
check_component-IsSourced check task db {input} e =
    elim (Option-cases (find_component_by_id task.target_id db)) [
      | inl missing ↦ absurd (ground arith)
      | inr (component, there) ↦ elim (Option-cases (find_debate task.debate_id db)) [
        | inl missing ↦ absurd (ground arith)
        | inr (debate, found) ↦
            elim (Result-cases (resolve_turn_slot debate component.turn_sequence)) [
              | inr (e', outside) ↦ absurd (ground arith)
              | inl (slot, inside) ↦
                  let request : FactCheckRequest = record {
                    topic = debate.topic;
                    statement = component.statement;
                    context = load_context component db.debate_messages;
                  } in
                  elim (Option-cases (check request)) [
                    | inl silent ↦ absurd (ground arith)
                    | inr (outcome, answered) ↦ ground (
                      arith,
                      first_sources-bounded max_sources outcome.sources,
                      first_sources-has_sources 2 outcome.sources,
                    )
                  ]
            ]
      ]
    ]

kept_All :
    (P : DebateFactCheckResult → Type 0) (p : DebateFactCheckResult → Bool)
    (fs : List DebateFactCheckResult)
    → All P fs
    → All P (delete_where p fs)
unfolding delete_where
kept_All P p [] h = tt
kept_All P p (f ∷ fs) h = elim (Bool-cases (p f)) [
  | inl gone ↦ rw gone (kept_All P p fs h.1)
  | inr stays ↦ rw stays (h.0, kept_All P p fs h.1)
]

replace_fact_check-IsSourced :
    (id : Uuid) (now : Millis) (input : SaveFactCheckInput) (db : Database)
    → All IsSourced db.fact_checks
    → length input.sources ≤ max_sources
    → is_without_sources input.status || has_sources input.sources ≡ true
    → All IsSourced (replace_fact_check id now input db).1.fact_checks
unfolding replace_fact_check
replace_fact_check-IsSourced id now input db before few some_source =
    let kept =
      kept_All IsSourced (λ f. f.component_id == input.component_id) db.fact_checks before in
    elim (Bool-cases (any (λ c. c.id == input.component_id) db.components)) [
      | inl there ↦
          rw (there, replace_fact_check)
            (All-append IsSourced _ (_ ∷ []) kept ((few, some_source), tt))
      | inr missing ↦ rw (missing, replace_fact_check) kept
    ]

-- Whatever the model answers and however the call ends, every fact check that is stored has at
-- most three sources, and at least one unless its status needs none, provided this held of the
-- tables as the others left them meanwhile.
pub check_fact-IsSourced :
    (check : FactCheckRequest → Option FactCheckOutcome) (others : Database → Database) (id : Uuid)
    (now : Millis) (task : JudgeTask) (db : Database)
    → All IsSourced (others db).fact_checks
    → All IsSourced (check_fact check others id now task db).1.fact_checks
unfolding check_fact
check_fact-IsSourced check others id now task db meanwhile =
    elim (Result-cases (check_component check task db)) [
      | inr (e, refused) ↦ rw (refused, check_fact) meanwhile
      | inl (input, checked) ↦
          let (few, some_source) = check_component-IsSourced check task db checked in
          rw (checked, check_fact)
            (replace_fact_check-IsSourced id now input (others db) meanwhile few some_source)
    ]
