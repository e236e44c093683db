-- ===== src/Judge/Analyzer/Validated.antt =====
-- What validateGraph of src/judge/argument-analyzer.service.ts accepts can be stored.
use heimdall_backend.Common.{
  ℕ, zero, suc, ◌≡◌, refl, Bool, true, ◌||◌, List, [], ◌∷◌, ◌==◌, ok, arith, Result-cases,
  Option-cases, inl, inr, is_some, if◌then◌else◌,
}
use heimdall_backend.Common.Maps.{lookup, insert, lookup-insert}
use heimdall_backend.Common.Tables.{id_in}
use heimdall_backend.Database.{Database}
use heimdall_backend.Debate.Enums.{Uuid, Millis, DebatePhase, opening, rebuttal_question, closing}
use heimdall_backend.Judge.Task.{JudgeTask}
use heimdall_backend.Judge.Analyzer.Accepted.{analyzed}
use heimdall_backend.Judge.Rows.{
  AnalyzedComponent, AnalyzedRelation, AnalyzerResult, Ref, DebateArgumentComponent,
  DebateArgumentRelation,
}
use heimdall_backend.Judge.Results.Graph.{
  ReplaceTurnGraphInput, set_refs, new_relations, replace_turn_graph,
}
use heimdall_backend.Judge.Analyzer.{AnalyzerEnv, analyze_turn}
use heimdall_backend.Judge.Validator.{
  check_components, check_relations, validate_graph, refs_of, limit_from, limited, uncheck_all,
  max_fact_checks_per_turn,
}

-- The alias stands for a component.
abbrev IsKnown : List (Ref × Uuid) → Ref → Type 0
IsKnown m ref = is_some (lookup ref m) ≡ true

IsKnown-insert :
    (m : List (Ref × Uuid)) (key ref : Ref) (id : Uuid)
    → (key == ref) || is_some (lookup ref m) ≡ true
    → IsKnown (insert key id m) ref
IsKnown-insert m key ref id h = ground (arith, lookup-insert key ref id m)

refs_of-IsKnown : (m : List (Ref × Uuid)) (ref : Ref) → id_in (refs_of m) ref ≡ true → IsKnown m ref
unfolding refs_of id_in lookup
refs_of-IsKnown [] ref h = cc
refs_of-IsKnown (e ∷ m) ref h = ground (arith, refs_of-IsKnown m ref)

set_refs-keeps :
    (ids : ℕ → Uuid) (index : ℕ) (cs : List AnalyzedComponent) (m : List (Ref × Uuid)) (ref : Ref)
    → IsKnown m ref
    → IsKnown (set_refs ids index cs m) ref
unfolding set_refs
set_refs-keeps ids index [] m ref h = h
set_refs-keeps ids index (c ∷ cs) m ref h =
    set_refs-keeps ids (suc index) cs (insert c.ref (ids index) m) ref
      (IsKnown-insert m c.ref ref (ids index) (ground arith))

-- The aliases that the first loop has met are those of the components.
set_refs-IsKnown :
    (is_blank : Ref → Bool) (known seen : List Ref) (ids : ℕ → Uuid) (index : ℕ)
    (cs : List AnalyzedComponent) (m : List (Ref × Uuid)) {new : List Ref}
    → check_components is_blank known seen cs ≡ ok new
    → ((ref : Ref) → id_in seen ref ≡ true → IsKnown m ref)
    → (ref : Ref) → id_in new ref ≡ true
    → IsKnown (set_refs ids index cs m) ref
unfolding check_components set_refs id_in
set_refs-IsKnown is_blank known seen ids index [] m e h ref met = h ref (ground arith)
set_refs-IsKnown is_blank known seen ids index (c ∷ cs) m {new} e h ref met =
    elim (Result-cases (check_components is_blank known (c.ref ∷ seen) cs)) [
      | inr (e', refused) ↦ absurd (ground arith)
      | inl (rest, checked) ↦
          set_refs-IsKnown is_blank known (c.ref ∷ seen) ids (suc index) cs
            (insert c.ref (ids index) m) checked
            (λ r s. IsKnown-insert m c.ref r (ids index) (ground (arith, h r))) ref (ground arith)
    ]

-- Relations between known aliases get their ids.
new_relations-total :
    (debate_id : Uuid) (ids : ℕ → Uuid) (refs : List (Ref × Uuid)) (new known : List Ref)
    (index : ℕ) (rs : List AnalyzedRelation) {u : Unit {0}}
    → ((ref : Ref) → id_in new ref || id_in known ref ≡ true → IsKnown refs ref)
    → check_relations new known rs ≡ ok u
    → (rows : List DebateArgumentRelation) × (new_relations debate_id ids refs index rs ≡ ok rows)
unfolding check_relations new_relations
new_relations-total debate_id ids refs new known index [] h e = ([], refl)
new_relations-total debate_id ids refs new known index (r ∷ rs) {u} h e =
    let (rows, made) =
      new_relations-total debate_id ids refs new known (suc index) rs {u = u} h (ground arith) in
    elim (Option-cases (lookup r.from_ref refs)) [
      | inl missing ↦ absurd (ground (arith, h r.from_ref))
      | inr (from_id, found) ↦ elim (Option-cases (lookup r.to_ref refs)) [
        | inl missing ↦ absurd (ground (arith, h r.to_ref))
        | inr (to_id, found') ↦ (
          record {
            id = ids index;
            debate_id = debate_id;
            from_component_id = from_id;
            to_component_id = to_id;
            kind = r.kind;
          }
              ∷ rows,
          ground (arith, made),
        )
      ]
    ]

-- Limiting the fact checks leaves the aliases alone.
set_refs-limit_from :
    (ids : ℕ → Uuid) (index n : ℕ) (cs : List AnalyzedComponent) (m : List (Ref × Uuid))
    → set_refs ids index (limit_from n cs) m ≡ set_refs ids index cs m
unfolding set_refs limit_from
set_refs-limit_from ids index n [] m = refl
set_refs-limit_from ids index zero (c ∷ cs) m =
    ground (arith, set_refs-limit_from ids (suc index) 0 cs (insert c.ref (ids index) m))
set_refs-limit_from ids index (suc n) (c ∷ cs) m =
    set_refs-limit_from ids (suc index) (if c.needs_fact_check then n else suc n) cs
      (insert c.ref (ids index) m)

set_refs-unchecked :
    (ids : ℕ → Uuid) (index : ℕ) (cs : List AnalyzedComponent) (m : List (Ref × Uuid))
    → set_refs ids index (uncheck_all cs) m ≡ set_refs ids index cs m
unfolding set_refs uncheck_all
set_refs-unchecked ids index [] m = refl
set_refs-unchecked ids index (c ∷ cs) m =
    set_refs-unchecked ids (suc index) cs (insert c.ref (ids index) m)

set_refs-limited :
    (ids : ℕ → Uuid) (phase : DebatePhase) (result : AnalyzerResult) (m : List (Ref × Uuid))
    → set_refs ids 0 (limited phase result).components m ≡ set_refs ids 0 result.components m
unfolding limited
set_refs-limited ids opening result m =
    set_refs-limit_from ids 0 max_fact_checks_per_turn result.components m
set_refs-limited ids rebuttal_question result m =
    set_refs-limit_from ids 0 max_fact_checks_per_turn result.components m
set_refs-limited ids closing result m = set_refs-unchecked ids 0 result.components m

limited-relations :
    (phase : DebatePhase) (result : AnalyzerResult)
    → (limited phase result).relations ≡ result.relations
unfolding limited
limited-relations opening result = refl
limited-relations rebuttal_question result = refl
limited-relations closing result = refl

-- The relations of a graph that the validator accepts all get their two ids.
validate_graph-rows :
    (is_blank : Ref → Bool) (debate_id : Uuid) (ids relation_ids : ℕ → Uuid)
    (known : List (Ref × Uuid)) (result : AnalyzerResult) {u : Unit {0}}
    → validate_graph is_blank (refs_of known) result ≡ ok u
    → (rows : List DebateArgumentRelation) × (new_relations debate_id relation_ids
          (set_refs ids 0 result.components known)
          0
          result.relations
        ≡ ok rows)
unfolding validate_graph id_in
validate_graph-rows is_blank debate_id ids relation_ids known result {u} e =
    elim (Result-cases (check_components is_blank (refs_of known) [] result.components)) [
      | inr (e', refused) ↦ absurd (ground arith)
      | inl (new, checked) ↦
          new_relations-total debate_id relation_ids _ new (refs_of known) 0 result.relations
            {u = u}
            (λ ref met. ground (
              arith,
              set_refs-IsKnown is_blank (refs_of known) [] ids 0 result.components known checked
                  (λ r s. absurd (ground arith)) ref,
              set_refs-keeps ids 0 result.components known ref,
              refs_of-IsKnown known ref,
            ))
            (ground arith)
    ]

-- What the analysis of a turn hands on can always be stored, whatever the tables have become
-- meanwhile: every alias that its relations use has an id, so no constraint refuses a row.
pub analyze_turn-stored :
    (env : AnalyzerEnv) (task : JudgeTask) (db later : Database) (ids relation_ids : ℕ → Uuid)
    (now : Millis) {input : ReplaceTurnGraphInput}
    → analyze_turn env task db ≡ ok input
    → (saved : List DebateArgumentComponent) × (after : Database) × (replace_turn_graph ids
          relation_ids now input later
        ≡ ok (saved, after))
unfolding replace_turn_graph
analyze_turn-stored env task db later ids relation_ids now {input} e =
    let (phase, result, valid, whole, _, _, _, _, _) = analyzed env task db e in
    let (rows, made) =
      validate_graph-rows env.is_blank_ref input.debate_id ids relation_ids input.known_ref_to_id
        result valid in
    let same = limited-relations phase result in
    let refs = set_refs-limited ids phase result input.known_ref_to_id in
    elim (Result-cases (replace_turn_graph ids relation_ids now input later)) [
      | inl ((saved, after), done) ↦ (saved, after, done)
      | inr (e', refused) ↦ absurd (ground (arith, whole, same, refs, made))
    ]
