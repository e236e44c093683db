-- ===== src/Judge/Results/Graph.antt =====
-- The argument graph of a turn and the fact checks: replaceTurnGraph and replaceFactCheck of
-- src/judge/judge-result.repository.ts.
pub mod Links
pub mod Replaced
use heimdall_backend.Common.{
  ℕ, suc, Bool, ◌&&◌, List, [], ◌∷◌, ◌++◌, ◌==◌, any, if◌then◌else◌, Result, ok, err, or_throw,
  ◌>>=◌,
}
use heimdall_backend.Common.Text.{Text}
use heimdall_backend.Common.Maps.{lookup, insert}
use heimdall_backend.Common.Tables.{find_by, delete_where, id_in}
use heimdall_backend.Database.{Database}
use heimdall_backend.Debate.Enums.{Uuid, Millis, DebateSide}
use heimdall_backend.Judge.Rows.{
  DebateArgumentComponent, DebateArgumentRelation, VerificationStatus, FactCheckSource,
  AnalyzedComponent, AnalyzedRelation, AnalyzerResult, Ref,
}
use heimdall_backend.Judge.Results.{ResultError, constraint_violated}

pub record ReplaceTurnGraphInput : Type 0 where
  pub debate_id : Uuid
  pub turn_id : Uuid
  pub turn_sequence : ℕ
  pub speaker_id : Uuid
  pub speaker_side : DebateSide
  pub result : AnalyzerResult
  pub known_ref_to_id : List (Ref × Uuid)

abbrev pub is_of_turn : Uuid → Uuid → DebateArgumentComponent → Bool
is_of_turn debate_id turn_id c = c.debate_id == debate_id && c.turn_id == turn_id

unfoldable pub ids_of : List DebateArgumentComponent → List Uuid
ids_of [] = []
ids_of (c ∷ cs) = c.id ∷ ids_of cs

-- The three deletions; a component takes its fact check with it (ON DELETE CASCADE).
unfoldable pub delete_components : List Uuid → Database → Database
delete_components ids db = record db {
  relations =
      delete_where (λ r. id_in ids r.to_component_id)
        (delete_where (λ r. id_in ids r.from_component_id) db.relations);
  components = delete_where (λ c. id_in ids c.id) db.components;
  fact_checks = delete_where (λ f. id_in ids f.component_id) db.fact_checks;
}

-- The rows that are saved, from an index on; `ids` gives the id that the row at an index draws.
unfoldable pub new_components :
    ReplaceTurnGraphInput
    → (ℕ → Uuid)
    → Millis
    → ℕ
    → List AnalyzedComponent
    → List DebateArgumentComponent
new_components input ids now index [] = []
new_components input ids now index (c ∷ cs) =
    record {
      id = ids index;
      debate_id = input.debate_id;
      turn_id = input.turn_id;
      turn_sequence = input.turn_sequence;
      speaker_id = input.speaker_id;
      speaker_side = input.speaker_side;
      kind = c.kind;
      statement = c.statement;
      needs_fact_check = c.needs_fact_check;
      created_at = now;
    }
    ∷ new_components input ids now (suc index) cs

-- `refToId.set(component.ref, saved[index].id)` for each component, from an index on.
unfoldable pub set_refs :
    (ℕ → Uuid) → ℕ → List AnalyzedComponent → List (Ref × Uuid) → List (Ref × Uuid)
set_refs ids index [] refs = refs
set_refs ids index (c ∷ cs) refs = set_refs ids (suc index) cs (insert c.ref (ids index) refs)

-- The rows of the relations. An alias that is not known gives an undefined id, which the columns
-- refuse.
unfoldable pub new_relations :
    Uuid
    → (ℕ → Uuid)
    → List (Ref × Uuid)
    → ℕ
    → List AnalyzedRelation
    → Result ResultError (List DebateArgumentRelation)
new_relations debate_id ids refs index [] = ok []
new_relations debate_id ids refs index (r ∷ rs) = do
  from_component_id ← or_throw (lookup r.from_ref refs) constraint_violated
  to_component_id ← or_throw (lookup r.to_ref refs) constraint_violated
  rows ← new_relations debate_id ids refs (suc index) rs
  ok (
      record {
        id = ids index;
        debate_id = debate_id;
        from_component_id = from_component_id;
        to_component_id = to_component_id;
        kind = r.kind;
      }
      ∷ rows)

unfoldable pub previous_ids : ReplaceTurnGraphInput → Database → List Uuid
unfolding ids_of
previous_ids input db = ids_of (find_by (is_of_turn input.debate_id input.turn_id) db.components)

-- One transaction; `ids` and `relation_ids` give the ids that the rows draw, which are fresh, so that
-- only an alias without an id refuses the graph. Without previous components the deletions would find
-- nothing.
unfoldable pub replace_turn_graph :
    (ℕ → Uuid)
    → (ℕ → Uuid)
    → Millis
    → ReplaceTurnGraphInput
    → Database
    → Result ResultError (List DebateArgumentComponent × Database)
unfolding previous_ids delete_components set_refs
replace_turn_graph ids relation_ids now input db = do
  let cleared = delete_components (previous_ids input db) db
  let saved = new_components input ids now 0 input.result.components
  let refs = set_refs ids 0 input.result.components input.known_ref_to_id
  rows ← new_relations input.debate_id relation_ids refs 0 input.result.relations
  ok (
    saved,
    record cleared {
      components = cleared.components ++ saved;
      relations = cleared.relations ++ rows;
    },
  )

pub record SaveFactCheckInput : Type 0 where
  pub debate_id : Uuid
  pub component_id : Uuid
  pub status : VerificationStatus
  pub reason : Text
  pub sources : List FactCheckSource

-- The two statements are no transaction: if the foreign key refuses the row, the deletion stays.
unfoldable pub replace_fact_check :
    Uuid → Millis → SaveFactCheckInput → Database → Result ResultError (Unit {0}) × Database
replace_fact_check id now input db =
    let others = delete_where (λ f. f.component_id == input.component_id) db.fact_checks in
    if any (λ c. c.id == input.component_id) db.components
    then (
      ok tt,
      record db {
        fact_checks =
            others
            ++ record {
              id = id;
              debate_id = input.debate_id;
              component_id = input.component_id;
              status = input.status;
              reason = input.reason;
              checked_at = now;
              sources = input.sources;
            }
              ∷ [];
      },
    )
    else (err constraint_violated, record db { fact_checks = others })
