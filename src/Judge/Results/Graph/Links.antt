-- ===== src/Judge/Results/Graph/Links.antt =====
-- What replaceTurnGraph (src/judge/judge-result.repository.ts) leaves of the graph.
use heimdall_backend.Common.{
  ℕ, suc, ◌≡◌, Bool, true, false, some, List, [], ◌∷◌, ◌++◌, ◌==◌, any, ok, arith, All, All-append,
  Bool-cases, Option-cases, Result-cases, inl, inr, any-append, ==_refl, ==_iff, ap, All-mono,
  subst,
}
use heimdall_backend.Common.Maps.{lookup, insert, lookup-insert}
use heimdall_backend.Common.Tables.{delete_where, id_in}
use heimdall_backend.Database.{Database}
use heimdall_backend.Debate.Enums.{Uuid, Millis}
use heimdall_backend.Judge.Rows.{
  DebateArgumentComponent, DebateArgumentRelation, DebateFactCheckResult, AnalyzedComponent,
  AnalyzedRelation, Ref,
}
use heimdall_backend.Judge.Results.Graph.{
  ReplaceTurnGraphInput, delete_components, new_components, set_refs, new_relations, previous_ids,
  replace_turn_graph,
}

-- Some component has the id.
abbrev pub exists_component : Uuid → List DebateArgumentComponent → Bool
exists_component id = any λ c. c.id == id

-- Both ends of every relation, and the component of every fact check, are there.
pub record IsLinked (db : Database) : Type 0 where
  pub relations :
      All
        (λ r.
          (exists_component r.from_component_id db.components ≡ true)
          × (exists_component r.to_component_id db.components ≡ true))
        db.relations
  pub fact_checks : All (λ f. exists_component f.component_id db.components ≡ true) db.fact_checks

-- Deleting by id keeps a component with another id.
survives :
    (ids : List Uuid) (id : Uuid) (cs : List DebateArgumentComponent)
    → id_in ids id ≡ false
    → exists_component id cs ≡ true
    → exists_component id (delete_where (λ c. id_in ids c.id) cs) ≡ true
unfolding delete_where any
survives ids id [] n h = h
survives ids id (c ∷ cs) n h = elim (Bool-cases (c.id == id)) [
  | inl here ↦ ground (arith, ap (id_in ids) ((==_iff c.id id).0 here))
  | inr elsewhere ↦ ground (arith, survives ids id cs n)
]

abbrev AreEnds : List DebateArgumentComponent → DebateArgumentRelation → Type 0
AreEnds cs r =
    (exists_component r.from_component_id cs ≡ true)
    × (exists_component r.to_component_id cs ≡ true)

-- The relations that are not deleted, and the fact checks, keep their components.
kept_relations :
    (ids : List Uuid) (cs saved : List DebateArgumentComponent) (rs : List DebateArgumentRelation)
    → All (AreEnds cs) rs
    → All (AreEnds (delete_where (λ c. id_in ids c.id) cs ++ saved)) (
        delete_where
          (λ r. id_in ids r.to_component_id)
          (delete_where (λ r. id_in ids r.from_component_id) rs))
unfolding delete_where
kept_relations ids cs saved [] h = tt
kept_relations ids cs saved (r ∷ rs) h =
    let left = delete_where (λ (c : DebateArgumentComponent). id_in ids c.id) cs in
    ground (
      arith,
      kept_relations ids cs saved rs h.1,
      survives ids r.from_component_id cs,
      survives ids r.to_component_id cs,
      any-append (λ (c : DebateArgumentComponent). c.id == r.from_component_id) left saved,
      any-append (λ (c : DebateArgumentComponent). c.id == r.to_component_id) left saved,
    )

kept_fact_checks :
    (ids : List Uuid) (cs saved : List DebateArgumentComponent) (fs : List DebateFactCheckResult)
    → All (λ f. exists_component f.component_id cs ≡ true) fs
    → All
        (λ f.
          exists_component f.component_id (delete_where (λ c. id_in ids c.id) cs ++ saved) ≡ true)
        (delete_where (λ f. id_in ids f.component_id) fs)
unfolding delete_where
kept_fact_checks ids cs saved [] h = tt
kept_fact_checks ids cs saved (f ∷ fs) h =
    let left = delete_where (λ (c : DebateArgumentComponent). id_in ids c.id) cs in
    ground (
      arith,
      kept_fact_checks ids cs saved fs h.1,
      survives ids f.component_id cs,
      any-append (λ (c : DebateArgumentComponent). c.id == f.component_id) left saved,
    )

-- Every alias stands for a component that is there.
abbrev AreKnown : List DebateArgumentComponent → List (Ref × Uuid) → Type 0
AreKnown cs refs =
    (key : Ref) (id : Uuid) → lookup key refs ≡ some id → exists_component id cs ≡ true

AreKnown-insert :
    (cs : List DebateArgumentComponent) (key : Ref) (id : Uuid) (refs : List (Ref × Uuid))
    → exists_component id cs ≡ true
    → AreKnown cs refs
    → AreKnown cs (insert key id refs)
AreKnown-insert cs key id refs h known other v e =
    ground (arith, lookup-insert key other id refs, known other v)

set_refs-AreKnown :
    (cs : List DebateArgumentComponent) (input : ReplaceTurnGraphInput) (ids : ℕ → Uuid)
    (now : Millis) (index : ℕ) (new : List AnalyzedComponent) (refs : List (Ref × Uuid))
    → All (λ c. exists_component c.id cs ≡ true) (new_components input ids now index new)
    → AreKnown cs refs
    → AreKnown cs (set_refs ids index new refs)
unfolding set_refs new_components
set_refs-AreKnown cs input ids now index [] refs h known = known
set_refs-AreKnown cs input ids now index (c ∷ new) refs h known =
    set_refs-AreKnown cs input ids now (suc index) new (insert c.ref (ids index) refs) h.1
      (AreKnown-insert cs c.ref (ids index) refs h.0 known)

new_relations-All :
    (cs : List DebateArgumentComponent) (debate_id : Uuid) (ids : ℕ → Uuid)
    (refs : List (Ref × Uuid)) (index : ℕ) (rs : List AnalyzedRelation)
    {rows : List DebateArgumentRelation}
    → AreKnown cs refs
    → new_relations debate_id ids refs index rs ≡ ok rows
    → All (AreEnds cs) rows
unfolding new_relations
new_relations-All cs debate_id ids refs index [] known e = ground arith
new_relations-All cs debate_id ids refs index (r ∷ rs) known e =
    elim (Option-cases (lookup r.from_ref refs)) [
      | inl missing ↦ absurd (ground arith)
      | inr (from_id, found) ↦ elim (Option-cases (lookup r.to_ref refs)) [
        | inl missing ↦ absurd (ground arith)
        | inr (to_id, found') ↦
            elim (Result-cases (new_relations debate_id ids refs (suc index) rs)) [
              | inr (e', refused) ↦ absurd (ground arith)
              | inl (rest, made) ↦ ground (
                arith,
                known r.from_ref from_id found,
                known r.to_ref to_id found',
                new_relations-All cs debate_id ids refs (suc index) rs known made,
              )
            ]
      ]
    ]

-- New components are among themselves.
pub components_exist :
    (cs : List DebateArgumentComponent) → All (λ c. exists_component c.id cs ≡ true) cs
unfolding any
components_exist [] = tt
components_exist (c ∷ cs) =
    (ground (arith, ==_refl c.id), All-mono _ _ cs (λ x h. ground (arith, h)) (components_exist cs))

lookup-All :
    (P : Uuid → Type 0) (refs : List (Ref × Uuid)) (key : Ref) (id : Uuid)
    → All (λ e. P e.1) refs
    → lookup key refs ≡ some id
    → P id
unfolding lookup
lookup-All P [] key id h e = cc
lookup-All P (entry ∷ refs) key id h e = elim (Bool-cases (entry.0 == key)) [
  | inl here ↦ let same : entry.1 ≡ id = ground arith in subst P same h.0
  | inr elsewhere ↦ lookup-All P refs key id h.1 (ground arith)
]

-- An id that a caller may pass as known: of a component of another turn.
abbrev pub IsOfOtherTurn : ReplaceTurnGraphInput → Database → Uuid → Type 0
IsOfOtherTurn input db id =
    (exists_component id db.components ≡ true) × (id_in (previous_ids input db) id ≡ false)

exists-append_left :
    (id : Uuid) (cs ds : List DebateArgumentComponent)
    → exists_component id cs ≡ true
    → exists_component id (cs ++ ds) ≡ true
exists-append_left id cs ds h =
    ground (arith, any-append (λ (c : DebateArgumentComponent). c.id == id) cs ds)

exists-append_right :
    (id : Uuid) (cs ds : List DebateArgumentComponent)
    → exists_component id ds ≡ true
    → exists_component id (cs ++ ds) ≡ true
exists-append_right id cs ds h =
    ground (arith, any-append (λ (c : DebateArgumentComponent). c.id == id) cs ds)

-- What a replacement that succeeds has done.
pub replaced :
    (ids relation_ids : ℕ → Uuid) (now : Millis) (input : ReplaceTurnGraphInput) (db : Database)
    {saved : List DebateArgumentComponent} {after : Database}
    → replace_turn_graph ids relation_ids now input db ≡ ok (saved, after)
    → let made = new_components input ids now 0 input.result.components in
      let refs = set_refs ids 0 input.result.components input.known_ref_to_id in
      let cleared = delete_components (previous_ids input db) db in
      (rows : List DebateArgumentRelation) × (new_relations input.debate_id relation_ids refs 0
          input.result.relations
        ≡ ok rows)
      × (saved ≡ made)
      × (after ≡ record cleared {
        components = cleared.components ++ made;
        relations = cleared.relations ++ rows;
      })
unfolding replace_turn_graph
replaced ids relation_ids now input db e =
    let refs = set_refs ids 0 input.result.components input.known_ref_to_id in
    elim (Result-cases (new_relations input.debate_id relation_ids refs 0 input.result.relations)) [
      | inr (e', refused) ↦ absurd (ground arith)
      | inl (rows, added) ↦ (rows, added, ground arith, ground arith)
    ]

-- If every known alias stands for a component of another turn, then replacing the graph of a turn
-- leaves no relation without its two components and no fact check without its component, provided
-- there was none before.
pub replace_turn_graph-IsLinked :
    (ids relation_ids : ℕ → Uuid) (now : Millis) (input : ReplaceTurnGraphInput) (db : Database)
    {saved : List DebateArgumentComponent} {after : Database}
    → All (λ e. IsOfOtherTurn input db e.1) input.known_ref_to_id
    → IsLinked db
    → replace_turn_graph ids relation_ids now input db ≡ ok (saved, after)
    → IsLinked after
unfolding delete_components
replace_turn_graph-IsLinked ids relation_ids now input db known linked e =
    let (rows, added, _, whole) = replaced ids relation_ids now input db e in
    let old = previous_ids input db in
    let made = new_components input ids now 0 input.result.components in
    let cs = (delete_components old db).components ++ made in
    let known' : AreKnown cs input.known_ref_to_id = λ key id found.
      let (there, other_turn) =
        lookup-All (IsOfOtherTurn input db) input.known_ref_to_id key id known found in
      exists-append_left id _ made (survives old id db.components other_turn there) in
    let all_known =
      set_refs-AreKnown cs input ids now 0 input.result.components input.known_ref_to_id
        (All-mono _ _ made (λ c. exists-append_right c.id _ made) (components_exist made)) known' in
    rw whole (record {
      relations =
          All-append _ _ rows (kept_relations old db.components made db.relations linked.relations)
            (new_relations-All cs input.debate_id relation_ids _ 0 input.result.relations all_known
              added);
      fact_checks = kept_fact_checks old db.components made db.fact_checks linked.fact_checks;
    })
