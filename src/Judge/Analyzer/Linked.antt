-- ===== src/Judge/Analyzer/Linked.antt =====
-- The graph that the analyzer (src/judge/argument-analyzer.service.ts) leaves.
use heimdall_backend.Common.{
  ℕ, suc, ◌≡◌, ◌∙◌, Bool, true, false, ◌&&◌, List, [], ◌∷◌, ◌==◌, ltb, ok, arith, Result-cases,
  Option-cases, Bool-cases, inl, inr, All, All-zip, ==_iff,
}
use heimdall_backend.Common.Maps.{insert}
use heimdall_backend.Common.Tables.{
  find_by, sort_by, insert_sorted, id_in, find_one_by, find_one_by-holds,
}
use heimdall_backend.Database.{Database}
use heimdall_backend.Debate.Enums.{Uuid, is_normal}
use heimdall_backend.Debate.Rows.{DebateMessage}
use heimdall_backend.Judge.Task.{JudgeTask, fact_check}
use heimdall_backend.Judge.Queue.{JobQueue, schedule}
use heimdall_backend.Judge.Rows.{DebateArgumentComponent, Ref}
use heimdall_backend.Judge.Results.{find_components_before, is_spoken_before}
use heimdall_backend.Judge.Results.Graph.{
  ReplaceTurnGraphInput, replace_turn_graph, is_of_turn, previous_ids, ids_of,
}
use heimdall_backend.Judge.Results.Graph.Links.{
  IsLinked, IsOfOtherTurn, exists_component, components_exist, replace_turn_graph-IsLinked,
}
use heimdall_backend.Judge.Results.Graph.Replaced.{AreDistinct, read_ids}
use heimdall_backend.Judge.Analyzer.{
  AnalyzerEnv, AnalyzerDraw, analyze_turn, find_turn, known_refs, schedule_checks, analyze,
}
use heimdall_backend.Judge.Analyzer.Accepted.{analyzed}

-- A component carries the sequence of the turn that it was found in.
abbrev pub CarriesSequence : List DebateMessage → DebateArgumentComponent → Type 0
CarriesSequence rows c =
    (found : DebateMessage × ℕ) → find_turn c.turn_id rows ≡ ok found → c.turn_sequence ≡ found.1

find_by-All :
    (p : DebateArgumentComponent → Bool) (P : DebateArgumentComponent → Type 0)
    (cs : List DebateArgumentComponent)
    → All (λ c. p c ≡ true → P c) cs
    → All P (find_by p cs)
unfolding find_by
find_by-All p P [] h = tt
find_by-All p P (c ∷ cs) h = elim (Bool-cases (p c)) [
  | inl hit ↦ rw hit (h.0 hit, find_by-All p P cs h.1)
  | inr miss ↦ rw miss (find_by-All p P cs h.1)
]

insert_sorted-All :
    (le : DebateArgumentComponent → DebateArgumentComponent → Bool)
    (P : DebateArgumentComponent → Type 0) (c : DebateArgumentComponent)
    (cs : List DebateArgumentComponent)
    → P c
    → All P cs
    → All P (insert_sorted le c cs)
unfolding insert_sorted
insert_sorted-All le P c [] h hs = (h, tt)
insert_sorted-All le P c (d ∷ cs) h hs = elim (Bool-cases (le c d)) [
  | inl first ↦ rw first (h, hs)
  | inr later ↦ rw later (hs.0, insert_sorted-All le P c cs h hs.1)
]

sort_by-All :
    (le : DebateArgumentComponent → DebateArgumentComponent → Bool)
    (P : DebateArgumentComponent → Type 0) (cs : List DebateArgumentComponent)
    → All P cs
    → All P (sort_by le cs)
unfolding sort_by
sort_by-All le P [] h = tt
sort_by-All le P (c ∷ cs) h = insert_sorted-All le P c (sort_by le cs) h.0 (sort_by-All le P cs h.1)

insert-All :
    (P : Uuid → Type 0) (key : Ref) (id : Uuid) (m : List (Ref × Uuid))
    → P id
    → All (λ e. P e.1) m
    → All (λ e. P e.1) (insert key id m)
unfolding insert
insert-All P key id [] h hs = (h, tt)
insert-All P key id (e ∷ m) h hs = elim (Bool-cases (e.0 == key)) [
  | inl here ↦ rw here (h, hs.1)
  | inr elsewhere ↦ rw elsewhere (hs.0, insert-All P key id m h hs.1)
]

known_refs-All :
    (P : Uuid → Type 0) (known_ref : ℕ → Ref) (index : ℕ) (cs : List DebateArgumentComponent)
    (m : List (Ref × Uuid))
    → All (λ c. P c.id) cs
    → All (λ e. P e.1) m
    → All (λ e. P e.1) (known_refs known_ref index cs m)
unfolding known_refs
known_refs-All P known_ref index [] m h hs = hs
known_refs-All P known_ref index (c ∷ cs) m h hs =
    known_refs-All P known_ref (suc index) cs (insert (known_ref index) c.id m) h.1
      (insert-All P (known_ref index) c.id m h.0 hs)

found_turn_id :
    (id : Uuid) (rows : List DebateMessage) {turn : DebateMessage} {s : ℕ}
    → find_turn id rows ≡ ok (turn, s)
    → turn.id ≡ id
unfolding find_turn
found_turn_id id rows {turn} {s} e =
    elim (Option-cases (find_one_by (λ m. m.id == id && is_normal m.status) rows)) [
      | inl missing ↦ absurd (ground arith)
      | inr (m, found) ↦
          ground
            (arith, find_one_by-holds (λ m. m.id == id && is_normal m.status) rows {x = m} found)
    ]

-- The aliases that an analysis passes stand for components of earlier turns.
known-IsOfOtherTurn :
    (env : AnalyzerEnv) (task : JudgeTask) (db later : Database) {input : ReplaceTurnGraphInput}
    → AreDistinct db.components
    → All (CarriesSequence db.debate_messages) db.components
    → later.components ≡ db.components
    → analyze_turn env task db ≡ ok input
    → All (λ e. IsOfOtherTurn input later e.1) input.known_ref_to_id
unfolding find_components_before previous_ids
known-IsOfOtherTurn env task db later {input} distinct carries same e =
    let (phase, result, _, _, debate, turn, found, turn_id, known) = analyzed env task db e in
    let id : turn.id ≡ task.target_id = found_turn_id task.target_id db.debate_messages found in
    let p : DebateArgumentComponent → Bool = is_of_turn input.debate_id input.turn_id in
    let earlier : DebateArgumentComponent → Bool =
      λ c. c.debate_id == task.debate_id && ltb c.turn_sequence input.turn_sequence in
    let each =
      All-zip _ _
        (λ c.
          (exists_component c.id db.components ≡ true)
          × (id_in (ids_of (find_by p db.components)) c.id ≡ p c))
        db.components (λ c x y. (x, y)) (components_exist db.components)
        (read_ids p db.components distinct) in
    let all =
      All-zip _ _ (λ c. earlier c ≡ true → IsOfOtherTurn input later c.id) db.components
        (λ c x y before.
          let not_old : p c ≡ false = elim (Bool-cases (c.turn_id == task.target_id)) [
            | inl here ↦
                let at : c.turn_id ≡ task.target_id = (==_iff c.turn_id task.target_id).0 here in
                let sequence = y (turn, input.turn_sequence) (rw at found) in
                absurd (ground (arith, sequence))
            | inr elsewhere ↦ ground (arith, turn_id, id)
          ] in
          (rw same x.0, rw same (x.1 ∙ not_old)))
        each carries in
    rw known (
      known_refs-All (IsOfOtherTurn input later) env.known_ref 0 _ []
        (sort_by-All is_spoken_before _ _ (find_by-All earlier _ db.components all)) tt)

module _ (q : JobQueue) (env : AnalyzerEnv) (draw : AnalyzerDraw) where
  schedule_checks-IsLinked :
      (debate_id : Uuid) (cs : List DebateArgumentComponent) (db : Database) (jobs : q.Jobs)
      → IsLinked db
      → IsLinked (schedule_checks q env draw debate_id cs db jobs).1
  unfolding schedule_checks
  schedule_checks-IsLinked debate_id [] db jobs h = h
  schedule_checks-IsLinked debate_id (c ∷ cs) db jobs h = elim (Bool-cases c.needs_fact_check) [
    | inr skipped ↦ rw skipped (schedule_checks-IsLinked debate_id cs db jobs h)
    | inl checked ↦
        elim (Result-cases (
          schedule q env.max_attempts (draw.task_id c.id) draw.now debate_id fact_check c.id
            db.tasks jobs)) [
              | inr (e, refused) ↦ rw (checked, refused) h
              | inl ((task, tasks, jobs'), done) ↦
                  rw (checked, done)
                    (schedule_checks-IsLinked debate_id cs (record db { tasks = tasks }) jobs'
                      (record { relations = h.relations; fact_checks = h.fact_checks }))
            ]
  ]

  -- However an analysis ends, every relation has its two components and every fact check its
  -- component, provided this held of the tables as the others left them meanwhile, the ids of the
  -- components are distinct, each carries the sequence of its turn, and none changed meanwhile.
  pub analyze-IsLinked :
      (others : Database → Database) (task : JudgeTask) (db : Database) (jobs : q.Jobs)
      → AreDistinct db.components
      → All (CarriesSequence db.debate_messages) db.components
      → (others db).components ≡ db.components
      → IsLinked (others db)
      → IsLinked (analyze q env draw others task db jobs).1
  unfolding analyze
  analyze-IsLinked others task db jobs distinct carries same meanwhile =
      elim (Result-cases (analyze_turn env task db)) [
        | inr (e, refused) ↦ rw (refused, analyze) meanwhile
        | inl (input, done) ↦
            elim (Result-cases
              (replace_turn_graph draw.component_id draw.relation_id draw.now input (others db))) [
                | inr (e, refused) ↦ rw (done, refused, analyze) meanwhile
                | inl ((saved, after), replaced) ↦
                    rw (done, replaced, analyze)
                      (schedule_checks-IsLinked input.debate_id saved after jobs (
                        replace_turn_graph-IsLinked draw.component_id draw.relation_id draw.now
                          input (others db)
                          (known-IsOfOtherTurn env task db (others db) distinct carries same done)
                          meanwhile replaced))
              ]
      ]
