-- ===== src/Judge/Results/Graph/Replaced.antt =====
-- Which components replaceTurnGraph (src/judge/judge-result.repository.ts) leaves.
use heimdall_backend.Common.{
  ℕ, suc, ◌≡◌, refl, Bool, false, List, [], ◌∷◌, ◌++◌, ◌==◌, length, ok, arith, All, Bool-cases,
  inl, inr, ==_refl, ap, subst, sym, ◌∙◌,
}
use heimdall_backend.Common.Tables.{find_by, delete_where, id_in}
use heimdall_backend.Database.{Database}
use heimdall_backend.Debate.Enums.{Uuid, Millis}
use heimdall_backend.Judge.Rows.{DebateArgumentComponent, AnalyzedComponent}
use heimdall_backend.Judge.Results.Graph.{
  ReplaceTurnGraphInput, is_of_turn, ids_of, delete_components, new_components, previous_ids,
  replace_turn_graph,
}
use heimdall_backend.Judge.Results.Graph.Links.{replaced}

-- No two components share an id.
abbrev pub AreDistinct : List DebateArgumentComponent → Type 0
AreDistinct [] = Unit {0}
AreDistinct (c ∷ cs) = All (λ d. (c.id == d.id) ≡ false) cs × AreDistinct cs

module _ (p : DebateArgumentComponent → Bool) where
  fresh_id :
      (id : Uuid) (cs : List DebateArgumentComponent)
      → All (λ d. (id == d.id) ≡ false) cs
      → id_in (ids_of (find_by p cs)) id ≡ false
  unfolding id_in ids_of find_by
  fresh_id id [] h = refl
  fresh_id id (c ∷ cs) h = ground (arith, fresh_id id cs h.1)

  wider :
      (id : Uuid) (ids : List Uuid) (cs : List DebateArgumentComponent)
      → All (λ d. (id == d.id) ≡ false) cs
      → All (λ d. id_in ids d.id ≡ p d) cs
      → All (λ d. id_in (id ∷ ids) d.id ≡ p d) cs
  unfolding id_in
  wider id ids [] n h = tt
  wider id ids (c ∷ cs) n h = (ground arith, wider id ids cs n.1 h.1)

  -- Of distinct components, those whose ids were read are those that meet the condition.
  pub read_ids :
      (cs : List DebateArgumentComponent)
      → AreDistinct cs
      → All (λ c. id_in (ids_of (find_by p cs)) c.id ≡ p c) cs
  unfolding id_in ids_of find_by
  read_ids [] d = tt
  read_ids (c ∷ cs) d = elim (Bool-cases (p c)) [
    | inl hit ↦
        let more : ids_of (find_by p (c ∷ cs)) ≡ c.id ∷ ids_of (find_by p cs) = rw hit in
        subst (λ ids. All (λ d. id_in ids d.id ≡ p d) (c ∷ cs)) (sym more)
          (
            ground (arith, ==_refl c.id),
            wider c.id (ids_of (find_by p cs)) cs d.0 (read_ids cs d.1),
          )
    | inr miss ↦
        let same : ids_of (find_by p (c ∷ cs)) ≡ ids_of (find_by p cs) = rw miss in
        subst (λ ids. All (λ d. id_in ids d.id ≡ p d) (c ∷ cs)) (sym same)
          (rw miss (fresh_id c.id cs d.0), read_ids cs d.1)
  ]

delete_where-same :
    (ids : List Uuid) (p : DebateArgumentComponent → Bool) (cs : List DebateArgumentComponent)
    → All (λ c. id_in ids c.id ≡ p c) cs
    → delete_where (λ c. id_in ids c.id) cs ≡ delete_where p cs
unfolding delete_where
delete_where-same ids p [] h = refl
delete_where-same ids p (c ∷ cs) h = ground (arith, delete_where-same ids p cs h.1)

length-new_components :
    (input : ReplaceTurnGraphInput) (ids : ℕ → Uuid) (now : Millis) (index : ℕ)
    (new : List AnalyzedComponent)
    → length (new_components input ids now index new) ≡ length new
unfolding new_components
length-new_components input ids now index [] = refl
length-new_components input ids now index (c ∷ new) =
    ap suc (length-new_components input ids now (suc index) new)

find_by-new_components :
    (input : ReplaceTurnGraphInput) (ids : ℕ → Uuid) (now : Millis) (index : ℕ)
    (new : List AnalyzedComponent)
    → find_by (is_of_turn input.debate_id input.turn_id) (new_components input ids now index new)
      ≡ new_components input ids now index new
unfolding new_components find_by
find_by-new_components input ids now index [] = refl
find_by-new_components input ids now index (c ∷ new) = ground (
  arith,
  find_by-new_components input ids now (suc index) new,
  ==_refl input.debate_id,
  ==_refl input.turn_id,
)

find_by-delete_where :
    (p : DebateArgumentComponent → Bool) (cs ds : List DebateArgumentComponent)
    → find_by p (delete_where p cs ++ ds) ≡ find_by p ds
unfolding find_by delete_where
find_by-delete_where p [] ds = refl
find_by-delete_where p (c ∷ cs) ds = ground (arith, find_by-delete_where p cs ds)

-- If the ids of the components are distinct, then replacing the graph of a turn removes all
-- components of that turn and no other, and adds those of the result: they are as many, and they
-- are what the call returns.
pub replace_turn_graph_components :
    (ids relation_ids : ℕ → Uuid) (now : Millis) (input : ReplaceTurnGraphInput) (db : Database)
    {saved : List DebateArgumentComponent} {after : Database}
    → AreDistinct db.components
    → replace_turn_graph ids relation_ids now input db ≡ ok (saved, after)
    → (after.components
        ≡ delete_where (is_of_turn input.debate_id input.turn_id) db.components ++ saved)
      × (find_by (is_of_turn input.debate_id input.turn_id) after.components ≡ saved)
      × (length saved ≡ length input.result.components)
unfolding delete_components previous_ids
replace_turn_graph_components ids relation_ids now input db distinct e =
    let (rows, added, same, whole) = replaced ids relation_ids now input db e in
    let is_old = is_of_turn input.debate_id input.turn_id in
    let new = input.result.components in
    let left =
      delete_where-same (previous_ids input db) is_old db.components
        (read_ids is_old db.components distinct) in
    rw (whole, same, left)
      (
        refl,
        find_by-delete_where is_old db.components _ ∙ find_by-new_components input ids now 0 new,
        length-new_components input ids now 0 new,
      )
