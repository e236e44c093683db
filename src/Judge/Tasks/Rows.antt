-- ===== src/Judge/Tasks/Rows.antt =====
-- What a conditional UPDATE does to the rows of a table whose ids are distinct.
use heimdall_backend.Common.{
  ◌≡◌, refl, Bool, false, ◌&&◌, Option, none, some, List, [], ◌∷◌, ◌==◌, if◌then◌else◌, arith, All,
  Bool-cases, inl, inr, ==_iff,
}
use mathlib.Core.Option
use heimdall_backend.Debate.Enums.{Uuid}
use heimdall_backend.Judge.Task.{JudgeTask}
use heimdall_backend.Judge.Tasks.{find_by_id}
use heimdall_backend.Judge.Tasks.Table.{find_one_by, update_where, affected_by, same_target}

-- No two rows share an id, or a kind and a target.
abbrev pub IsNew : JudgeTask → List JudgeTask → Type 0
IsNew x xs = All (λ y. ((x.id == y.id) ≡ false) × (same_target x y ≡ false)) xs

abbrev pub IsUnique : List JudgeTask → Type 0
IsUnique [] = Unit {0}
IsUnique (x ∷ xs) = IsNew x xs × IsUnique xs

-- An update that leaves the keys alone.
abbrev pub KeepsKeys : (JudgeTask → JudgeTask) → Type 0
KeepsKeys f =
    (x : JudgeTask) → ((f x).id ≡ x.id) × ((f x).kind ≡ x.kind) × ((f x).target_id ≡ x.target_id)

module _ (p : JudgeTask → Bool) (f : JudgeTask → JudgeTask) (k : KeepsKeys f) where
  update_where-IsNew :
      (x y : JudgeTask) (xs : List JudgeTask)
      → y.id ≡ x.id
      → y.kind ≡ x.kind
      → y.target_id ≡ x.target_id
      → IsNew x xs
      → IsNew y (update_where p f xs)
  unfolding update_where
  update_where-IsNew x y [] a b c h = tt
  update_where-IsNew x y (z ∷ zs) a b c h = ground (arith, k z, update_where-IsNew x y zs a b c h.1)

  pub update_where-IsUnique : (xs : List JudgeTask) → IsUnique xs → IsUnique (update_where p f xs)
  unfolding update_where
  update_where-IsUnique [] h = tt
  update_where-IsUnique (x ∷ xs) h = elim (Bool-cases (p x)) [
    | inl hit ↦
        rw hit
          (update_where-IsNew x (f x) xs (k x).0 (k x).1 (k x).2 h.0, update_where-IsUnique xs h.1)
    | inr miss ↦
        rw miss (update_where-IsNew x x xs refl refl refl h.0, update_where-IsUnique xs h.1)
  ]

  -- The row with a given id is changed exactly if it meets the condition.
  pub find_by_id-update_where :
      (id : Uuid) (xs : List JudgeTask)
      → find_by_id id (update_where p f xs)
        ≡ Option.map (λ x. if p x then f x else x) (find_by_id id xs)
  unfolding find_by_id find_one_by update_where
  find_by_id-update_where id [] = refl
  find_by_id-update_where id (x ∷ xs) = ground (arith, k x, find_by_id-update_where id xs)

-- Of rows with distinct ids at most one is named by an id, and it is affected or not.
affected_by-none :
    (id : Uuid) (p : JudgeTask → Bool) (xs : List JudgeTask)
    → All (λ y. (id == y.id) ≡ false) xs
    → affected_by (λ x. x.id == id && p x) xs ≡ 0
unfolding affected_by
affected_by-none id p [] h = refl
affected_by-none id p (x ∷ xs) h = ground (arith, affected_by-none id p xs h.1)

IsNew-ids :
    (id : Uuid) (x : JudgeTask) (xs : List JudgeTask)
    → x.id ≡ id
    → IsNew x xs
    → All (λ y. (id == y.id) ≡ false) xs
IsNew-ids id x [] e h = tt
IsNew-ids id x (y ∷ ys) e h = (rw (← e) h.0.0, IsNew-ids id x ys e h.1)

-- Whether the row of an id is there and meets the condition.
abbrev pub row_meets : (JudgeTask → Bool) → Option JudgeTask → Bool
row_meets p none = false
row_meets p (some x) = p x

-- A conditional UPDATE by id touches a row exactly if the row of that id meets the condition, and
-- then it touches no other.
pub affected_by_id :
    (id : Uuid) (p : JudgeTask → Bool) (xs : List JudgeTask)
    → IsUnique xs
    → affected_by (λ x. x.id == id && p x) xs ≡ (if row_meets p (find_by_id id xs) then 1 else 0)
unfolding affected_by find_by_id find_one_by
affected_by_id id p [] u = refl
affected_by_id id p (x ∷ xs) u = elim (Bool-cases (x.id == id)) [
  | inl here ↦
      rw here
        (ground (arith, affected_by-none id p xs (IsNew-ids id x xs ((==_iff x.id id).0 here) u.0)))
  | inr elsewhere ↦ rw elsewhere (affected_by_id id p xs u.1)
]
