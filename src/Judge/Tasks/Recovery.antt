-- ===== src/Judge/Tasks/Recovery.antt =====
-- reclaimStale of src/judge/judge-task.repository.ts: the tasks of a process that died.
use heimdall_backend.Common.{
  ◌≡◌, refl, Bool, true, ◌&&◌, List, [], ◌∷◌, ltb, ==_refl, arith, All, List-cases, inl, inr,
}
use heimdall_backend.Debate.Enums.{Uuid, Millis}
use heimdall_backend.Judge.Task.{JudgeTask, processing, status_eq}
use heimdall_backend.Judge.Tasks.{find_stale, reclaim_update, reclaim_stale, ids_of}
use heimdall_backend.Judge.Tasks.Table.{find_by, update_where, id_in}

-- The task was left processing since before `stale_before`.
abbrev pub is_stale : Millis → JudgeTask → Bool
is_stale stale_before x = status_eq x.status processing && ltb x.updated_at stale_before

abbrev pub AreListed : (JudgeTask → Bool) → List Uuid → List JudgeTask → Type 0
AreListed p ids t = All (λ x. p x ≡ true → id_in ids x.id ≡ true) t

find_by-AreListed :
    (p : JudgeTask → Bool) (t : List JudgeTask) (ids : List Uuid)
    → ((i : Uuid) → id_in (ids_of (find_by p t)) i ≡ true → id_in ids i ≡ true)
    → AreListed p ids t
unfolding find_by id_in
find_by-AreListed p [] ids h = tt
find_by-AreListed p (x ∷ xs) ids h = (
  (λ e. ground (arith, h x.id, ==_refl x.id)),
  find_by-AreListed p xs ids (λ i k. ground (arith, h i)),
)

reclaim_update-find_stale :
    (stale_before now : Millis) (ids : List Uuid) (t : List JudgeTask)
    → AreListed (is_stale stale_before) ids t
    → find_stale stale_before (reclaim_update ids now t) ≡ []
unfolding find_stale reclaim_update find_by update_where
reclaim_update-find_stale stale_before now ids [] h = refl
reclaim_update-find_stale stale_before now ids (x ∷ xs) h =
    ground (arith, h.0, reclaim_update-find_stale stale_before now ids xs h.1)

-- After reclaimStale no task of the table has been processing since before the given instant.
pub reclaim_stale-find_stale :
    (stale_before now : Millis) (t : List JudgeTask)
    → find_stale stale_before (reclaim_stale stale_before now t).1 ≡ []
unfolding reclaim_stale
reclaim_stale-find_stale stale_before now t = elim (List-cases (find_stale stale_before t)) [
  | inl e ↦ rw (reclaim_stale, e) e
  | inr (x, xs, e) ↦
      let listed =
        find_by-AreListed (is_stale stale_before) t (ids_of (find_stale stale_before t))
          (λ i k. unfold find_stale in k) in
      let done =
        reclaim_update-find_stale stale_before now (ids_of (find_stale stale_before t)) t listed in
      rw (reclaim_stale, e) (rw e at done)
]
