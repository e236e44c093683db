-- ===== src/Examples/Jobs.antt =====
-- The queue of jobs as a list of task ids without repetition: src/judge/judge-task.worker.ts.
use heimdall_backend.Common.{
  ◌≡◌, refl, Bool, true, false, ◌||◌, List, [], ◌∷◌, ok, if◌then◌else◌, ◌==◌, ==_refl, arith, All,
  any, not, ◌&&◌, ◌⊎◌,
}
use heimdall_backend.Debate.Enums.{Uuid}
use heimdall_backend.Judge.Task.{analyzer, pending, status_eq}
use heimdall_backend.Judge.Tasks.{
  reclaim_stale, find_pending, find_stale, reclaim_update, create_if_absent, find_by_target,
  new_task,
}
use heimdall_backend.Judge.Tasks.Table.{find_by, update_where, id_in, insert_or_ignore, find_one_by}
use heimdall_backend.Judge.Queue.{
  JobQueue, schedule, enqueue, on_application_bootstrap, schedule_again,
}
use heimdall_backend.Judge.Queue.Boot.{on_application_bootstrap_lem}
use heimdall_backend.Judge.Tasks.Recovery.{is_stale}
use heimdall_backend.Examples.Tasks.{waiting, one_task, running_task}

unfoldable pub has_job : Uuid → List Uuid → Bool
has_job id [] = false
has_job id (j ∷ jobs) = j == id || has_job id jobs

unfoldable pub add_job : Uuid → List Uuid → List Uuid
add_job id jobs = if has_job id jobs then jobs else id ∷ jobs

pub has_job-add_job : (id : Uuid) (jobs : List Uuid) → has_job id (add_job id jobs) ≡ true
unfolding has_job add_job
has_job-add_job id jobs = ground (arith, ==_refl id)

pub has_job_still :
    (id other : Uuid) (jobs : List Uuid)
    → has_job id jobs ≡ true
    → has_job id (add_job other jobs) ≡ true
unfolding has_job add_job
has_job_still id other jobs h = ground arith

pub add_job_again : (id : Uuid) (jobs : List Uuid) → has_job id jobs ≡ true → add_job id jobs ≡ jobs
unfolding add_job
add_job_again id jobs h = rw h

abbrev pub list_queue : JobQueue
list_queue = record {
  Jobs = List Uuid;
  add = add_job;
  has = has_job;
  has-add = has_job-add_job;
  has_still = has_job_still;
  add_again = add_job_again;
}

on_application_bootstrap_lem_example :
    let (t', jobs') = on_application_bootstrap list_queue (λ s. false) 10 600 600 running_task [] in
    ((false ≡ true) × (t' ≡ running_task) × (jobs' ≡ []))
    ⊎ (All (λ x. is_stale 570 x ≡ false) t'
        × (((false ≡ true) × (jobs' ≡ []))
            ⊎ ((any (λ x. status_eq x.status pending && false) t' ≡ true)
                ⊎ All (λ x. (not (status_eq x.status pending) || has_job x.id jobs') ≡ true) t')))
on_application_bootstrap_lem_example =
    on_application_bootstrap_lem list_queue (λ s. false) 10 600 600 running_task []

recovered :
    on_application_bootstrap list_queue (λ s. false) 10 600 600 running_task []
    ≡ (record waiting { attempt = 1; updated_at = 600 } ∷ [], 7 ∷ [])
unfolding on_application_bootstrap reclaim_stale find_pending find_stale find_by reclaim_update
    update_where id_in add_job has_job
recovered = refl

scheduled : schedule list_queue (λ k. 2) 7 100 1 analyzer 5 [] [] ≡ ok (waiting, one_task, 7 ∷ [])
unfolding schedule enqueue create_if_absent insert_or_ignore find_by_target find_one_by new_task
    add_job has_job
scheduled = refl

schedule_again_example :
    schedule list_queue (λ k. 2) 8 200 1 analyzer 5 one_task (7 ∷ [])
    ≡ ok (waiting, one_task, 7 ∷ [])
schedule_again_example = schedule_again list_queue (λ k. 2) 7 8 100 200 1 analyzer 5 [] [] scheduled
