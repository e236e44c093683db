-- ===== src/Examples/Tasks.antt =====
-- One task of the pipeline, and a worker whose handlers never come back: src/judge.
use heimdall_backend.Common.{◌<◌, ◌≤◌, ◌≡◌, refl, ◌⊎◌, true, false, none, some, List, [], ◌∷◌, ok}
use heimdall_backend.Judge.Task.{JudgeTask, analyzer, JudgeTaskStatus, pending, processing}
use heimdall_backend.Judge.Tasks.{
  CreateTaskInput, find_by_id, find_by_target, new_task, create_if_absent, acquire, complete, fail,
  release, reclaim_update,
}
use heimdall_backend.Judge.Tasks.Table.{
  find_one_by, update_where, affected_by, insert_or_ignore, id_in,
}
use heimdall_backend.Judge.Tasks.Ownership.{owns, acquire_once, late_attempt_dropped}
use heimdall_backend.Judge.Worker.{
  WorkerConfig, handled, rethrown, unrecoverable, settle_failure, run_acquired, process,
  report_all_stages, run_with_timeout,
}
use heimdall_backend.Judge.Worker.Settling.{
  Report, process-not_owned, settle_failure_lem, run_acquired_late,
}

abbrev wanted : CreateTaskInput
wanted = record { debate_id = 1; kind = analyzer; target_id = 5; max_attempts = 2 }

abbrev pub waiting : JudgeTask
waiting = record {
  id = 7;
  debate_id = 1;
  kind = analyzer;
  target_id = 5;
  status = pending;
  attempt = 0;
  max_attempts = 2;
  request_id = none;
  last_error = none;
  updated_at = 100;
}

abbrev pub running : JudgeTask
running = record waiting {
  status = processing;
  attempt = 1;
  request_id = some 30;
  updated_at = 200;
}

abbrev pub one_task : List JudgeTask
one_task = waiting ∷ []

abbrev pub running_task : List JudgeTask
running_task = running ∷ []

taken : (acquire 7 30 200 one_task).0 ≡ some running
unfolding acquire update_where affected_by find_by_id find_one_by
taken = refl

created : create_if_absent 7 100 wanted [] ≡ ok (waiting, one_task)
unfolding create_if_absent insert_or_ignore find_by_target find_one_by new_task
created = refl

found_running : find_by_id 7 running_task ≡ some running
unfolding find_by_id find_one_by
found_running = refl

not_mine : owns 7 31 running_task ≡ false
unfolding find_by_id find_one_by
not_mine = refl

nobodys : owns 7 31 one_task ≡ false
unfolding find_by_id find_one_by
nobodys = refl

abbrev stuck_worker : WorkerConfig
stuck_worker = record {
  handlers = λ k. some (record {
    stage_reporting = none;
    handle = λ t. record { duration = none; result = handled };
  });
  job_timeout_ms = 1000;
  backoff_ms = 10;
  timeout_reason = 1 ∷ [];
  no_handler_reason = λ k. 2 ∷ [];
}

acquire_once_example :
    acquire 7 31 300 (acquire 7 30 200 one_task).1 ≡ (none, (acquire 7 30 200 one_task).1)
acquire_once_example = acquire_once 7 30 31 200 300 one_task (tt, tt) taken

is_reclaimed : id_in (7 ∷ []) 7 ≡ true
unfolding id_in
is_reclaimed = refl

late_attempt_dropped_example :
    let t' = (acquire 7 31 400 (reclaim_update (7 ∷ []) 300 running_task)).1 in
    (complete 7 30 500 t' ≡ (false, t'))
    × (fail 7 30 (9 ∷ []) 500 t' ≡ (false, t'))
    × (release 7 30 (9 ∷ []) 500 t' ≡ (false, t'))
late_attempt_dropped_example =
    late_attempt_dropped 7 30 31 (7 ∷ []) 300 400 500 (9 ∷ []) running_task (λ e. cc) (tt, tt)
      is_reclaimed

settle_failure_lem_example :
    let r = settle_failure stuck_worker 30 300 running false (9 ∷ []) running_task in
    (((false ≡ false)
        × (1 < 2)
        × (r.finish ≡ rethrown (9 ∷ []))
        × (find_by_id 7 r.table
            ≡ some (record running {
              status = pending;
              last_error = some (9 ∷ []);
              request_id = none;
              updated_at = 300;
            })))
      ⊎ (((false ≡ true) ⊎ (2 ≤ 1))
          × (r.finish ≡ unrecoverable (9 ∷ []))
          × (find_by_id 7 r.table
              ≡ some (record running {
                status = JudgeTaskStatus.failed;
                last_error = some (9 ∷ []);
                updated_at = 300;
              }))))
settle_failure_lem_example =
    settle_failure_lem stuck_worker 30 300 running false (9 ∷ []) running_task (tt, tt)
      found_running refl refl

-- A worker whose handler comes back at once, and reports by the default policy.
abbrev prompt_worker : WorkerConfig
prompt_worker = record stuck_worker {
  handlers = λ k. some (record {
    stage_reporting = none;
    handle = λ t. record { duration = some 0; result = handled };
  });
}

run_acquired_late_example :
    let r = run_acquired prompt_worker 31 2000 (λ u. running_task) waiting one_task in
    (r.table ≡ running_task) × Report 10 waiting report_all_stages handled r.events r.finish
unfolding run_with_timeout
run_acquired_late_example =
    run_acquired_late prompt_worker 31 2000 (λ u. running_task) waiting one_task
      (record {
        stage_reporting = none;
        handle = λ t. record { duration = some 0; result = handled };
      })
      refl (tt, tt) not_mine

process-not_owned_example :
    owns 7 31 (process stuck_worker 31 300 7 200 (λ u. u) one_task).table ≡ false
process-not_owned_example =
    process-not_owned stuck_worker 31 300 7 200 (λ u. u) one_task (λ u h. h) (tt, tt) nobodys
