-- ===== src/Examples/Pipeline.antt =====
-- The debate of Examples.Judgments on its way to the judgment: src/judge and src/debate-outcomes.
use heimdall_backend.Common.{◌≡◌, ◌↔◌, refl, true, none, some, [], ◌∷◌, any, ok, err}
use heimdall_backend.Common.Tables.{find_one_by, find_by, update_where}
use heimdall_backend.Database.{Database, find_debate, exists_active_by_community}
use heimdall_backend.Debate.Enums.{
  DebateStatus, DebateEndReason, all_turns_finalized, DebateOutcome, DebateOutcomeKind,
}
use heimdall_backend.Debate.Rows.{Debate, DebateChatTurn}
use heimdall_backend.Communities.{mark_active}
use heimdall_backend.Outcomes.{apply_within, create}
use heimdall_backend.Outcomes.Repeated.{apply_within_again}
use heimdall_backend.Judge.Task.{JudgeTask, analyzer, fact_check, judge, JudgeTaskStatus}
use heimdall_backend.Judge.Tasks.{create_if_absent, find_by_target, new_task}
use heimdall_backend.Judge.Tasks.Table.{insert_or_ignore}
use heimdall_backend.Judge.Tasks.Counts.{count_by_kind, count_tasks}
use heimdall_backend.Judge.Queue.{schedule}
use heimdall_backend.Judge.Worker.{TaskOutcome}
use heimdall_backend.Judge.Results.{start_judging, restore_finalized}
use heimdall_backend.Judge.Service.{
  ServiceEnv, ServiceDraw, World, JudgeReadiness, try_start_judge, start_if_ready, prepare_judge,
  schedule_task, on_turn_finalized, on_debate_ended, on_task_settled, is_judgeable,
}
use heimdall_backend.Judge.Service.Requests.{request_start, request_judgment, retry_judgment}
use heimdall_backend.Judge.Service.Readiness.{try_start_judge_iff, tasks_in}
use heimdall_backend.Judge.Service.Again.{try_start_judge_again}
use heimdall_backend.Judge.Service.History.{
  here, next, starts, restores, has_ended, find_row, Reaches-keeps_end,
}
use heimdall_backend.Judge.Service.Retrying.{Retry, retry_judgment_lem}
use heimdall_backend.Judge.Service.Ended.{ended_unjudged_stays}
use heimdall_backend.Examples.Jobs.{list_queue}
use heimdall_backend.Examples.Debates.{said}
use heimdall_backend.Examples.Judgments.{ended, tables, draw, words}

abbrev service : ServiceEnv
service = record { max_attempts = λ kind. 3; judge_retry_cooldown_seconds = 60; wording = words }

abbrev call : ServiceDraw
call = record {
  task_id = λ kind target_id. 7;
  db_now = 2000;
  app_now = 2000;
  message = record { id = 601; now = 2001 };
}

abbrev before : World list_queue
before = record { db = tables; jobs = []; events = [] }

ended_found : find_debate 1 tables ≡ some ended
unfolding find_debate find_one_by any
ended_found = refl

try_start_judge_iff_example :
    ((try_start_judge list_queue service call 1 before).0 ≡ ok JudgeReadiness.started) ↔ (
      (is_judgeable ended.debate_status ≡ true)
      × (tasks_in 1 analyzer JudgeTaskStatus.failed [] ≡ 0)
      × (tasks_in 1 analyzer JudgeTaskStatus.pending [] ≡ 0)
      × (tasks_in 1 analyzer JudgeTaskStatus.processing [] ≡ 0)
      × (tasks_in 1 fact_check JudgeTaskStatus.pending [] ≡ 0)
      × (tasks_in 1 fact_check JudgeTaskStatus.processing [] ≡ 0))
try_start_judge_iff_example = try_start_judge_iff list_queue service call 1 before ended_found

-- The world once the judgment is on its way.
unfoldable started : World list_queue
unfolding try_start_judge
started = (try_start_judge list_queue service call 1 before).1

was_started :
    try_start_judge list_queue service call 1 before ≡ (ok JudgeReadiness.started, started)
unfolding started try_start_judge find_debate find_one_by any start_if_ready count_by_kind
    count_tasks find_by prepare_judge schedule_task schedule create_if_absent find_by_target
    insert_or_ignore new_task
was_started = refl

try_start_judge_again_example :
    try_start_judge list_queue service call 1 started ≡ (ok JudgeReadiness.started, started)
try_start_judge_again_example =
    try_start_judge_again list_queue service call call 1 before was_started

abbrev turn : DebateChatTurn
turn = record { draft = said; sequence = 1 }

abbrev judged : Debate
judged = record ended { debate_status = some DebateStatus.completed; winner_id = some 10 }

abbrev judged_tables : Database
judged_tables = record tables { debates = judged ∷ [] }

judged_found : find_row 1 judged_tables ≡ some judged
unfolding find_one_by
judged_found = refl

judged-has_ended : has_ended judged ≡ true
unfolding any
judged-has_ended = refl

abbrev retried : Database
retried = (restore_finalized 1 950 (start_judging 1 900 judged_tables).1).1

Reaches-keeps_end_example : find_row 1 retried ≡ some judged
Reaches-keeps_end_example =
    Reaches-keeps_end 1 judged judged-has_ended
      (next (next here (starts 1 900 judged_tables))
        (restores 1 950 (start_judging 1 900 judged_tables).1))
      judged_found

abbrev judge_task : JudgeTask
judge_task = record {
  id = 7;
  debate_id = 1;
  kind = judge;
  target_id = 1;
  status = JudgeTaskStatus.failed;
  attempt = 3;
  max_attempts = 3;
  request_id = none;
  last_error = none;
  updated_at = 950;
}

-- The debate was forfeited instead.
abbrev forfeited : Debate
forfeited = record ended {
  debate_status = some DebateStatus.failed;
  end_reason = some DebateEndReason.forfeit;
  winner_id = some 10;
}

abbrev forfeited_tables : Database
forfeited_tables = record tables { debates = forfeited ∷ [] }

abbrev after_forfeit : World list_queue
after_forfeit = record { db = forfeited_tables; jobs = []; events = [] }

forfeited_found : find_debate 1 forfeited_tables ≡ some forfeited
unfolding find_debate find_one_by any
forfeited_found = refl

forfeited_row : find_row 1 forfeited_tables ≡ some forfeited
unfolding find_one_by
forfeited_row = refl

abbrev analysis : JudgeTask
analysis = record judge_task { kind = analyzer; target_id = 5 }

ended_unjudged_stays_example :
    ((on_debate_ended list_queue service call 1 after_forfeit).1 ≡ after_forfeit)
    × ((on_task_settled list_queue service call analysis TaskOutcome.completed after_forfeit).1
        ≡ after_forfeit)
    × ((request_start list_queue service call 1 10 after_forfeit).1 ≡ after_forfeit)
    × ((retry_judgment list_queue service call 1 10 after_forfeit).1 ≡ after_forfeit)
    × (find_row 1 (request_judgment list_queue service call 1 10 after_forfeit).1.db
        ≡ some forfeited)
    × (find_row 1 (on_turn_finalized list_queue service call turn after_forfeit).1.db
        ≡ some forfeited)
ended_unjudged_stays_example =
    ended_unjudged_stays list_queue service call 1 10 after_forfeit forfeited forfeited_found refl
      (λ e. cc) turn analysis TaskOutcome.completed refl (λ e. cc) forfeited_row

retry_judgment_lem_example :
    Retry list_queue service call 1 10 before (retry_judgment list_queue service call 1 10 before)
retry_judgment_lem_example = retry_judgment_lem list_queue service call 1 10 before

abbrev result : DebateOutcome
result = record {
  debate_id = 1;
  community_id = 2;
  kind = DebateOutcomeKind.result;
  status = DebateStatus.completed;
  reason = some all_turns_finalized;
  winner_id = some 10;
}

unfoldable told : Database
told = elim (apply_within words draw.message result tables) [ ok d ↦ d | err e ↦ tables ]

unfoldable told_again : Database
told_again = elim (apply_within words call.message result told) [ ok d ↦ d | err e ↦ tables ]

was_told : apply_within words draw.message result tables ≡ ok told
unfolding told apply_within find_debate find_one_by any
was_told = refl

was_told_again : apply_within words call.message result told ≡ ok told_again
unfolding told told_again apply_within find_debate find_one_by any create exists_active_by_community
    mark_active update_where
was_told_again = refl

apply_within_again_example :
    (told_again.community_messages ≡ told.community_messages)
    × (told_again.communities ≡ told.communities)
unfolding any
apply_within_again_example =
    apply_within_again words words draw.message call.message result result tables refl refl refl
      refl was_told was_told_again
