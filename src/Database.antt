-- ===== src/Database.antt =====
-- The tables that the judging of a debate reads and writes, and the queries on a debate of
-- src/debates/debates.service.ts: findOneOrThrow and existsActiveByCommunity.
use heimdall_backend.Common.{Bool, true, false, ◌&&◌, Option, none, some, List, ◌==◌, any}
use heimdall_backend.Common.Tables.{find_one_by}
use heimdall_backend.Debate.Enums.{
  Uuid, is_normal, DebateStatus, ready, in_progress, debate_finalized, judging, completed, failed,
}
use heimdall_backend.Debate.Rows.{Debate, DebateMessage}
use heimdall_backend.Members.{Member}
use heimdall_backend.Communities.{Community, CommunityMessage}
use heimdall_backend.Judge.Task.{JudgeTask}
use heimdall_backend.Judge.Rows.{
  DebateArgumentComponent, DebateArgumentRelation, DebateFactCheckResult, DebateJudgmentResult,
}

pub record Database : Type 0 where
  pub debates : List Debate
  pub debate_messages : List DebateMessage
  pub communities : List Community
  pub community_messages : List CommunityMessage
  pub members : List Member
  pub tasks : List JudgeTask
  pub components : List DebateArgumentComponent
  pub relations : List DebateArgumentRelation
  pub fact_checks : List DebateFactCheckResult
  pub judgments : List DebateJudgmentResult

-- `community: { status: ResourceStatus.NORMAL }`
abbrev pub has_community : List Community → Uuid → Bool
has_community communities community_id =
    any (λ c. c.id == community_id && is_normal c.status) communities

-- The WHERE of `findOneOrThrow`.
abbrev pub is_found : List Community → Uuid → Debate → Bool
is_found communities debate_id d =
    d.id == debate_id && (is_normal d.status && has_community communities d.community_id)

unfoldable pub find_debate : Uuid → Database → Option Debate
find_debate debate_id db = find_one_by (is_found db.communities debate_id) db.debates

-- ACTIVE_DEBATE_STATUSES, where a status of NULL is in no list.
abbrev pub is_active : Option DebateStatus → Bool
is_active none = false
is_active (some ready) = true
is_active (some in_progress) = true
is_active (some debate_finalized) = true
is_active (some judging) = true
is_active (some completed) = false
is_active (some failed) = false

abbrev pub is_active_in : Uuid → Debate → Bool
is_active_in community_id d =
    d.community_id == community_id && (is_normal d.status && is_active d.debate_status)

unfoldable pub exists_active_by_community : Uuid → Database → Bool
exists_active_by_community community_id db = any (is_active_in community_id) db.debates
