-- ===== src/Outcomes.antt =====
-- The class DebateOutcomeService of src/debate-outcomes/debate-outcome.service.ts with its factory of
-- system messages, debate-system-message.factory.ts. The fixed words of the messages are parameters.
pub mod Frame
pub mod Repeated
use heimdall_backend.Common.{
  Bool, true, false, Option, none, some, List, [], ◌∷◌, ◌++◌, ◌==◌, if◌then◌else◌, Result, ok,
  ◌>>=◌, or_throw,
}
use heimdall_backend.Common.Text.{Text}
use heimdall_backend.Database.{Database, find_debate, exists_active_by_community}
use heimdall_backend.Debate.Enums.{
  Uuid, Millis, normal, DebateStatus, DebateEndReason, DebateOutcome, DebateOutcomeKind, started,
  result, forfeit, total_timeout, judgment_failed,
}
use heimdall_backend.Debate.Rows.{Debate}
use heimdall_backend.Debate.Turns.{get_or}
use heimdall_backend.Members.{reward_win}
use heimdall_backend.Communities.{
  CommunityChatMessageType, debate_started, debate_result, debate_forfeit, debate_timeout,
  ClientMessageId, of_debate, CommunityMessage, create_message, find_by_client_message_id,
  mark_active, mark_waiting,
}

-- `throw new GeneralException(DebateErrorCode.NOT_FOUND)`
pub data OutcomeError : Type 0 where
  debate_not_found : OutcomeError

-- The fixed words of SYSTEM_MESSAGE_SPECS.
pub record Wording : Type 0 where
  pub versus : Text
  pub has_started : Text
  pub is_draw : Text
  pub winner_is : Text
  pub has_forfeited : Text
  pub is_timed_out : Text

-- The id and the instant that the factory draws for a message.
pub record MessageDraw : Type 0 where
  pub id : Uuid
  pub now : Millis

-- `memberId === id`
abbrev pub is_id : Option Uuid → Uuid → Bool
is_id none id = false
is_id (some member_id) id = member_id == id

unfoldable pub nickname_of : Debate → Option Uuid → Text
nickname_of debate member_id =
    if is_id member_id debate.host_id
    then debate.host_nickname
    else get_or debate.opponent_nickname []

unfoldable pub loser_of : Debate → Option Uuid → Option Uuid
loser_of debate winner_id =
    if is_id winner_id debate.host_id then debate.opponent_id else some debate.host_id

-- The keys of SYSTEM_MESSAGE_SPECS, with the message type of each.
unfoldable pub message_type_of : DebateOutcomeKind → Option CommunityChatMessageType
message_type_of started = some debate_started
message_type_of result = some debate_result
message_type_of forfeit = some debate_forfeit
message_type_of total_timeout = some debate_timeout
message_type_of judgment_failed = none

-- `spec.text`
unfoldable pub text_of : Wording → Debate → DebateOutcomeKind → Option Uuid → Text
text_of w debate started winner_id =
    debate.host_nickname ++ (w.versus ++ (get_or debate.opponent_nickname [] ++ w.has_started))
text_of w debate result none = w.is_draw
text_of w debate result (some winner_id) = w.winner_is ++ nickname_of debate (some winner_id)
text_of w debate forfeit winner_id =
    nickname_of debate (loser_of debate winner_id) ++ w.has_forfeited
text_of w debate total_timeout winner_id = w.is_timed_out
text_of w debate judgment_failed winner_id = []

unfoldable pub client_message_id_of : DebateOutcome → Option ClientMessageId
unfolding message_type_of
client_message_id_of outcome = elim (message_type_of outcome.kind) [
  | none ↦ none
  | some type ↦ some (of_debate type outcome.debate_id)
]

unfoldable pub create : Wording → MessageDraw → DebateOutcome → Debate → Option CommunityMessage
unfolding message_type_of text_of
create w draw outcome debate = elim (message_type_of outcome.kind) [
  | none ↦ none
  | some type ↦ some (record {
    id = draw.id;
    member_id = none;
    community_id = outcome.community_id;
    body = some (text_of w debate outcome.kind outcome.winner_id);
    client_message_id = of_debate type outcome.debate_id;
    message_type = type;
    debate_id = some outcome.debate_id;
    created_at = draw.now;
    status = normal;
  })
]

-- `syncCommunityState`; the lock that it takes makes the calls of a community follow one another.
unfoldable pub sync_community_state : Uuid → Database → Database
sync_community_state community_id db = record db {
  communities =
      if exists_active_by_community community_id db
      then mark_active community_id db.communities
      else mark_waiting community_id db.communities;
}

unfoldable pub reward_winner : Option Uuid → Database → Database
reward_winner none db = db
reward_winner (some winner_id) db = record db { members = reward_win winner_id db.members }

unfoldable pub store_message : Option CommunityMessage → Database → Database
store_message none db = db
store_message (some message) db = record db {
  community_messages = (create_message message db.community_messages).2;
}

-- An exception rolls back the caller's transaction.
unfoldable pub apply_within :
    Wording → MessageDraw → DebateOutcome → Database → Result OutcomeError Database
unfolding reward_winner store_message sync_community_state
apply_within w draw outcome db = do
  let rewarded = reward_winner outcome.winner_id db
  debate ← or_throw (find_debate outcome.debate_id rewarded) debate_not_found
  let told = store_message (create w draw outcome debate) rewarded
  ok (sync_community_state outcome.community_id told)

pub data RoomEvent : Type 0 where
  message_created : Uuid → CommunityMessage → RoomEvent
  debate_ended : Uuid → Uuid → DebateStatus → DebateEndReason → RoomEvent

-- ENDED_ANNOUNCED_KINDS
abbrev pub is_ended_announced : DebateOutcomeKind → Bool
is_ended_announced forfeit = true
is_ended_announced total_timeout = true
is_ended_announced _ = false

unfoldable pub announce_message : DebateOutcome → List CommunityMessage → List RoomEvent
announce_message outcome t = elim (client_message_id_of outcome) [
  | none ↦ []
  | some key ↦ elim (find_by_client_message_id outcome.community_id key t) [
    | none ↦ []
    | some stored ↦ message_created outcome.community_id stored ∷ []
  ]
]

abbrev pub ended_event : DebateOutcome → Option DebateEndReason → List RoomEvent
ended_event outcome none = []
ended_event outcome (some reason) =
    if is_ended_announced outcome.kind
    then debate_ended outcome.community_id outcome.debate_id outcome.status reason ∷ []
    else []

-- What is sent to the rooms; a failure to send is logged and changes nothing.
unfoldable pub announce : DebateOutcome → Database → List RoomEvent
unfolding announce_message
announce outcome db =
    announce_message outcome db.community_messages ++ ended_event outcome outcome.reason
