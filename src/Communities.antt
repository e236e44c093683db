-- ===== src/Communities.antt =====
-- The state of a community and its messages: changeState of src/communities/communities.service.ts
-- and create and findByClientMessageId of src/communities/community-messages.service.ts.
use heimdall_backend.Common.{
  Bool, true, false, not, ◌&&◌, ◌||◌, Option, none, some, List, [], ◌∷◌, ◌++◌, ◌==◌, any,
  if◌then◌else◌,
}
use heimdall_backend.Common.Text.{Text}
use heimdall_backend.Common.Tables.{find_one_by, update_where}
use heimdall_backend.Debate.Enums.{Uuid, Millis, ResourceStatus, is_normal}

pub data CommunityState : Type 0 where
  waiting active closed : CommunityState

-- The columns that the modelled code uses.
pub record Community : Type 0 where
  pub id : Uuid
  pub state : CommunityState
  pub status : ResourceStatus

abbrev pub is_closed : CommunityState → Bool
is_closed closed = true
is_closed _ = false

-- The WHERE of `changeState`.
abbrev pub is_changeable : Uuid → Community → Bool
is_changeable community_id c =
    c.id == community_id && (is_normal c.status && not (is_closed c.state))

unfoldable pub change_state : Uuid → CommunityState → List Community → List Community
change_state community_id next =
    update_where (is_changeable community_id) (λ c. record c { state = next })

unfoldable pub mark_active : Uuid → List Community → List Community
unfolding change_state
mark_active community_id = change_state community_id active

unfoldable pub mark_waiting : Uuid → List Community → List Community
unfolding change_state
mark_waiting community_id = change_state community_id waiting

pub data CommunityChatMessageType : Type 0 where
  text system opinion_notice debate_started debate_result debate_forfeit debate_timeout :
      CommunityChatMessageType

abbrev pub message_type_eq : CommunityChatMessageType → CommunityChatMessageType → Bool
message_type_eq text text = true
message_type_eq system system = true
message_type_eq opinion_notice opinion_notice = true
message_type_eq debate_started debate_started = true
message_type_eq debate_result debate_result = true
message_type_eq debate_forfeit debate_forfeit = true
message_type_eq debate_timeout debate_timeout = true
message_type_eq _ _ = false

-- The key of a system message, `<prefix>:<debateId>`, where the prefix is the message type in lower
-- case, or one that a client chose. The DTOs refuse a client's key of the first form, so the two are
-- never equal. A client's key enters only through equality.
pub data ClientMessageId : Type 0 where
  of_debate : CommunityChatMessageType → Uuid → ClientMessageId
  of_client : Uuid → ClientMessageId

abbrev pub client_message_id_eq : ClientMessageId → ClientMessageId → Bool
client_message_id_eq (of_debate k d) (of_debate l e) = message_type_eq k l && d == e
client_message_id_eq (of_client i) (of_client j) = i == j
client_message_id_eq _ _ = false

pub record CommunityMessage : Type 0 where
  pub id : Uuid
  pub member_id : Option Uuid
  pub community_id : Uuid
  pub body : Option Text
  pub client_message_id : ClientMessageId
  pub message_type : CommunityChatMessageType
  pub debate_id : Option Uuid
  pub created_at : Millis
  pub status : ResourceStatus

-- The two rows have the same primary key, or the same key of COMMUNITY_MESSAGE_CLIENT_UNIQUE.
abbrev pub conflicts : CommunityMessage → CommunityMessage → Bool
conflicts row x =
    x.id == row.id
    || (x.community_id == row.community_id
        && client_message_id_eq x.client_message_id row.client_message_id)

-- The row of an undeleted message with a key.
abbrev pub has_key : Uuid → ClientMessageId → CommunityMessage → Bool
has_key community_id key x =
    x.community_id == community_id
    && (client_message_id_eq x.client_message_id key && is_normal x.status)

unfoldable pub find_by_client_message_id :
    Uuid → ClientMessageId → List CommunityMessage → Option CommunityMessage
find_by_client_message_id community_id key = find_one_by (has_key community_id key)

pub data CommunityMessageStoreStatus : Type 0 where
  stored duplicate : CommunityMessageStoreStatus

abbrev pub message_or : CommunityMessage → Option CommunityMessage → CommunityMessage
message_or m none = m
message_or m (some existing) = existing

-- `INSERT ... ON CONFLICT DO NOTHING`, and what the call answers.
unfoldable pub create_message :
    CommunityMessage
    → List CommunityMessage
    → CommunityMessageStoreStatus × CommunityMessage × List CommunityMessage
create_message row t =
    if any (conflicts row) t
    then (
      duplicate,
      message_or row (find_by_client_message_id row.community_id row.client_message_id t),
      t,
    )
    else (stored, row, t ++ row ∷ [])
