-- ===== src/Invitations/Service.antt =====
-- The table of invitations and the responses of the class DebateInvitationsService
-- (src/debate-invitations/debate-invitations.service.ts, with its entity). A call runs as one step,
-- and calls that race are calls one after the other, in the order of their transitions. Each
-- reading of the clock is an argument.
use heimdall_backend.Common.{
  ℕ, ◌+◌, ◌*◌, Bool, true, false, ◌&&◌, Option, none, some, List, [], ◌∷◌, ◌++◌, ◌==◌, ltb, leb,
  any, if◌then◌else◌, Result, ok, err,
}
use heimdall_backend.Debate.Enums.{Uuid, Millis}

pub data DebateInvitationStatus : Type 0 where
  pending accepted rejected expired : DebateInvitationStatus

pub record DebateInvitation : Type 0 where
  pub id : Uuid
  pub community_id : Uuid
  pub host_member_id : Uuid
  pub opponent_member_id : Uuid
  pub status : DebateInvitationStatus
  pub expires_at : Millis
  pub responded_at : Option Millis
  pub debate_id : Option Uuid

-- Those of DebateInvitationErrorCode that the modelled calls throw.
pub data InvitationError : Type 0 where
  not_found not_invitee already_responded is_expired already_pending : InvitationError

pub data DeadlineCondition : Type 0 where
  before_expiry after_expiry : DeadlineCondition

-- The payload of debateRequestRejected.
pub record Rejection : Type 0 where
  pub community_id : Uuid
  pub invitation_id : Uuid
  pub opponent_member_id : Uuid

-- The payload of debateRequestExpired.
pub record Expiry : Type 0 where
  pub community_id : Uuid
  pub invitation_id : Uuid

-- What the publisher sends: a payload, and the members who receive it.
pub data InvitationEvent : Type 0 where
  debate_request_rejected : Rejection → Uuid → InvitationEvent
  debate_request_expired : Expiry → Uuid → Uuid → InvitationEvent

abbrev pub is_pending : DebateInvitationStatus → Bool
is_pending pending = true
is_pending _ = false

-- DebateInvitation.issue, under the id that the database draws.
unfoldable pub issue : Uuid → Uuid → Uuid → Uuid → ℕ → Millis → DebateInvitation
issue id community_id host_member_id opponent_member_id ttl_seconds now = record {
  id = id;
  community_id = community_id;
  host_member_id = host_member_id;
  opponent_member_id = opponent_member_id;
  status = pending;
  expires_at = now + ttl_seconds * 1000;
  responded_at = none;
  debate_id = none;
}

-- `insert`, under the unique index on the community of the pending invitations.
unfoldable pub insert_invitation :
    DebateInvitation → List DebateInvitation → Result InvitationError (List DebateInvitation)
insert_invitation invitation t =
    if any (λ x. x.community_id == invitation.community_id && is_pending x.status) t
    then err already_pending
    else ok (t ++ invitation ∷ [])

unfoldable pub find_invitation : Uuid → List DebateInvitation → Option DebateInvitation
find_invitation id [] = none
find_invitation id (x ∷ xs) = if x.id == id then some x else find_invitation id xs

abbrev pub in_time : DeadlineCondition → Millis → DebateInvitation → Bool
in_time before_expiry now x = ltb now x.expires_at
in_time after_expiry now x = leb x.expires_at now

-- The WHERE and the SET of `transition`.
abbrev pub is_movable : Uuid → DeadlineCondition → Millis → DebateInvitation → Bool
is_movable id deadline now x = x.id == id && (is_pending x.status && in_time deadline now x)

abbrev pub moved_to : DebateInvitationStatus → Millis → DebateInvitation → DebateInvitation
moved_to next now x = record x { status = next; responded_at = some now }

unfoldable pub move_where :
    (DebateInvitation → Bool)
    → (DebateInvitation → DebateInvitation)
    → List DebateInvitation
    → List DebateInvitation
move_where p f [] = []
move_where p f (x ∷ xs) = (if p x then f x else x) ∷ move_where p f xs

unfoldable pub transition :
    Uuid
    → DebateInvitationStatus
    → Millis
    → DeadlineCondition
    → List DebateInvitation
    → Bool × List DebateInvitation
transition id next now deadline t = (
  any (is_movable id deadline now) t,
  move_where (is_movable id deadline now) (moved_to next now) t,
)

unfoldable pub expire :
    Uuid → Millis → List DebateInvitation → List InvitationEvent × List DebateInvitation
expire id now t = elim (find_invitation id t) [
  | none ↦ ([], t)
  | some invitation ↦
      let (moved, t') = transition id expired now after_expiry t in
      let payload : Expiry = record {
        community_id = invitation.community_id;
        invitation_id = id;
      } in
      let told =
        debate_request_expired payload invitation.host_member_id invitation.opponent_member_id in
      if moved then (told ∷ [], t') else ([], t')
]

-- `throwResponseFailure`, whose expiry reads the clock at `now`.
unfoldable pub response_failure :
    Uuid
    → Millis
    → List DebateInvitation
    → InvitationError × List InvitationEvent × List DebateInvitation
response_failure id now t = elim (find_invitation id t) [
  | none ↦ (not_found, [], t)
  | some current ↦ elim current.status [
    | pending ↦ let (events, t') = expire id now t in (is_expired, events, t')
    | expired ↦ (is_expired, [], t)
    | accepted ↦ (already_responded, [], t)
    | rejected ↦ (already_responded, [], t)
  ]
]

-- `findOneOrThrow` and `assertInvitee`
unfoldable pub find_for_invitee :
    Uuid → Uuid → Uuid → List DebateInvitation → Result InvitationError DebateInvitation
find_for_invitee community_id id member_id t = elim (find_invitation id t) [
  | none ↦ err not_found
  | some x ↦
      if x.community_id == community_id
      then if x.opponent_member_id == member_id then ok x else err not_invitee
      else err not_found
]

-- How a call ends: the error if it throws, the events that it sent, and the table.
pub record Response : Type 0 where
  pub error : Option InvitationError
  pub events : List InvitationEvent
  pub table : List DebateInvitation

unfoldable pub reject : Uuid → Uuid → Uuid → Millis → Millis → List DebateInvitation → Response
reject community_id id member_id now later t = elim (find_for_invitee community_id id member_id t) [
  | err e ↦ record { error = some e; events = []; table = t }
  | ok invitation ↦
      let (moved, t') = transition id rejected now before_expiry t in
      let (e, events, t'') = response_failure id later t' in
      let payload : Rejection = record {
        community_id = community_id;
        invitation_id = id;
        opponent_member_id = invitation.opponent_member_id;
      } in
      let told = debate_request_rejected payload invitation.host_member_id in
      if moved
      then record { error = none; events = told ∷ []; table = t' }
      else record { error = some e; events = events; table = t'' }
]

-- `expireDue`, whose loop reads the clock at `later` for each invitation.
unfoldable pub expire_each :
    List DebateInvitation
    → Millis
    → List DebateInvitation
    → List InvitationEvent × List DebateInvitation
expire_each [] later t = ([], t)
expire_each (x ∷ xs) later t =
    let (events, t') = expire x.id later t in
    let (more, t'') = expire_each xs later t' in (events ++ more, t'')

unfoldable pub due_of : Uuid → Millis → List DebateInvitation → List DebateInvitation
due_of community_id now [] = []
due_of community_id now (x ∷ xs) =
    let rest = due_of community_id now xs in
    if x.community_id == community_id && (is_pending x.status && leb x.expires_at now)
    then x ∷ rest
    else rest

unfoldable pub expire_due :
    Uuid → Millis → Millis → List DebateInvitation → List InvitationEvent × List DebateInvitation
expire_due community_id now later t = expire_each (due_of community_id now t) later t
