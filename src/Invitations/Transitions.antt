-- ===== src/Invitations/Transitions.antt =====
-- An invitation is answered at most once (src/debate-invitations/debate-invitations.service.ts).
use heimdall_backend.Common.{
  ◌≤◌, ◌<◌, ◌≡◌, ◌≢◌, refl, ap, ◌∙◌, ◌⊎◌, inl, inr, Bool, true, false, ◌&&◌, Option, none, some,
  List, [], ◌∷◌, ◌++◌, ◌==◌, ltb, any, if◌then◌else◌, ok, arith, All, Option-cases, Bool-cases,
}
use heimdall_backend.Debate.Enums.{Uuid, Millis}
use heimdall_backend.Invitations.Service.{
  DebateInvitationStatus, pending, rejected, expired, DebateInvitation, already_responded,
  is_expired, InvitationEvent, DeadlineCondition, before_expiry, after_expiry,
  debate_request_rejected, debate_request_expired, is_pending, insert_invitation, find_invitation,
  in_time, is_movable, moved_to, move_where, transition, expire, response_failure, find_for_invitee,
  reject,
}

-- No two invitations share an id.
abbrev pub HasUniqueIds : List DebateInvitation → Type 0
HasUniqueIds [] = Unit {0}
HasUniqueIds (x ∷ xs) = All (λ y. (y.id == x.id) ≡ false) xs × HasUniqueIds xs

abbrev pub invitation_meets : (DebateInvitation → Bool) → Option DebateInvitation → Bool
invitation_meets p none = false
invitation_meets p (some x) = p x

any-others :
    (id : Uuid) (d : DeadlineCondition) (now : Millis) (t : List DebateInvitation)
    → All (λ y. (y.id == id) ≡ false) t
    → any (is_movable id d now) t ≡ false
unfolding any
any-others id d now [] h = refl
any-others id d now (x ∷ xs) h = ground (arith, any-others id d now xs h.1)

module _ (id : Uuid) (next : DebateInvitationStatus) (now : Millis) (d : DeadlineCondition) where
  -- Whether a transition succeeds depends on the row of the id alone.
  transition_row :
      (t : List DebateInvitation)
      → HasUniqueIds t
      → (transition id next now d t).0
        ≡ invitation_meets (λ x. is_pending x.status && in_time d now x) (find_invitation id t)
  unfolding transition find_invitation any
  transition_row [] u = refl
  transition_row (x ∷ xs) u = elim (Bool-cases (x.id == id)) [
    | inl here ↦
        let same : x.id ≡ id = ground arith in
        let others = any-others id d now xs (rw (← same) u.0) in ground arith
    | inr elsewhere ↦ ground (arith, transition_row xs u.1)
  ]

  transition-find_invitation :
      (t : List DebateInvitation)
      → find_invitation id (transition id next now d t).1
        ≡ (elim (find_invitation id t) as (λ _. Option DebateInvitation) [
          | none ↦ none
          | some x ↦
              if is_pending x.status && in_time d now x then some (moved_to next now x) else some x
        ])
  unfolding transition find_invitation move_where
  transition-find_invitation [] = refl
  transition-find_invitation (x ∷ xs) = ground (arith, transition-find_invitation xs)

  transition-All :
      (other : Uuid) (t : List DebateInvitation)
      → All (λ y. (y.id == other) ≡ false) t
      → All (λ y. (y.id == other) ≡ false) (transition id next now d t).1
  unfolding transition move_where
  transition-All other [] h = tt
  transition-All other (x ∷ xs) h = (ground arith, transition-All other xs h.1)

  transition-HasUniqueIds :
      (t : List DebateInvitation) → HasUniqueIds t → HasUniqueIds (transition id next now d t).1
  unfolding transition move_where
  transition-HasUniqueIds [] u = tt
  transition-HasUniqueIds (x ∷ xs) u =
      let rest = transition-All x.id xs u.0 in
      let same : (if is_movable id d now x then moved_to next now x else x).id ≡ x.id =
        ground arith in
      (rw same rest, transition-HasUniqueIds xs u.1)

  transition_idle :
      (t : List DebateInvitation)
      → (transition id next now d t).0 ≡ false
      → (transition id next now d t).1 ≡ t
  unfolding transition any move_where
  transition_idle [] e = refl
  transition_idle (x ∷ xs) e = ground (arith, transition_idle xs)

-- If the ids are unique and a transition of an invitation away from PENDING succeeded, then no
-- later transition of that invitation succeeds: of accepting, rejecting and expiring at most one
-- takes effect.
pub transition_once :
    (id : Uuid) (next later_next : DebateInvitationStatus) (now later : Millis)
    (d later_d : DeadlineCondition) (t : List DebateInvitation)
    → HasUniqueIds t
    → next ≢ pending
    → (transition id next now d t).0 ≡ true
    → (transition id later_next later later_d (transition id next now d t).1).0 ≡ false
transition_once id next later_next now later d later_d t u n e =
    let moved = transition_row id next now d t u in
    let row = transition-find_invitation id next now d t in
    let again =
      transition_row id later_next later later_d (transition id next now d t).1
        (transition-HasUniqueIds id next now d t u) in
    elim (Option-cases (find_invitation id t)) [
      | inl none_there ↦ ground arith
      | inr (x, there) ↦ ground arith
    ]

find_for_invitee-ok :
    (community_id id member_id : Uuid) (t : List DebateInvitation) (x : DebateInvitation)
    → find_for_invitee community_id id member_id t ≡ ok x
    → (find_invitation id t ≡ some x) × (x.community_id ≡ community_id)
unfolding find_for_invitee
find_for_invitee-ok community_id id member_id t x e = ground arith

-- Only the host hears of a rejection, and both members hear of an expiry.
abbrev pub rejection_of : DebateInvitation → InvitationEvent
rejection_of x =
    debate_request_rejected
      (record {
        community_id = x.community_id;
        invitation_id = x.id;
        opponent_member_id = x.opponent_member_id;
      })
      x.host_member_id

abbrev pub expiry_of : DebateInvitation → InvitationEvent
expiry_of x =
    debate_request_expired (record { community_id = x.community_id; invitation_id = x.id })
      x.host_member_id x.opponent_member_id

find_invitation-id :
    (id : Uuid) (t : List DebateInvitation) {x : DebateInvitation}
    → find_invitation id t ≡ some x
    → x.id ≡ id
unfolding find_invitation
find_invitation-id id [] {x} e = absurd (ground arith)
find_invitation-id id (y ∷ ys) {x} e = elim (Bool-cases (y.id == id)) [
  | inl here ↦ ground arith
  | inr elsewhere ↦ find_invitation-id id ys {x = x} (ground arith)
]

response_failure_due :
    (id : Uuid) (now : Millis) (t : List DebateInvitation) (x : DebateInvitation)
    → HasUniqueIds t
    → find_invitation id t ≡ some x
    → x.status ≡ pending
    → x.expires_at ≤ now
    → response_failure id now t
      ≡ (is_expired, expiry_of x ∷ [], (transition id expired now after_expiry t).1)
unfolding response_failure expire
response_failure_due id now t x u e p b =
    let moved : (transition id expired now after_expiry t).0 ≡ true =
      ground (arith, transition_row id expired now after_expiry t u) in
    rw (e, p, response_failure, expire, e, moved, find_invitation-id id t e) refl

-- If the ids are unique and the invitee rejects a pending invitation, then before its deadline it
-- becomes rejected and one event is sent, with the invitation, its community and the invitee, to the
-- host alone. From the deadline on, where the clock does not run back within the call, the call fails
-- as EXPIRED, and the invitation becomes expired as by the timer, with one event to both members.
pub reject_lem :
    (community_id id member_id : Uuid) (now later : Millis) (t : List DebateInvitation)
    (x : DebateInvitation)
    → HasUniqueIds t
    → find_for_invitee community_id id member_id t ≡ ok x
    → x.status ≡ pending
    → now ≤ later
    → let r = reject community_id id member_id now later t in
      ((now < x.expires_at)
        × (r.error ≡ none)
        × (r.events ≡ rejection_of x ∷ [])
        × (find_invitation id r.table ≡ some (moved_to rejected now x)))
      ⊎ ((x.expires_at ≤ now)
          × (r.error ≡ some is_expired)
          × (r.events ≡ expiry_of x ∷ [])
          × (find_invitation id r.table ≡ some (moved_to expired later x)))
unfolding reject
reject_lem community_id id member_id now later t x u e p b =
    let (found, home) = find_for_invitee-ok community_id id member_id t x e in
    let row = transition_row id rejected now before_expiry t u in
    elim (Bool-cases (ltb now x.expires_at)) [
      | inl early ↦
          let moved : (transition id rejected now before_expiry t).0 ≡ true = ground arith in
          let whole : reject community_id id member_id now later t ≡ record {
            error = none;
            events = rejection_of x ∷ [];
            table = (transition id rejected now before_expiry t).1;
          } =
            rw (reject, e, moved, home, find_invitation-id id t found) in
          inl (
            ground arith,
            ap (λ r. r.error) whole,
            ap (λ r. r.events) whole,
            ap (λ r. find_invitation id r.table) whole
                ∙ ground (arith, transition-find_invitation id rejected now before_expiry t),
          )
      | inr late ↦
          let stays : (transition id rejected now before_expiry t).0 ≡ false = ground arith in
          let same = transition_idle id rejected now before_expiry t stays in
          let fails = response_failure_due id later t x u found p (ground arith) in
          let whole : reject community_id id member_id now later t ≡ record {
            error = some is_expired;
            events = expiry_of x ∷ [];
            table = (transition id expired later after_expiry t).1;
          } =
            rw (reject, e, stays, same, fails) in
          inr (
            ground arith,
            ap (λ r. r.error) whole,
            ap (λ r. r.events) whole,
            ap (λ r. find_invitation id r.table) whole
                ∙ ground (arith, transition-find_invitation id expired later after_expiry t),
          )
    ]

-- If the ids are unique and the invitee rejects an invitation that is no longer pending, the call
-- fails as ALREADY_RESPONDED, or as EXPIRED if it has expired; it sends no event and changes no
-- row.
pub reject_answered :
    (community_id id member_id : Uuid) (now later : Millis) (t : List DebateInvitation)
    (x : DebateInvitation)
    → HasUniqueIds t
    → find_for_invitee community_id id member_id t ≡ ok x
    → x.status ≢ pending
    → let r = reject community_id id member_id now later t in
      ((r.error ≡ some already_responded) ⊎ ((r.error ≡ some is_expired) × (x.status ≡ expired)))
      × (r.events ≡ [])
      × (r.table ≡ t)
unfolding response_failure reject
reject_answered community_id id member_id now later t x u e p =
    let (found, home) = find_for_invitee-ok community_id id member_id t x e in
    let stays : (transition id rejected now before_expiry t).0 ≡ false =
      ground (arith, transition_row id rejected now before_expiry t u) in
    let same = transition_idle id rejected now before_expiry t stays in
    let whole : reject community_id id member_id now later t ≡ record {
      error = some (response_failure id later t).0;
      events = (response_failure id later t).1;
      table = (response_failure id later t).2;
    } =
      rw (reject, e, stays, same) in
    rw whole (ground arith)

-- At most one invitation of a community is pending.
abbrev pub AreSinglePending : List DebateInvitation → Type 0
AreSinglePending [] = Unit {0}
AreSinglePending (x ∷ xs) =
    All
      (λ y.
        (is_pending x.status && (is_pending y.status && y.community_id == x.community_id)) ≡ false)
      xs
    × AreSinglePending xs

insert-All :
    (x row : DebateInvitation) (t : List DebateInvitation)
    → (is_pending x.status && (is_pending row.status && row.community_id == x.community_id)) ≡ false
    → All
        (λ y.
          (is_pending x.status && (is_pending y.status && y.community_id == x.community_id))
          ≡ false)
        t
    → All
        (λ y.
          (is_pending x.status && (is_pending y.status && y.community_id == x.community_id))
          ≡ false)
        (t ++ row ∷ [])
insert-All x row [] e h = (e, tt)
insert-All x row (y ∷ ys) e h = (h.0, insert-All x row ys e h.1)

snoc-AreSinglePending :
    (row : DebateInvitation) (t : List DebateInvitation)
    → any (λ x. x.community_id == row.community_id && is_pending x.status) t ≡ false
    → AreSinglePending t
    → AreSinglePending (t ++ row ∷ [])
unfolding any
snoc-AreSinglePending row [] e h = (tt, tt)
snoc-AreSinglePending row (x ∷ xs) e h =
    (insert-All x row xs (ground arith) h.0, snoc-AreSinglePending row xs (ground arith) h.1)

-- Inserting an invitation that succeeds keeps it so that at most one invitation of a community is
-- pending.
pub insert_invitation-AreSinglePending :
    (row : DebateInvitation) (t : List DebateInvitation) {t' : List DebateInvitation}
    → AreSinglePending t
    → insert_invitation row t ≡ ok t'
    → AreSinglePending t'
unfolding insert_invitation
insert_invitation-AreSinglePending row t {t'} h e =
    elim (Bool-cases (any (λ x. x.community_id == row.community_id && is_pending x.status) t)) [
      | inl taken ↦ absurd (ground arith)
      | inr clear ↦
          let same : t' ≡ t ++ row ∷ [] = ground arith in
          rw same (snoc-AreSinglePending row t clear h)
    ]
