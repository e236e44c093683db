-- ===== src/Examples/Invites.antt =====
-- An invitation of the member 20 by the member 10: src/debate-invitations.
use heimdall_backend.Common.{
  ◌≤◌, ◌<◌, ◌≡◌, refl, ◌⊎◌, true, false, none, some, List, [], ◌∷◌, ok, arith, any,
}
use heimdall_backend.Invitations.Service.{
  DebateInvitation, pending, accepted, rejected, expired, is_expired, before_expiry, after_expiry,
  insert_invitation, find_invitation, find_for_invitee, moved_to, transition, reject,
}
use heimdall_backend.Invitations.Transitions.{transition_once, rejection_of, expiry_of, reject_lem}

abbrev open_invitation : DebateInvitation
open_invitation = record {
  id = 1;
  community_id = 2;
  host_member_id = 10;
  opponent_member_id = 20;
  status = pending;
  expires_at = 5000;
  responded_at = none;
  debate_id = none;
}

abbrev open_table : List DebateInvitation
open_table = open_invitation ∷ []

abbrev answered : DebateInvitation
answered = record open_invitation { status = accepted; responded_at = some 3000 }

open_accepted : (transition 1 accepted 3000 before_expiry open_table).0 ≡ true
unfolding transition any
open_accepted = refl

transition_once_example :
    (transition 1 expired 6000 after_expiry
      (transition 1 accepted 3000 before_expiry open_table).1).0
    ≡ false
transition_once_example =
    transition_once 1 accepted expired 3000 6000 before_expiry after_expiry open_table (tt, tt)
      (λ e. cc) open_accepted

open_found : find_for_invitee 2 1 20 open_table ≡ ok open_invitation
unfolding find_for_invitee find_invitation
open_found = refl

reject_lem_example :
    let r = reject 2 1 20 4000 4001 open_table in
    ((4000 < 5000)
      × (r.error ≡ none)
      × (r.events ≡ rejection_of open_invitation ∷ [])
      × (find_invitation 1 r.table ≡ some (moved_to rejected 4000 open_invitation)))
    ⊎ ((5000 ≤ 4000)
        × (r.error ≡ some is_expired)
        × (r.events ≡ expiry_of open_invitation ∷ [])
        × (find_invitation 1 r.table ≡ some (moved_to expired 4001 open_invitation)))
reject_lem_example =
    reject_lem 2 1 20 4000 4001 open_table open_invitation (tt, tt) open_found refl (omega arith)

inserted : insert_invitation open_invitation (answered ∷ []) ≡ ok (answered ∷ open_invitation ∷ [])
unfolding insert_invitation any
inserted = refl
