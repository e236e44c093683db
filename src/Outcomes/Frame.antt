-- ===== src/Outcomes/Frame.antt =====
-- What applyWithin of src/debate-outcomes/debate-outcome.service.ts writes, and what it leaves alone.
use heimdall_backend.Common.{◌≡◌, refl, Option, none, some, ok, arith, Option-cases, inl, inr}
use heimdall_backend.Database.{Database, find_debate}
use heimdall_backend.Debate.Enums.{DebateOutcome, Uuid}
use heimdall_backend.Communities.{CommunityMessage}
use heimdall_backend.Outcomes.{
  Wording, MessageDraw, apply_within, reward_winner, store_message, create, sync_community_state,
}

pub reward_winner-debates :
    (winner : Option Uuid) (db : Database)
    → reward_winner winner db ≡ record db { members = (reward_winner winner db).members }
unfolding reward_winner
reward_winner-debates none db = refl
reward_winner-debates (some w) db = refl

pub store_message-debates :
    (m : Option CommunityMessage) (db : Database)
    → store_message m db
      ≡ record db { community_messages = (store_message m db).community_messages }
unfolding store_message
store_message-debates none db = refl
store_message-debates (some m) db = refl

-- If applyWithin succeeds it has written members, messages and communities only.
pub apply_within-frame :
    (w : Wording) (draw : MessageDraw) (outcome : DebateOutcome) (db : Database) {after : Database}
    → apply_within w draw outcome db ≡ ok after
    → after ≡ record db {
      members = (reward_winner outcome.winner_id db).members;
      community_messages = after.community_messages;
      communities = after.communities;
    }
unfolding apply_within find_debate
apply_within-frame w draw outcome db {after} e =
    let rewarded = reward_winner outcome.winner_id db in
    elim (Option-cases (find_debate outcome.debate_id rewarded)) [
      | inl missing ↦ absurd (ground arith)
      | inr (debate, found) ↦
          let told = store_message (create w draw outcome debate) rewarded in
          let same : sync_community_state outcome.community_id told ≡ after = ground arith in
          ground (
            arith,
            reward_winner-debates outcome.winner_id db,
            store_message-debates (create w draw outcome debate) rewarded,
            same,
          )
    ]
