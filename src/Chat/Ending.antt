-- ===== src/Chat/Ending.antt =====
-- How a debate ends: end, finishAllTurns and forfeit of src/debate-chat/debate-chat-state.ts.
use heimdall_backend.Common.{
  ℕ, suc, ◌≡◌, refl, inl, inr, true, false, ◌&&◌, Option, none, some, ok, arith, ◌≢◌, is_some,
  Result, Result-cases, Bool-cases, err, ◌==◌, ◌⊎◌,
}
use heimdall_backend.Debate.Enums.{
  Uuid, ready, in_progress, debate_finalized, failed, DebateEndReason, all_turns_finalized,
  total_time_expired, DebateSide, side_a, side_b, DebateOutcome, DebateOutcomeKind, DebateStatus,
  is_in_progress,
}
use heimdall_backend.Debate.Turns.{speaker_of, opposite_side, resolve_side}
use heimdall_backend.Chat.Types.{Env, ChatError, DebateChatState, not_participant, not_in_progress}
use heimdall_backend.Chat.State.{end_debate, record_debate_change, require_speaker_side, forfeit}
use heimdall_backend.Chat.Confirm.{spoke, finish_all_turns}
use heimdall_backend.Chat.Invariant.{Inv, IsConsistent}

-- The debate has ended: it has a status, an instant and a reason, recorded for the row as they are.
pub record HasEnded (s : DebateChatState) (status : DebateStatus) (reason : DebateEndReason)
    : Type 0 where
  pub status_set : s.status ≡ status
  pub at_some_time : is_some s.ended_at ≡ true
  pub reason_set : s.end_reason ≡ some reason
  pub recorded :
      s.changes.debate
      ≡ some (record {
        debate_status = status;
        started_at = s.started_at;
        ended_at = s.ended_at;
        expires_at = s.expires_at;
        winner_id = s.winner_id;
        end_reason = some reason;
      })
  pub announced : s.changes.end_reason ≡ some reason

-- The outcome of a debate that ends with no judgment.
abbrev pub failure : DebateChatState → DebateOutcomeKind → DebateEndReason → DebateOutcome
failure s kind reason = record {
  debate_id = s.debate_id;
  community_id = s.community_id;
  kind = kind;
  status = failed;
  reason = some reason;
  winner_id = s.winner_id;
}

-- How the last turn ends a debate: both sides spoke, one side did, or neither.
pub data Finish (s s' : DebateChatState) (outcome : Option DebateOutcome) : Type 0 where
  judged :
      spoke s.turns side_a ≡ true
      → spoke s.turns side_b ≡ true
      → HasEnded s' debate_finalized all_turns_finalized
      → outcome ≡ none
      → s'.winner_id ≡ s.winner_id
      → Finish s s' outcome
  won :
      (side : DebateSide)
      → spoke s.turns side ≡ true
      → spoke s.turns (opposite_side side) ≡ false
      → HasEnded s' failed total_time_expired
      → outcome ≡ some (failure s' DebateOutcomeKind.total_timeout total_time_expired)
      → s'.winner_id ≡ some (speaker_of s.speakers side)
      → Finish s s' outcome
  silent :
      spoke s.turns side_a ≡ false
      → spoke s.turns side_b ≡ false
      → HasEnded s' failed total_time_expired
      → outcome ≡ some (failure s' DebateOutcomeKind.total_timeout total_time_expired)
      → s'.winner_id ≡ none
      → Finish s s' outcome

-- What may come of a forfeit.
pub data Forfeit (s : DebateChatState) (member_id : Uuid)
    : Result ChatError (Option DebateOutcome × DebateChatState) → Type 0 where
  by_stranger :
      member_id ≢ s.speakers.side_a
      → member_id ≢ s.speakers.side_b
      → Forfeit s member_id (err not_participant)
  not_running :
      (member_id ≡ s.speakers.side_a) ⊎ (member_id ≡ s.speakers.side_b)
      → s.status ≢ in_progress
      → Forfeit s member_id (err not_in_progress)
  lost :
      (s' : DebateChatState)
      → s.status ≡ in_progress
      → HasEnded s' failed DebateEndReason.forfeit
      → ((member_id ≡ s.speakers.side_a) × (s'.winner_id ≡ some s.speakers.side_b))
        ⊎ ((member_id ≡ s.speakers.side_b) × (s'.winner_id ≡ some s.speakers.side_a))
      → s'.turns ≡ s.turns
      → s'.drafts ≡ s.drafts
      → Forfeit s member_id
          (ok (some (failure s' DebateOutcomeKind.forfeit DebateEndReason.forfeit), s'))

with_winner-IsConsistent :
    (rounds : ℕ) (s : DebateChatState) (w : Option Uuid)
    → IsConsistent rounds s
    → IsConsistent rounds (record s { winner_id = w })
with_winner-IsConsistent rounds s w v = record {
  schedule = v.schedule;
  turns = v.turns;
  drafts = v.drafts;
  filed = v.filed;
  bounded = v.bounded;
}

module _ (env : Env) where
  pub end_debate-HasEnded :
      (s : DebateChatState) (status : DebateStatus) (reason : DebateEndReason)
      → HasEnded (end_debate env s status reason).1 status reason
  unfolding end_debate record_debate_change
  end_debate-HasEnded s status reason = ground arith

  pub end_debate-Inv :
      (rounds : ℕ) (s : DebateChatState) (status : DebateStatus) (reason : DebateEndReason)
      → status ≢ in_progress
      → status ≢ ready
      → IsConsistent rounds s
      → Inv rounds (end_debate env s status reason).1
  unfolding end_debate record_debate_change
  end_debate-Inv rounds s status reason p q v = record {
    facts = record {
      schedule = v.schedule;
      turns = v.turns;
      drafts = v.drafts;
      filed = v.filed;
      bounded = v.bounded;
    };
    running = λ h. absurd (p h);
    unstarted = λ h. absurd (q h);
  }

  -- After the last turn the debate goes to judgment with no outcome if both sides said something
  -- that is not blank. Otherwise it fails: the side that spoke wins, or nobody if neither did. The
  -- end is recorded for the row and for the announcement.
  pub finish_all_turns-Finish :
      (s : DebateChatState) → Finish s (finish_all_turns env s).1 (finish_all_turns env s).0
  unfolding finish_all_turns end_debate record_debate_change opposite_side
  finish_all_turns-Finish s = elim (Bool-cases (spoke s.turns side_a)) [
    | inl a ↦ elim (Bool-cases (spoke s.turns side_b)) [
      | inl b ↦ judged a b (ground arith) (ground arith) (ground arith)
      | inr b ↦ won side_a a b (ground arith) (ground arith) (ground arith)
    ]
    | inr a ↦ elim (Bool-cases (spoke s.turns side_b)) [
      | inl b ↦ won side_b b a (ground arith) (ground arith) (ground arith)
      | inr b ↦ silent a b (ground arith) (ground arith) (ground arith)
    ]
  ]

  pub finish_all_turns-Inv :
      (rounds : ℕ) (s : DebateChatState)
      → IsConsistent rounds s
      → Inv rounds (finish_all_turns env s).1
  unfolding finish_all_turns
  finish_all_turns-Inv rounds s v =
      elim (Bool-cases (spoke s.turns side_a && spoke s.turns side_b)) [
        | inl both ↦
            rw both
              (end_debate-Inv rounds s debate_finalized all_turns_finalized (λ e. cc) (λ e. cc) v)
        | inr one ↦ rw one (
            end_debate-Inv rounds _ failed total_time_expired (λ e. cc) (λ e. cc)
              (with_winner-IsConsistent rounds s _ v))
      ]

  -- Ending a debate leaves what was said as it is.
  pub finish_all_turns-frame :
      (s : DebateChatState)
      → ((finish_all_turns env s).1.turns ≡ s.turns)
        × ((finish_all_turns env s).1.drafts ≡ s.drafts)
        × ((finish_all_turns env s).1.status ≢ in_progress)
        × ((finish_all_turns env s).1.started_at ≡ s.started_at)
        × ((finish_all_turns env s).1.expires_at ≡ s.expires_at)
        × ((finish_all_turns env s).1.limits ≡ s.limits)
        × ((finish_all_turns env s).1.ended_at ≡ some (env.now s.reads))
        × ((finish_all_turns env s).1.reads ≡ suc s.reads)
  unfolding finish_all_turns end_debate record_debate_change
  finish_all_turns-frame s = ground arith

  -- Whoever asks to forfeit, in whatever state: one who is no speaker is refused, and so is a speaker
  -- whose debate is not running. Otherwise the debate fails, the speaker of the other side wins, the
  -- outcome says so, and turns and drafts stay as they are.
  pub forfeit_lem :
      (s : DebateChatState) (member_id : Uuid) → Forfeit s member_id (forfeit env s member_id)
  unfolding forfeit require_speaker_side resolve_side opposite_side end_debate record_debate_change
  forfeit_lem s member_id =
      let ended : (w : Uuid)
          → HasEnded
              (end_debate env (record s { winner_id = some w }) failed DebateEndReason.forfeit).1
              failed DebateEndReason.forfeit =
        λ w. end_debate-HasEnded (record s { winner_id = some w }) failed DebateEndReason.forfeit in
      elim (Bool-cases (member_id == s.speakers.side_a)) [
        | inl a ↦ elim (Bool-cases (is_in_progress s.status)) [
          | inl running ↦
              rw (a, running)
                (lost _ (ground arith) (ended s.speakers.side_b) (inl (ground arith, refl)) refl
                  refl)
          | inr idle ↦ rw (a, idle) (not_running (inl (ground arith)) (λ e. ground arith))
        ]
        | inr not_a ↦ elim (Bool-cases (member_id == s.speakers.side_b)) [
          | inl b ↦ elim (Bool-cases (is_in_progress s.status)) [
            | inl running ↦
                rw (not_a, b, running)
                  (lost _ (ground arith) (ended s.speakers.side_a) (inr (ground arith, refl)) refl
                    refl)
            | inr idle ↦ rw (not_a, b, idle) (not_running (inr (ground arith)) (λ e. ground arith))
          ]
          | inr not_b ↦ rw (not_a, not_b) (by_stranger (λ e. ground arith) (λ e. ground arith))
        ]
      ]

  forfeit-ok :
      (s : DebateChatState) (member_id : Uuid) {o : Option DebateOutcome} {s' : DebateChatState}
      → forfeit env s member_id ≡ ok (o, s')
      → (w : Option Uuid) × (s'
          ≡ (end_debate env (record s { winner_id = w }) failed DebateEndReason.forfeit).1)
  unfolding forfeit
  forfeit-ok s member_id e = elim (Result-cases (require_speaker_side s member_id)) [
    | inl (side, p) ↦ (some (speaker_of s.speakers (opposite_side side)), ground arith)
    | inr (x, p) ↦ absurd (ground arith)
  ]

  -- A forfeit that succeeds keeps the invariant.
  pub forfeit-Inv :
      (rounds : ℕ) (s : DebateChatState) (member_id : Uuid) {o : Option DebateOutcome}
      {s' : DebateChatState}
      → forfeit env s member_id ≡ ok (o, s')
      → Inv rounds s
      → Inv rounds s'
  forfeit-Inv rounds s member_id e v =
      let (w, same) = forfeit-ok s member_id e in
      rw same (
        end_debate-Inv rounds (record s { winner_id = w }) failed DebateEndReason.forfeit (λ e. cc)
          (λ e. cc) (with_winner-IsConsistent rounds s w v.facts))
