-- ===== src/Chat/Storing.antt =====
-- persist of src/debate-chat/debate-chat-state.store.ts writes what a command changed: the
-- recorded changes are all that separates what is stored from the state.
use heimdall_backend.Common.{
  ℕ, suc, ◌<◌, ◌≡◌, refl, ap, none, some, List, [], ◌∷◌, ◌++◌, map, length, arith, Option,
  length-append, All-append, Bool-cases, inl, inr, ◌==◌, if◌then◌else◌,
}
use heimdall_backend.Common.Maps.{insert, lookup-insert}
use heimdall_backend.Debate.Enums.{Uuid, DebateStatus, is_ready, DebateEndReason}
use heimdall_backend.Debate.Rows.{Debate, DebateMessage, DraftMessage, DebateChatTurn}
use heimdall_backend.Debate.Turns.{resolve_speakers}
use heimdall_backend.Chat.Types.{Env, DebateTurnLimits, DebateRowChanges, DebateChatState}
use heimdall_backend.Chat.State.{start, record_debate_change, push_draft, end_debate}
use heimdall_backend.Chat.Confirm.{push_turn}
use heimdall_backend.Chat.Store.{
  Stored, turns_of, drafts_at, row_of, update_debate, overwritten, push_drafts, delete_drafts,
}
use heimdall_backend.Chat.Reloading.{ArePlain, IsRowOf, IsDebateOf}

-- The drafts after the pipeline of `persist`.
abbrev pub drafts_after : Stored → DebateChatState → List (ℕ × List DraftMessage)
drafts_after w s =
    delete_drafts s.changes.cleared_draft_turn_index
      (push_drafts s.changes.appended_drafts w).drafts

abbrev pub pending : Option DebateChatTurn → List DebateChatTurn
pending none = []
pending (some turn) = turn ∷ []

-- What is stored, with the recorded changes made to it, is what the state holds.
pub record IsBehind (limits : DebateTurnLimits) (rounds : ℕ) (w : Stored) (s : DebateChatState)
    : Type 0 where
  pub row : Debate
  pub debate : update_debate s.changes.debate w.debate ≡ some row
  pub fixed : IsDebateOf row rounds s
  pub columns : IsRowOf row s
  pub messages :
      turns_of s.debate_id w.messages ++ map (row_of s.debate_id) (pending s.changes.finalized_turn)
      ≡ map (row_of s.debate_id) s.turns
  pub plain : ArePlain s.turns
  pub drafts : drafts_at (length s.turns) (drafts_after w s) ≡ s.drafts
  pub later : (i : ℕ) → length s.turns < i → drafts_at i (drafts_after w s) ≡ []
  pub client_messages :
      (push_drafts s.changes.appended_drafts w).client_messages ≡ s.drafts_by_client_message_id
  pub same_limits : limits ≡ s.limits

drafts_at-insert :
    (i j : ℕ) (ds : List DraftMessage) (m : List (ℕ × List DraftMessage))
    → drafts_at j (insert i ds m) ≡ (if i == j then ds else drafts_at j m)
unfolding drafts_at
drafts_at-insert i j ds m = ground (arith, lookup-insert i j ds m)

push_drafts-snoc :
    (ds : List (ℕ × DraftMessage)) (i : ℕ) (d : DraftMessage) (w : Stored)
    → push_drafts (ds ++ (i, d) ∷ []) w ≡ push_drafts ((i, d) ∷ []) (push_drafts ds w)
unfolding push_drafts
push_drafts-snoc [] i d w = refl
push_drafts-snoc ((j, e) ∷ ds) i d w = push_drafts-snoc ds i d _

-- Pushing drafts leaves the rows alone.
push_drafts-debate :
    (ds : List (ℕ × DraftMessage)) (w : Stored)
    → ((push_drafts ds w).debate ≡ w.debate) × ((push_drafts ds w).messages ≡ w.messages)
unfolding push_drafts
push_drafts-debate [] w = (refl, refl)
push_drafts-debate ((j, e) ∷ ds) w = push_drafts-debate ds _

map-snoc :
    (id : Uuid) (ts : List DebateChatTurn) (t : DebateChatTurn)
    → map (row_of id) (ts ++ t ∷ []) ≡ map (row_of id) ts ++ row_of id t ∷ []
map-snoc id [] t = refl
map-snoc id (u ∷ ts) t = ap (λ r. row_of id u ∷ r) (map-snoc id ts t)

pub append-nil : (rows : List DebateMessage) → rows ++ [] ≡ rows
append-nil [] = refl
append-nil (row ∷ rows) = ap (λ r. row ∷ r) (append-nil rows)

module _ (limits : DebateTurnLimits) (rounds : ℕ) (w : Stored) where
  -- A draft that is appended is recorded.
  pub push_draft-IsBehind :
      (s : DebateChatState) (d : DraftMessage)
      → s.changes.cleared_draft_turn_index ≡ none
      → IsBehind limits rounds w s
      → IsBehind limits rounds w (push_draft s d)
  unfolding push_draft push_drafts delete_drafts
  push_draft-IsBehind s d n b =
      let more = push_drafts-snoc s.changes.appended_drafts (length s.turns) d w in
      let before = (push_drafts s.changes.appended_drafts w).drafts in
      let written = drafts_at (length s.turns) before ++ d ∷ [] in
      record {
        row = b.row;
        debate = b.debate;
        fixed = ground (arith, b.fixed);
        columns = ground (arith, b.columns);
        messages = b.messages;
        plain = b.plain;
        drafts = ground (
          arith,
          more,
          b.drafts,
          drafts_at-insert (length s.turns) (length s.turns) written before,
        );
        later = λ i h.
            ground (arith, more, b.later i h, drafts_at-insert (length s.turns) i written before);
        client_messages = ground (arith, more, b.client_messages);
        same_limits = b.same_limits;
      }

  -- So is a turn that is confirmed, with its drafts removed.
  pub push_turn-IsBehind :
      (s : DebateChatState) (t : DebateChatTurn)
      → s.changes.finalized_turn ≡ none
      → s.changes.appended_drafts ≡ []
      → s.changes.cleared_draft_turn_index ≡ none
      → t.client_message_id ≡ none
      → IsBehind limits rounds w s
      → IsBehind limits rounds w (push_turn s t)
  unfolding push_turn push_drafts delete_drafts
  push_turn-IsBehind s t f a n p b =
      let size = length-append s.turns (t ∷ []) in
      record {
        row = b.row;
        debate = b.debate;
        fixed = ground (arith, b.fixed);
        columns = ground (arith, b.columns);
        messages = ground (
          arith,
          b.messages,
          map-snoc s.debate_id s.turns t,
          append-nil (turns_of s.debate_id w.messages),
        );
        plain = All-append _ s.turns (t ∷ []) b.plain (p, tt);
        drafts = ground (
          arith,
          size,
          b.later (suc (length s.turns)),
          drafts_at-insert (length s.turns) (suc (length s.turns)) []
              (push_drafts s.changes.appended_drafts w).drafts,
        );
        later = λ i h. ground (
          arith,
          size,
          b.later i,
          drafts_at-insert (length s.turns) i [] (push_drafts s.changes.appended_drafts w).drafts,
        );
        client_messages = b.client_messages;
        same_limits = b.same_limits;
      }

update_debate-again :
    (o : Option DebateRowChanges) (c : DebateRowChanges) (d : Option Debate) {row : Debate}
    → update_debate o d ≡ some row
    → update_debate (some c) d ≡ some (overwritten c row)
unfolding update_debate
update_debate-again none c none e = ground arith
update_debate-again none c (some r) e = ground arith
update_debate-again (some x) c none e = ground arith
update_debate-again (some x) c (some r) e = ground arith

module _ (limits : DebateTurnLimits) (rounds : ℕ) (w : Stored) (env : Env) where
  -- The start of a debate is recorded.
  pub start-IsBehind :
      (s : DebateChatState) → IsBehind limits rounds w s → IsBehind limits rounds w (start env s)
  unfolding start record_debate_change resolve_speakers
  start-IsBehind s b = elim (Bool-cases (is_ready s.status)) [
    | inr other ↦ rw other b
    | inl is_due ↦ rw is_due (record {
      row = _;
      debate = update_debate-again s.changes.debate _ w.debate b.debate;
      fixed = ground (arith, b.fixed);
      columns = record {
        status = refl;
        started_at = refl;
        ended_at = refl;
        expires_at = refl;
        winner_id = refl;
        end_reason = refl;
      };
      messages = b.messages;
      plain = b.plain;
      drafts = b.drafts;
      later = b.later;
      client_messages = b.client_messages;
      same_limits = b.same_limits;
    })
  ]

  -- So is its end, with the winner who is set just before it.
  pub end_debate-IsBehind :
      (s : DebateChatState) (winner : Option Uuid) (status : DebateStatus)
      (reason : DebateEndReason)
      → IsBehind limits rounds w s
      → IsBehind limits rounds w (end_debate env (record s { winner_id = winner }) status reason).1
  unfolding end_debate record_debate_change resolve_speakers
  end_debate-IsBehind s winner status reason b = record {
    row = _;
    debate = update_debate-again s.changes.debate _ w.debate b.debate;
    fixed = ground (arith, b.fixed);
    columns = record {
      status = refl;
      started_at = refl;
      ended_at = refl;
      expires_at = refl;
      winner_id = refl;
      end_reason = refl;
    };
    messages = b.messages;
    plain = b.plain;
    drafts = b.drafts;
    later = b.later;
    client_messages = b.client_messages;
    same_limits = b.same_limits;
  }
