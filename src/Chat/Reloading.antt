-- ===== src/Chat/Reloading.antt =====
-- What is stored of a debate determines its state: load of
-- src/debate-chat/debate-chat-state.store.ts reads back what was written.
use heimdall_backend.Common.{
  ℕ, suc, ◌<◌, ◌≡◌, ◌≢◌, refl, none, some, List, [], ◌∷◌, map, length, All, ok, arith,
}
use heimdall_backend.Debate.Enums.{Uuid, ready}
use heimdall_backend.Debate.Rows.{Debate, DebateChatTurn}
use heimdall_backend.Debate.Schedule.{new}
use heimdall_backend.Debate.Turns.{
  DebateSpeakers, resolve_speakers, slot_of_sequence, to_debate_turn, get_or,
}
use heimdall_backend.Chat.Types.{DebateTurnLimits, DebateChatState, empty_changes}
use heimdall_backend.Chat.Store.{
  Stored, to_speakers, turns_of, insert_by_sequence, sort_by_sequence, to_debate_turns, load_turns,
  drafts_at, load, row_of,
}
use heimdall_backend.Chat.Invariant.{Inv, IsMessageAt, AreTurnsFrom}

-- A confirmed turn has no client message id.
abbrev pub ArePlain : List DebateChatTurn → Type 0
ArePlain turns = All (λ t. t.client_message_id ≡ none) turns

-- The row of the debate holds what the state does.
pub record IsRowOf (row : Debate) (s : DebateChatState) : Type 0 where
  pub status : get_or row.debate_status ready ≡ s.status
  pub started_at : row.started_at ≡ s.started_at
  pub ended_at : row.ended_at ≡ s.ended_at
  pub expires_at : row.expires_at ≡ s.expires_at
  pub winner_id : row.winner_id ≡ s.winner_id
  pub end_reason : row.end_reason ≡ s.end_reason

-- The columns that never change.
pub record IsDebateOf (row : Debate) (rounds : ℕ) (s : DebateChatState) : Type 0 where
  pub id : row.id ≡ s.debate_id
  pub community_id : row.community_id ≡ s.community_id
  pub speakers : resolve_speakers row ≡ some s.speakers
  pub rebuttal_question_rounds : row.rebuttal_question_rounds ≡ rounds

-- All that the state holds is stored.
pub record IsStored (limits : DebateTurnLimits) (rounds : ℕ) (w : Stored) (s : DebateChatState)
    : Type 0 where
  pub row : Debate
  pub debate : w.debate ≡ some row
  pub fixed : IsDebateOf row rounds s
  pub columns : IsRowOf row s
  pub messages : turns_of s.debate_id w.messages ≡ map (row_of s.debate_id) s.turns
  pub plain : ArePlain s.turns
  pub drafts : drafts_at (length s.turns) w.drafts ≡ s.drafts
  pub later : (i : ℕ) → length s.turns < i → drafts_at i w.drafts ≡ []
  pub client_messages : w.client_messages ≡ s.drafts_by_client_message_id
  pub same_limits : limits ≡ s.limits
  pub reads : w.reads ≡ s.reads
  pub drawn : w.drawn ≡ s.drawn
  pub no_changes : s.changes ≡ empty_changes

module _ (debate_id : Uuid) (speakers : DebateSpeakers) (rounds : ℕ) where
  -- The rows of confirmed turns are in order as they are.
  sort_by_sequence-map :
      (i : ℕ) (turns : List DebateChatTurn)
      → AreTurnsFrom debate_id speakers rounds i turns
      → sort_by_sequence (map (row_of debate_id) turns) ≡ map (row_of debate_id) turns
  unfolding sort_by_sequence insert_by_sequence row_of
  sort_by_sequence-map i [] h = refl
  sort_by_sequence-map i (t ∷ []) h = refl
  sort_by_sequence-map i (t ∷ u ∷ ts) h =
      rw (sort_by_sequence-map (suc i) (u ∷ ts) h.2) (ground arith)

  -- A confirmed turn is read back from its row.
  to_debate_turn-row_of :
      (i : ℕ) (t : DebateChatTurn)
      → speakers.side_a ≢ speakers.side_b
      → IsMessageAt debate_id speakers rounds i t.draft
      → t.sequence ≡ suc i
      → t.client_message_id ≡ none
      → to_debate_turn (row_of debate_id t) speakers (new rounds) ≡ ok t
  unfolding to_debate_turn slot_of_sequence row_of
  to_debate_turn-row_of i t ne m q p = ground (arith, m.slot, m.speaker, m.debate)

  to_debate_turns-map :
      (i : ℕ) (turns : List DebateChatTurn)
      → speakers.side_a ≢ speakers.side_b
      → AreTurnsFrom debate_id speakers rounds i turns
      → ArePlain turns
      → to_debate_turns (map (row_of debate_id) turns) speakers (new rounds) ≡ ok turns
  unfolding to_debate_turns to_debate_turn row_of
  to_debate_turns-map i [] ne h p = refl
  to_debate_turns-map i (t ∷ ts) ne h p =
      rw (to_debate_turn-row_of i t ne h.0 h.1 p.0, to_debate_turns-map (suc i) ts ne h.2 p.1)

-- If all that a state holds is stored, the invariant holds of it and its speakers differ, then
-- load succeeds and gives that very state.
pub load-IsStored :
    (limits : DebateTurnLimits) (rounds : ℕ) (w : Stored) (s : DebateChatState)
    → IsStored limits rounds w s
    → Inv rounds s
    → s.speakers.side_a ≢ s.speakers.side_b
    → load limits w ≡ ok s
unfolding load to_speakers load_turns
load-IsStored limits rounds w s k v ne =
    let f = k.fixed in
    let c = k.columns in
    let turns = to_debate_turns-map s.debate_id s.speakers rounds 0 s.turns ne v.turns k.plain in
    let sorted = sort_by_sequence-map s.debate_id s.speakers rounds 0 s.turns v.turns in
    rw (k.debate, f.speakers, f.rebuttal_question_rounds, f.id, k.messages, sorted, turns) cc
