-- ===== src/Chat/Persisting.antt =====
-- persist of src/debate-chat/debate-chat-state.store.ts makes what is stored equal to the state.
use heimdall_backend.Common.{
  ℕ, ◌≡◌, refl, ◌∙◌, sym, ap, inl, inr, Bool, true, false, ◌||◌, Option, none, some, List, [], ◌∷◌,
  ◌++◌, map, length, any, is_some, ok, arith, ==_refl, if◌then◌else◌, Bool-cases,
}
use heimdall_backend.Debate.Enums.{Uuid, DebateOutcome}
use heimdall_backend.Debate.Rows.{DebateMessage, DebateChatTurn, DraftMessage}
use heimdall_backend.Chat.Types.{DebateTurnLimits, DebateChatState}
use heimdall_backend.Chat.State.{drain_changes}
use heimdall_backend.Chat.Store.{
  Stored, turns_of, row_of, clashes, insert_turn, update_debate, apply_outcome, commit, push_drafts,
  delete_drafts, drafts_at, persist,
}
use heimdall_backend.Chat.Reloading.{IsStored}
use heimdall_backend.Chat.Storing.{IsBehind, append-nil, pending}

turns_of-snoc :
    (id : Uuid) (rows : List DebateMessage) (t : DebateChatTurn)
    → turns_of id (rows ++ row_of id t ∷ []) ≡ turns_of id rows ++ row_of id t ∷ []
unfolding turns_of row_of
turns_of-snoc id [] t = ground (arith, ==_refl id)
turns_of-snoc id (row ∷ rows) t = ground (arith, turns_of-snoc id rows t)

-- No stored message has the id or the place of the turn that is to be inserted.
abbrev pub IsFree : Uuid → Option DebateChatTurn → List DebateMessage → Type 0
IsFree id none rows = Unit {0}
IsFree id (some t) rows = any (clashes (row_of id t)) rows ≡ false

insert_turn-IsFree :
    (id : Uuid) (o : Option DebateChatTurn) (rows : List DebateMessage)
    → IsFree id o rows
    → (rows' : List DebateMessage) × (insert_turn id o rows ≡ ok rows')
      × (turns_of id rows' ≡ turns_of id rows ++ map (row_of id) (pending o))
unfolding insert_turn
insert_turn-IsFree id none rows h = (rows, refl, sym (append-nil (turns_of id rows)))
insert_turn-IsFree id (some t) rows h = (rows ++ row_of id t ∷ [], rw h, turns_of-snoc id rows t)

-- Pushing drafts looks at nothing but the drafts and the hash, and keeps the rest.
push_drafts-frame :
    (ds : List (ℕ × DraftMessage)) (w w' : Stored)
    → w'.drafts ≡ w.drafts
    → w'.client_messages ≡ w.client_messages
    → ((push_drafts ds w').drafts ≡ (push_drafts ds w).drafts)
      × ((push_drafts ds w').client_messages ≡ (push_drafts ds w).client_messages)
      × ((push_drafts ds w').debate ≡ w'.debate)
      × ((push_drafts ds w').messages ≡ w'.messages)
      × ((push_drafts ds w').reads ≡ w'.reads)
      × ((push_drafts ds w').drawn ≡ w'.drawn)
unfolding push_drafts
push_drafts-frame [] w w' e f = (e, f, refl, refl, refl, refl)
push_drafts-frame ((i, d) ∷ ds) w w' e f = push_drafts-frame ds _ _ (rw e) (rw f)

module _ (applies : DebateOutcome → Bool) (sure : (o : DebateOutcome) → applies o ≡ true) where
  apply_outcome-total :
      (o : Option DebateOutcome) (applied : List DebateOutcome)
      → (applied' : List DebateOutcome) × (apply_outcome applies o applied ≡ ok applied')
  unfolding apply_outcome
  apply_outcome-total none applied = (applied, refl)
  apply_outcome-total (some o) applied = (applied ++ o ∷ [], rw (sure o))

  -- The transaction, if there is one.
  committed :
      (s : DebateChatState) (w : Stored)
      → IsFree s.debate_id s.changes.finalized_turn w.messages
      → (w' : Stored) × ((if is_some s.changes.finalized_turn || is_some s.changes.debate
            then commit applies s.debate_id s.changes w
            else ok w)
          ≡ ok w')
        × (w'.debate ≡ update_debate s.changes.debate w.debate)
        × (turns_of s.debate_id w'.messages
            ≡ turns_of s.debate_id w.messages
              ++ map (row_of s.debate_id) (pending s.changes.finalized_turn))
        × (w'.drafts ≡ w.drafts)
        × (w'.client_messages ≡ w.client_messages)
        × (w'.reads ≡ w.reads)
        × (w'.drawn ≡ w.drawn)
  unfolding commit update_debate
  committed s w free =
      let (rows, inserted, same) =
        insert_turn-IsFree s.debate_id s.changes.finalized_turn w.messages free in
      let (applied, all) = apply_outcome-total s.changes.outcome w.applied in
      elim (Bool-cases (is_some s.changes.finalized_turn || is_some s.changes.debate)) [
        | inl writes ↦ (
          record w {
            messages = rows;
            debate = update_debate s.changes.debate w.debate;
            applied = applied;
          },
          rw (writes, inserted, all),
          refl,
          same,
          refl,
          refl,
          refl,
          refl,
        )
        | inr idle ↦ (
          w,
          rw idle,
          ground arith,
          ground (arith, append-nil (turns_of s.debate_id w.messages)),
          refl,
          refl,
          refl,
          refl,
        )
      ]

  -- If every outcome can be applied, the turn that was confirmed has a free place, and what is
  -- stored differs from the state by the recorded changes alone, then persist succeeds. All that
  -- the state holds, its changes drained, is stored afterwards.
  pub persist-IsStored :
      (limits : DebateTurnLimits) (rounds : ℕ) (w : Stored) (s : DebateChatState)
      → IsFree s.debate_id s.changes.finalized_turn w.messages
      → IsBehind limits rounds w s
      → (w' : Stored) × (persist applies s w ≡ ok w')
        × IsStored limits rounds w' (drain_changes s).1
  unfolding persist drain_changes
  persist-IsStored limits rounds w s free b =
      let (w1, committed_ok, debate, messages, drafts, client_messages, reads, drawn) =
        committed s (record w { reads = s.reads; drawn = s.drawn }) free in
      let (a, c, d, e, f, g) =
        push_drafts-frame s.changes.appended_drafts w w1 drafts client_messages in
      let pushed = push_drafts s.changes.appended_drafts w1 in
      let cleared = delete_drafts s.changes.cleared_draft_turn_index pushed.drafts in
      (
        record pushed { drafts = cleared },
        rw committed_ok,
        record {
          row = b.row;
          debate = d ∙ (debate ∙ b.debate);
          fixed = ground (arith, b.fixed);
          columns = ground (arith, b.columns);
          messages = ap (turns_of s.debate_id) e ∙ (messages ∙ b.messages);
          plain = b.plain;
          drafts =
              ap
                (λ x.
                  drafts_at (length s.turns) (delete_drafts s.changes.cleared_draft_turn_index x))
                a
              ∙ b.drafts;
          later = λ i h.
              ap (λ x. drafts_at i (delete_drafts s.changes.cleared_draft_turn_index x)) a
              ∙ b.later i h;
          client_messages = c ∙ b.client_messages;
          same_limits = b.same_limits;
          reads = f ∙ reads;
          drawn = g ∙ drawn;
          no_changes = refl;
        },
      )
