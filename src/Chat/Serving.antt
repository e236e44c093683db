-- ===== src/Chat/Serving.antt =====
-- withState of src/debate-chat/debate-chat-state.store.ts: a command on what is stored is the
-- command on the state.
use heimdall_backend.Common.{
  ℕ, zero, suc, ◌+◌, ◌≤◌, ◌≡◌, ◌≢◌, inl, inr, refl, ◌∙◌, Bool, true, false, Option, Result, none,
  List, [], ok, err, arith, Bool-cases, ap,
}
use heimdall_backend.Debate.Enums.{Uuid, DebateOutcome, is_ready}
use heimdall_backend.Debate.Rows.{DraftMessage, DebateChatTurn, DebateMessage}
use heimdall_backend.Chat.Types.{
  Env, DebateTurnLimits, DebateChatState, ChatError, finalize_in_progress, empty_changes,
  DraftCommand, DraftAppendResult,
}
use heimdall_backend.Chat.State.{
  start, drain_changes, append_draft, record_debate_change, new_draft, push_draft,
}
use heimdall_backend.Chat.Store.{
  Stored, update_debate, push_drafts, delete_drafts, acquire_lock, lock_retries, with_state,
}
use heimdall_backend.Chat.Invariant.{Inv}
use heimdall_backend.Chat.Reloading.{IsStored, load-IsStored}
use heimdall_backend.Chat.Storing.{IsBehind, append-nil, start-IsBehind, push_draft-IsBehind}
use heimdall_backend.Chat.Persisting.{IsFree, persist-IsStored}
use heimdall_backend.Chat.Starting.{start-IsStarted}
use heimdall_backend.Chat.Appending.{append_draft-ok}

acquire_lock-free :
    (held : ℕ → Bool) (attempt left k : ℕ)
    → k ≤ left
    → held (attempt + k) ≡ false
    → acquire_lock held attempt left ≡ ok tt
unfolding acquire_lock
acquire_lock-free held attempt zero k b f = ground arith
acquire_lock-free held attempt (suc left) zero b f = ground arith
acquire_lock-free held attempt (suc left) (suc k) b f =
    ground (arith, acquire_lock-free held (suc attempt) left k)

acquire_lock-held :
    (held : ℕ → Bool) (attempt left : ℕ)
    → ((k : ℕ) → k ≤ left → held (attempt + k) ≡ true)
    → acquire_lock held attempt left ≡ err finalize_in_progress
unfolding acquire_lock
acquire_lock-held held attempt zero h = ground (arith, h 0)
acquire_lock-held held attempt (suc left) h =
    let other = acquire_lock-held held (suc attempt) left (λ k b. shifted k b) in
    ground (arith, h 0, other)
  where
    shifted : (k : ℕ) → k ≤ left → held (suc attempt + k) ≡ true
    shifted k b =
        let e : suc attempt + k ≡ attempt + suc k = omega arith in rw e (h (suc k) (omega arith))

pub IsStored-IsBehind :
    (limits : DebateTurnLimits) (rounds : ℕ) (w : Stored) (s : DebateChatState)
    → IsStored limits rounds w s
    → IsBehind limits rounds w s
unfolding update_debate push_drafts delete_drafts
IsStored-IsBehind limits rounds w s k =
    let n = k.no_changes in
    record {
      row = k.row;
      debate = rw (n, k.debate);
      fixed = k.fixed;
      columns = k.columns;
      messages = rw n (append-nil _ ∙ k.messages);
      plain = k.plain;
      drafts = rw n k.drafts;
      later = rw n k.later;
      client_messages = rw n k.client_messages;
      same_limits = k.same_limits;
    }

-- Starting records nothing but the row.
pub start-changes :
    (env : Env) (s : DebateChatState)
    → s.changes ≡ empty_changes
    → ((start env s).changes.finalized_turn ≡ none)
      × ((start env s).changes.appended_drafts ≡ [])
      × ((start env s).changes.cleared_draft_turn_index ≡ none)
unfolding start record_debate_change
start-changes env s n = ground arith

pub start_any-Inv :
    (env : Env) (rounds : ℕ) (s : DebateChatState) → Inv rounds s → Inv rounds (start env s)
unfolding start
start_any-Inv env rounds s v = elim (Bool-cases (is_ready s.status)) [
  | inl due ↦ (start-IsStarted env rounds s v (ground arith)).0
  | inr other ↦ rw other v
]

none-IsFree :
    (id : Uuid) (o : Option DebateChatTurn) (rows : List DebateMessage)
    → o ≡ none
    → IsFree id o rows
none-IsFree id o rows e = rw e tt

push_draft-finalized_turn :
    (s : DebateChatState) (d : DraftMessage)
    → (push_draft s d).changes.finalized_turn ≡ s.changes.finalized_turn
unfolding push_draft
push_draft-finalized_turn s d = refl

module _ (applies : DebateOutcome → Bool) (sure : (o : DebateOutcome) → applies o ≡ true)
    (env : Env) (limits : DebateTurnLimits) (held : ℕ → Bool) (free : ℕ)
    (soon : free ≤ lock_retries) (released : held free ≡ false) where
  -- A command whose changes are recorded does to what is stored what it does to the state.
  pub with_state-ok :
      {R : Type 0} (rounds : ℕ) (w : Stored) (s : DebateChatState)
      (work : DebateChatState → Result ChatError (R × DebateChatState)) {r : R}
      {s' : DebateChatState}
      → IsStored limits rounds w s
      → Inv rounds s
      → s.speakers.side_a ≢ s.speakers.side_b
      → work (start env s) ≡ ok (r, s')
      → IsBehind limits rounds w s'
      → IsFree s'.debate_id s'.changes.finalized_turn w.messages
      → (w' : Stored) × (with_state applies env limits held work w ≡ ok (r, w'))
        × IsStored limits rounds w' (drain_changes s').1
  unfolding with_state
  with_state-ok rounds w s work {r} {s'} k v ne worked b clear =
      let (w', stored, kept) = persist-IsStored applies sure limits rounds w s' clear b in
      let locked =
        acquire_lock-free held 0 lock_retries free soon
          (let e : 0 + free ≡ free = omega arith in rw e released) in
      (w', rw (locked, load-IsStored limits rounds w s k v ne, worked, stored), kept)

  -- If the state is stored, satisfies the invariant and has different speakers, the lock is free
  -- at one of the attempts, and outcomes can be applied, then a draft command that succeeds on the
  -- started state succeeds on what is stored with the same result, and all that the new state
  -- holds is stored afterwards.
  pub with_state-append_draft :
      (rounds : ℕ) (w : Stored) (s : DebateChatState) (member_id : Uuid) (c : DraftCommand)
      (id : Option Uuid) {r : DraftAppendResult} {s' : DebateChatState}
      → IsStored limits rounds w s
      → Inv rounds s
      → s.speakers.side_a ≢ s.speakers.side_b
      → append_draft env (start env s) member_id c id ≡ ok (r, s')
      → (w' : Stored) × (with_state applies env limits held
            (λ t. append_draft env t member_id c id)
            w
          ≡ ok (r, w'))
        × IsStored limits rounds w' (drain_changes s').1
  with_state-append_draft rounds w s member_id c id {s'} k v ne e =
      let begun = start-IsBehind limits rounds w env s (IsStored-IsBehind limits rounds w s k) in
      let (slot, _, same) = append_draft-ok env (start env s) member_id c id e in
      let (no_turn, _, none_cleared) = start-changes env s k.no_changes in
      let work : DebateChatState → Result ChatError (DraftAppendResult × DebateChatState) =
        λ t. append_draft env t member_id c id in
      elim same [
        | inl kept ↦
            with_state-ok rounds w s work k v ne e (rw kept begun)
              (none-IsFree _ _ _ (rw kept no_turn))
        | inr (pushed, _) ↦
            let d = new_draft env (start env s) member_id c id in
            with_state-ok rounds w s work k v ne e
              (rw pushed (push_draft-IsBehind limits rounds w (start env s) d none_cleared begun))
              (none-IsFree _ _ _ (
                ap (λ t. t.changes.finalized_turn) pushed
                ∙ (push_draft-finalized_turn (start env s) d ∙ no_turn)))
      ]

-- If other commands hold the lock of the debate at all five attempts, withState refuses the
-- command as FINALIZE_IN_PROGRESS.
pub with_state_busy :
    {R : Type 0} (applies : DebateOutcome → Bool) (env : Env) (limits : DebateTurnLimits)
    (held : ℕ → Bool) (work : DebateChatState → Result ChatError (R × DebateChatState)) (w : Stored)
    → ((k : ℕ) → k ≤ lock_retries → held k ≡ true)
    → with_state applies env limits held work w ≡ err finalize_in_progress
unfolding with_state
with_state_busy applies env limits held work w busy =
    let shifted : (k : ℕ) → k ≤ lock_retries → held (0 + k) ≡ true =
      λ k b. let e : 0 + k ≡ k = omega arith in rw e (busy k b) in
    rw (acquire_lock-held held 0 lock_retries shifted)
