-- ===== src/Chat/Closing.antt =====
-- The commands that confirm a turn, on what is stored (src/debate-chat/debate-chat-state.store.ts).
use heimdall_backend.Common.{
  ℕ, suc, ◌≤◌, ◌≡◌, ◌≢◌, refl, inl, inr, Bool, true, false, ◌&&◌, none, some, [], ok, arith,
  Bool-cases, Result-cases, ltb, length,
}
use heimdall_backend.Debate.Enums.{
  Uuid, DebateOutcome, side_a, side_b, debate_finalized, failed, all_turns_finalized,
  total_time_expired,
}
use heimdall_backend.Debate.Rows.{TurnSlot}
use heimdall_backend.Debate.Schedule.{size}
use heimdall_backend.Chat.Types.{
  Env, DebateTurnLimits, DebateChatState, TurnCommand, TurnFinalizeResult,
}
use heimdall_backend.Chat.State.{
  start, drain_changes, current_slot, assert_command_allowed, end_debate, record_debate_change,
}
use heimdall_backend.Chat.Confirm.{
  spoke, finalize_turn, finish_all_turns, new_turn, push_turn, confirm_turn,
}
use heimdall_backend.Chat.Allowed.{assert_command_allowed_iff}
use heimdall_backend.Chat.Invariant.{Inv}
use heimdall_backend.Chat.Confirming.{confirm_turn_lem}
use heimdall_backend.Chat.Store.{Stored, with_state, lock_retries}
use heimdall_backend.Chat.Reloading.{IsStored}
use heimdall_backend.Chat.Storing.{
  IsBehind, start-IsBehind, push_turn-IsBehind, end_debate-IsBehind,
}
use heimdall_backend.Chat.Persisting.{IsFree}
use heimdall_backend.Chat.Serving.{start-changes, start_any-Inv, IsStored-IsBehind, with_state-ok}

module _ (env : Env) (limits : DebateTurnLimits) (rounds : ℕ) (w : Stored) where
  finish_all_turns-IsBehind :
      (s : DebateChatState)
      → IsBehind limits rounds w s
      → IsBehind limits rounds w (finish_all_turns env s).1
  unfolding finish_all_turns
  finish_all_turns-IsBehind s b = elim (Bool-cases (spoke s.turns side_a && spoke s.turns side_b)) [
    | inl both ↦ rw both (
        end_debate-IsBehind limits rounds w env s s.winner_id debate_finalized all_turns_finalized
          b)
    | inr one ↦ rw one (end_debate-IsBehind limits rounds w env s _ failed total_time_expired b)
  ]

  -- Ending a debate leaves the recorded turn as it is.
  finish_all_turns-finalized_turn :
      (s : DebateChatState)
      → ((finish_all_turns env s).1.changes.finalized_turn ≡ s.changes.finalized_turn)
        × ((finish_all_turns env s).1.debate_id ≡ s.debate_id)
  unfolding finish_all_turns end_debate record_debate_change
  finish_all_turns-finalized_turn s = ground arith

  push_turn-finalized_turn :
      (s : DebateChatState) (slot : TurnSlot)
      → ((push_turn s (new_turn env s slot)).changes.finalized_turn ≡ some (new_turn env s slot))
        × ((push_turn s (new_turn env s slot)).debate_id ≡ s.debate_id)
        × ((new_turn env s slot).client_message_id ≡ none)
  unfolding push_turn new_turn
  push_turn-finalized_turn s slot = (refl, refl, refl)

  confirm_turn-IsBehind :
      (s : DebateChatState) (slot : TurnSlot) {r : TurnFinalizeResult} {s' : DebateChatState}
      → Inv rounds s
      → current_slot s ≡ some slot
      → s.changes.finalized_turn ≡ none
      → s.changes.appended_drafts ≡ []
      → s.changes.cleared_draft_turn_index ≡ none
      → IsBehind limits rounds w s
      → confirm_turn env s slot ≡ ok (r, s')
      → IsBehind limits rounds w s'
        × (s'.changes.finalized_turn ≡ some r.turn)
        × (s'.debate_id ≡ s.debate_id)
  confirm_turn-IsBehind s slot {r} {s'} v current f a n b e =
      let turn = new_turn env s slot in
      let pushed = push_turn s turn in
      let (recorded, same_id, plain) = push_turn-finalized_turn s slot in
      let behind = push_turn-IsBehind limits rounds w s turn f a n plain b in
      let result = confirm_turn_lem env rounds s slot v current in
      elim (Bool-cases (ltb (suc (length s.turns)) (size s.schedule))) [
        | inl more ↦
            let here : s' ≡ pushed = ground arith in (rw here behind, ground arith, ground arith)
        | inr last ↦
            let here : s' ≡ (finish_all_turns env pushed).1 = ground arith in
            let (kept, same) = finish_all_turns-finalized_turn pushed in
            (rw here (finish_all_turns-IsBehind pushed behind), ground arith, ground arith)
      ]

-- A finalize command that succeeds confirmed the current turn.
finalize_turn-ok :
    (env : Env) (s : DebateChatState) (member_id : Uuid) (c : TurnCommand) {r : TurnFinalizeResult}
    {s' : DebateChatState}
    → finalize_turn env s member_id c ≡ ok (r, s')
    → (slot : TurnSlot) × (current_slot s ≡ some slot) × (confirm_turn env s slot ≡ ok (r, s'))
unfolding finalize_turn
finalize_turn-ok env s member_id c e = elim (Result-cases (assert_command_allowed s member_id c)) [
  | inl (slot, allowed) ↦
      (slot, ((assert_command_allowed_iff s member_id c slot).0 allowed).current, ground arith)
  | inr (x, refused) ↦ absurd (ground arith)
]

module _ (applies : DebateOutcome → Bool) (sure : (o : DebateOutcome) → applies o ≡ true)
    (env : Env) (limits : DebateTurnLimits) (held : ℕ → Bool) (free : ℕ)
    (soon : free ≤ lock_retries) (released : held free ≡ false) where
  -- If the state is stored, satisfies the invariant and has different speakers, the lock is free
  -- at one of the attempts, outcomes can be applied, and the new turn has a free place, then a
  -- finalize command that succeeds on the started state succeeds on what is stored with the same
  -- result, and all that the new state holds is stored afterwards.
  pub with_state-finalize_turn :
      (rounds : ℕ) (w : Stored) (s : DebateChatState) (member_id : Uuid) (c : TurnCommand)
      {r : TurnFinalizeResult} {s' : DebateChatState}
      → IsStored limits rounds w s
      → Inv rounds s
      → s.speakers.side_a ≢ s.speakers.side_b
      → finalize_turn env (start env s) member_id c ≡ ok (r, s')
      → IsFree s'.debate_id (some r.turn) w.messages
      → (w' : Stored) × (with_state applies env limits held (λ t. finalize_turn env t member_id c) w
          ≡ ok (r, w'))
        × IsStored limits rounds w' (drain_changes s').1
  with_state-finalize_turn rounds w s member_id c {r} {s'} k v ne e clear =
      let begun = start-IsBehind limits rounds w env s (IsStored-IsBehind limits rounds w s k) in
      let (no_turn, no_drafts, none_cleared) = start-changes env s k.no_changes in
      let (slot, current, confirmed) = finalize_turn-ok env (start env s) member_id c e in
      let (behind, recorded, _) =
        confirm_turn-IsBehind env limits rounds w (start env s) slot (start_any-Inv env rounds s v)
          current no_turn no_drafts none_cleared begun confirmed in
      with_state-ok applies sure env limits held free soon released rounds w s
        (λ t. finalize_turn env t member_id c) k v ne e behind (rw recorded clear)
