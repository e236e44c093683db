-- ===== src/Chat/Expiring.antt =====
-- finalizeTurn and expireTurn of src/debate-chat/debate-chat-state.ts: the speaker or the clock
-- confirms the current turn, and the clock alone ends a debate.
use heimdall_backend.Common.{
  ℕ, suc, ◌+◌, ◌*◌, ◌≤◌, ◌≡◌, sym, ◌∙◌, ◌⊎◌, inl, inr, some, [], length, ok, err, arith, ◌≢◌,
  Option-cases, List-cases,
}
use heimdall_backend.Debate.Enums.{Uuid, Millis, in_progress}
use heimdall_backend.Debate.Rows.{TurnSlot}
use heimdall_backend.Debate.Schedule.Positions.{at-some}
use heimdall_backend.Chat.Types.{Env, DebateChatState, TurnFinalizeResult, TurnCommand, turn_empty}
use heimdall_backend.Chat.State.{
  current_position, current_slot, current_turn_deadline, current_turn_started_at,
}
use heimdall_backend.Chat.Confirm.{confirm_turn, finalize_turn, expire_turn}
use heimdall_backend.Chat.Allowed.{
  IsAllowed, assert_command_allowed_iff, current_slot_lem, current_turn_started_at_lem,
}
use heimdall_backend.Chat.Invariant.{Inv}
use heimdall_backend.Chat.Confirming.{IsConfirmed, confirm_turn-total}

-- A running debate has a current turn, and a deadline for it.
pub running_turn :
    (rounds : ℕ) (s : DebateChatState)
    → Inv rounds s
    → s.status ≡ in_progress
    → (slot : TurnSlot) × (d : Millis) × (current_slot s ≡ some slot)
      × (current_turn_deadline s ≡ some d)
unfolding current_turn_deadline
running_turn rounds s v p =
    let r = v.running p in
    let (slot, e) = at-some rounds (length s.turns) (ground (arith, v.schedule, r.has_turn)) in
    let current : current_slot s ≡ some slot = ground (arith, current_slot_lem s, v.schedule) in
    elim (Option-cases (current_turn_started_at s)) [
      | inl unknown ↦
          absurd (ground (arith, current_turn_started_at_lem s {slot = slot} current, r.begun))
      | inr (t, known) ↦ (slot, t + s.limits.max_duration_seconds * 1000, current, rw known)
    ]

current_turn_deadline-slot :
    (s : DebateChatState) {d : Millis}
    → current_turn_deadline s ≡ some d
    → (slot : TurnSlot) × (current_slot s ≡ some slot)
unfolding current_turn_deadline current_turn_started_at current_slot
current_turn_deadline-slot s e = elim (Option-cases (current_position s)) [
  | inl unknown ↦ absurd (ground arith)
  | inr (p, known) ↦ (p.slot, rw known)
]

-- The state after the reading of the clock that `expireTurn` makes.
abbrev pub after_reading : DebateChatState → DebateChatState
after_reading s = record s { reads = suc s.reads }

after_reading-Inv : (rounds : ℕ) (s : DebateChatState) → Inv rounds s → Inv rounds (after_reading s)
after_reading-Inv rounds s v = record {
  facts = record {
    schedule = v.schedule;
    turns = v.turns;
    drafts = v.drafts;
    filed = v.filed;
    bounded = v.bounded;
  };
  running = λ h.
      let r = v.running h in
      record {
        begun = r.begun;
        not_ended = r.not_ended;
        no_reason = r.no_reason;
        has_turn = r.has_turn;
      };
  unstarted = v.unstarted;
}

after_reading-current_slot : (s : DebateChatState) → current_slot (after_reading s) ≡ current_slot s
after_reading-current_slot s = current_slot_lem (after_reading s) ∙ sym (current_slot_lem s)

module _ (env : Env) where
  -- In a debate that satisfies the invariant, a finalize command that is allowed is refused as
  -- empty if there is no draft. Otherwise it succeeds, confirms the current turn, and keeps the
  -- invariant.
  pub finalize_turn_lem :
      (rounds : ℕ) (s : DebateChatState) (member_id : Uuid) (command : TurnCommand)
      (slot : TurnSlot)
      → Inv rounds s
      → IsAllowed s member_id command slot
      → ((s.drafts ≡ []) × (finalize_turn env s member_id command ≡ err turn_empty))
        ⊎ ((s.drafts ≢ [])
            × ((r : TurnFinalizeResult) × (s' : DebateChatState) × (finalize_turn env s member_id
                    command
                  ≡ ok (r, s'))
                × Inv rounds s'
                × IsConfirmed env s slot r s'))
  unfolding finalize_turn
  finalize_turn_lem rounds s member_id command slot v a =
      let allowed = (assert_command_allowed_iff s member_id command slot).1 a in
      let (r, s', e, w, c) = confirm_turn-total env rounds s slot v a.current in
      elim (List-cases s.drafts) [
        | inl none_left ↦ inl (none_left, rw allowed (ground arith))
        | inr (d, ds, some_left) ↦
            inr ((λ h. ground arith), (r, s', rw allowed (ground arith), w, c))
      ]

  expire_turn_late :
      (s : DebateChatState) (slot : TurnSlot) (d : Millis) {r : TurnFinalizeResult}
      {s' : DebateChatState}
      → current_slot s ≡ some slot
      → current_turn_deadline s ≡ some d
      → d ≤ env.now s.reads
      → confirm_turn env (after_reading s) slot ≡ ok (r, s')
      → expire_turn env s ≡ ok (some r, s')
  unfolding expire_turn
  expire_turn_late s slot d e f h c = ground arith

  -- In a debate that satisfies the invariant, once the clock has reached the deadline of the
  -- current turn, expireTurn confirms that turn with whatever drafts there are and keeps the
  -- invariant.
  pub expire_turn_due :
      (rounds : ℕ) (s : DebateChatState) (slot : TurnSlot) (d : Millis)
      → Inv rounds s
      → current_slot s ≡ some slot
      → current_turn_deadline s ≡ some d
      → d ≤ env.now s.reads
      → (r : TurnFinalizeResult) × (s' : DebateChatState) × (expire_turn env s ≡ ok (some r, s'))
        × Inv rounds s'
        × IsConfirmed env (after_reading s) slot r s'
  expire_turn_due rounds s slot d v e f h =
      let (r, s', confirmed, w, c) =
        confirm_turn-total env rounds (after_reading s) slot (after_reading-Inv rounds s v)
          (after_reading-current_slot s ∙ e) in
      (r, s', expire_turn_late s slot d e f h confirmed, w, c)
