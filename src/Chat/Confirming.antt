-- ===== src/Chat/Confirming.antt =====
-- confirmTurn, finalizeTurn and expireTurn of src/debate-chat/debate-chat-state.ts.
use heimdall_backend.Common.{
  ℕ, suc, ◌≡◌, refl, ◌∙◌, ◌↔◌, ◌⊎◌, inl, inr, true, false, none, some, [], ◌∷◌, ◌++◌, length,
  length-append, ok, arith, ◌≢◌, is_some, Option-cases, Bool-cases, ltb, if◌then◌else◌,
}
use heimdall_backend.Debate.Enums.{in_progress}
use heimdall_backend.Debate.Rows.{TurnSlot, DebateChatTurn}
use heimdall_backend.Debate.Schedule.{new, size, at}
use heimdall_backend.Debate.Schedule.Positions.{next-at, at-lt, at-none}
use heimdall_backend.Chat.Types.{Env, DebateChatState, TurnFinalizeResult}
use heimdall_backend.Chat.State.{total_characters, current_slot}
use heimdall_backend.Chat.Confirm.{finish_all_turns, new_turn, push_turn, confirm_turn}
use heimdall_backend.Chat.Allowed.{current_slot_lem}
use heimdall_backend.Chat.Invariant.{Inv, IsConsistent, AreTurnsFrom-snoc}
use heimdall_backend.Chat.Ending.{finish_all_turns-Inv, finish_all_turns-frame}

-- Of a running debate the current slot is the one that the schedule has there.
pub current_slot-at :
    (rounds : ℕ) (s : DebateChatState) {slot : TurnSlot}
    → Inv rounds s
    → current_slot s ≡ some slot
    → (at (new rounds) (length s.turns) ≡ some slot) × (s.status ≡ in_progress)
current_slot-at rounds s v e = ground (arith, current_slot_lem s)

-- There is a slot at `i` exactly if the schedule is longer.
at-size :
    (rounds i : ℕ)
    → ((ltb i (size (new rounds)) ≡ true) × (is_some (at (new rounds) i) ≡ true))
      ⊎ ((ltb i (size (new rounds)) ≡ false) × (at (new rounds) i ≡ none))
at-size rounds i = elim (Option-cases (at (new rounds) i)) [
  | inl e ↦ inr (ground (arith, at-none rounds i e), e)
  | inr (s, e) ↦ inl (ground (arith, at-lt rounds i {s = s} e), rw e)
]

push_turn-schedule :
    (s : DebateChatState) (t : DebateChatTurn) → (push_turn s t).schedule ≡ s.schedule
unfolding push_turn
push_turn-schedule s t = refl

module _ (env : Env) where
  -- The result of confirming the current turn, read off the number of turns.
  pub confirm_turn_lem :
      (rounds : ℕ) (s : DebateChatState) (slot : TurnSlot)
      → Inv rounds s
      → current_slot s ≡ some slot
      → let turn = new_turn env s slot in
        let pushed = push_turn s turn in
        let finished = finish_all_turns env pushed in
        confirm_turn env s slot
        ≡ ok (
            if ltb (suc (length s.turns)) (size s.schedule)
            then (record { turn = turn; ended = false; end_reason = none; outcome = none }, pushed)
            else (
              record {
                turn = turn;
                ended = true;
                end_reason = finished.1.end_reason;
                outcome = finished.0;
              },
              finished.1,
            ))
  unfolding confirm_turn
  confirm_turn_lem rounds s slot v e =
      let (p, q) = current_slot-at rounds s v e in
      ground (
        arith,
        next-at rounds (length s.turns) {s = slot} p,
        at-size rounds (suc (length s.turns)),
        v.schedule,
        push_turn-schedule s (new_turn env s slot),
      )

  -- `s'` is `s` with the turn of `slot` confirmed by `r`.
  pub record IsConfirmed (s : DebateChatState) (slot : TurnSlot) (r : TurnFinalizeResult)
      (s' : DebateChatState) : Type 0 where
    pub turn : r.turn ≡ new_turn env s slot
    pub turns : s'.turns ≡ s.turns ++ r.turn ∷ []
    pub drafts : s'.drafts ≡ []
    pub limits : s'.limits ≡ s.limits
    pub started_at : s'.started_at ≡ s.started_at
    pub expires_at : s'.expires_at ≡ s.expires_at
    pub reads : s'.reads ≡ (if r.ended then suc (suc s.reads) else suc s.reads)
    pub ended_at : s'.ended_at ≡ (if r.ended then some (env.now (suc s.reads)) else s.ended_at)
    pub last : (r.ended ≡ true) ↔ (suc (length s.turns) ≡ size s.schedule)
    pub status : (r.ended ≡ true) ↔ (s'.status ≢ in_progress)

  push_turn-IsConsistent :
      (rounds : ℕ) (s : DebateChatState) (slot : TurnSlot)
      → Inv rounds s
      → current_slot s ≡ some slot
      → IsConsistent rounds (push_turn s (new_turn env s slot))
  unfolding push_turn new_turn total_characters
  push_turn-IsConsistent rounds s slot v e = record {
    schedule = v.schedule;
    turns =
        AreTurnsFrom-snoc s.debate_id s.speakers rounds 0 (length s.turns) s.turns
          (new_turn env s slot) (omega arith) v.turns
          (record { slot = (current_slot-at rounds s v e).0; speaker = refl; debate = refl }) refl;
    drafts = tt;
    filed = v.filed;
    bounded = omega arith;
  }

  push_turn-Inv :
      (rounds : ℕ) (s : DebateChatState) (slot : TurnSlot)
      → Inv rounds s
      → current_slot s ≡ some slot
      → ltb (suc (length s.turns)) (size s.schedule) ≡ true
      → Inv rounds (push_turn s (new_turn env s slot))
  unfolding push_turn
  push_turn-Inv rounds s slot v e more = record {
    facts = push_turn-IsConsistent rounds s slot v e;
    running = λ h.
        let r = v.running h in
        record {
          begun = r.begun;
          not_ended = r.not_ended;
          no_reason = r.no_reason;
          has_turn = ground (arith, length-append s.turns (new_turn env s slot ∷ []));
        };
    unstarted = λ h. ground (arith, current_slot-at rounds s {slot = slot} v);
  }

  -- In a debate that satisfies the invariant and has a current turn, confirming that turn
  -- succeeds. The invariant holds afterwards, the new turn stands at the end with no drafts left,
  -- and the debate has ended exactly if that was the last turn of the schedule.
  pub confirm_turn-total :
      (rounds : ℕ) (s : DebateChatState) (slot : TurnSlot)
      → Inv rounds s
      → current_slot s ≡ some slot
      → (r : TurnFinalizeResult) × (s' : DebateChatState) × (confirm_turn env s slot ≡ ok (r, s'))
        × Inv rounds s'
        × IsConfirmed s slot r s'
  confirm_turn-total rounds s slot v e =
      let turn = new_turn env s slot in
      let pushed = push_turn s turn in
      elim (Bool-cases (ltb (suc (length s.turns)) (size s.schedule))) [
        | inl more ↦ (
          record { turn = turn; ended = false; end_reason = none; outcome = none },
          pushed,
          confirm_turn_lem rounds s slot v e ∙ rw more,
          push_turn-Inv rounds s slot v e more,
          unfold push_turn in ground (arith, current_slot-at rounds s {slot = slot} v),
        )
        | inr last ↦ (
          record {
            turn = turn;
            ended = true;
            end_reason = (finish_all_turns env pushed).1.end_reason;
            outcome = (finish_all_turns env pushed).0;
          },
          (finish_all_turns env pushed).1,
          confirm_turn_lem rounds s slot v e ∙ rw last,
          finish_all_turns-Inv env rounds pushed (push_turn-IsConsistent rounds s slot v e),
          unfold push_turn in
              ground (
                arith,
                current_slot-at rounds s {slot = slot} v,
                v.running,
                finish_all_turns-frame env pushed,
              ),
        )
      ]
