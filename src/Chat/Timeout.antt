-- ===== src/Chat/Timeout.antt =====
-- A debate in which nobody presses a button: the turn timer of src/debate-chat calls expireTurn
-- again and again.
use heimdall_backend.Common.{
  ℕ, zero, suc, ◌+◌, ◌*◌, ◌-◌, ◌≤◌, ◌<◌, ◌≡◌, refl, inl, inr, false, some, [], ◌∷◌, length,
  length-append, last?-snoc, Result, ok, ◌>>=◌, arith, ◌≢◌, Bool-cases,
}
use heimdall_backend.Debate.Enums.{DebateStatus, Millis, in_progress}
use heimdall_backend.Debate.Rows.{TurnSlot}
use heimdall_backend.Debate.Schedule.{size}
use heimdall_backend.Chat.Types.{Env, ChatError, DebateChatState, TurnFinalizeResult}
use heimdall_backend.Chat.State.{current_turn_deadline}
use heimdall_backend.Chat.Confirm.{new_turn, expire_turn}
use heimdall_backend.Chat.Allowed.{current_turn_started_at_lem, current_slot_lem}
use heimdall_backend.Chat.Invariant.{Inv}
use heimdall_backend.Chat.Confirming.{IsConfirmed}
use heimdall_backend.Chat.Expiring.{running_turn, expire_turn_due, after_reading}

status_in_progress : (t : DebateStatus) → ¬ (t ≢ in_progress) → t ≡ in_progress
status_in_progress in_progress h = refl
status_in_progress _ h = absurd (h (λ e. cc))

module _ (env : Env) where
  -- The timer, fired `n` times over.
  unfoldable pub expire_times : ℕ → DebateChatState → Result ChatError DebateChatState
  expire_times zero s = ok s
  expire_times (suc n) s = do (r, s') ← expire_turn env s; expire_times n s'

  -- Of `n` calls from the reading `r` on, each but the last makes two readings, at the deadline and
  -- for the row of the turn. The turn limit passes between a call and the next; what passes between
  -- the readings of one call is not restricted.
  abbrev pub AreSpaced : Millis → ℕ → ℕ → Type 0
  AreSpaced limit r zero = Unit {0}
  AreSpaced limit r (suc zero) = Unit {0}
  AreSpaced limit r (suc (suc n)) =
      (env.now (suc r) + limit ≤ env.now (suc (suc r))) × AreSpaced limit (suc (suc r)) (suc n)

  next_call :
      (limit r n : ℕ)
      → 0 < n
      → AreSpaced limit r (suc n)
      → (env.now (suc r) + limit ≤ env.now (suc (suc r))) × AreSpaced limit (suc (suc r)) n
  next_call limit r zero h spaced = absurd (omega arith)
  next_call limit r (suc n) h spaced = spaced

  confirmed_deadline :
      (rounds : ℕ) (s : DebateChatState) (slot : TurnSlot) (r : TurnFinalizeResult)
      (s' : DebateChatState)
      → IsConfirmed env s slot r s'
      → Inv rounds s'
      → s'.status ≡ in_progress
      → current_turn_deadline s' ≡ some (env.now s.reads + s'.limits.max_duration_seconds * 1000)
  unfolding current_turn_deadline new_turn
  confirmed_deadline rounds s slot r s' c v p =
      let (slot', d, current, _) = running_turn rounds s' v p in
      ground (
        arith,
        current_turn_started_at_lem s' {slot = slot'} current,
        c.turns,
        c.turn,
        last?-snoc s.turns r.turn,
      )

  expire_times_idle :
      (n : ℕ) (s : DebateChatState) → s.status ≢ in_progress → expire_times n s ≡ ok s
  unfolding expire_times expire_turn
  expire_times_idle zero s p = refl
  expire_times_idle (suc n) s p = ground (arith, current_slot_lem s, expire_times_idle n s)

  record IsGoing (s s' : DebateChatState) (d : Millis) : Type 0 where
    still : s'.status ≡ in_progress
    deadline : current_turn_deadline s' ≡ some d
    longer : length s'.turns ≡ suc (length s.turns)
    same_size : size s'.schedule ≡ size s.schedule

  confirmed-IsGoing :
      (rounds : ℕ) (s : DebateChatState) (slot : TurnSlot) (r : TurnFinalizeResult)
      (s' : DebateChatState)
      → Inv rounds s
      → Inv rounds s'
      → IsConfirmed env (after_reading s) slot r s'
      → r.ended ≡ false
      → IsGoing s s' (env.now (suc s.reads) + s'.limits.max_duration_seconds * 1000)
  confirmed-IsGoing rounds s slot r s' v w c going =
      let still : s'.status ≡ in_progress =
        status_in_progress s'.status (λ h. absurd (ground (arith, c.status.1 h))) in
      record {
        still = still;
        deadline = confirmed_deadline rounds (after_reading s) slot r s' c w still;
        longer = ground (arith, c.turns, length-append s.turns (r.turn ∷ []));
        same_size = ground (arith, v.schedule, w.schedule);
      }

  going_reads :
      (s : DebateChatState) (slot : TurnSlot) (r : TurnFinalizeResult) (s' : DebateChatState)
      → IsConfirmed env (after_reading s) slot r s'
      → r.ended ≡ false
      → s'.reads ≡ suc (suc s.reads)
  going_reads s slot r s' c going = ground (arith, c.reads)

  expire_times_late :
      (rounds n : ℕ) (s : DebateChatState) (d : Millis)
      → Inv rounds s
      → AreSpaced (s.limits.max_duration_seconds * 1000) s.reads n
      → s.status ≡ in_progress
      → current_turn_deadline s ≡ some d
      → d ≤ env.now s.reads
      → size s.schedule ≤ length s.turns + n
      → (s' : DebateChatState) × (expire_times n s ≡ ok s')
        × (s'.status ≢ in_progress)
        × Inv rounds s'
  unfolding expire_times
  expire_times_late rounds zero s d v spaced p due h b =
      absurd (omega (arith, (v.running p).has_turn))
  expire_times_late rounds (suc n) s d v spaced p due h b =
      let (slot, _, current, _) = running_turn rounds s v p in
      let (r, s', e, w, c) = expire_turn_due env rounds s slot d v current due h in
      elim (Bool-cases r.ended) [
        | inl ended ↦ (s', rw e (expire_times_idle n s' (c.status.0 ended)), c.status.0 ended, w)
        | inr going ↦
            let t = confirmed-IsGoing rounds s slot r s' v w c going in
            let left : 0 < n = omega (arith, t.longer, t.same_size, (w.running t.still).has_turn) in
            let reads = going_reads s slot r s' c going in
            let (gap, rest) =
              next_call (s.limits.max_duration_seconds * 1000) s.reads n left spaced in
            let due : env.now (suc s.reads) + s'.limits.max_duration_seconds * 1000
                ≤ env.now s'.reads =
              rw (c.limits, reads) gap in
            let after : AreSpaced (s'.limits.max_duration_seconds * 1000) s'.reads n =
              rw (c.limits, reads) rest in
            let (u, e', q, x) =
              expire_times_late rounds n s' _ w after t.still t.deadline due
                (omega (arith, t.longer, t.same_size)) in
            (u, rw e e', q, x)
      ]

  -- A debate that nobody attends ends by itself. If the invariant holds, the debate is in progress
  -- with its turn overdue, and as many calls of expireTurn as there are turns left come so late that
  -- at least the turn limit passes between the end of each and the start of the next, then these calls
  -- succeed and end the debate, and the invariant holds.
  pub expire_times-ends :
      (rounds : ℕ) (s : DebateChatState) (d : Millis)
      → Inv rounds s
      → AreSpaced (s.limits.max_duration_seconds * 1000) s.reads (size s.schedule - length s.turns)
      → s.status ≡ in_progress
      → current_turn_deadline s ≡ some d
      → d ≤ env.now s.reads
      → (s' : DebateChatState) × (expire_times (size s.schedule - length s.turns) s ≡ ok s')
        × (s'.status ≢ in_progress)
        × Inv rounds s'
  expire_times-ends rounds s d v spaced p due h =
      expire_times_late rounds (size s.schedule - length s.turns) s d v spaced p due h (omega arith)
