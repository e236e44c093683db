-- ===== src/Chat/Starting.antt =====
-- start of src/debate-chat/debate-chat-state.ts: the first connection starts a debate that is ready.
use heimdall_backend.Common.{ℕ, suc, ◌+◌, ◌*◌, ◌≡◌, refl, some, [], arith, ◌≢◌}
use heimdall_backend.Debate.Enums.{ready, in_progress}
use heimdall_backend.Debate.Schedule.{size, at}
use heimdall_backend.Debate.Schedule.Positions.{size-new}
use heimdall_backend.Chat.Types.{Env, DebateChatState}
use heimdall_backend.Chat.State.{start, record_debate_change, current_slot, current_turn_deadline}
use heimdall_backend.Chat.Allowed.{current_turn_started_at_lem, current_slot_lem}
use heimdall_backend.Chat.Invariant.{Inv}
use heimdall_backend.Chat.Expiring.{running_turn}

module _ (env : Env) where
  -- `s'` is `s` started at the present reading of the clock, with nothing said yet.
  pub record IsStarted (s s' : DebateChatState) : Type 0 where
    pub status : s'.status ≡ in_progress
    pub started_at : s'.started_at ≡ some (env.now s.reads)
    pub expires_at :
        s'.expires_at
        ≡ some (env.now s.reads + size s.schedule * s.limits.max_duration_seconds * 1000)
    pub turns : s'.turns ≡ []
    pub drafts : s'.drafts ≡ s.drafts
    pub reads : s'.reads ≡ suc s.reads
    pub limits : s'.limits ≡ s.limits
    pub first_turn : current_slot s' ≡ at s.schedule 0
    pub deadline :
        current_turn_deadline s' ≡ some (env.now s.reads + s.limits.max_duration_seconds * 1000)

  start-Inv :
      (rounds : ℕ) (s : DebateChatState)
      → Inv rounds s
      → s.status ≡ ready
      → Inv rounds (start env s)
  unfolding start record_debate_change
  start-Inv rounds s v e =
      let (_, going, no_reason) = v.unstarted e in
      rw e (record {
        facts = record {
          schedule = v.schedule;
          turns = v.turns;
          drafts = v.drafts;
          filed = v.filed;
          bounded = v.bounded;
        };
        running = λ h. record {
          begun = refl;
          not_ended = going;
          no_reason = no_reason;
          has_turn = ground (arith, v.schedule, size-new rounds);
        };
        unstarted = λ h. cc;
      })

  start_fields :
      (s : DebateChatState)
      → s.status ≡ ready
      → ((start env s).status ≡ in_progress)
        × ((start env s).started_at ≡ some (env.now s.reads))
        × ((start env s).expires_at
            ≡ some (env.now s.reads + size s.schedule * s.limits.max_duration_seconds * 1000))
        × ((start env s).turns ≡ s.turns)
        × ((start env s).drafts ≡ s.drafts)
        × ((start env s).schedule ≡ s.schedule)
        × ((start env s).limits ≡ s.limits)
        × ((start env s).reads ≡ suc s.reads)
  unfolding start record_debate_change
  start_fields s e = ground arith

  -- A ready debate that satisfies the invariant starts at the present reading of the clock: the
  -- first slot of the schedule is its current turn, whose deadline is the turn limit later,
  -- expiresAt is that limit for each turn of the schedule later, and the invariant holds.
  pub start-IsStarted :
      (rounds : ℕ) (s : DebateChatState)
      → Inv rounds s
      → s.status ≡ ready
      → Inv rounds (start env s) × IsStarted s (start env s)
  unfolding current_turn_deadline
  start-IsStarted rounds s v e =
      let (a, b, c, d, f, g, h, i) = start_fields s e in
      let silent = (v.unstarted e).0 in
      let (slot, _, current, _) = running_turn rounds (start env s) (start-Inv rounds s v e) a in
      let begun = current_turn_started_at_lem (start env s) {slot = slot} current in
      (
        start-Inv rounds s v e,
        record {
          status = a;
          started_at = b;
          expires_at = c;
          turns = ground arith;
          drafts = f;
          reads = i;
          limits = h;
          first_turn = ground (arith, current_slot_lem (start env s));
          deadline = ground arith;
        },
      )

  -- A debate that is not ready is left as it is.
  pub start_idle : (s : DebateChatState) → s.status ≢ ready → start env s ≡ s
  unfolding start
  start_idle s n = ground arith
