-- ===== src/Chat/Store.antt =====
-- The class RedisDebateChatStateStore of src/debate-chat/debate-chat-state.store.ts for one debate.
-- DebateOutcomeService.applyWithin enters as the test `applies`, whether it succeeds, and the
-- outcomes that were applied are listed. Left out are the expiry of the keys in Redis, that of the
-- lock among them, and failures of Redis after the transaction.
use heimdall_backend.Common.{
  ℕ, zero, suc, not, Bool, ◌&&◌, ◌||◌, Option, none, some, List, [], ◌∷◌, ◌++◌, ◌==◌, leb,
  if◌then◌else◌, is_some, any, length, Result, ok, err, ◌>>=◌, ◌>>◌, guard, or_throw,
}
use heimdall_backend.Common.Maps.{lookup, insert}
use heimdall_backend.Debate.Enums.{Uuid, ready, normal, is_normal, DebateOutcome}
use heimdall_backend.Debate.Rows.{Debate, DebateMessage, DraftMessage, DebateChatTurn}
use heimdall_backend.Debate.Schedule.{DebateTurnSchedule, new}
use heimdall_backend.Debate.Turns.{DebateSpeakers, resolve_speakers, to_debate_turn, get_or}
use heimdall_backend.Chat.Types.{
  ChatError, opponent_missing, finalize_in_progress, debate_not_found, rolled_back, internal, Env,
  DebateTurnLimits, DebateRowChanges, DebateChatStateChanges, empty_changes, DebateChatState,
}
use heimdall_backend.Chat.State.{start, drain_changes, remember}

-- What PostgreSQL and Redis hold for the debate: its row, unless it or its community is deleted, the
-- table of messages, a list of drafts for each turn, and the hash of client message ids. `reads`
-- and `drawn` count the readings of the clock and the identifiers used so far.
pub record Stored : Type 0 where
  pub debate : Option Debate
  pub messages : List DebateMessage
  pub drafts : List (ℕ × List DraftMessage)
  pub client_messages : List (Uuid × DraftMessage)
  pub applied : List DebateOutcome
  pub reads : ℕ
  pub drawn : ℕ

unfoldable pub to_speakers : Debate → Result ChatError DebateSpeakers
to_speakers debate = or_throw (resolve_speakers debate) opponent_missing

-- The WHERE of `loadTurns`.
abbrev pub is_turn_of : Uuid → DebateMessage → Bool
is_turn_of debate_id row =
    row.debate_id == debate_id && is_normal row.status && is_some row.sequence

unfoldable pub turns_of : Uuid → List DebateMessage → List DebateMessage
turns_of debate_id [] = []
turns_of debate_id (row ∷ rows) =
    let rest = turns_of debate_id rows in if is_turn_of debate_id row then row ∷ rest else rest

-- `order: { sequence: 'ASC' }`
unfoldable pub insert_by_sequence : DebateMessage → List DebateMessage → List DebateMessage
insert_by_sequence row [] = row ∷ []
insert_by_sequence row (first ∷ rows) =
    let later = insert_by_sequence row rows in
    if leb (get_or row.sequence 0) (get_or first.sequence 0)
    then row ∷ first ∷ rows
    else first ∷ later

unfoldable pub sort_by_sequence : List DebateMessage → List DebateMessage
sort_by_sequence [] = []
sort_by_sequence (row ∷ rows) = insert_by_sequence row (sort_by_sequence rows)

-- `rows.map((row) => toDebateTurn(row, speakers, schedule))`, whose exception passes through.
unfoldable pub to_debate_turns :
    List DebateMessage
    → DebateSpeakers
    → DebateTurnSchedule
    → Result ChatError (List DebateChatTurn)
to_debate_turns [] speakers schedule = ok []
to_debate_turns (row ∷ rows) speakers schedule = elim (to_debate_turn row speakers schedule) [
  | err e ↦ err (internal e)
  | ok turn ↦ do turns ← to_debate_turns rows speakers schedule; ok (turn ∷ turns)
]

unfoldable pub load_turns :
    Uuid
    → DebateSpeakers
    → DebateTurnSchedule
    → List DebateMessage
    → Result ChatError (List DebateChatTurn)
load_turns debate_id speakers schedule messages =
    to_debate_turns (sort_by_sequence (turns_of debate_id messages)) speakers schedule

-- `lrange(key, 0, -1)`: a missing key is an empty list.
unfoldable pub drafts_at : ℕ → List (ℕ × List DraftMessage) → List DraftMessage
drafts_at turn_index drafts = get_or (lookup turn_index drafts) []

unfoldable pub load : DebateTurnLimits → Stored → Result ChatError DebateChatState
load limits w = do
  debate ← or_throw w.debate debate_not_found
  speakers ← to_speakers debate
  let schedule = new debate.rebuttal_question_rounds
  turns ← load_turns debate.id speakers schedule w.messages
  ok (record {
    debate_id = debate.id;
    community_id = debate.community_id;
    speakers = speakers;
    schedule = schedule;
    limits = limits;
    status = get_or debate.debate_status ready;
    started_at = debate.started_at;
    ended_at = debate.ended_at;
    expires_at = debate.expires_at;
    winner_id = debate.winner_id;
    end_reason = debate.end_reason;
    turns = turns;
    drafts = drafts_at (length turns) w.drafts;
    drafts_by_client_message_id = w.client_messages;
    changes = empty_changes;
    reads = w.reads;
    drawn = w.drawn;
  })

-- The row that `commit` inserts.
unfoldable pub row_of : Uuid → DebateChatTurn → DebateMessage
row_of debate_id turn = record {
  id = turn.id;
  debate_id = debate_id;
  member_id = turn.speaker_id;
  body = some turn.content;
  sequence = some turn.sequence;
  created_at = turn.created_at;
  status = normal;
}

-- A violation of the primary key, or of the unique index on (debateId, sequence).
abbrev pub clashes : DebateMessage → DebateMessage → Bool
clashes row other =
    row.id == other.id
    || (row.debate_id == other.debate_id
        && is_some other.sequence
        && get_or row.sequence 0 == get_or other.sequence 0)

unfoldable pub insert_turn :
    Uuid → Option DebateChatTurn → List DebateMessage → Result ChatError (List DebateMessage)
insert_turn debate_id none messages = ok messages
insert_turn debate_id (some turn) messages = do
  guard (not (any (clashes (row_of debate_id turn)) messages)) rolled_back
  ok (messages ++ row_of debate_id turn ∷ [])

abbrev pub overwritten : DebateRowChanges → Debate → Debate
overwritten c row = record row {
  debate_status = some c.debate_status;
  started_at = c.started_at;
  ended_at = c.ended_at;
  expires_at = c.expires_at;
  winner_id = c.winner_id;
  end_reason = c.end_reason;
}

unfoldable pub update_debate : Option DebateRowChanges → Option Debate → Option Debate
update_debate none row = row
update_debate (some c) none = none
update_debate (some c) (some row) = some (overwritten c row)

module _ (applies : DebateOutcome → Bool) where
  unfoldable pub apply_outcome :
      Option DebateOutcome → List DebateOutcome → Result ChatError (List DebateOutcome)
  apply_outcome none applied = ok applied
  apply_outcome (some outcome) applied = do
    guard (applies outcome) rolled_back
    ok (applied ++ outcome ∷ [])

  unfoldable pub commit : Uuid → DebateChatStateChanges → Stored → Result ChatError Stored
  commit debate_id changes w = do
    messages ← insert_turn debate_id changes.finalized_turn w.messages
    applied ← apply_outcome changes.outcome w.applied
    ok (record w {
      messages = messages;
      debate = update_debate changes.debate w.debate;
      applied = applied;
    })

-- `rpush` and `hset` for each appended draft.
unfoldable pub push_drafts : List (ℕ × DraftMessage) → Stored → Stored
push_drafts [] w = w
push_drafts ((turn_index, message) ∷ appended) w = push_drafts appended (record w {
  drafts = insert turn_index (drafts_at turn_index w.drafts ++ message ∷ []) w.drafts;
  client_messages = remember message.client_message_id message w.client_messages;
})

-- `del`
unfoldable pub delete_drafts :
    Option ℕ → List (ℕ × List DraftMessage) → List (ℕ × List DraftMessage)
delete_drafts none drafts = drafts
delete_drafts (some turn_index) drafts = insert turn_index [] drafts

-- LOCK_RETRY_DELAYS_MS.length
abbrev pub lock_retries : ℕ
lock_retries = 4

-- `acquireLock` from an attempt on, with so many retries left; `held` says whether another command
-- holds the lock at an attempt.
unfoldable pub acquire_lock : (ℕ → Bool) → ℕ → ℕ → Result ChatError (Unit {0})
acquire_lock held attempt zero = if held attempt then err finalize_in_progress else ok tt
acquire_lock held attempt (suc left) =
    let later = acquire_lock held (suc attempt) left in if held attempt then later else ok tt

module _ (applies : DebateOutcome → Bool) where
  unfoldable pub persist : DebateChatState → Stored → Result ChatError Stored
  persist s w = do
    let changes = (drain_changes s).0
    let read = record w { reads = s.reads; drawn = s.drawn }
    committed ←
        if is_some changes.finalized_turn || is_some changes.debate
        then commit applies s.debate_id changes read
        else ok read
    let pushed = push_drafts changes.appended_drafts committed
    ok (record pushed { drafts = delete_drafts changes.cleared_draft_turn_index pushed.drafts })

  -- A call that throws leaves what is stored as it was; what it read of the clock is not counted.
  unfoldable pub with_state {ℓ} :
      {R : Type ℓ}
      → Env
      → DebateTurnLimits
      → (ℕ → Bool)
      → (DebateChatState → Result ChatError (R × DebateChatState))
      → Stored
      → Result ChatError (R × Stored)
  with_state env limits held work w = do
    acquire_lock held 0 lock_retries
    state ← load limits w
    (result, worked) ← work (start env state)
    stored ← persist worked w
    ok (result, stored)
