-- ===== src/Chat/Appending.antt =====
-- appendDraft of src/debate-chat/debate-chat-state.ts.
use heimdall_backend.Common.{
  ℕ, ◌+◌, ◌≤◌, ◌<◌, ◌≡◌, refl, Option, none, some, List, [], ◌∷◌, length, arith, All-append, ok,
  err, ◌↔◌, ◌⊎◌, inl, inr, Result-cases,
}
use heimdall_backend.Common.Maps.{insert, lookup-insert_self}
use heimdall_backend.Debate.Enums.{Uuid, in_progress}
use heimdall_backend.Debate.Rows.{DraftMessage, TurnSlot}
use heimdall_backend.Chat.Types.{
  Env, DebateChatState, DraftCommand, DraftAppendResult, duplicate, turn_character_limit_exceeded,
}
use heimdall_backend.Chat.State.{
  total_characters, current_slot, assert_command_allowed, new_draft, push_draft, find_duplicate,
  append_draft, remember,
}
use heimdall_backend.Chat.Allowed.{
  IsAllowed, assert_command_allowed_iff, current_slot_lem, speaker_of-resolve_side,
}
use heimdall_backend.Chat.Invariant.{Inv, IsMessageAt, AreFiled, total_characters-append}

insert-AreFiled :
    (id : Uuid) (d : DraftMessage) (m : List (Uuid × DraftMessage))
    → d.client_message_id ≡ some id
    → AreFiled m
    → AreFiled (insert id d m)
unfolding insert
insert-AreFiled id d [] e h = (e, tt)
insert-AreFiled id d ((j, w) ∷ m) e h = ground (arith, insert-AreFiled id d m e)

remember-AreFiled :
    (o : Option Uuid) (d : DraftMessage) (m : List (Uuid × DraftMessage))
    → d.client_message_id ≡ o
    → AreFiled m
    → AreFiled (remember o d m)
remember-AreFiled none d m e h = h
remember-AreFiled (some id) d m e h = insert-AreFiled id d m e h

module _ (env : Env) where
  new_draft-IsMessageAt :
      (rounds : ℕ) (s : DebateChatState) (member_id : Uuid) (c : DraftCommand) (id : Option Uuid)
      (slot : TurnSlot)
      → Inv rounds s
      → IsAllowed s member_id c.command slot
      → IsMessageAt s.debate_id s.speakers rounds (length s.turns) (new_draft env s member_id c id)
  unfolding new_draft
  new_draft-IsMessageAt rounds s member_id c id slot v a = record {
    slot = ground (arith, current_slot_lem s);
    speaker = ground (arith, speaker_of-resolve_side s member_id slot);
    debate = refl;
  }

  push_draft-Inv :
      (rounds : ℕ) (s : DebateChatState) (d : DraftMessage)
      → Inv rounds s
      → IsMessageAt s.debate_id s.speakers rounds (length s.turns) d
      → total_characters s.drafts + length d.content ≤ s.limits.max_total_characters
      → s.status ≡ in_progress
      → Inv rounds (push_draft s d)
  unfolding push_draft total_characters
  push_draft-Inv rounds s d v m b p = record {
    facts = record {
      schedule = v.schedule;
      turns = v.turns;
      drafts =
          All-append (IsMessageAt s.debate_id s.speakers rounds (length s.turns)) s.drafts (d ∷ [])
            v.drafts (m, tt);
      filed = remember-AreFiled d.client_message_id d s.drafts_by_client_message_id refl v.filed;
      bounded = ground (arith, total_characters-append s.drafts (d ∷ []));
    };
    running = λ q. ground (arith, v.running q);
    unstarted = λ r. cc;
  }

  pub append_draft-ok :
      (s : DebateChatState) (member_id : Uuid) (c : DraftCommand) (id : Option Uuid)
      {r : DraftAppendResult} {s' : DebateChatState}
      → append_draft env s member_id c id ≡ ok (r, s')
      → (slot : TurnSlot) × (assert_command_allowed s member_id c.command ≡ ok slot)
        × ((s' ≡ s)
            ⊎ ((s' ≡ push_draft s (new_draft env s member_id c id))
                × (total_characters s.drafts + length c.content ≤ s.limits.max_total_characters)))
  unfolding append_draft
  append_draft-ok s member_id c id {r} {s'} e =
      elim (Result-cases (assert_command_allowed s member_id c.command)) [
        | inl (slot, p) ↦ (slot, p, ground arith)
        | inr (x, p) ↦ ground arith
      ]

  current_slot-in_progress :
      (s : DebateChatState) {slot : TurnSlot} → current_slot s ≡ some slot → s.status ≡ in_progress
  current_slot-in_progress s e = ground (arith, current_slot_lem s)

  -- A draft command that succeeds, whether the draft is stored or a repetition, keeps the
  -- invariant: in particular the drafts of a turn never exceed its character limit.
  pub append_draft-Inv :
      (rounds : ℕ) (s : DebateChatState) (member_id : Uuid) (c : DraftCommand) (id : Option Uuid)
      {r : DraftAppendResult} {s' : DebateChatState}
      → append_draft env s member_id c id ≡ ok (r, s')
      → Inv rounds s
      → Inv rounds s'
  append_draft-Inv rounds s member_id c id e v =
      let (slot, p, stored) = append_draft-ok s member_id c id e in
      elim stored [
        | inl same ↦ rw same v
        | inr (pushed, fits) ↦
            let a = (assert_command_allowed_iff s member_id c.command slot).0 p in
            rw pushed (
              push_draft-Inv rounds s (new_draft env s member_id c id) v
                (new_draft-IsMessageAt rounds s member_id c id slot v a) (unfold new_draft in fits)
                (current_slot-in_progress s a.current))
      ]

  -- A draft command that is allowed fails for its length exactly if it is no repetition of a
  -- client message id and the drafts with it exceed the limit of the turn.
  pub append_draft_iff :
      (s : DebateChatState) (member_id : Uuid) (c : DraftCommand) (id : Option Uuid)
      (slot : TurnSlot)
      → IsAllowed s member_id c.command slot
      → (append_draft env s member_id c id ≡ err turn_character_limit_exceeded) ↔ (
          (find_duplicate s id ≡ none)
          × (s.limits.max_total_characters < total_characters s.drafts + length c.content))
  unfolding append_draft
  append_draft_iff s member_id c id slot a =
      let p = (assert_command_allowed_iff s member_id c.command slot).1 a in
      ((λ e. ground arith), (λ e. ground arith))

  append_draft-find_duplicate :
      (s : DebateChatState) (member_id : Uuid) (c : DraftCommand) (id : Uuid)
      {r : DraftAppendResult} {s' : DebateChatState}
      → append_draft env s member_id c (some id) ≡ ok (r, s')
      → find_duplicate s' (some id) ≡ some r.message
  unfolding append_draft push_draft new_draft find_duplicate
  append_draft-find_duplicate s member_id c id e = ground (
    arith,
    append_draft-ok s member_id c (some id),
    lookup-insert_self id (new_draft env s member_id c (some id)) s.drafts_by_client_message_id,
  )

  -- After a draft was accepted under a client message id, another allowed command with that id,
  -- from whomever and with whatever content, stores nothing and returns the message stored under
  -- it.
  pub append_draft_again :
      (s : DebateChatState) (member_id later : Uuid) (c d : DraftCommand) (id : Uuid)
      (slot : TurnSlot) {r : DraftAppendResult} {s' : DebateChatState}
      → append_draft env s member_id c (some id) ≡ ok (r, s')
      → IsAllowed s' later d.command slot
      → append_draft env s' later d (some id)
        ≡ ok (record { status = duplicate; message = r.message }, s')
  unfolding append_draft
  append_draft_again s member_id later c d id slot {s'} e a = rw (
    (assert_command_allowed_iff s' later d.command slot).1 a,
    append_draft-find_duplicate s member_id c id e,
  )
