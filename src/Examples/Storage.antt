-- ===== src/Examples/Storage.antt =====
-- The stored debate of Examples.Debates: src/debate-chat/debate-chat-state.store.ts.
use heimdall_backend.Common.{ℕ, ◌≡◌, ◌≢◌, refl, true, false, none, some, [], ◌∷◌, any, ok, arith}
use heimdall_backend.Common.Maps.{lookup, insert}
use heimdall_backend.Debate.Enums.{in_progress, normal}
use heimdall_backend.Debate.Rows.{Debate, DebateChatTurn}
use heimdall_backend.Debate.Schedule.{
  new, at, next, index_of, find_index, build, push_round, push_rebuttals,
}
use heimdall_backend.Debate.Turns.{resolve_side, resolve_speakers, derive_current_turn}
use heimdall_backend.Chat.Types.{DebateTurnLimits, DebateChatState, appended, empty_changes}
use heimdall_backend.Chat.State.{
  start, drain_changes, append_draft, assert_command_allowed, current_slot, current_position,
}
use heimdall_backend.Chat.Confirm.{finalize_turn, confirm_turn, new_turn, push_turn}
use heimdall_backend.Chat.Store.{
  Stored, load, with_state, drafts_at, update_debate, push_drafts, delete_drafts, turns_of, row_of,
  clashes,
}
use heimdall_backend.Chat.Invariant.{Inv}
use heimdall_backend.Chat.Reloading.{IsStored, load-IsStored}
use heimdall_backend.Chat.Storing.{IsBehind}
use heimdall_backend.Chat.Serving.{with_state-append_draft}
use heimdall_backend.Chat.Closing.{with_state-finalize_turn}
use heimdall_backend.Examples.Debates.{
  slow, prepared, prepared-Inv, first_slot, first_command, hello, said, said-append_draft, spoken,
  spoken-Inv,
}

abbrev bounds : DebateTurnLimits
bounds = record { max_total_characters = 5; max_duration_seconds = 1 }

abbrev debate_row : Debate
debate_row = record {
  id = 1;
  community_id = 2;
  topic = [];
  host_id = 10;
  host_nickname = [];
  opponent_id = some 20;
  opponent_nickname = none;
  rebuttal_question_rounds = 0;
  debate_status = some in_progress;
  started_at = some 0;
  ended_at = none;
  expires_at = some 4000;
  judging_started_at = none;
  winner_id = none;
  end_reason = none;
  status = normal;
}

abbrev fresh : Stored
fresh = record {
  debate = some debate_row;
  messages = [];
  drafts = [];
  client_messages = [];
  applied = [];
  reads = 1;
  drawn = 0;
}

speakers_differ : ◌≢◌ {A = ℕ} 10 20
speakers_differ e = omega arith

fresh-IsStored : IsStored bounds 0 fresh (prepared in_progress)
unfolding drafts_at lookup turns_of resolve_speakers
fresh-IsStored = record {
  row = debate_row;
  debate = refl;
  fixed = record {
    id = refl;
    community_id = refl;
    speakers = refl;
    rebuttal_question_rounds = refl;
  };
  columns = record {
    status = refl;
    started_at = refl;
    ended_at = refl;
    expires_at = refl;
    winner_id = refl;
    end_reason = refl;
  };
  messages = refl;
  plain = tt;
  drafts = refl;
  later = λ i h. refl;
  client_messages = refl;
  same_limits = refl;
  reads = refl;
  drawn = refl;
  no_changes = refl;
}

load-IsStored_example : load bounds fresh ≡ ok (prepared in_progress)
load-IsStored_example =
    load-IsStored bounds 0 fresh (prepared in_progress) fresh-IsStored (prepared-Inv in_progress)
      speakers_differ

spoken-IsBehind : IsBehind bounds 0 fresh spoken
unfolding drafts_at lookup insert turns_of resolve_speakers update_debate push_drafts delete_drafts
spoken-IsBehind = record {
  row = debate_row;
  debate = refl;
  fixed = record {
    id = refl;
    community_id = refl;
    speakers = refl;
    rebuttal_question_rounds = refl;
  };
  columns = record {
    status = refl;
    started_at = refl;
    ended_at = refl;
    expires_at = refl;
    winner_id = refl;
    end_reason = refl;
  };
  messages = refl;
  plain = tt;
  drafts = refl;
  later = λ i h. ground arith;
  client_messages = refl;
  same_limits = refl;
}

is_going_on : start slow (prepared in_progress) ≡ prepared in_progress
unfolding start
is_going_on = refl

said_to_started :
    append_draft slow (start slow (prepared in_progress)) 10 hello (some 7)
    ≡ ok (record { status = appended; message = said }, spoken)
said_to_started = rw is_going_on said-append_draft

with_state-append_draft_example :
    (w' : Stored) × (with_state
        (λ o. true)
        slow
        bounds
        (λ k. false)
        (λ t. append_draft slow t 10 hello (some 7))
        fresh
      ≡ ok (record { status = appended; message = said }, w'))
    × IsStored bounds 0 w' (drain_changes spoken).1
with_state-append_draft_example =
    with_state-append_draft (λ o. true) (λ o. refl) slow bounds (λ k. false) 0 (omega arith) refl 0
      fresh (prepared in_progress) 10 hello (some 7) fresh-IsStored (prepared-Inv in_progress)
      speakers_differ said_to_started

-- After the draft was stored.
abbrev kept : DebateChatState
kept = record spoken { changes = empty_changes }

abbrev written : Stored
written = record fresh {
  drafts = (0, said ∷ []) ∷ [];
  client_messages = (7, said) ∷ [];
  reads = 2;
  drawn = 1;
}

written-IsStored : IsStored bounds 0 written kept
unfolding drafts_at lookup turns_of resolve_speakers
written-IsStored = record {
  row = debate_row;
  debate = refl;
  fixed = record {
    id = refl;
    community_id = refl;
    speakers = refl;
    rebuttal_question_rounds = refl;
  };
  columns = record {
    status = refl;
    started_at = refl;
    ended_at = refl;
    expires_at = refl;
    winner_id = refl;
    end_reason = refl;
  };
  messages = refl;
  plain = tt;
  drafts = refl;
  later = λ i h. ground arith;
  client_messages = refl;
  same_limits = refl;
  reads = refl;
  drawn = refl;
  no_changes = refl;
}

kept-Inv : Inv 0 kept
kept-Inv = record {
  facts = record {
    schedule = refl;
    turns = tt;
    drafts = spoken-Inv.drafts;
    filed = spoken-Inv.filed;
    bounded = spoken-Inv.bounded;
  };
  running = λ h.
      let r = spoken-Inv.running h in
      record { begun = refl; not_ended = refl; no_reason = refl; has_turn = r.has_turn };
  unstarted = λ h. (refl, refl, refl);
}

abbrev first_turn : DebateChatTurn
first_turn = new_turn slow kept first_slot

kept-finalize_turn :
    finalize_turn slow (start slow kept) 10 first_command
    ≡ ok (
      record { turn = first_turn; ended = false; end_reason = none; outcome = none },
      push_turn kept first_turn,
    )
unfolding start finalize_turn confirm_turn assert_command_allowed current_slot current_position
    derive_current_turn at new build push_round push_rebuttals resolve_side next index_of find_index
    push_turn
kept-finalize_turn = refl

nothing_there : any (clashes (row_of 1 first_turn)) [] ≡ false
unfolding any
nothing_there = refl

with_state-finalize_turn_example :
    (w' : Stored) × (with_state
        (λ o. true)
        slow
        bounds
        (λ k. false)
        (λ t. finalize_turn slow t 10 first_command)
        written
      ≡ ok (record { turn = first_turn; ended = false; end_reason = none; outcome = none }, w'))
    × IsStored bounds 0 w' (drain_changes (push_turn kept first_turn)).1
unfolding push_turn
with_state-finalize_turn_example =
    with_state-finalize_turn (λ o. true) (λ o. refl) slow bounds (λ k. false) 0 (omega arith) refl 0
      written kept 10 first_command written-IsStored kept-Inv speakers_differ kept-finalize_turn
      nothing_there
