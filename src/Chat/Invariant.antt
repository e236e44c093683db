-- ===== src/Chat/Invariant.antt =====
-- What holds of a debate between two commands.
use heimdall_backend.Common.{
  ℕ, suc, ◌+◌, ◌≤◌, ◌<◌, ◌≡◌, true, none, some, List, [], ◌∷◌, ◌++◌, length, All, is_some, arith,
}
use heimdall_backend.Debate.Enums.{Uuid, ready, in_progress}
use heimdall_backend.Debate.Rows.{DraftMessage, DebateChatTurn, TurnSlot}
use heimdall_backend.Debate.Schedule.{new, size, at}
use heimdall_backend.Debate.Turns.{DebateSpeakers, speaker_of}
use heimdall_backend.Chat.Types.{DebateChatState}
use heimdall_backend.Chat.State.{total_characters}

-- The slot that a message names.
abbrev pub slot_of_message : DraftMessage → TurnSlot
slot_of_message d = record { phase = d.phase; round = d.round; side = d.speaker_side }

-- A message of the debate, for the turn at `i`, by the speaker of that turn.
pub record IsMessageAt (debate_id : Uuid) (speakers : DebateSpeakers) (rounds i : ℕ)
    (d : DraftMessage) : Type 0 where
  pub slot : at (new rounds) i ≡ some (slot_of_message d)
  pub speaker : d.speaker_id ≡ speaker_of speakers d.speaker_side
  pub debate : d.debate_id ≡ debate_id

-- The confirmed turns are the first ones of the schedule, in order, numbered from 1.
module _ (debate_id : Uuid) (speakers : DebateSpeakers) (rounds : ℕ) where
  abbrev pub AreTurnsFrom : ℕ → List DebateChatTurn → Type 0
  AreTurnsFrom i [] = Unit {0}
  AreTurnsFrom i (t ∷ ts) =
      IsMessageAt debate_id speakers rounds i t.draft
      × (t.sequence ≡ suc i)
      × AreTurnsFrom (suc i) ts

  pub AreTurnsFrom-snoc :
      (i j : ℕ) (ts : List DebateChatTurn) (t : DebateChatTurn)
      → j ≡ i + length ts
      → AreTurnsFrom i ts
      → IsMessageAt debate_id speakers rounds j t.draft
      → t.sequence ≡ suc j
      → AreTurnsFrom i (ts ++ t ∷ [])
  AreTurnsFrom-snoc i j [] t e h m q = let p : i ≡ j = omega arith in rw p (m, q, tt)
  AreTurnsFrom-snoc i j (u ∷ ts) t e h m q =
      (h.0, h.1, AreTurnsFrom-snoc (suc i) j ts t (omega arith) h.2 m q)

-- Each remembered message is filed under its own client message id.
abbrev pub AreFiled : List (Uuid × DraftMessage) → Type 0
AreFiled m = All (λ e. e.1.client_message_id ≡ some e.0) m

pub record IsRunning (s : DebateChatState) : Type 0 where
  pub begun : is_some s.started_at ≡ true
  pub not_ended : s.ended_at ≡ none
  pub no_reason : s.end_reason ≡ none
  pub has_turn : length s.turns < size s.schedule

-- The facts that hold in every status.
pub record IsConsistent (rounds : ℕ) (s : DebateChatState) : Type 0 where
  pub schedule : s.schedule ≡ new rounds
  pub turns : AreTurnsFrom s.debate_id s.speakers rounds 0 s.turns
  pub drafts : All (IsMessageAt s.debate_id s.speakers rounds (length s.turns)) s.drafts
  pub filed : AreFiled s.drafts_by_client_message_id
  pub bounded : total_characters s.drafts ≤ s.limits.max_total_characters

pub record Inv (rounds : ℕ) (s : DebateChatState) : Type 0 where
  pub facts : IsConsistent rounds s
  pub open facts use *
  pub running : s.status ≡ in_progress → IsRunning s
  pub unstarted : s.status ≡ ready → (s.turns ≡ []) × (s.ended_at ≡ none) × (s.end_reason ≡ none)

pub total_characters-append :
    (ds es : List DraftMessage)
    → total_characters (ds ++ es) ≡ total_characters ds + total_characters es
unfolding total_characters
total_characters-append [] es = omega arith
total_characters-append (d ∷ ds) es = omega (arith, total_characters-append ds es)
