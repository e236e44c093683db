-- ===== src/Outcomes/Repeated.antt =====
-- An outcome that is applied again (src/debate-outcomes/debate-outcome.service.ts).
use heimdall_backend.Common.{
  ◌≡◌, refl, true, false, none, some, List, [], ◌∷◌, ◌++◌, ok, arith, Option-cases, Bool-cases, inl,
  inr, any, any-append, ==_refl, ◌==◌,
}
use heimdall_backend.Common.Tables.{update_where_again}
use heimdall_backend.Database.{Database, find_debate, exists_active_by_community}
use heimdall_backend.Debate.Enums.{DebateOutcome, Uuid}
use heimdall_backend.Debate.Rows.{Debate}
use heimdall_backend.Communities.{
  mark_active, mark_waiting, create_message, CommunityMessage, conflicts, message_type_eq,
  CommunityChatMessageType, change_state, Community, CommunityState, ClientMessageId, of_debate,
  of_client, client_message_id_eq, waiting, active,
}
use heimdall_backend.Outcomes.Frame.{reward_winner-debates, store_message-debates}
use heimdall_backend.Outcomes.{
  Wording, MessageDraw, apply_within, reward_winner, store_message, create, sync_community_state,
  message_type_of,
}

message_type_eq_refl : (t : CommunityChatMessageType) → message_type_eq t t ≡ true
message_type_eq_refl t = ground arith

client_message_id_eq_refl : (k : ClientMessageId) → client_message_id_eq k k ≡ true
client_message_id_eq_refl (of_debate t d) = ground (arith, message_type_eq_refl t, ==_refl d)
client_message_id_eq_refl (of_client i) = ==_refl i

-- The drawn id is in no row.
abbrev pub IsFresh : Uuid → List CommunityMessage → Type 0
IsFresh id t = any (λ x. x.id == id) t ≡ false

conflicts_by_key :
    (first second : CommunityMessage) (t : List CommunityMessage)
    → second.community_id ≡ first.community_id
    → second.client_message_id ≡ first.client_message_id
    → IsFresh first.id t
    → any (conflicts first) t ≡ true
    → any (conflicts second) t ≡ true
unfolding any
conflicts_by_key first second [] c k n h = cc
conflicts_by_key first second (x ∷ t) c k n h = ground (arith, conflicts_by_key first second t c k)

-- A message with the same key is not stored again.
create_message_again :
    (first second : CommunityMessage) (t : List CommunityMessage)
    → second.community_id ≡ first.community_id
    → second.client_message_id ≡ first.client_message_id
    → IsFresh first.id t
    → (create_message second (create_message first t).2).2 ≡ (create_message first t).2
unfolding create_message any
create_message_again first second t c k n = elim (Bool-cases (any (conflicts first) t)) [
  | inl there ↦ let again = conflicts_by_key first second t c k n there in rw (there, again) refl
  | inr absent ↦
      let again : any (conflicts second) (t ++ first ∷ []) ≡ true = ground (
        arith,
        any-append (conflicts second) t (first ∷ []),
        client_message_id_eq_refl first.client_message_id,
        ==_refl first.community_id,
      ) in
      rw (absent, again) refl
]

-- The two messages of outcomes with the same kind, debate and community.
same_message :
    (w v : Wording) (draw late : MessageDraw) (first second : DebateOutcome) (d e : Debate)
    {m n : CommunityMessage}
    → second.kind ≡ first.kind
    → second.debate_id ≡ first.debate_id
    → second.community_id ≡ first.community_id
    → create w draw first d ≡ some m
    → create v late second e ≡ some n
    → (n.community_id ≡ m.community_id)
      × (n.client_message_id ≡ m.client_message_id)
      × (m.id ≡ draw.id)
unfolding create
same_message w v draw late first second d e k i c p q =
    elim (Option-cases (message_type_of first.kind)) [
      | inl silent ↦ absurd (ground arith)
      | inr (type, told) ↦
          let told' : message_type_of second.kind ≡ some type = rw k told in ground arith
    ]

both_or_none :
    (w v : Wording) (draw late : MessageDraw) (first second : DebateOutcome) (d e : Debate)
    → second.kind ≡ first.kind
    → create w draw first d ≡ none
    → create v late second e ≡ none
unfolding create
both_or_none w v draw late first second d e k p = elim (Option-cases (message_type_of first.kind)) [
  | inl silent ↦
      let silent' : message_type_of second.kind ≡ none = rw k silent in rw (silent', create) refl
  | inr (type, told) ↦ absurd (ground arith)
]

-- What an application that succeeded wrote.
applied :
    (w : Wording) (draw : MessageDraw) (outcome : DebateOutcome) (db : Database) {after : Database}
    → apply_within w draw outcome db ≡ ok after
    → (debate : Debate) × (after.debates ≡ db.debates)
      × (after.community_messages
          ≡ (store_message (create w draw outcome debate) db).community_messages)
      × (after.communities ≡ (sync_community_state outcome.community_id db).communities)
unfolding apply_within reward_winner store_message sync_community_state exists_active_by_community
applied w draw outcome db {after} e =
    let rewarded = reward_winner outcome.winner_id db in
    elim (Option-cases (find_debate outcome.debate_id rewarded)) [
      | inl missing ↦ absurd (ground arith)
      | inr (debate, found) ↦
          let message = create w draw outcome debate in
          let told = store_message message rewarded in
          let done : sync_community_state outcome.community_id told ≡ after = ground arith in
          let paid = reward_winner-debates outcome.winner_id db in
          let stored = store_message-debates message rewarded in
          (
            debate,
            ground (arith, done, paid, stored),
            ground (arith, done, paid, stored, Option-cases message),
            ground (arith, done, paid, stored),
          )
    ]

-- Setting the state of a community again changes nothing.
change_state_again :
    (id : Uuid) (next : CommunityState) (t : List Community)
    → change_state id next (change_state id next t) ≡ change_state id next t
unfolding change_state
change_state_again id next t = update_where_again _ _ t (λ x h. refl)

-- If an outcome was applied, then applying one of the same kind for the same debate again, with
-- another draw, adds no message to the community and leaves the state of the communities alone,
-- provided the id drawn first was in no message.
pub apply_within_again :
    (w v : Wording) (draw late : MessageDraw) (first second : DebateOutcome) (db : Database)
    {after twice : Database}
    → second.kind ≡ first.kind
    → second.debate_id ≡ first.debate_id
    → second.community_id ≡ first.community_id
    → IsFresh draw.id db.community_messages
    → apply_within w draw first db ≡ ok after
    → apply_within v late second after ≡ ok twice
    → (twice.community_messages ≡ after.community_messages)
      × (twice.communities ≡ after.communities)
unfolding store_message sync_community_state exists_active_by_community mark_active mark_waiting
apply_within_again w v draw late first second db {after} {twice} k i c fresh one two =
    let (d, debates, messages, communities) = applied w draw first db one in
    let (e, debates', messages', communities') = applied v late second after two in
    let active_still : exists_active_by_community first.community_id after
        ≡ exists_active_by_community first.community_id db =
      ground (arith, debates) in
    let quiet : twice.community_messages ≡ after.community_messages =
      elim (Option-cases (create w draw first d)) [
        | inl silent ↦
            ground (arith, messages', both_or_none w v draw late first second d e k silent)
        | inr (m, told) ↦ elim (Option-cases (create v late second e)) [
          | inl silent ↦ ground (arith, messages', silent)
          | inr (n, told') ↦
              let (place, key, drawn) =
                same_message w v draw late first second d e k i c told told' in
              ground (
                arith,
                messages,
                messages',
                told,
                told',
                drawn,
                create_message_again m n db.community_messages place key,
              )
        ]
      ] in
    (
      quiet,
      elim (Bool-cases (exists_active_by_community first.community_id db)) [
        | inl busy ↦ ground (
          arith,
          communities,
          communities',
          busy,
          active_still,
          change_state_again first.community_id active db.communities,
        )
        | inr idle ↦ ground (
          arith,
          communities,
          communities',
          idle,
          active_still,
          change_state_again first.community_id waiting db.communities,
        )
      ],
    )
