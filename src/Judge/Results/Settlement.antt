-- ===== src/Judge/Results/Settlement.antt =====
-- A debate is judged or closed once: completeJudgment and failJudgment of
-- src/judge/judge-result.repository.ts.
use heimdall_backend.Common.{
  ◌≡◌, refl, Bool, true, false, ok, err, arith, Result, Result-cases, [], ◌∷◌, Bool-cases, any, inl,
  inr, ap,
}
use heimdall_backend.Common.Tables.{
  is_affected, update_where, update_where-unaffected, is_affected-update_where,
}
use heimdall_backend.Database.{Database}
use heimdall_backend.Debate.Enums.{Uuid, Millis, DebateStatus, judgment_failed}
use heimdall_backend.Debate.Rows.{Debate}
use heimdall_backend.Judge.Results.{
  ResultError, already_settled, SaveJudgmentInput, is_in_stage, judgeable_statuses, status_in,
  DebateTransitionOptions, transition_debate, no_options, replace_judgment, judgment_of,
  complete_judgment, fail_judgment, start_judging, in_next_stage,
}
use mathlib.Core.Option.{none, some}

-- No row of the debate can be judged or closed any more.
abbrev pub IsSettled : Uuid → Database → Type 0
IsSettled debate_id db =
    is_affected (is_in_stage debate_id judgeable_statuses none) db.debates ≡ false

-- The work that is passed as `withinTransaction` leaves the debates alone.
abbrev pub KeepsDebates : (Database → Result ResultError Database) → Type 0
KeepsDebates within_transaction =
    (db after : Database) → within_transaction db ≡ ok after → after.debates ≡ db.debates

-- A row that is moved out of the judgeable stages is not among them.
out_of_stage :
    (debate_id : Uuid) (next : DebateStatus) (options : DebateTransitionOptions) (now : Millis)
    (d : Debate)
    → status_in judgeable_statuses (some next) ≡ false
    → is_in_stage debate_id judgeable_statuses none (in_next_stage next options now d) ≡ false
out_of_stage debate_id next options now d h = ground arith

ends_stage :
    (status_in judgeable_statuses (some DebateStatus.completed) ≡ false)
    × (status_in judgeable_statuses (some DebateStatus.failed) ≡ false)
unfolding any
ends_stage = (refl, refl)

pub complete_judgment-IsSettled :
    (id : Uuid) (input : SaveJudgmentInput)
    (within_transaction : Database → Result ResultError Database) (now : Millis) (db : Database)
    {after : Database}
    → KeepsDebates within_transaction
    → complete_judgment id input within_transaction now db ≡ ok after
    → IsSettled input.debate_id after
unfolding complete_judgment
complete_judgment-IsSettled id input within_transaction now db {after} keep e =
    let options = record no_options { winner_id = some input.winner_id } in
    let moved =
      transition_debate input.debate_id DebateStatus.completed judgeable_statuses options now db in
    let tables : Database = record moved.1 {
      judgments = replace_judgment (judgment_of id now input) db.judgments;
    } in
    elim (Bool-cases moved.0) [
      | inr idle ↦ absurd (ground arith)
      | inl done ↦
          let same : within_transaction tables ≡ ok after = ground arith in
          rw (keep tables after same) (
            is_affected-update_where _ _ db.debates (λ d h.
              out_of_stage input.debate_id DebateStatus.completed options now d ends_stage.0))
    ]

-- The tables with the debate completed and its judgment stored.
abbrev pub judged_tables : Uuid → SaveJudgmentInput → Millis → Database → Database
judged_tables id input now db = record db {
  debates =
      update_where (is_in_stage input.debate_id judgeable_statuses none)
        (in_next_stage DebateStatus.completed
          (record no_options { winner_id = some input.winner_id }) now)
        db.debates;
  judgments = replace_judgment (judgment_of id now input) db.judgments;
}

pub complete_judgment_open :
    (id : Uuid) (input : SaveJudgmentInput)
    (within_transaction : Database → Result ResultError Database) (now : Millis) (db : Database)
    → is_affected (is_in_stage input.debate_id judgeable_statuses none) db.debates ≡ true
    → complete_judgment id input within_transaction now db
      ≡ within_transaction (judged_tables id input now db)
unfolding complete_judgment
complete_judgment_open id input within_transaction now db h = rw h

pub complete_judgment_settled :
    (id : Uuid) (input : SaveJudgmentInput)
    (within_transaction : Database → Result ResultError Database) (now : Millis) (db : Database)
    → IsSettled input.debate_id db
    → complete_judgment id input within_transaction now db ≡ err already_settled
unfolding complete_judgment
complete_judgment_settled id input within_transaction now db h = rw h refl

pub fail_judgment_settled :
    (debate_id : Uuid) (within_transaction : Database → Result ResultError Database) (now : Millis)
    (db : Database)
    → IsSettled debate_id db
    → fail_judgment debate_id within_transaction now db ≡ ok (false, db)
unfolding fail_judgment
fail_judgment_settled debate_id within_transaction now db h = ground (
  arith,
  update_where-unaffected (is_in_stage debate_id judgeable_statuses none)
      (in_next_stage DebateStatus.failed (record no_options { end_reason = some judgment_failed })
        now)
      db.debates h,
)

-- Closing a debate that was open to a judgment settles it.
pub fail_judgment-IsSettled :
    (debate_id : Uuid) (within_transaction : Database → Result ResultError Database) (now : Millis)
    (db : Database) {moved : Bool} {after : Database}
    → KeepsDebates within_transaction
    → fail_judgment debate_id within_transaction now db ≡ ok (moved, after)
    → IsSettled debate_id after
unfolding fail_judgment
fail_judgment-IsSettled debate_id within_transaction now db {moved} {after} keep e =
    let options = record no_options { end_reason = some judgment_failed } in
    let tables =
      transition_debate debate_id DebateStatus.failed judgeable_statuses options now db in
    elim (Bool-cases tables.0) [
      | inr idle ↦
          let same : after ≡ tables.1 = ground arith in
          rw same (rw (update_where-unaffected _ _ db.debates idle) idle)
      | inl done ↦ elim (Result-cases (within_transaction tables.1)) [
        | inr (e', refused) ↦ absurd (ground arith)
        | inl (d, worked) ↦
            let same : d ≡ after = ground arith in
            rw (← same, keep tables.1 d worked)
              (is_affected-update_where _ _ db.debates
                (λ d h. out_of_stage debate_id DebateStatus.failed options now d ends_stage.1))
      ]
    ]

-- A debate that was moved to the judging stage is not moved there again.
pub start_judging_again :
    (debate_id : Uuid) (now later : Millis) (db : Database)
    → start_judging debate_id later (start_judging debate_id now db).1
      ≡ (false, (start_judging debate_id now db).1)
unfolding start_judging any
start_judging_again debate_id now later db =
    let stage = is_in_stage debate_id (DebateStatus.debate_finalized ∷ []) none in
    let gone =
      is_affected-update_where stage (in_next_stage DebateStatus.judging no_options now) db.debates
        (λ d h. ground arith) in
    let same =
      update_where-unaffected stage (in_next_stage DebateStatus.judging no_options later)
        (update_where stage (in_next_stage DebateStatus.judging no_options now) db.debates) gone in
    ground (arith, gone, same)

-- The rows of the debates after a closing.
pub fail_judgment-debates :
    (debate_id : Uuid) (within_transaction : Database → Result ResultError Database) (now : Millis)
    (db : Database) {moved : Bool} {after : Database}
    → KeepsDebates within_transaction
    → fail_judgment debate_id within_transaction now db ≡ ok (moved, after)
    → after.debates
      ≡ update_where
          (is_in_stage debate_id judgeable_statuses none)
          (in_next_stage DebateStatus.failed
            (record no_options { end_reason = some judgment_failed })
            now)
          db.debates
unfolding fail_judgment
fail_judgment-debates debate_id within_transaction now db {moved} {after} keep e =
    let options = record no_options { end_reason = some judgment_failed } in
    let tables =
      transition_debate debate_id DebateStatus.failed judgeable_statuses options now db in
    elim (Bool-cases tables.0) [
      | inr idle ↦ let same : after ≡ tables.1 = ground arith in ap (λ t. t.debates) same
      | inl done ↦ elim (Result-cases (within_transaction tables.1)) [
        | inr (e', refused) ↦ absurd (ground arith)
        | inl (d, worked) ↦
            let same : d ≡ after = ground arith in rw (← same) (keep tables.1 d worked)
      ]
    ]
