-- ===== src/Judge/Rows.antt =====
-- What the judging pipeline stores and what it asks of a language model: the enumerations of
-- src/judge/judge.types.ts, the entities of src/judge/entities, and the types of
-- src/judge/llm/judge-llm.ts. An alias of a component enters only through equality, so it is a number.
use heimdall_backend.Common.{ℕ, Option, Bool, List}
use heimdall_backend.Common.Text.{Text}
use heimdall_backend.Debate.Enums.{Uuid, Millis, DebatePhase, DebateSide}

pub data ArgumentComponentKind : Type 0 where
  claim evidence question rebuttal : ArgumentComponentKind

pub data ArgumentRelationKind : Type 0 where
  support attack question : ArgumentRelationKind

pub data VerificationStatus : Type 0 where
  supported contradicted partially_supported insufficient_evidence not_verifiable outdated :
      VerificationStatus

pub data JudgmentWinner : Type 0 where
  side_a side_b draw : JudgmentWinner

pub record FactCheckSource : Type 0 where
  pub title : Text
  pub publisher : Text
  pub url : Text

pub data ViolationType : Type 0 where
  profanity personal_attack disrespect off_topic threat : ViolationType

pub data ViolationSeverity : Type 0 where
  minor moderate high severe : ViolationSeverity

pub record DebateViolation : Type 0 where
  pub type : ViolationType
  pub severity : ViolationSeverity
  pub evidence : Text

pub record DebateArgumentComponent : Type 0 where
  pub id : Uuid
  pub debate_id : Uuid
  pub turn_id : Uuid
  pub turn_sequence : ℕ
  pub speaker_id : Uuid
  pub speaker_side : DebateSide
  pub kind : ArgumentComponentKind
  pub statement : Text
  pub needs_fact_check : Bool
  pub created_at : Millis

-- The column `created_at` is never read.
pub record DebateArgumentRelation : Type 0 where
  pub id : Uuid
  pub debate_id : Uuid
  pub from_component_id : Uuid
  pub to_component_id : Uuid
  pub kind : ArgumentRelationKind

pub record DebateFactCheckResult : Type 0 where
  pub id : Uuid
  pub debate_id : Uuid
  pub component_id : Uuid
  pub status : VerificationStatus
  pub reason : Text
  pub checked_at : Millis
  pub sources : List FactCheckSource

abbrev pub Ref : Type 0
Ref = ℕ

pub record AnalyzedComponent : Type 0 where
  pub ref : Ref
  pub kind : ArgumentComponentKind
  pub statement : Text
  pub needs_fact_check : Bool

pub record AnalyzedRelation : Type 0 where
  pub from_ref : Ref
  pub to_ref : Ref
  pub kind : ArgumentRelationKind

pub record AnalyzerResult : Type 0 where
  pub components : List AnalyzedComponent
  pub relations : List AnalyzedRelation

pub record JudgeTranscriptTurn : Type 0 where
  pub sequence : ℕ
  pub phase : DebatePhase
  pub round : ℕ
  pub speaker_side : DebateSide
  pub speaker_nickname : Text
  pub content : Text

pub record JudgeComponentSummary : Type 0 where
  pub ref : Ref
  pub speaker_side : DebateSide
  pub kind : ArgumentComponentKind
  pub statement : Text
  pub fact_check : Option (VerificationStatus × Text)

pub record JudgeRelationSummary : Type 0 where
  pub from_ref : Ref
  pub to_ref : Ref
  pub kind : ArgumentRelationKind

-- The field `logContext` goes to the log only.
pub record DebateJudgeRequest : Type 0 where
  pub topic : Text
  pub side_a_nickname : Text
  pub side_b_nickname : Text
  pub turns : List JudgeTranscriptTurn
  pub components : List JudgeComponentSummary
  pub relations : List JudgeRelationSummary

-- A JavaScript number that a language model answered: a natural number, or one that
-- `Number.isInteger(score) && score >= 0` refuses.
pub data Score : Type 0 where
  natural : ℕ → Score
  other : Score

pub record SideJudgment : Type 0 where
  pub argumentation_score : Score
  pub interaction_score : Score
  pub factual_reliability_score : Score
  pub feedback : Text
  pub violations : List DebateViolation

pub record DebateJudgeResult : Type 0 where
  pub side_a : SideJudgment
  pub side_b : SideJudgment
  pub overall_reason : Text
  pub model : Text

-- What the judgment stores of one side.
pub record SideResult : Type 0 where
  pub argumentation_score : ℕ
  pub interaction_score : ℕ
  pub factual_reliability_score : ℕ
  pub total_score : ℕ
  pub feedback : Text
  pub violations : List DebateViolation
  pub social_credit_penalty : ℕ

-- The columns of the two sides are grouped by side.
pub record DebateJudgmentResult : Type 0 where
  pub id : Uuid
  pub debate_id : Uuid
  pub winner : JudgmentWinner
  pub side_a : SideResult
  pub side_b : SideResult
  pub overall_reason : Text
  pub model : Text
  pub judged_at : Millis
