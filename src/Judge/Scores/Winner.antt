-- ===== src/Judge/Scores/Winner.antt =====
-- The totals and the winner that src/judge/debate-judge.service.ts derives from an answer.
use heimdall_backend.Common.{◌+◌, ◌*◌, ◌≤◌, ◌<◌, ◌≡◌, ◌≢◌, ok, arith, ℕ}
use heimdall_backend.Judge.Rows.{natural, SideJudgment, DebateJudgeResult, side_a, side_b}
use heimdall_backend.Judge.Scores.{
  double, SideScores, calculate_total_score, argumentation_weight, interaction_weight,
  factual_reliability_weight, max_score, decide_winner, validate_judgment, validate_side,
  validate_score,
}
use heimdall_backend.Judge.Scores.Rounding.{double-IsNear, double_mono}

-- Every score is at most MAX_SCORE.
abbrev pub IsValid : SideScores → Type 0
IsValid s =
    (s.argumentation_score ≤ max_score)
    × (s.interaction_score ≤ max_score)
    × (s.factual_reliability_score ≤ max_score)

-- The exact weighted sum, in tenths of a point.
abbrev pub tenths : SideScores → ℕ
tenths s = 4 * s.argumentation_score + 3 * s.interaction_score + 3 * s.factual_reliability_score

-- The total of valid scores is a nearest integer to the exact weighted sum: it is at most half a point off.
pub calculate_total_score_near :
    (s : SideScores)
    → IsValid s
    → (10 * calculate_total_score s ≤ tenths s + 5) × (tenths s ≤ 10 * calculate_total_score s + 5)
unfolding calculate_total_score
calculate_total_score_near s v =
    let a = s.argumentation_score * argumentation_weight in
    let i = s.interaction_score * interaction_weight in
    let f = s.factual_reliability_score * factual_reliability_weight in
    omega (
      arith,
      double-IsNear a,
      double-IsNear i,
      double-IsNear f,
      double-IsNear (double a + double i),
      double-IsNear (double (double a + double i) + double f),
    )

-- What the validator lets through are the scores of the answer, and they are in range.
pub validate_side-IsValid :
    (j : SideJudgment) {s : SideScores}
    → validate_side j ≡ ok s
    → IsValid s
      × (j.argumentation_score ≡ natural s.argumentation_score)
      × (j.interaction_score ≡ natural s.interaction_score)
      × (j.factual_reliability_score ≡ natural s.factual_reliability_score)
unfolding validate_side validate_score
validate_side-IsValid j e = ground arith

pub validate_judgment-sides :
    (result : DebateJudgeResult) {a b : SideScores}
    → validate_judgment result ≡ ok (a, b)
    → (validate_side result.side_a ≡ ok a) × (validate_side result.side_b ≡ ok b)
unfolding validate_judgment
validate_judgment-sides result e = ground arith

-- If the validator accepts an answer, then the scores that it hands on are those of the answer, and both totals are at most 100.
pub validated_totals :
    (result : DebateJudgeResult) {a b : SideScores}
    → validate_judgment result ≡ ok (a, b)
    → IsValid a
      × IsValid b
      × (calculate_total_score a ≤ max_score)
      × (calculate_total_score b ≤ max_score)
validated_totals result {a} {b} e =
    let (first, second) = validate_judgment-sides result e in
    let va = (validate_side-IsValid result.side_a first).0 in
    let vb = (validate_side-IsValid result.side_b second).0 in
    (
      va,
      vb,
      omega (arith, calculate_total_score_near a va),
      omega (arith, calculate_total_score_near b vb),
    )

mul_mono : (a b w : ℕ) → a ≤ b → a * w ≤ b * w
mul_mono a b w h = grind arith

+_mono : {a b c d : ℕ} → a ≤ b → c ≤ d → a + c ≤ b + d
+_mono h k = omega arith

-- A side with no lower score has no lower total.
calculate_total_score_mono :
    (s t : SideScores)
    → s.argumentation_score ≤ t.argumentation_score
    → s.interaction_score ≤ t.interaction_score
    → s.factual_reliability_score ≤ t.factual_reliability_score
    → calculate_total_score s ≤ calculate_total_score t
unfolding calculate_total_score
calculate_total_score_mono s t ha hi hf =
    let a = double_mono _ _ (mul_mono _ _ argumentation_weight ha) in
    let i = double_mono _ _ (mul_mono _ _ interaction_weight hi) in
    let f = double_mono _ _ (mul_mono _ _ factual_reliability_weight hf) in
    let ai = double_mono _ _ (+_mono a i) in let aif = double_mono _ _ (+_mono ai f) in omega arith

-- If no score of side A is lower than that of side B, then side B does not win.
pub decide_winner_dominant :
    (a b : SideScores)
    → b.argumentation_score ≤ a.argumentation_score
    → b.interaction_score ≤ a.interaction_score
    → b.factual_reliability_score ≤ a.factual_reliability_score
    → decide_winner (calculate_total_score a) (calculate_total_score b) ≢ side_b
unfolding decide_winner
decide_winner_dominant a b ha hi hf = ground (arith, calculate_total_score_mono b a ha hi hf)

-- Between valid scores, a side that is ahead by more than one point in the exact weighted sum wins.
pub decide_winner_ahead :
    (a b : SideScores)
    → IsValid a
    → IsValid b
    → tenths b + 10 < tenths a
    → (decide_winner (calculate_total_score a) (calculate_total_score b) ≡ side_a)
      × (decide_winner (calculate_total_score b) (calculate_total_score a) ≡ side_b)
unfolding decide_winner
decide_winner_ahead a b va vb ahead =
    ground (arith, calculate_total_score_near a va, calculate_total_score_near b vb)
