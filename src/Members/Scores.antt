-- ===== src/Members/Scores.antt =====
-- The credit and the rating of a member after deductSocialCredit and rewardWin of
-- src/members/members.service.ts.
use heimdall_backend.Common.{
  ℕ, ◌+◌, ◌≡◌, refl, ap, sym, ◌∙◌, Option, none, some, List, [], ◌∷◌, ◌==◌, ==_refl, ==_iff,
  if◌then◌else◌, arith, Option-cases, inl, inr, Bool-cases,
}
use mathlib.Core.Option
use heimdall_backend.Common.Int.{ℤ, pos, negsuc, sub_amount, sub_amount-add}
use heimdall_backend.Common.Tables.{find_one_by, update_where}
use heimdall_backend.Debate.Enums.{Uuid}
use heimdall_backend.Members.{
  Member, is_member, deduct, save_social_credit, deduct_social_credit, reward_win,
  debate_win_reward,
}

-- The member whose credit and rating have changed by so much.
abbrev pub scored : ℕ → ℕ → Member → Member
scored penalty reward m = record m {
  social_credit = sub_amount m.social_credit penalty;
  rating = m.rating + reward;
}

abbrev pub find_member : Uuid → List Member → Option Member
find_member id t = find_one_by (is_member id) t

sub_amount-zero : (x : ℤ) → sub_amount x 0 ≡ x
unfolding sub_amount
sub_amount-zero (pos n) = ground arith
sub_amount-zero (negsuc n) = ground arith

-- A row that is saved is found with its new credit, and no other changes.
find-save :
    (id : Uuid) (saved : Member) (t : List Member)
    → find_member id (save_social_credit saved t)
      ≡ Option.map
          (λ m. if saved.id == id then record m { social_credit = saved.social_credit } else m)
          (find_member id t)
unfolding find_one_by save_social_credit update_where
find-save id saved [] = refl
find-save id saved (m ∷ t) = ground (arith, find-save id saved t)

find-id : (id : Uuid) (t : List Member) {m : Member} → find_member id t ≡ some m → m.id ≡ id
unfolding find_one_by
find-id id [] e = cc
find-id id (x ∷ t) {m} e = ground (arith, find-id id t {m = m})

unscored : (o : Option Member) → Option.map (scored 0 0) o ≡ o
unscored none = refl
unscored (some m) = ground (arith, sub_amount-zero m.social_credit)

find-deduct :
    (i id : Uuid) (amount : ℕ) (t : List Member)
    → find_member i (deduct_social_credit id amount t)
      ≡ Option.map (scored (if i == id then amount else 0) 0) (find_member i t)
unfolding deduct_social_credit deduct
find-deduct i id amount t = elim (Bool-cases (amount == 0)) [
  | inl nothing ↦
      let free : amount ≡ 0 = (==_iff amount 0).0 nothing in
      rw (nothing, free) (ground (arith, unscored (find_member i t)))
  | inr some_amount ↦ elim (Option-cases (find_member id t)) [
    | inl missing ↦
        rw (some_amount, missing)
          (elim (Bool-cases (i == id)) [
            | inl here ↦ let same : i ≡ id = (==_iff i id).0 here in rw (same, missing) refl
            | inr elsewhere ↦ rw elsewhere (sym (unscored (find_member i t)))
          ])
    | inr (m, found) ↦
        rw (some_amount, found)
          (find-save i _ t ∙ elim (Bool-cases (i == id)) [
            | inl here ↦
                let same : i ≡ id = (==_iff i id).0 here in
                rw (same, found) (ground (arith, find-id id t found, ==_refl id))
            | inr elsewhere ↦ elim (Option-cases (find_member i t)) [
              | inl e ↦ rw e refl
              | inr (x, e) ↦
                  rw e (ground (arith, find-id id t found, sub_amount-zero x.social_credit))
            ]
          ])
  ]
]

find-reward :
    (i id : Uuid) (t : List Member)
    → find_member i (reward_win id t)
      ≡ Option.map (scored 0 (if i == id then debate_win_reward else 0)) (find_member i t)
unfolding find_one_by reward_win update_where
find-reward i id [] = refl
find-reward i id (m ∷ t) = ground (arith, find-reward i id t, sub_amount-zero m.social_credit)

scored-scored : (p q r u : ℕ) (m : Member) → scored q u (scored p r m) ≡ scored (p + q) (r + u) m
scored-scored p q r u m = ground (arith, sub_amount-add m.social_credit p q)

map-scored :
    (p q r u : ℕ) (o : Option Member)
    → Option.map (scored q u) (Option.map (scored p r) o) ≡ Option.map (scored (p + q) (r + u)) o
map-scored p q r u none = refl
map-scored p q r u (some m) = ap some (scored-scored p q r u m)

-- What one deduction of each side and the reward of a winner do to a member's scores.
pub find-deduct-deduct :
    (i a b : Uuid) (x y : ℕ) (t : List Member)
    → find_member i (deduct_social_credit b y (deduct_social_credit a x t))
      ≡ Option.map
          (scored ((if i == a then x else 0) + (if i == b then y else 0)) 0)
          (find_member i t)
find-deduct-deduct i a b x y t =
    find-deduct i b y (deduct_social_credit a x t)
    ∙ ap (Option.map (scored (if i == b then y else 0) 0)) (find-deduct i a x t)
    ∙ map-scored (if i == a then x else 0) (if i == b then y else 0) 0 0 (find_member i t)

pub find-reward-scored :
    (i id : Uuid) (p : ℕ) (t : List Member) (o : Option Member)
    → find_member i t ≡ Option.map (scored p 0) o
    → find_member i (reward_win id t)
      ≡ Option.map (scored p (if i == id then debate_win_reward else 0)) o
find-reward-scored i id p t o e =
    let r = if i == id then debate_win_reward else 0 in
    let left : p + 0 ≡ p = omega arith in
    let right : 0 + r ≡ r = omega arith in
    find-reward i id t
    ∙ ap (Option.map (scored 0 (if i == id then debate_win_reward else 0))) e
    ∙ map-scored p 0 0 (if i == id then debate_win_reward else 0) o
    ∙ (ap (λ (n : ℕ). Option.map (scored n (0 + r)) o) left
        ∙ ap (λ (n : ℕ). Option.map (scored p n) o) right)
