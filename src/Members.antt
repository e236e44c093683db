-- ===== src/Members.antt =====
-- The scores of a member: src/members/members.service.ts (deductSocialCredit, rewardWin and
-- findByIds) over the table of members, with src/members/entities/member.entity.ts. The columns are
-- doubles that only whole numbers are added to and taken from, so a credit is an integer and a
-- rating a number.
pub mod Scores
use heimdall_backend.Common.{
  ℕ, ◌+◌, Bool, ◌&&◌, ◌||◌, none, some, List, [], ◌∷◌, ◌==◌, if◌then◌else◌, ◌≡◌,
}
use heimdall_backend.Common.Text.{Text}
use heimdall_backend.Common.Int.{ℤ, pos, sub_amount}
use heimdall_backend.Common.Tables.{find_one_by, find_by, update_where, id_in}
use heimdall_backend.Debate.Enums.{Uuid, ResourceStatus, is_normal}

-- INITIAL_SOCIAL_CREDIT
abbrev pub initial_social_credit : ℤ
initial_social_credit = pos 100

-- DEBATE_WIN_REWARD
abbrev pub debate_win_reward : ℕ
debate_win_reward = 10

-- The columns that the modelled code uses.
pub record Member : Type 0 where
  pub id : Uuid
  pub nickname : Text
  pub social_credit : ℤ
  pub rating : ℕ
  pub status : ResourceStatus

-- `{ id: memberId, status: ResourceStatus.NORMAL }`
abbrev pub is_member : Uuid → Member → Bool
is_member member_id m = m.id == member_id && is_normal m.status

-- The method of the entity.
unfoldable pub deduct : ℕ → Member → Member
unfolding sub_amount
deduct amount m =
    if amount == 0 then m else record m { social_credit = sub_amount m.social_credit amount }

-- `repository.save(member)`: the one column that was changed is written.
unfoldable pub save_social_credit : Member → List Member → List Member
save_social_credit saved =
    update_where (λ x. x.id == saved.id) (λ x. record x { social_credit = saved.social_credit })

unfoldable pub deduct_social_credit : Uuid → ℕ → List Member → List Member
deduct_social_credit member_id amount t =
    if amount == 0 then t else elim (find_one_by (is_member member_id) t) [
      | none ↦ t
      | some m ↦ save_social_credit (deduct amount m) t
    ]

unfoldable pub reward_win : Uuid → List Member → List Member
reward_win member_id =
    update_where (is_member member_id) (λ m. record m { rating = m.rating + debate_win_reward })

unfoldable pub find_by_ids : List Uuid → List Member → List Member
find_by_ids ids t = find_by (λ m. id_in ids m.id && is_normal m.status) t
