-- ===== src/Auth/RefreshTokens.antt =====
-- The class RefreshTokenService of src/auth/refresh-token.service.ts over the table of stored tokens,
-- with src/auth/entities/refresh-token.entity.ts. A presented token enters only
-- by its sha256 hash, which is a number here. The instants `app_now` and `db_now` are the clocks of the application and of the database.
use heimdall_backend.Common.{
  ℕ, Bool, true, false, not, ◌&&◌, Option, none, some, List, [], ◌∷◌, ◌==◌, ltb, any, ◌++◌,
  if◌then◌else◌, is_some, Result, ok, err,
}
use heimdall_backend.Debate.Enums.{Uuid, Millis}

pub record RefreshToken : Type 0 where
  pub id : Uuid
  pub member_id : Uuid
  pub token_hash : ℕ
  pub expires_at : Millis
  pub revoked_at : Option Millis
  pub replaced_by_id : Option Uuid

-- INVALID_REFRESH_TOKEN, and the unique violation of the index on the hash.
pub data AuthError : Type 0 where
  invalid_refresh_token duplicate_hash : AuthError

unfoldable pub is_active : RefreshToken → Millis → Bool
is_active t now = not (is_some t.revoked_at) && ltb now t.expires_at

unfoldable pub find_by_hash : ℕ → List RefreshToken → Option RefreshToken
find_by_hash h [] = none
find_by_hash h (t ∷ ts) = if t.token_hash == h then some t else find_by_hash h ts

-- A conditional UPDATE, and whether it affected a row.
unfoldable pub update_where :
    (RefreshToken → Bool) → (RefreshToken → RefreshToken) → List RefreshToken → List RefreshToken
update_where p f [] = []
update_where p f (t ∷ ts) = (if p t then f t else t) ∷ update_where p f ts

abbrev pub revoked : Millis → RefreshToken → RefreshToken
revoked now t = record t { revoked_at = some now }

-- `revoke`: logging out.
unfoldable pub revoke : Uuid → ℕ → Millis → List RefreshToken → List RefreshToken
revoke member_id token_hash now =
    update_where
      (λ t. t.member_id == member_id && (t.token_hash == token_hash && not (is_some t.revoked_at)))
      (revoked now)

unfoldable pub revoke_all_for_member : Uuid → Millis → List RefreshToken → List RefreshToken
revoke_all_for_member member_id now =
    update_where (λ t. t.member_id == member_id && not (is_some t.revoked_at)) (revoked now)

-- `findRotatableOrThrow`, with the table that `rejectAsReuse` leaves.
unfoldable pub find_rotatable :
    Uuid
    → ℕ
    → Millis
    → Millis
    → List RefreshToken
    → Result AuthError RefreshToken × List RefreshToken
find_rotatable member_id token_hash app_now db_now ts = elim (find_by_hash token_hash ts) [
  | none ↦ (err invalid_refresh_token, ts)
  | some stored ↦
      if stored.member_id == member_id
      then if is_some stored.revoked_at
        then (err invalid_refresh_token, revoke_all_for_member member_id db_now ts)
        else if is_active stored app_now
        then (ok stored, ts)
        else (err invalid_refresh_token, ts)
      else (err invalid_refresh_token, ts)
]

-- RefreshToken.issue, with the id that `rotate` chooses.
unfoldable pub issue : Uuid → Uuid → ℕ → Millis → RefreshToken
issue id member_id token_hash expires_at = record {
  id = id;
  member_id = member_id;
  token_hash = token_hash;
  expires_at = expires_at;
  revoked_at = none;
  replaced_by_id = none;
}

-- The WHERE and the SET of the revocation in `rotate`.
abbrev pub is_rotatable : Uuid → Millis → RefreshToken → Bool
is_rotatable id db_now t = t.id == id && (not (is_some t.revoked_at) && ltb db_now t.expires_at)

abbrev pub replaced : Millis → Uuid → RefreshToken → RefreshToken
replaced now by t = record t { revoked_at = some now; replaced_by_id = some by }

-- The transaction of `rotate`: whether it rotated, and the table; a violation rolls it back.
unfoldable pub rotate_row :
    Uuid → RefreshToken → Millis → List RefreshToken → Result AuthError Bool × List RefreshToken
rotate_row current_id issued db_now ts =
    if any (is_rotatable current_id db_now) ts
    then if is_some (find_by_hash issued.token_hash ts) then (err duplicate_hash, ts) else (
      ok true,
      update_where (is_rotatable current_id db_now) (replaced db_now issued.id) ts ++ issued ∷ [],
    )
    else (ok false, ts)

-- The clocks that one call reads, in order: for the check, in the transaction, and after it.
pub record RotationClock : Type 0 where
  pub app_at_check : Millis
  pub db_at_check : Millis
  pub db_at_rotation : Millis
  pub app_after : Millis
  pub db_after : Millis

-- `rejectFailedRotation`
unfoldable pub reject_failed_rotation :
    Uuid → ℕ → Millis → Millis → List RefreshToken → AuthError × List RefreshToken
reject_failed_rotation member_id token_hash app_now db_now ts =
    let (found, ts') = find_rotatable member_id token_hash app_now db_now ts in
    elim found [ ok stored ↦ (invalid_refresh_token, ts') | err e ↦ (e, ts') ]

-- What other requests do to the table between the check and the transaction is `others`, and
-- between the transaction and the second look `others'`.
unfoldable pub rotate :
    Uuid
    → ℕ
    → RefreshToken
    → RotationClock
    → (List RefreshToken → List RefreshToken)
    → (List RefreshToken → List RefreshToken)
    → List RefreshToken
    → Result AuthError (Unit {0}) × List RefreshToken
rotate member_id token_hash issued c others others' ts =
    let (found, checked) = find_rotatable member_id token_hash c.app_at_check c.db_at_check ts in
    elim found [
      | err e ↦ (err e, checked)
      | ok current ↦
          let (rotated, after) = rotate_row current.id issued c.db_at_rotation (others checked) in
          elim rotated [
            | err e ↦ (err e, after)
            | ok won ↦
                let (e, rejected) =
                  reject_failed_rotation member_id token_hash c.app_after c.db_after
                    (others' after) in
                if won then (ok tt, after) else (err e, rejected)
          ]
    ]
