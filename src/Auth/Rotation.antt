-- ===== src/Auth/Rotation.antt =====
-- What rotation promises (src/auth/refresh-token.service.ts): a refresh token is good for one
-- rotation, and a second use of it ends every session of the member.
use heimdall_backend.Common.{
  ℕ, ◌≡◌, refl, ap, ◌∙◌, inl, inr, true, false, some, List, [], ◌∷◌, ◌++◌, ◌==◌, any, if◌then◌else◌,
  is_some, ok, err, arith, All, Bool-cases, Result-cases,
}
use heimdall_backend.Debate.Enums.{Uuid, Millis}
use heimdall_backend.Auth.RefreshTokens.{
  RefreshToken, AuthError, invalid_refresh_token, is_active, find_by_hash, update_where,
  revoke_all_for_member, find_rotatable, is_rotatable, replaced, rotate_row, RotationClock, rotate,
}

-- Every session of the member has been ended.
abbrev pub AllRevoked : Uuid → List RefreshToken → Type 0
AllRevoked member_id ts = All (λ t. t.member_id ≡ member_id → is_some t.revoked_at ≡ true) ts

-- Ending a member's sessions ends them all.
pub revoke_all_for_member-AllRevoked :
    (member_id : Uuid) (now : Millis) (ts : List RefreshToken)
    → AllRevoked member_id (revoke_all_for_member member_id now ts)
unfolding revoke_all_for_member update_where
revoke_all_for_member-AllRevoked member_id now [] = tt
revoke_all_for_member-AllRevoked member_id now (t ∷ ts) =
    (ground arith, revoke_all_for_member-AllRevoked member_id now ts)

-- A token that is presented again after it was revoked is refused, and ends the member's sessions.
pub find_rotatable_reuse :
    (member_id : Uuid) (token_hash : ℕ) (app_now db_now : Millis) (ts : List RefreshToken)
    (t : RefreshToken)
    → find_by_hash token_hash ts ≡ some t
    → t.member_id ≡ member_id
    → is_some t.revoked_at ≡ true
    → find_rotatable member_id token_hash app_now db_now ts
      ≡ (err invalid_refresh_token, revoke_all_for_member member_id db_now ts)
unfolding find_rotatable
find_rotatable_reuse member_id token_hash app_now db_now ts t e m r = ground arith

find_by_hash-replaced :
    (id by : Uuid) (db_now : Millis) (h : ℕ) (ts : List RefreshToken) (rest : List RefreshToken)
    {t : RefreshToken}
    → find_by_hash h ts ≡ some t
    → find_by_hash h (update_where (is_rotatable id db_now) (replaced db_now by) ts ++ rest)
      ≡ some (if is_rotatable id db_now t then replaced db_now by t else t)
unfolding find_by_hash update_where
find_by_hash-replaced id by db_now h [] rest e = cc
find_by_hash-replaced id by db_now h (x ∷ xs) rest {t} e =
    ground (arith, find_by_hash-replaced id by db_now h xs rest {t = t})

-- The row that the check found, and what is asked of it.
pub find_rotatable-ok :
    (member_id : Uuid) (token_hash : ℕ) (app_now db_now : Millis) (ts : List RefreshToken)
    {t : RefreshToken} {ts' : List RefreshToken}
    → find_rotatable member_id token_hash app_now db_now ts ≡ (ok t, ts')
    → (ts' ≡ ts)
      × (find_by_hash token_hash ts ≡ some t)
      × (t.member_id ≡ member_id)
      × (is_active t app_now ≡ true)
unfolding find_rotatable
find_rotatable-ok member_id token_hash app_now db_now ts e = ground arith

-- No two rows share an id.
abbrev pub HasUniqueIds : List RefreshToken → Type 0
HasUniqueIds [] = Unit {0}
HasUniqueIds (t ∷ ts) = All (λ u. (u.id == t.id) ≡ false) ts × HasUniqueIds ts

any-none :
    (id : Uuid) (now : Millis) (ts : List RefreshToken)
    → All (λ u. (u.id == id) ≡ false) ts
    → any (is_rotatable id now) ts ≡ false
unfolding any
any-none id now [] h = refl
any-none id now (t ∷ ts) h = ground (arith, any-none id now ts h.1)

find_by_hash-id :
    (h : ℕ) (id : Uuid) (ts : List RefreshToken) (t : RefreshToken)
    → All (λ u. (u.id == id) ≡ false) ts
    → find_by_hash h ts ≡ some t
    → (t.id == id) ≡ false
unfolding find_by_hash
find_by_hash-id h id [] t a e = cc
find_by_hash-id h id (x ∷ xs) t a e = ground (arith, find_by_hash-id h id xs t a.1)

-- A row of the id is rotatable exactly if the one that the hash finds is.
any-rotatable :
    (h : ℕ) (id : Uuid) (now : Millis) (ts : List RefreshToken) (t : RefreshToken)
    → HasUniqueIds ts
    → find_by_hash h ts ≡ some t
    → t.id ≡ id
    → any (is_rotatable id now) ts ≡ is_rotatable id now t
unfolding any find_by_hash
any-rotatable h id now [] t u e i = cc
any-rotatable h id now (x ∷ xs) t u e i = elim (Bool-cases (x.token_hash == h)) [
  | inl here ↦
      let same : x ≡ t = ground arith in
      let others = any-none id now xs (rw (← i, ← same) u.0) in ground arith
  | inr elsewhere ↦
      let found : find_by_hash h xs ≡ some t = ground arith in
      ground (arith, find_by_hash-id h x.id xs t u.0 found, any-rotatable h id now xs t u.1 found i)
]

-- Other requests may revoke tokens and store new ones; they keep the rows and the unique ids.
pub record KeepsTokens (others : List RefreshToken → List RefreshToken) : Type 0 where
  pub row :
      (ts : List RefreshToken) (h : ℕ) (t : RefreshToken)
      → find_by_hash h ts ≡ some t
      → (u : RefreshToken) × (find_by_hash h (others ts) ≡ some u)
        × (u.id ≡ t.id)
        × (u.member_id ≡ t.member_id)
  pub unique : (ts : List RefreshToken) → HasUniqueIds ts → HasUniqueIds (others ts)

rotate_row-revoked :
    (h : ℕ) (issued : RefreshToken) (now : Millis) (ts : List RefreshToken) (t : RefreshToken)
    {ts' : List RefreshToken}
    → HasUniqueIds ts
    → find_by_hash h ts ≡ some t
    → rotate_row t.id issued now ts ≡ (ok true, ts')
    → find_by_hash h ts' ≡ some (replaced now issued.id t)
unfolding rotate_row
rotate_row-revoked h issued now ts t u e r = ground (
  arith,
  any-rotatable h t.id now ts t u e refl,
  find_by_hash-replaced t.id issued.id now h ts (issued ∷ []) {t = t},
)

rotate-ok :
    (member_id : Uuid) (h : ℕ) (issued : RefreshToken) (c : RotationClock)
    (others others' : List RefreshToken → List RefreshToken) (ts : List RefreshToken)
    {ts' : List RefreshToken}
    → rotate member_id h issued c others others' ts ≡ (ok tt, ts')
    → (t : RefreshToken) × (find_rotatable member_id h c.app_at_check c.db_at_check ts ≡ (ok t, ts))
      × (rotate_row t.id issued c.db_at_rotation (others ts) ≡ (ok true, ts'))
unfolding rotate
rotate-ok member_id h issued c others others' ts {ts'} e =
    elim (Result-cases (find_rotatable member_id h c.app_at_check c.db_at_check ts).0) [
      | inl (current, found) ↦
          let whole : find_rotatable member_id h c.app_at_check c.db_at_check ts
              ≡ (ok current, (find_rotatable member_id h c.app_at_check c.db_at_check ts).1) =
            ap (λ x. (x, (find_rotatable member_id h c.app_at_check c.db_at_check ts).1)) found in
          let (kept, _, _, _) =
            find_rotatable-ok member_id h c.app_at_check c.db_at_check ts whole in
          let full : find_rotatable member_id h c.app_at_check c.db_at_check ts ≡ (ok current, ts) =
            whole ∙ ap (λ x. (ok current, x)) kept in
          let e' = rw (rotate, full) at e in
          elim (Result-cases (rotate_row current.id issued c.db_at_rotation (others ts)).0) [
            | inl (won, rotated) ↦ elim (Bool-cases won) [
              | inl was_won ↦ (current, full, ground arith)
              | inr was_lost ↦ ground arith
            ]
            | inr (x, failed) ↦ ground arith
          ]
      | inr (x, failed) ↦ ground arith
    ]

-- If other requests keep the stored tokens and the ids are unique, then after a rotation that
-- succeeded the presented token is stored as revoked at the database's clock and as replaced by
-- the new one, and it belongs to the member who presented it.
pub rotate_revokes :
    (member_id : Uuid) (h : ℕ) (issued : RefreshToken) (c : RotationClock)
    (others others' : List RefreshToken → List RefreshToken) (ts : List RefreshToken)
    {ts' : List RefreshToken}
    → KeepsTokens others
    → HasUniqueIds ts
    → rotate member_id h issued c others others' ts ≡ (ok tt, ts')
    → (t : RefreshToken) × (find_by_hash h ts' ≡ some t)
      × (t.member_id ≡ member_id)
      × (t.revoked_at ≡ some c.db_at_rotation)
      × (t.replaced_by_id ≡ some issued.id)
rotate_revokes member_id h issued c others others' ts k u e =
    let (t, found, rotated) = rotate-ok member_id h issued c others others' ts e in
    let (_, stored, owner, _) =
      find_rotatable-ok member_id h c.app_at_check c.db_at_check ts found in
    let (w, there, same_id, same_member) = k.row ts h t stored in
    (
      replaced c.db_at_rotation issued.id w,
      rotate_row-revoked h issued c.db_at_rotation (others ts) w (k.unique ts u) there
          (rw same_id rotated),
      ground arith,
      refl,
      refl,
    )

rotate-refused :
    (member_id : Uuid) (h : ℕ) (issued : RefreshToken) (c : RotationClock)
    (others others' : List RefreshToken → List RefreshToken) (ts : List RefreshToken)
    {x : AuthError} {ts' : List RefreshToken}
    → find_rotatable member_id h c.app_at_check c.db_at_check ts ≡ (err x, ts')
    → rotate member_id h issued c others others' ts ≡ (err x, ts')
unfolding rotate
rotate-refused member_id h issued c others others' ts e = ground arith

-- If other requests keep the stored tokens and the ids are unique, a token that was rotated is
-- refused when it is presented again before the table changes, and then every stored token of the
-- member is revoked, the one that the rotation issued included.
pub rotate_once :
    (member_id : Uuid) (h : ℕ) (issued issued' : RefreshToken) (c c' : RotationClock)
    (others others' later later' : List RefreshToken → List RefreshToken) (ts : List RefreshToken)
    {ts' : List RefreshToken}
    → KeepsTokens others
    → HasUniqueIds ts
    → rotate member_id h issued c others others' ts ≡ (ok tt, ts')
    → ((rotate member_id h issued' c' later later' ts').0 ≡ err invalid_refresh_token)
      × AllRevoked member_id (rotate member_id h issued' c' later later' ts').1
rotate_once member_id h issued issued' c c' others others' later later' ts {ts'} k u e =
    let (t, found, owner, gone, _) = rotate_revokes member_id h issued c others others' ts k u e in
    let reuse =
      find_rotatable_reuse member_id h c'.app_at_check c'.db_at_check ts' t found owner (rw gone) in
    rw (rotate-refused member_id h issued' c' later later' ts' reuse)
      (refl, revoke_all_for_member-AllRevoked member_id c'.db_at_check ts')
