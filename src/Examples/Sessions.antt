-- ===== src/Examples/Sessions.antt =====
-- The session of one member: src/auth/refresh-token.service.ts.
use heimdall_backend.Common.{◌≡◌, refl, none, some, List, [], ◌∷◌, ok, err, any}
use heimdall_backend.Auth.RefreshTokens.{
  RefreshToken, RotationClock, invalid_refresh_token, find_by_hash, find_rotatable, rotate_row,
  rotate, is_active, update_where,
}
use heimdall_backend.Auth.Rotation.{KeepsTokens, AllRevoked, rotate_revokes, rotate_once}

-- The stored token of the member 10, and the ones that are to replace it.
abbrev first : RefreshToken
first = record {
  id = 1;
  member_id = 10;
  token_hash = 70;
  expires_at = 1000;
  revoked_at = none;
  replaced_by_id = none;
}

abbrev second : RefreshToken
second = record first { id = 2; token_hash = 80; expires_at = 2000 }

abbrev third : RefreshToken
third = record first { id = 3; token_hash = 90; expires_at = 3000 }

abbrev clock : RotationClock
clock = record {
  app_at_check = 100;
  db_at_check = 101;
  db_at_rotation = 102;
  app_after = 103;
  db_after = 104;
}

abbrev alone : List RefreshToken → List RefreshToken
alone ts = ts

abbrev rotated_table : List RefreshToken
rotated_table = record first { revoked_at = some 102; replaced_by_id = some 2 } ∷ second ∷ []

first_rotation : rotate 10 70 second clock alone alone (first ∷ []) ≡ (ok tt, rotated_table)
unfolding rotate find_rotatable find_by_hash rotate_row update_where is_active any
first_rotation = refl

alone-KeepsTokens : KeepsTokens alone
alone-KeepsTokens = record { row = λ ts h t e. (t, e, refl, refl); unique = λ ts u. u }

rotate_revokes_example :
    (t : RefreshToken) × (find_by_hash 70 rotated_table ≡ some t)
    × (t.member_id ≡ 10)
    × (t.revoked_at ≡ some 102)
    × (t.replaced_by_id ≡ some 2)
rotate_revokes_example =
    rotate_revokes 10 70 second clock alone alone (first ∷ []) alone-KeepsTokens (tt, tt)
      first_rotation

rotate_once_example :
    ((rotate 10 70 third clock alone alone rotated_table).0 ≡ err invalid_refresh_token)
    × AllRevoked 10 (rotate 10 70 third clock alone alone rotated_table).1
rotate_once_example =
    rotate_once 10 70 second third clock clock alone alone alone alone (first ∷ [])
      alone-KeepsTokens (tt, tt) first_rotation
