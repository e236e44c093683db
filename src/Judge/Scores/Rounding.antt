-- ===== src/Judge/Scores/Rounding.antt =====
-- How far the doubles of calculateTotalScore (src/judge/debate-judge.service.ts) are from the exact
-- sum, and that they keep its order.
use heimdall_backend.Common.{
  ℕ, zero, suc, ◌+◌, ◌*◌, ◌^◌, ◌/◌, ◌%◌, ◌≤◌, ◌<◌, ◌≡◌, ◌⊎◌, arith, refl, inl, inr, ap, Bool-cases,
  ltb, false,
}
use native.Mathlib.Nat.{div-add-mod', div-mul-le_self, mod-lt}
use heimdall_backend.Judge.Scores.{round_to, to_double, double, significand}

-- Rounding moves a number by at most half a unit.
round_to_near :
    (unit n : ℕ)
    → 0 < unit
    → (2 * n ≤ 2 * round_to unit n + unit) × (2 * round_to unit n ≤ 2 * n + unit)
unfolding round_to
round_to_near unit n h = grind arith

-- A double is off by at most its value, scaled down by the bits of the significand.
abbrev pub IsNear : ℕ → ℕ → Type 0
IsNear n m =
    (2 * significand * n ≤ 2 * significand * m + 2 * n + significand)
    × (2 * significand * m ≤ 2 * significand * n + 2 * n + significand)

to_double-IsNear :
    (left unit n : ℕ)
    → 0 < unit
    → significand * unit ≤ 2 * n + significand
    → IsNear n (to_double left unit n)
unfolding to_double
to_double-IsNear zero unit n p h = omega arith
to_double-IsNear (suc left) unit n p h = elim (Bool-cases (ltb n (significand * unit))) [
  | inl fits ↦ rw fits (omega (arith, round_to_near unit n p))
  | inr wide ↦ rw wide (to_double-IsNear left (2 * unit) n (omega arith) (ground arith))
]

pub double-IsNear : (n : ℕ) → IsNear n (double n)
double-IsNear n = to_double-IsNear 10 1 n (omega arith) (omega arith)

mul_mono : (a b unit : ℕ) → a ≤ b → a * unit ≤ b * unit
mul_mono a b unit h = grind arith

-- Rounding does not pass a multiple of the unit.
round_to-ge : (unit n c : ℕ) → 0 < unit → c * unit ≤ n → c * unit ≤ round_to unit n
unfolding round_to
round_to-ge unit n c p h = grind arith

below_multiple :
    (unit n c : ℕ)
    → 0 < unit
    → n ≤ c * unit
    → (n / unit + 1 ≤ c) ⊎ ((n / unit ≡ c) × (n % unit ≡ 0))
below_multiple unit n c p h = ground (
  arith,
  div-add-mod' n unit,
  mod-lt n p,
  mul_mono c (n / unit) unit,
  mul_mono (c + 1) (n / unit) unit,
)

round_to-le : (unit n c : ℕ) → 0 < unit → n ≤ c * unit → round_to unit n ≤ c * unit
unfolding round_to
round_to-le unit n c p h = elim (below_multiple unit n c p h) [
  | inl below ↦ ground (
    arith,
    mul_mono (n / unit + 1) c unit below,
    mul_mono (n / unit) (n / unit + 1) unit,
    mul_mono (n / unit + n / unit % 2) (n / unit + 1) unit,
  )
  | inr exact ↦ ground (arith, ap (λ q. q * unit) exact.0)
]

quotients :
    (unit n m : ℕ)
    → 0 < unit
    → n ≤ m
    → (n ≤ m / unit * unit) ⊎ ((n / unit ≡ m / unit) × (n % unit ≤ m % unit))
quotients unit n m p h = ground (
  arith,
  div-add-mod' n unit,
  div-add-mod' m unit,
  mod-lt n p,
  mod-lt m p,
  mul_mono (n / unit + 1) (m / unit) unit,
  mul_mono (m / unit + 1) (n / unit) unit,
  ap (λ (q : ℕ). q * unit),
)

same_quotient :
    (unit n m : ℕ) → n / unit ≡ m / unit → n % unit ≤ m % unit → round_to unit n ≤ round_to unit m
unfolding round_to
same_quotient unit n m e h = rw e (
    ground (
      arith,
      mul_mono (m / unit) (m / unit + m / unit % 2) unit,
      mul_mono (m / unit + m / unit % 2) (m / unit + 1) unit,
      mul_mono (m / unit) (m / unit + 1) unit,
    ))

-- Rounding to a unit keeps the order.
round_to_mono : (unit n m : ℕ) → 0 < unit → n ≤ m → round_to unit n ≤ round_to unit m
round_to_mono unit n m p h = elim (quotients unit n m p h) [
  | inl below ↦ omega (
    arith,
    round_to-le unit n (m / unit) p below,
    round_to-ge unit m (m / unit) p (div-mul-le_self m unit),
  )
  | inr (e, smaller) ↦ same_quotient unit n m e smaller
]

-- `c`, doubled so many times.
abbrev doubled : ℕ → ℕ → ℕ
doubled zero c = c
doubled (suc left) c = 2 * doubled left c

doubled_twice : (left c : ℕ) → doubled left (2 * c) ≡ 2 * doubled left c
doubled_twice zero c = refl
doubled_twice (suc left) c = omega (arith, doubled_twice left c)

-- A multiple of every unit that is tried is not passed.
to_double-ge :
    (left unit n c : ℕ)
    → 0 < unit
    → doubled left c * unit ≤ n
    → doubled left c * unit ≤ to_double left unit n
unfolding to_double
to_double-ge zero unit n c p h = h
to_double-ge (suc left) unit n c p h = elim (Bool-cases (ltb n (significand * unit))) [
  | inl fits ↦ rw fits (round_to-ge unit n (doubled (suc left) c) p h)
  | inr wide ↦
      let same : doubled left c * (2 * unit) ≡ doubled (suc left) c * unit = grind arith in
      rw (wide, ← same) (to_double-ge left (2 * unit) n c (omega arith) (rw same h))
]

to_double_mono :
    (left unit n m c : ℕ)
    → 0 < unit
    → doubled left c ≡ significand
    → n ≤ m
    → to_double left unit n ≤ to_double left unit m
unfolding to_double
to_double_mono zero unit n m c p e h = h
to_double_mono (suc left) unit n m c p e h =
    let same : doubled left c * (2 * unit) ≡ significand * unit = grind arith in
    let rest =
      to_double_mono left (2 * unit) n m (2 * c) (omega arith) (omega (arith, doubled_twice left c))
        h in
    let above = λ (w : significand * unit ≤ m).
      rw same at (to_double-ge left (2 * unit) m c (omega arith) (rw same w)) in
    elim (Bool-cases (ltb n (significand * unit))) [
      | inl fits ↦ elim (Bool-cases (ltb m (significand * unit))) [
        | inl fits' ↦ rw (fits, fits') (round_to_mono unit n m p h)
        | inr wide' ↦
            rw (fits, wide')
              (omega (arith, round_to-le unit n significand p (ground arith), above (ground arith)))
      ]
      | inr wide ↦
          let wide' : ltb m (significand * unit) ≡ false = ground arith in rw (wide, wide') rest
    ]

-- Rounding to a double keeps the order of all numbers.
pub double_mono : (n m : ℕ) → n ≤ m → double n ≤ double m
double_mono n m h = to_double_mono 10 1 n m (2 ^ 43) (omega arith) refl h
