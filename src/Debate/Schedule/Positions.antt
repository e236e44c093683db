-- ===== src/Debate/Schedule/Positions.antt =====
-- DebateTurnSchedule (src/debates/debate-turn.ts): places and slots determine one another.
use heimdall_backend.Common.{
  ℕ, zero, suc, ◌+◌, ◌*◌, ◌≤◌, ◌<◌, ◌≡◌, Bool, true, none, some, List, [], ◌∷◌, ◌==◌, ==_refl,
  get_elem?, get_elem?-none, ok, arith, ◌∙◌, sym, ap, ◌≢◌, Option-cases, inl, inr,
}
use heimdall_backend.Debate.Enums.{phase_eq_refl, side_eq_refl}
use heimdall_backend.Debate.Rows.{TurnSlot}
use heimdall_backend.Debate.Schedule.{
  build, new, size, at, slot_eq, find_index, index_of, next, is_last,
}
use heimdall_backend.Debate.Schedule.Loop.{side_at, slot_of, length-build, get_elem?-build}

-- A schedule has two turns for each rebuttal round and four more, for the opening and the closing.
pub size-new : (rounds : ℕ) → size (new rounds) ≡ 2 * rounds + 4
unfolding size new
size-new rounds = length-build rounds

-- The loop of build puts at every index the slot of the closed form, and nothing past the end.
pub at-new : (rounds i : ℕ) → at (new rounds) i ≡ slot_of rounds i
unfolding at new
at-new rounds i =
    ground
      (arith, get_elem?-build rounds i, length-build rounds, get_elem?-none {0} (build rounds) i)

slot_of-injective :
    (rounds i j : ℕ) {s : TurnSlot} → slot_of rounds i ≡ some s → slot_of rounds j ≡ some s → i ≡ j
unfolding slot_of
slot_of-injective rounds i j p q = ground arith

slot_of-ne-none : (rounds i : ℕ) → i < 2 * rounds + 4 → slot_of rounds i ≢ none
unfolding slot_of
slot_of-ne-none rounds i h e = ground arith

slot_eq→eq : (s t : TurnSlot) → slot_eq s t ≡ true → s ≡ t
slot_eq→eq s t h = ground arith

slot_eq_refl : (s : TurnSlot) → slot_eq s s ≡ true
slot_eq_refl s = ground (arith, phase_eq_refl s.phase, ==_refl s.round, side_eq_refl s.side)

find_index_unique :
    (p : TurnSlot → Bool) (xs : List TurnSlot) (i : ℕ) {a : TurnSlot}
    → get_elem? xs i ≡ some a
    → p a ≡ true
    → ((j : ℕ) (b : TurnSlot) → get_elem? xs j ≡ some b → p b ≡ true → j ≡ i)
    → find_index p xs ≡ some i
unfolding find_index
find_index_unique p [] i e h u = ground arith
find_index_unique p (x ∷ xs) zero e h u = ground arith
find_index_unique p (x ∷ xs) (suc i) e h u =
    ground (arith, u 0 x, find_index_unique p xs i e h (λ j b f k. omega (arith, u (suc j) b f k)))

-- `indexOf` finds the place of each slot of the schedule.
pub index_of-at :
    (rounds i : ℕ) {s : TurnSlot} → at (new rounds) i ≡ some s → index_of (new rounds) s ≡ ok i
unfolding index_of new
index_of-at rounds i {s} e =
    rw (find_index_unique (λ c. slot_eq c s) (build rounds) i here (slot_eq_refl s) only)
  where
    here : get_elem? (build rounds) i ≡ some s
    here = get_elem?-build rounds i ∙ (sym (at-new rounds i) ∙ e)

    only : (j : ℕ) (b : TurnSlot) → get_elem? (build rounds) j ≡ some b → slot_eq b s ≡ true → j ≡ i
    only j b f h =
        slot_of-injective rounds j i {s = b} (sym (get_elem?-build rounds j) ∙ f)
          (sym (at-new rounds i) ∙ (e ∙ ap some (sym (slot_eq→eq b s h))))

-- If the slot at an index is s, then next of s is the slot at the following index, or none at the
-- end; it never throws.
pub next-at :
    (rounds i : ℕ) {s : TurnSlot}
    → at (new rounds) i ≡ some s
    → next (new rounds) s ≡ ok (at (new rounds) (suc i))
unfolding next at
next-at rounds i e = rw (index_of-at rounds i e)

-- If the slot at an index is s, then s is the last slot exactly if the following index is the
-- size; isLast does not throw.
pub is_last-at :
    (rounds i : ℕ) {s : TurnSlot}
    → at (new rounds) i ≡ some s
    → is_last (new rounds) s ≡ ok (suc i == size (new rounds))
unfolding is_last size
is_last-at rounds i e = rw (index_of-at rounds i e)

-- There is a slot at every index below the size, and at no other.
pub at-some : (rounds i : ℕ) → i < size (new rounds) → (s : TurnSlot) × (at (new rounds) i ≡ some s)
at-some rounds i h = elim (Option-cases (slot_of rounds i)) [
  | inl e ↦ absurd (slot_of-ne-none rounds i (rw size-new at h) e)
  | inr (s, e) ↦ (s, at-new rounds i ∙ e)
]

pub at-lt : (rounds i : ℕ) {s : TurnSlot} → at (new rounds) i ≡ some s → i < size (new rounds)
unfolding slot_of
at-lt rounds i e = ground (arith, at-new rounds i, size-new rounds)

pub at-none : (rounds i : ℕ) → at (new rounds) i ≡ none → size (new rounds) ≤ i
unfolding slot_of
at-none rounds i e = ground (arith, at-new rounds i, size-new rounds)

-- The sides take turns.
pub at_side : (rounds i : ℕ) {s : TurnSlot} → at (new rounds) i ≡ some s → s.side ≡ side_at i
unfolding slot_of
at_side rounds i e = ground (arith, at-new rounds i)
