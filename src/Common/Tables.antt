-- ===== src/Common/Tables.antt =====
-- SQL on one table, as the list of its rows.
use heimdall_backend.Common.{
  ℕ, suc, ltb, Bool, Option, none, some, List, [], ◌∷◌, ◌||◌, ◌==◌, if◌then◌else◌, ◌≡◌, refl, arith,
  false, true,
}

-- `id IN (:...ids)`
unfoldable pub id_in : List ℕ → ℕ → Bool
id_in [] i = false
id_in (j ∷ js) i = j == i || id_in js i

module _ {ℓ} {A : Type ℓ} where
  unfoldable pub find_one_by : (A → Bool) → List A → Option A
  find_one_by p [] = none
  find_one_by p (x ∷ xs) = if p x then some x else find_one_by p xs

  unfoldable pub find_by : (A → Bool) → List A → List A
  find_by p [] = []
  find_by p (x ∷ xs) = if p x then x ∷ find_by p xs else find_by p xs

  unfoldable pub update_where : (A → Bool) → (A → A) → List A → List A
  update_where p f [] = []
  update_where p f (x ∷ xs) = (if p x then f x else x) ∷ update_where p f xs

  unfoldable pub affected_by : (A → Bool) → List A → ℕ
  affected_by p [] = 0
  affected_by p (x ∷ xs) = let n = affected_by p xs in if p x then suc n else n

  unfoldable pub delete_where : (A → Bool) → List A → List A
  delete_where p [] = []
  delete_where p (x ∷ xs) = if p x then delete_where p xs else x ∷ delete_where p xs

  -- Whether a statement touches a row: `(result.affected ?? 0) > 0`.
  unfoldable pub is_affected : (A → Bool) → List A → Bool
  unfolding affected_by
  is_affected p xs = ltb 0 (affected_by p xs)

  -- `rows.flatMap((row) => ...)`, where a row gives one value or none.
  unfoldable pub filter_map {κ} : {B : Type κ} → (A → Option B) → List A → List B
  filter_map f [] = []
  filter_map f (x ∷ xs) = elim (f x) [ none ↦ filter_map f xs | some y ↦ y ∷ filter_map f xs ]

  -- `order: { ... }`, by a test that says which of two rows comes first.
  unfoldable pub insert_sorted : (A → A → Bool) → A → List A → List A
  insert_sorted le row [] = row ∷ []
  insert_sorted le row (x ∷ xs) =
      let later = insert_sorted le row xs in if le row x then row ∷ x ∷ xs else x ∷ later

  unfoldable pub sort_by : (A → A → Bool) → List A → List A
  unfolding insert_sorted
  sort_by le [] = []
  sort_by le (x ∷ xs) = insert_sorted le x (sort_by le xs)

  -- A statement that touches no row changes none.
  pub update_where-unaffected :
      (p : A → Bool) (f : A → A) (xs : List A) → is_affected p xs ≡ false → update_where p f xs ≡ xs
  unfolding update_where is_affected
  update_where-unaffected p f [] e = refl
  update_where-unaffected p f (x ∷ xs) e = ground (arith, update_where-unaffected p f xs)

  -- An update that takes its rows out of its own condition finds none when it is run again.
  pub is_affected-update_where :
      (p : A → Bool) (f : A → A) (xs : List A)
      → ((x : A) → p x ≡ true → p (f x) ≡ false)
      → is_affected p (update_where p f xs) ≡ false
  unfolding update_where is_affected
  is_affected-update_where p f [] out = refl
  is_affected-update_where p f (x ∷ xs) out =
      ground (arith, out x, is_affected-update_where p f xs out)

  pub find_one_by-holds :
      (p : A → Bool) (xs : List A) {x : A} → find_one_by p xs ≡ some x → p x ≡ true
  unfolding find_one_by
  find_one_by-holds p [] e = cc
  find_one_by-holds p (y ∷ ys) {x} e = ground (arith, find_one_by-holds p ys {x = x})

  -- A row that an update does not touch is found as before.
  pub find_one_by-update_where :
      (p q : A → Bool) (f : A → A) (xs : List A) {x : A}
      → ((y : A) → p y ≡ true → q (f y) ≡ q y)
      → find_one_by q xs ≡ some x
      → p x ≡ false
      → find_one_by q (update_where p f xs) ≡ some x
  unfolding find_one_by update_where
  find_one_by-update_where p q f [] same e n = cc
  find_one_by-update_where p q f (y ∷ ys) {x} same e n =
      ground (arith, same y, find_one_by-update_where p q f ys {x = x} same)

  -- The row that is found after an update is the one found before, updated if it was touched.
  pub find_one_by-updated :
      (p q : A → Bool) (f : A → A) (xs : List A) {x : A}
      → ((y : A) → p y ≡ true → q (f y) ≡ q y)
      → find_one_by q xs ≡ some x
      → find_one_by q (update_where p f xs) ≡ some (if p x then f x else x)
  unfolding find_one_by update_where
  find_one_by-updated p q f [] same e = cc
  find_one_by-updated p q f (y ∷ ys) {x} same e =
      ground (arith, same y, find_one_by-updated p q f ys {x = x} same)

  -- An update that changes nothing the second time, run twice.
  pub update_where_again :
      (p : A → Bool) (f : A → A) (xs : List A)
      → ((x : A) → p x ≡ true → f (f x) ≡ f x)
      → update_where p f (update_where p f xs) ≡ update_where p f xs
  unfolding update_where
  update_where_again p f [] idle = refl
  update_where_again p f (x ∷ xs) idle = ground (arith, idle x, update_where_again p f xs idle)
