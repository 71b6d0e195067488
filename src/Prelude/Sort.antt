-- ===== src/Prelude/Sort.antt =====
-- A stable sort, and the keys of the rows that a test selects.
use Prim.Native.String.{String}
use mathlib.Core.Path.{◌≡◌, refl, ◌∙◌, sym}
use mathlib.Core.Logic.{inl, inr}
use mathlib.Core.Bool.{Bool, true, false, not, ◌&&◌, ◌||◌}
use mathlib.Core.List.{List, [], ◌∷◌}
use native.Mathlib.Omega.{arith}
use text.Mathlib.TextPositions.{eq_refl}
use selfmade_mpc_wallet.Prelude.Tests.{◌==◌, if◌then◌else◌, Bool-cases}
use selfmade_mpc_wallet.Prelude.Lists.{filter, count}
use selfmade_mpc_wallet.Prelude.Every.{All}

module _ {A : Type 0} (le : A → A → Bool) where
  unfoldable pub insert_by : A → List A → List A
  insert_by x [] = x ∷ []
  insert_by x (y ∷ ys) = let rest = insert_by x ys in if le x y then x ∷ y ∷ ys else y ∷ rest

  -- `Array.sort` and `orderBy`: rows that are equal for the order keep their places.
  unfoldable pub sort_by : List A → List A
  unfolding insert_by
  sort_by [] = []
  sort_by (x ∷ xs) = insert_by x (sort_by xs)

module _ {A : Type 0} (P : A → Type 0) (le : A → A → Bool) where
  All-insert_by : (x : A) (xs : List A) → P x → All P xs → All P (insert_by le x xs)
  unfolding insert_by
  All-insert_by x [] h a = (h, tt)
  All-insert_by x (y ∷ ys) h (b, rest) = elim (Bool-cases (le x y)) [
    | inl e ↦ rw e (h, (b, rest))
    | inr e ↦ rw e (b, All-insert_by x ys h rest)
  ]

  pub All-sort_by : (xs : List A) → All P xs → All P (sort_by le xs)
  unfolding sort_by
  All-sort_by [] a = tt
  All-sort_by (x ∷ xs) (h, rest) = All-insert_by x (sort_by le xs) h (All-sort_by xs rest)

module _ {A : Type 0} (p : A → Bool) where
  count-insert_by :
      (le : A → A → Bool) (x : A) (xs : List A) → count p (insert_by le x xs) ≡ count p (x ∷ xs)
  unfolding count insert_by
  count-insert_by le x [] = refl
  count-insert_by le x (y ∷ ys) = ground (arith, count-insert_by le x ys)

  pub count-sort_by : (le : A → A → Bool) (xs : List A) → count p (sort_by le xs) ≡ count p xs
  unfolding count sort_by
  count-sort_by le [] = refl
  count-sort_by le (x ∷ xs) =
      ground (arith, count-insert_by le x (sort_by le xs), count-sort_by le xs)

  pub count-filter :
      (q : A → Bool) (xs : List A) → count p (filter q xs) ≡ count (λ x. q x && p x) xs
  unfolding count filter
  count-filter q [] = refl
  count-filter q (x ∷ xs) = ground (arith, count-filter q xs)

  pub count_none : ((x : A) → p x ≡ false) → (xs : List A) → count p xs ≡ 0
  unfolding count
  count_none h [] = refl
  count_none h (x ∷ xs) = ground (arith, h x, count_none h xs)

module _ {A : Type 0} (key : A → String) where
  -- One of the rows has the key.
  unfoldable pub has_row : String → List A → Bool
  has_row k [] = false
  has_row k (x ∷ xs) = (key x == k) || has_row k xs

  has_row-insert_by :
      (le : A → A → Bool) (p : A → Bool) (k : String) (x : A) (xs : List A)
      → has_row k (filter p (insert_by le x xs)) ≡ has_row k (filter p (x ∷ xs))
  unfolding has_row filter insert_by
  has_row-insert_by le p k x [] = refl
  has_row-insert_by le p k x (y ∷ ys) = ground (arith, has_row-insert_by le p k x ys)

  has_row-cons :
      (p : A → Bool) (k : String) (x : A) (xs : List A)
      → has_row k (filter p (x ∷ xs)) ≡ ((p x && (key x == k)) || has_row k (filter p xs))
  unfolding has_row filter
  has_row-cons p k x xs = ground arith

  -- Two tests, one after the other.
  pub has_row-filter :
      (p q : A → Bool) (k : String) (xs : List A)
      → has_row k (filter p (filter q xs)) ≡ has_row k (filter (λ x. q x && p x) xs)
  unfolding has_row filter
  has_row-filter p q k [] = refl
  has_row-filter p q k (x ∷ xs) = ground (arith, has_row-filter p q k xs)

  -- A sort keeps the keys of the rows that a test selects.
  pub has_row-sort_by :
      (le : A → A → Bool) (p : A → Bool) (k : String) (xs : List A)
      → has_row k (filter p (sort_by le xs)) ≡ has_row k (filter p xs)
  unfolding sort_by
  has_row-sort_by le p k [] = refl
  has_row-sort_by le p k (x ∷ xs) =
      has_row-insert_by le p k x (sort_by le xs)
      ∙ has_row-cons p k x (sort_by le xs)
      ∙ rw (has_row-sort_by le p k xs) (sym (has_row-cons p k x xs))

  has_row-insert_all :
      (le : A → A → Bool) (k : String) (x : A) (xs : List A)
      → has_row k (insert_by le x xs) ≡ has_row k (x ∷ xs)
  unfolding has_row insert_by
  has_row-insert_all le k x [] = refl
  has_row-insert_all le k x (y ∷ ys) = ground (arith, has_row-insert_all le k x ys)

  pub has_row-sort_all :
      (le : A → A → Bool) (k : String) (xs : List A) → has_row k (sort_by le xs) ≡ has_row k xs
  unfolding has_row sort_by
  has_row-sort_all le k [] = refl
  has_row-sort_all le k (x ∷ xs) =
      ground (arith, has_row-insert_all le k x (sort_by le xs), has_row-sort_all le k xs)

  count-listed :
      (p : A → Bool) (all : List A) (xs : List A)
      → ((k : String) → has_row k (filter p xs) ≡ true → has_row k all ≡ true)
      → count (λ x. p x && not (has_row (key x) all)) xs ≡ 0
  unfolding has_row filter count
  count-listed p all [] h = refl
  count-listed p all (x ∷ xs) h =
      ground
        (arith, h (key x), eq_refl (key x), count-listed p all xs (λ k t. h k (ground (arith, t))))

  -- No row that the test selects has a key outside the rows that it selects.
  pub count-unlisted :
      (p : A → Bool) (xs all : List A)
      → ((k : String) → has_row k all ≡ has_row k (filter p xs))
      → count (λ x. p x && not (has_row (key x) all)) xs ≡ 0
  count-unlisted p xs all same = count-listed p all xs (λ k t. same k ∙ t)
