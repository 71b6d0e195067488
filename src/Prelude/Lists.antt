-- ===== src/Prelude/Lists.antt =====
-- Lists searched, counted and updated by a Boolean test: the queries of a table.
use Prim.Native.Nat.{ℕ, suc, ◌+◌, ◌≤◌}
use mathlib.Core.Path.{◌≡◌, refl}
use mathlib.Core.Bool.{Bool, true, false}
use mathlib.Core.Option.{Option, none, some}
use mathlib.Core.List.{List, [], ◌∷◌, ◌++◌}
use native.Mathlib.Omega.{arith}
use Prim.Native.String.{String}
use text.Mathlib.TextEquality.{eq_iff}
use selfmade_mpc_wallet.Prelude.Tests.{◌==◌, if◌then◌else◌}

abbrev pub map_option {ℓ} : {A : Type ℓ} → (A → A) → Option A → Option A
map_option f none = none
map_option f (some a) = some (f a)

module _ {ℓ} {A : Type ℓ} where
  abbrev pub length : List A → ℕ
  length [] = 0
  length (x ∷ xs) = suc (length xs)

  -- `findFirst`, `Array.find`
  unfoldable pub find : (A → Bool) → List A → Option A
  find p [] = none
  find p (x ∷ xs) = if p x then some x else find p xs

  -- `findMany`, `Array.filter`
  unfoldable pub filter : (A → Bool) → List A → List A
  filter p [] = []
  filter p (x ∷ xs) = let rest = filter p xs in if p x then x ∷ rest else rest

  -- `count`
  unfoldable pub count : (A → Bool) → List A → ℕ
  count p [] = 0
  count p (x ∷ xs) = (if p x then 1 else 0) + count p xs

  -- `updateMany`
  unfoldable pub update : (A → Bool) → (A → A) → List A → List A
  update p f [] = []
  update p f (x ∷ xs) = (if p x then f x else x) ∷ update p f xs

  pub find_sound : (p : A → Bool) (xs : List A) (x : A) → find p xs ≡ some x → p x ≡ true
  unfolding find
  find_sound p [] x h = ground arith
  find_sound p (y ∷ ys) x h = ground (arith, find_sound p ys x)

  pub find-none : (p : A → Bool) (xs : List A) → find p xs ≡ none → count p xs ≡ 0
  unfolding find count
  find-none p [] h = refl
  find-none p (y ∷ ys) h = ground (arith, find-none p ys)

  pub count-append : (p : A → Bool) (xs ys : List A) → count p (xs ++ ys) ≡ count p xs + count p ys
  unfolding count
  count-append p [] ys = omega arith
  count-append p (x ∷ xs) ys = omega (arith, count-append p xs ys)

  -- What a search finds is found before the rows that come after.
  pub find-append :
      (p : A → Bool) (xs ys : List A) (x : A) → find p xs ≡ some x → find p (xs ++ ys) ≡ some x
  unfolding find
  find-append p [] ys x h = absurd (cc)
  find-append p (y ∷ xs) ys x h = ground (arith, find-append p xs ys x)

  pub find-append_new :
      (p : A → Bool) (xs : List A) (x : A)
      → find p xs ≡ none
      → p x ≡ true
      → find p (xs ++ x ∷ []) ≡ some x
  unfolding find
  find-append_new p [] x h t = rw t refl
  find-append_new p (y ∷ xs) x h t = ground (arith, find-append_new p xs x)

  pub find-count :
      (p q : A → Bool) (xs : List A) (x : A) → count q xs ≡ 0 → find p xs ≡ some x → q x ≡ false
  unfolding find count
  find-count p q [] x h e = absurd (cc)
  find-count p q (y ∷ xs) x h e = ground (arith, find-count p q xs x)

module _ {ℓ} {A : Type ℓ} (p q : A → Bool) (f : A → A) where
  -- An update that brings no row under `p` does not raise its count.
  pub count-update_le :
      ((x : A) → q x ≡ true → p (f x) ≡ true → p x ≡ true)
      → (xs : List A) → count p (update q f xs) ≤ count p xs
  unfolding count update
  count-update_le h [] = omega arith
  count-update_le h (x ∷ xs) = ground (arith, h x, count-update_le h xs)

  -- An update that takes its rows out of `p`, the first one among them, lowers the count.
  pub count-update_lt :
      ((x : A) → p (f x) ≡ false)
      → (xs : List A) (r : A) → find p xs ≡ some r
      → q r ≡ true
      → count p (update q f xs) + 1 ≤ count p xs
  unfolding count update find
  count-update_lt h [] r e t = ground arith
  count-update_lt h (x ∷ xs) r e t = ground (
    arith,
    h x,
    count-update_lt h xs r,
    count-update_le (λ y (_ : q y ≡ true) (w : p (f y) ≡ true). ground (arith, h y)) xs,
  )

  -- An update that moves no row across `p` keeps the count.
  pub count-update_eq :
      ((x : A) → q x ≡ true → p (f x) ≡ p x) → (xs : List A) → count p (update q f xs) ≡ count p xs
  unfolding count update
  count-update_eq h [] = refl
  count-update_eq h (x ∷ xs) = ground (arith, h x, count-update_eq h xs)

-- An update that brings no row under `p` but rows under `r` keeps the count of `p` within that of `r`.
pub count-update_into :
    {A : Type 0} (p r q : A → Bool) (f : A → A)
    → ((x : A) → q x ≡ true → p (f x) ≡ true → r x ≡ true)
    → ((x : A) → q x ≡ false → p x ≡ true → r x ≡ true)
    → (xs : List A) → count p (update q f xs) ≤ count r xs
unfolding count update
count-update_into p r q f h k [] = omega arith
count-update_into p r q f h k (x ∷ xs) = ground (arith, h x, k x, count-update_into p r q f h k xs)

-- A weaker test selects no fewer rows.
pub count_mono :
    {A : Type 0} (p q : A → Bool) (h : (x : A) → p x ≡ true → q x ≡ true) (xs : List A)
    → count p xs ≤ count q xs
unfolding count
count_mono p q h [] = omega arith
count_mono p q h (x ∷ xs) = ground (arith, h x, count_mono p q h xs)

-- An update of rows that `p` does not select, before or after it, keeps what `p` finds.
pub find-update_other :
    {A : Type 0} (p q : A → Bool) (f : A → A)
    → ((x : A) → q x ≡ true → (p x ≡ false) × (p (f x) ≡ false))
    → (xs : List A) → find p (update q f xs) ≡ find p xs
unfolding find update
find-update_other p q f h [] = refl
find-update_other p q f h (x ∷ xs) = ground (arith, h x, find-update_other p q f h xs)

-- A row found by its key after an update by key.
module _ {ℓ} {A : Type ℓ} (key : A → String) (f : A → A) (keeps : (x : A) → key (f x) ≡ key x) where
  pub find-update :
      (j k : String) (xs : List A)
      → find (λ x. key x == k) (update (λ x. key x == j) f xs)
        ≡ (if j == k then map_option f (find (λ x. key x == k) xs) else find (λ x. key x == k) xs)
  unfolding find update
  find-update j k [] = ground arith
  find-update j k (x ∷ xs) = ground (
    arith,
    keeps x,
    find-update j k xs,
    eq_iff j k,
    eq_iff (key x) j,
    eq_iff (key x) k,
    eq_iff (key (f x)) k,
  )
