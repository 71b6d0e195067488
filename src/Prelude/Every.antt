-- ===== src/Prelude/Every.antt =====
-- What holds of every row of a list, and rows with keys of their own.
use Prim.Native.Nat.{◌≤◌}
use Prim.Native.String.{String}
use mathlib.Core.Path.{◌≡◌, refl, subst}
use mathlib.Core.Logic.{inl, inr}
use mathlib.Core.Bool.{Bool, true, false}
use mathlib.Core.Option.{some}
use mathlib.Core.List.{List, [], ◌∷◌}
use native.Mathlib.Omega.{arith}
use text.Mathlib.TextEquality.{eq_iff}
use text.Mathlib.TextPositions.{eq_refl}
use selfmade_mpc_wallet.Prelude.Tests.{◌==◌, Bool-cases}
use selfmade_mpc_wallet.Prelude.Lists.{find, filter, count}

-- Every row of a list, as a tuple of what holds of each.
abbrev pub All {ℓ κ} : {A : Type ℓ} → (A → Type κ) → List A → Type κ
All P [] = Unit
All P (x ∷ xs) = P x × All P xs

-- A filter keeps only what its test lets through.
pub All-filter {ℓ κ} :
    {A : Type ℓ} (P : A → Type κ) (p : A → Bool)
    → ((x : A) → p x ≡ true → P x)
    → (xs : List A) → All P (filter p xs)
unfolding filter
All-filter P p h [] = tt
All-filter P p h (x ∷ xs) = elim (Bool-cases (p x)) [
  | inl e ↦ rw e (h x e, All-filter P p h xs)
  | inr e ↦ rw e (All-filter P p h xs)
]

pub All-filter_of {ℓ κ μ} :
    {A : Type ℓ} (P : A → Type κ) (Q : A → Type μ) (p : A → Bool)
    → ((x : A) → P x → p x ≡ true → Q x)
    → (xs : List A) → All P xs
    → All Q (filter p xs)
unfolding filter
All-filter_of P Q p h [] a = tt
All-filter_of P Q p h (x ∷ xs) (a, rest) = elim (Bool-cases (p x)) [
  | inl e ↦ rw e (h x a e, All-filter_of P Q p h xs rest)
  | inr e ↦ rw e (All-filter_of P Q p h xs rest)
]

pub All-find {ℓ κ} :
    {A : Type ℓ} (P : A → Type κ) (p : A → Bool) (xs : List A) (x : A)
    → All P xs
    → find p xs ≡ some x
    → P x
unfolding find
All-find P p [] x a h = absurd (cc)
All-find P p (y ∷ ys) x (a, rest) h = elim (Bool-cases (p y)) [
  | inl e ↦ subst P (ground arith) a
  | inr e ↦ All-find P p ys x rest (ground arith)
]

-- From what holds of rows none of which the test selects.
pub All-count_none {ℓ κ μ} :
    {A : Type ℓ} (P : A → Type κ) (Q : A → Type μ) (p : A → Bool)
    → ((x : A) → P x → p x ≡ false → Q x)
    → (xs : List A) → count p xs ≡ 0
    → All P xs
    → All Q xs
unfolding count
All-count_none P Q p h [] c a = tt
All-count_none P Q p h (x ∷ xs) c (a, rest) =
    (h x a (ground arith), All-count_none P Q p h xs (ground arith) rest)

-- No two rows have the same key, and each is the one that its key finds.
module _ {ℓ} {A : Type ℓ} (key : A → String) where
  abbrev pub HasUniqueKeys : List A → Type 0
  HasUniqueKeys xs = (k : String) → count (λ x. key x == k) xs ≤ 1

  abbrev pub IsFoundIn : List A → A → Type ℓ
  IsFoundIn xs x = find (λ y. key y == key x) xs ≡ some x

  pub HasUniqueKeys-found : (xs : List A) → HasUniqueKeys xs → All (IsFoundIn xs) xs
  unfolding find count
  HasUniqueKeys-found [] u = tt
  HasUniqueKeys-found (y ∷ ys) u = (
    rw (eq_refl (key y)) refl,
    All-count_none (IsFoundIn ys) (IsFoundIn (y ∷ ys)) (λ x. key x == key y)
        (λ x h n. ground (arith, h, n, eq_iff (key x) (key y), eq_iff (key y) (key x))) ys
        (ground (arith, u (key y), eq_refl (key y)))
        (HasUniqueKeys-found ys (λ k. ground (arith, u k))),
  )
