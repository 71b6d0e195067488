-- ===== src/Prelude/Dict.antt =====
-- JavaScript's `Map` with text keys, as an association list in insertion order.
use mathlib.Core.Path.{◌≡◌, refl, ◌∙◌}
use mathlib.Core.Bool.{Bool, false}
use mathlib.Core.Option.{Option, none, some}
use mathlib.Core.List.{List, [], ◌∷◌}
use Prim.Native.String.{String}
use native.Mathlib.Omega.{arith}
use text.Mathlib.TextEquality.{eq_iff}
use text.Mathlib.TextPositions.{eq_refl}
use Prim.Native.Nat.{◌+◌, ◌≤◌}
use selfmade_mpc_wallet.Prelude.Lists.{length, count}
use selfmade_mpc_wallet.Prelude.Tests.{◌==◌, if◌then◌else◌}

abbrev pub Dict {ℓ} : Type ℓ → Type ℓ
Dict V = List (String × V)

module _ {ℓ} {V : Type ℓ} where
  -- `map.get(k)`
  unfoldable pub lookup : String → Dict V → Option V
  lookup k [] = none
  lookup k ((j, v) ∷ m) = if j == k then some v else lookup k m

  -- `map.set(k, v)`: a key that is there keeps its place.
  unfoldable pub insert : String → V → Dict V → Dict V
  insert k v [] = (k, v) ∷ []
  insert k v ((j, w) ∷ m) = if j == k then (j, v) ∷ m else (j, w) ∷ insert k v m

  -- `map.delete(k)`
  unfoldable pub erase : String → Dict V → Dict V
  erase k [] = []
  erase k ((j, v) ∷ m) = let rest = erase k m in if j == k then rest else (j, v) ∷ rest

  -- Deletion reaches the key that it names, and no other.
  pub lookup-erase :
      (gone j : String) (m : Dict V)
      → lookup j (erase gone m) ≡ (if gone == j then none else lookup j m)
  unfolding lookup erase
  lookup-erase gone j [] = ground arith
  lookup-erase gone j ((head, v) ∷ rest) =
      let ih = lookup-erase gone j rest in
      ground (arith, ih, eq_iff head gone, eq_iff head j, eq_iff gone j)

  -- What a `set` does to a key, the one that is set or another.
  pub lookup-insert :
      (k j : String) (v : V) (m : Dict V)
      → lookup j (insert k v m) ≡ (if k == j then some v else lookup j m)
  unfolding insert lookup
  lookup-insert k j v ((head, w) ∷ rest) =
      let ih = lookup-insert k j v rest in
      ground (arith, ih, eq_iff head j, eq_iff head k, eq_iff k j)
  lookup-insert k j v [] = refl

  pub lookup-insert_self : (k : String) (v : V) (m : Dict V) → lookup k (insert k v m) ≡ some v
  lookup-insert_self k v m = lookup-insert k k v m ∙ rw (eq_refl k) refl

-- How many keys there are, after a deletion or an update.
module _ {ℓ} {V : Type ℓ} where
  pub length-erase_le : (k : String) (m : Dict V) → length (erase k m) ≤ length m
  unfolding erase
  length-erase_le k [] = omega arith
  length-erase_le k ((j, v) ∷ m) = ground (arith, length-erase_le k m)

  pub length-erase_lt :
      (k : String) (m : Dict V) (v : V) → lookup k m ≡ some v → length (erase k m) + 1 ≤ length m
  unfolding erase lookup
  length-erase_lt k [] v h = cc
  length-erase_lt k ((j, w) ∷ m) v h = ground (arith, length-erase_lt k m v, length-erase_le k m)

  pub length-insert :
      (k : String) (m : Dict V) (v w : V) → lookup k m ≡ some v → length (insert k w m) ≡ length m
  unfolding insert lookup
  length-insert k [] v w h = cc
  length-insert k ((j, u) ∷ m) v w h = ground (arith, length-insert k m v w)

-- Entries under a test: what changes of a map do to their number.
module _ {V : Type 0} (p : String × V → Bool) where
  pub count-erase_le : (k : String) (m : Dict V) → count p (erase k m) ≤ count p m
  unfolding erase count
  count-erase_le k [] = omega arith
  count-erase_le k ((j, v) ∷ m) = ground (arith, count-erase_le k m)

  pub count-insert_le :
      (k : String) (v : V) (m : Dict V) → p (k, v) ≡ false → count p (insert k v m) ≤ count p m
  unfolding insert count
  count-insert_le k v [] h = ground arith
  count-insert_le k v ((j, w) ∷ m) h = ground (arith, count-insert_le k v m h, eq_iff j k)

  pub lookup-count :
      (k : String) (v : V) (m : Dict V) → count p m ≡ 0 → lookup k m ≡ some v → p (k, v) ≡ false
  unfolding lookup count
  lookup-count k v [] h e = absurd (cc)
  lookup-count k v ((j, w) ∷ m) h e = ground (arith, lookup-count k v m, eq_iff j k)

pub ruleset dict_laws = (lookup-insert, lookup-erase)
