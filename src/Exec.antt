-- ===== src/Exec.antt =====
-- A handler as an action: state passing with exceptions. What was written before a throw stays
-- written; `transaction` below gives back the part of the state that a database rolls back.
pub mod Post
pub mod Frame
use selfmade_mpc_wallet.Prelude.{Bool, true, false, Option, none, some}
use selfmade_mpc_wallet.Errors.{Error, Result, returned, threw}

abbrev pub Exec {ℓ} : Type ℓ → Type ℓ → Type ℓ
Exec S A = S → Result A × S

module _ {ℓ} {S A : Type ℓ} where
  abbrev pub pure : A → Exec S A
  pure a s = (returned a, s)

  abbrev pub throw : Error → Exec S A
  throw e s = (threw e, s)

  abbrev pub gets : (S → A) → Exec S A
  gets f s = (returned (f s), s)

  -- A missing value is an exception.
  abbrev pub or_throw : Option A → Error → Exec S A
  or_throw none e = throw e
  or_throw (some a) e = pure a

module _ {ℓ} {S A B : Type ℓ} where
  abbrev pub after : Result A → (A → Exec S B) → Exec S B
  after (returned a) f s = f a s
  after (threw e) f s = (threw e, s)

  infixl 5 ◌>>=◌ ◌>>◌
  abbrev pub ◌>>=◌ : Exec S A → (A → Exec S B) → Exec S B
  ◌>>=◌ m f s = let (r, s') = m s in after r f s'

  abbrev pub ◌>>◌ : Exec S A → Exec S B → Exec S B
  m >> k = m >>= λ _. k

module _ {S : Type 0} where
  abbrev pub modify : (S → S) → Exec S Unit
  modify f s = (returned tt, f s)

  -- `if (bad) throw e;`
  abbrev pub throw_if : Bool → Error → Exec S Unit
  throw_if true e = throw e
  throw_if false e = pure tt

-- `try { m } catch (e) { h(e) }`
module _ {S A : Type 0} where
  abbrev pub handled : (Error → Exec S A) → Result A × S → Result A × S
  handled h (returned a, s) = (returned a, s)
  handled h (threw e, s) = h e s

  abbrev pub catch : Exec S A → (Error → Exec S A) → Exec S A
  catch m h s = handled h (m s)

  -- What a call outside the state gives back or throws.
  abbrev pub lift : Result A → Exec S A
  lift r s = (r, s)

-- An action on a part of the state.
module _ {S T A : Type 0} where
  abbrev pub zoom : (S → T) → (T → S → S) → Exec T A → Exec S A
  zoom part put m s = let (r, t) = m (part s) in (r, put t s)

  abbrev pub roll_back : (T → S → S) → T → Result A × S → Result A × S
  roll_back put t (returned a, s) = (returned a, s)
  roll_back put t (threw e, s) = (threw e, put t s)

  -- `prisma.$transaction(f)`: a throw undoes the writes to the database, and nothing else.
  abbrev pub transaction : (S → T) → (T → S → S) → Exec S A → Exec S A
  transaction part put m s = roll_back put (part s) (m s)
