-- ===== src/Exec/Post.antt =====
-- Postconditions of actions: what holds of the state after a return and after a throw, with one
-- rule for each way to build an action.
use selfmade_mpc_wallet.Prelude.{
  ◌≡◌, refl, sym, ap, subst, Bool, true, false, Option, none, some, if◌then◌else◌,
}
use selfmade_mpc_wallet.Errors.{Error, Result, returned, threw}
use selfmade_mpc_wallet.Exec.{
  Exec, throw_if, or_throw, zoom, transaction, after, roll_back, ◌>>=◌, handled,
}

-- `out` is a return that meets `Q`, or a throw that meets `E`.
pub data Post {S A : Type 0} (Q : A → S → Type 0) (E : Error → S → Type 0)
    : Result A × S → Type 0 where
  returns : {a : A} {s : S} → Q a s → Post Q E (returned a, s)
  throws : {e : Error} {s : S} → E e s → Post Q E (threw e, s)

abbrev value_or : {A : Type 0} → A → Result A → A
value_or d (returned a) = a
value_or d (threw e) = d

abbrev error_or : {A : Type 0} → Error → Result A → Error
error_or d (returned a) = d
error_or d (threw e) = e

module _ {S A : Type 0} {Q : A → S → Type 0} {E : Error → S → Type 0} where
  pub Post-returned : {out : Result A × S} {a : A} → Post Q E out → out.0 ≡ returned a → Q a out.1
  Post-returned (returns {a = b} {s = s} q) h = subst (λ x. Q x s) (ap (value_or b) h) q
  Post-returned (throws q) h = absurd (cc)

  pub Post-threw : {out : Result A × S} {e : Error} → Post Q E out → out.0 ≡ threw e → E e out.1
  Post-threw (returns q) h = absurd (cc)
  Post-threw (throws {e = d} {s = s} q) h = subst (λ x. E x s) (ap (error_or d) h) q

  pub Post-mono :
      {Q' : A → S → Type 0} {E' : Error → S → Type 0} {out : Result A × S}
      → Post Q E out
      → ((a : A) (s : S) → Q a s → Q' a s)
      → ((e : Error) (s : S) → E e s → E' e s)
      → Post Q' E' out
  Post-mono (returns q) f g = returns (f _ _ q)
  Post-mono (throws q) f g = throws (g _ _ q)

module _ {S A B : Type 0} {Q : A → S → Type 0} {Q' : B → S → Type 0} {E : Error → S → Type 0} where
  pub after-Post :
      (f : A → Exec S B) {out : Result A × S}
      → Post Q E out
      → ((a : A) (s : S) → Q a s → Post Q' E (f a s))
      → Post Q' E (after out.0 f out.1)
  after-Post f (returns q) k = k _ _ q
  after-Post f (throws q) k = throws q

  -- The rest of a block may use what the first action returned.
  pub bind-Post :
      (m : Exec S A) (f : A → Exec S B) (s : S)
      → Post Q E (m s)
      → ((a : A) (s' : S) → Q a s' → Post Q' E (f a s'))
      → Post Q' E ((m >>= f) s)
  bind-Post m f s p k = after-Post f p k

module _ {S : Type 0} {Q : Unit {0} → S → Type 0} {E : Error → S → Type 0} where
  pub throw_if-Post :
      (b : Bool) (e : Error) (s : S)
      → (b ≡ true → E e s)
      → (b ≡ false → Q tt s)
      → Post Q E (throw_if b e s)
  throw_if-Post true e s bad good = throws (bad refl)
  throw_if-Post false e s bad good = returns (good refl)

module _ {S A : Type 0} {Q : A → S → Type 0} {E : Error → S → Type 0} where
  pub or_throw-Post :
      (o : Option A) (e : Error) (s : S)
      → (o ≡ none → E e s)
      → ((a : A) → o ≡ some a → Q a s)
      → Post Q E (or_throw o e s)
  or_throw-Post none e s bad good = throws (bad refl)
  or_throw-Post (some a) e s bad good = returns (good a refl)

module _ {S T A : Type 0} {Q : A → T → Type 0} {E : Error → T → Type 0} where
  zoomed-Post :
      {Q' : A → S → Type 0} {E' : Error → S → Type 0} (put : T → S → S) (s : S) {out : Result A × T}
      → Post Q E out
      → ((a : A) (t : T) → Q a t → Q' a (put t s))
      → ((e : Error) (t : T) → E e t → E' e (put t s))
      → Post Q' E' (out.0, put out.1 s)
  zoomed-Post put s (returns q) f g = returns (f _ _ q)
  zoomed-Post put s (throws q) f g = throws (g _ _ q)

  pub zoom-Post :
      {Q' : A → S → Type 0} {E' : Error → S → Type 0} (part : S → T) (put : T → S → S)
      (m : Exec T A) (s : S)
      → Post Q E (m (part s))
      → ((a : A) (t : T) → Q a t → Q' a (put t s))
      → ((e : Error) (t : T) → E e t → E' e (put t s))
      → Post Q' E' (zoom part put m s)
  zoom-Post part put m s p f g = zoomed-Post put s p f g

module _ {S T A : Type 0} {Q : A → S → Type 0} {E E' : Error → S → Type 0} where
  rolled-Post :
      (put : T → S → S) (t : T) {out : Result A × S}
      → Post Q E out
      → ((e : Error) (s : S) → E e s → E' e (put t s))
      → Post Q E' (roll_back put t out)
  rolled-Post put t (returns q) g = returns q
  rolled-Post put t (throws q) g = throws (g _ _ q)

  pub transaction-Post :
      (part : S → T) (put : T → S → S) (m : Exec S A) (s : S)
      → Post Q E (m s)
      → ((e : Error) (s' : S) → E e s' → E' e (put (part s) s'))
      → Post Q E' (transaction part put m s)
  transaction-Post part put m s p g = rolled-Post put (part s) p g

-- The same rules with the rest of the block behind them.
module _ {S B : Type 0} {Q : B → S → Type 0} {E : Error → S → Type 0} where
  pub check-Post :
      (b : Bool) (e : Error) (f : Unit {0} → Exec S B) (s : S)
      → (b ≡ true → E e s)
      → (b ≡ false → Post Q E (f tt s))
      → Post Q E (after (throw_if b e s).0 f (throw_if b e s).1)
  check-Post true e f s bad good = throws (bad refl)
  check-Post false e f s bad good = good refl

  pub branch-Post :
      (b : Bool) (m n : Exec S B) (s : S)
      → (b ≡ true → Post Q E (m s))
      → (b ≡ false → Post Q E (n s))
      → Post Q E ((if b then m else n) s)
  branch-Post true m n s yes_case no_case = yes_case refl
  branch-Post false m n s yes_case no_case = no_case refl

module _ {S A B : Type 0} {Q : B → S → Type 0} {E : Error → S → Type 0} where
  pub need-Post :
      (o : Option A) (e : Error) (f : A → Exec S B) (s : S)
      → (o ≡ none → E e s)
      → ((a : A) → o ≡ some a → Post Q E (f a s))
      → Post Q E (after (or_throw o e s).0 f (or_throw o e s).1)
  need-Post none e f s bad good = throws (bad refl)
  need-Post (some a) e f s bad good = good a refl

-- After an action that only looks at the state.
pub same-Post :
    {S A B : Type 0} {P : A → Type 0} {Q : B → S → Type 0} {E : Error → S → Type 0} {s : S}
    {out : Result A × S} (f : A → Exec S B)
    → Post (λ a s'. (s' ≡ s) × P a) (λ _ s'. s' ≡ s) out
    → ((e : Error) → E e s)
    → ((a : A) → P a → Post Q E (f a s))
    → Post Q E (after out.0 f out.1)
same-Post {E = E} f (throws {e = e} h) bad good = throws (subst (E e) (sym h) (bad e))
same-Post {Q = Q} {E = E} f (returns {a = a} h) bad good =
    subst (λ x. Post Q E (f a x)) (sym h.0) (good a h.1)

-- A postcondition, from what the return and the throw are known to give.
pub Post-of_parts :
    {S A : Type 0} {Q : A → S → Type 0} {E : Error → S → Type 0} (out : Result A × S)
    → ((a : A) → out.0 ≡ returned a → Q a out.1)
    → ((e : Error) → out.0 ≡ threw e → E e out.1)
    → Post Q E out
Post-of_parts (returned a, s) f g = returns (f a refl)
Post-of_parts (threw e, s) f g = throws (g e refl)

-- What a call outside the state answers or throws.
pub lift-Post :
    {S A B : Type 0} {Q : B → S → Type 0} {E : Error → S → Type 0} (r : Result A) (f : A → Exec S B)
    (s : S)
    → ((e : Error) → r ≡ threw e → E e s)
    → ((a : A) → r ≡ returned a → Post Q E (f a s))
    → Post Q E (after r f s)
lift-Post (returned a) f s h k = k a refl
lift-Post (threw e) f s h k = throws (h e refl)

-- `try` and `catch`: what a throw leaves is where the handler starts.
pub catch-Post :
    {S A : Type 0} {Q : A → S → Type 0} {E E' : Error → S → Type 0} (h : Error → Exec S A)
    {out : Result A × S}
    → Post Q E out
    → ((e : Error) (s : S) → E e s → Post Q E' (h e s))
    → Post Q E' (handled h out)
catch-Post h (returns q) k = returns q
catch-Post h (throws {e = e} {s = s} p) k = k e s p

-- What holds of the state however the call ends.
pub Post-state :
    {S A : Type 0} {P : S → Type 0} {out : Result A × S}
    → Post (λ _ s. P s) (λ _ s. P s) out
    → P out.1
Post-state (returns q) = q
Post-state (throws p) = p
