-- ===== src/Exec/Frame.antt =====
-- What an action leaves alone: a view of the state that is the same after it, returned or thrown.
use selfmade_mpc_wallet.Prelude.{
  ◌≡◌, refl, ◌∙◌, Bool, true, false, Option, none, some, if◌then◌else◌,
}
use selfmade_mpc_wallet.Errors.{Error, Result, returned, threw}
use selfmade_mpc_wallet.Exec.Post.{Post, Post-of_parts}
use selfmade_mpc_wallet.Exec.{
  Exec, throw_if, or_throw, lift, after, handled, roll_back, transaction, catch, ◌>>=◌,
}

module _ {S T : Type 0} (view : S → T) where
  abbrev pub Frame : {A : Type 0} → Exec S A → Type 0
  Frame m = (s : S) → view (m s).1 ≡ view s

  module _ {A B : Type 0} where
    after-Frame :
        (f : A → Exec S B) (r : Result A) (s s' : S)
        → view s' ≡ view s
        → ((a : A) → Frame (f a))
        → view (after r f s').1 ≡ view s
    after-Frame f (returned a) s s' h k = k a s' ∙ h
    after-Frame f (threw e) s s' h k = h

    pub bind-Frame :
        (m : Exec S A) (f : A → Exec S B) → Frame m → ((a : A) → Frame (f a)) → Frame (m >>= f)
    bind-Frame m f h k s = after-Frame f (m s).0 s (m s).1 (h s) k

  module _ {A : Type 0} where
    pub lift-Frame : (r : Result A) → Frame (lift r)
    lift-Frame r s = refl

    pub or_throw-Frame : (o : Option A) (e : Error) → Frame (or_throw o e)
    or_throw-Frame none e s = refl
    or_throw-Frame (some a) e s = refl

    pub if-Frame : (b : Bool) (m n : Exec S A) → Frame m → Frame n → Frame (if b then m else n)
    if-Frame true m n h k = h
    if-Frame false m n h k = k

    handled-Frame :
        (h : Error → Exec S A) (r : Result A) (s s' : S)
        → view s' ≡ view s
        → ((e : Error) → Frame (h e))
        → view (handled h (r, s')).1 ≡ view s
    handled-Frame h (returned a) s s' v k = v
    handled-Frame h (threw e) s s' v k = k e s' ∙ v

    pub catch-Frame :
        (m : Exec S A) (h : Error → Exec S A)
        → Frame m
        → ((e : Error) → Frame (h e))
        → Frame (catch m h)
    catch-Frame m h v k s = handled-Frame h (m s).0 s (m s).1 (v s) k

    pub Frame-Post :
        (m : Exec S A) (s : S)
        → Frame m
        → Post (λ _ s'. view s' ≡ view s) (λ _ s'. view s' ≡ view s) (m s)
    Frame-Post m s h = Post-of_parts (m s) (λ _ _. h s) (λ _ _. h s)

  pub throw_if-Frame : (b : Bool) (e : Error) → Frame (throw_if b e)
  throw_if-Frame true e s = refl
  throw_if-Frame false e s = refl

  module _ {A P : Type 0} (part : S → P) (put : P → S → S)
      (back : (s s' : S) → view (put (part s) s') ≡ view s) where
    rolled-Frame :
        (r : Result A) (s s' : S)
        → view s' ≡ view s
        → view (roll_back put (part s) (r, s')).1 ≡ view s
    rolled-Frame (returned a) s s' h = h
    rolled-Frame (threw e) s s' h = back s s'

    pub transaction-Frame : (m : Exec S A) → Frame m → Frame (transaction part put m)
    transaction-Frame m h s = rolled-Frame (m s).0 s (m s).1 (h s)
