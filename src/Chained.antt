-- ===== src/Chained.antt =====
-- `do` blocks of calls that may throw and keep no state.
use selfmade_mpc_wallet.Prelude.{Bool, true, false}
use selfmade_mpc_wallet.Errors.{Error, Result, returned, threw}

infixl 5 ◌>>=◌ ◌>>◌
abbrev pub ◌>>=◌ : {A B : Type 0} → Result A → (A → Result B) → Result B
returned a >>= f = f a
threw e >>= f = threw e

abbrev pub ◌>>◌ : {B : Type 0} → Result (Unit {0}) → Result B → Result B
m >> k = m >>= λ _. k

-- `if (bad) throw e;`
abbrev pub refuse_if : Bool → Error → Result (Unit {0})
refuse_if true e = threw e
refuse_if false e = returned tt
