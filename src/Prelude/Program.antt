-- ===== src/Prelude/Program.antt =====
-- Code that changes a state and can fail: a function on the state, which comes back after an error
-- too, and how a property of the state passes through such code.
pub mod Ensures
use mathlib.Core.Path.{◌≡◌, refl}
use mathlib.Core.Bool.{Bool, true, false}

pub data Outcome {ℓ} (A : Type ℓ) : Type ℓ where
  ok : A → Outcome A
  err : Outcome A

-- the outcome of code that may fail, on a state of this type
abbrev pub Program : Type 0 → Type 0 → Type 0
Program S A = S → Outcome A × S

module _ {S : Type 0} where
  unfoldable pub pure : {A : Type 0} → A → Program S A
  pure a s = (ok a, s)

  unfoldable pub fail : {A : Type 0} → Program S A
  fail s = (err, s)

  unfoldable pub bind_outcome : {A B : Type 0} → Outcome A → S → (A → Program S B) → Outcome B × S
  bind_outcome (ok a) s f = f a s
  bind_outcome err s f = (err, s)

  infixl 5 ◌>>=◌ ◌>>◌
  unfoldable pub ◌>>=◌ : {A B : Type 0} → Program S A → (A → Program S B) → Program S B
  unfolding bind_outcome
  ◌>>=◌ m f s = bind_outcome (m s).0 (m s).1 f

  unfoldable pub ◌>>◌ : {A B : Type 0} → Program S A → Program S B → Program S B
  unfolding ◌>>=◌
  m >> k = m >>= λ _. k

  unfoldable pub done : Program S (Unit {0})
  done s = (ok tt, s)

  unfoldable pub get : Program S S
  get s = (ok s, s)

  unfoldable pub modify : (S → S) → Program S (Unit {0})
  modify f s = (ok tt, f s)

  unfoldable pub require : Bool → Program S (Unit {0})
  require true s = (ok tt, s)
  require false s = (err, s)

  unfoldable pub when : Bool → Program S (Unit {0}) → Program S (Unit {0})
  when true m s = m s
  when false m s = (ok tt, s)

  unfoldable pub recover_outcome :
      Outcome (Unit {0}) → S → Program S (Unit {0}) → Outcome (Unit {0}) × S
  recover_outcome (ok _) s f = (ok tt, s)
  recover_outcome err s f = (err, (f s).1)

  infixl 4 ◌or◌
  -- `m`, and after an error of it `f`, whose own error adds nothing: the error stands
  unfoldable pub ◌or◌ : Program S (Unit {0}) → Program S (Unit {0}) → Program S (Unit {0})
  unfolding recover_outcome
  ◌or◌ m f s = recover_outcome (m s).0 (m s).1 f

-- A proof that names this on its `unfolding` line computes with all of the above.
unfoldable pub program_run : Unit {0}
unfolding pure fail ◌>>=◌ ◌>>◌ done get modify require when ◌or◌
program_run = tt
