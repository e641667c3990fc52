-- ===== src/Prelude/Program/Ensures.antt =====
-- What holds after a program: `P` in any case, and `Q` of the result where there is no error.
use mathlib.Core.Path.{◌≡◌, refl, subst}
use mathlib.Core.Bool.{Bool, true, false}
use wireguard_mesh.Prelude.Program.{
  Outcome, ok, err, Program, bind_outcome, recover_outcome, pure, fail, ◌>>=◌, ◌>>◌, done, get,
  modify, require, when, ◌or◌, program_run,
}

module _ {S : Type 0} where
  abbrev pub Post : {A : Type 0} → (S → Type 0) → (A → S → Type 0) → Outcome A → S → Type 0
  Post P Q (ok a) t = P t × Q a t
  Post P Q err t = P t

  pub record Ensures {A : Type 0} (P : S → Type 0) (Q : A → S → Type 0) (m : Program S A) (s : S)
      : Type 0 where
    pub post : Post P Q (m s).0 (m s).1

  Post-state :
      {A : Type 0} (P : S → Type 0) (Q : A → S → Type 0) (o : Outcome A) (t : S)
      → Post P Q o t
      → P t
  Post-state P Q (ok a) t h = h.0
  Post-state P Q err t h = h

  module _ {A : Type 0} where
    -- two properties of the result
    both :
        (P : S → Type 0) (Q R : A → S → Type 0) (o : Outcome A) (t : S)
        → Post P Q o t
        → Post (λ _. Unit {0}) R o t
        → Post P (λ a t. Q a t × R a t) o t
    both P Q R (ok a) t h k = (h.0, (h.1, k.1))
    both P Q R err t h k = h

    on_success :
        (P : S → Type 0) (Q : A → S → Type 0) (o : Outcome A) (t : S)
        → Post P Q o t
        → Post (λ _. Unit {0}) (λ a t. P t × Q a t) o t
    on_success P Q (ok a) t h = (tt, h)
    on_success P Q err t h = tt

  module _ {P : S → Type 0} where
    -- the state after the program
    pub ensured :
        {A : Type 0} {Q : A → S → Type 0} {m : Program S A} {s : S} → Ensures P Q m s → P (m s).1
    ensured {Q} {m} {s} h = Post-state P Q (m s).0 (m s).1 h.post

    -- ... and its result
    pub ensured_ok :
        {A : Type 0} {Q : A → S → Type 0} {m : Program S A} {s : S} (a : A)
        → Ensures P Q m s
        → (m s).0 ≡ ok a
        → Q a (m s).1
    ensured_ok {Q} {m} {s} a h e = (subst (λ o. Post P Q o (m s).1) e h.post).1

    module _ {A : Type 0} {Q : A → S → Type 0} where
      -- no more than what holds of the result
      pub ensure_on_success :
          {m : Program S A} {s : S}
          → Ensures P Q m s
          → Ensures (λ _. Unit {0}) (λ a t. P t × Q a t) m s
      ensure_on_success {m} {s} h = record { post = on_success P Q (m s).0 (m s).1 h.post }

    module _ {A : Type 0} {Q R : A → S → Type 0} where
      pub ensure_both :
          {m : Program S A} {s : S}
          → Ensures P Q m s
          → Ensures (λ _. Unit {0}) R m s
          → Ensures P (λ a t. Q a t × R a t) m s
      ensure_both {m} {s} h k = record { post = both P Q R (m s).0 (m s).1 h.post k.post }

      weaker :
          (o : Outcome A) (t : S)
          → Post P Q o t
          → ((a : A) (t : S) → P t → Q a t → R a t)
          → Post P R o t
      weaker (ok a) t h k = (h.0, k a t h.0 h.1)
      weaker err t h k = h

      pub ensure_weaker :
          {m : Program S A} {s : S}
          → Ensures P Q m s
          → ((a : A) (t : S) → P t → Q a t → R a t)
          → Ensures P R m s
      ensure_weaker {m} {s} h k = record { post = weaker (m s).0 (m s).1 h.post k }

    module _ {A B : Type 0} {Q : A → S → Type 0} {R : B → S → Type 0} where
      bound :
          (o : Outcome A) (t : S) (f : A → Program S B)
          → Post P Q o t
          → ((a : A) (t : S) → P t → Q a t → Ensures P R (f a) t)
          → Post P R (bind_outcome o t f).0 (bind_outcome o t f).1
      unfolding bind_outcome
      bound (ok a) t f h k = (k a t h.0 h.1).post
      bound err t f h k = h

      pub ensure_bind :
          {m : Program S A} {f : A → Program S B} {s : S}
          → Ensures P Q m s
          → ((a : A) (t : S) → P t → Q a t → Ensures P R (f a) t)
          → Ensures P R (m >>= f) s
      unfolding program_run
      ensure_bind {m} {f} {s} h k = record { post = bound (m s).0 (m s).1 f h.post k }

      pub ensure_then :
          {m : Program S A} {k : Program S B} {s : S}
          → Ensures P Q m s
          → ((a : A) (t : S) → P t → Q a t → Ensures P R k t)
          → Ensures P R (m >> k) s
      unfolding program_run
      ensure_then {m} {k} {s} h g = record { post = bound (m s).0 (m s).1 (λ _. k) h.post g }

    module _ {A : Type 0} {Q : A → S → Type 0} where
      pub ensure_pure : (a : A) {s : S} → P s → Q a s → Ensures P Q (pure a) s
      unfolding program_run
      ensure_pure a h q = record { post = (h, q) }

      pub ensure_fail : {s : S} → P s → Ensures P Q fail s
      unfolding program_run
      ensure_fail h = record { post = h }

      pub ensure_get :
          (f : S → Program S A) {s : S} → Ensures P Q (f s) s → Ensures P Q (get >>= f) s
      unfolding program_run
      ensure_get f h = record { post = h.post }

      pub ensure_modify :
          (g : S → S) {k : Program S A} {s : S}
          → Ensures P Q k (g s)
          → Ensures P Q (modify g >> k) s
      unfolding program_run
      ensure_modify g h = record { post = h.post }

      pub ensure_require :
          (b : Bool) {k : Program S A} {s : S}
          → P s
          → (b ≡ true → Ensures P Q k s)
          → Ensures P Q (require b >> k) s
      unfolding program_run
      ensure_require true p h = record { post = (h refl).post }
      ensure_require false p h = record { post = p }

    recovered :
        (Q Q' : Unit {0} → S → Type 0) (T : S → Type 0) (o : Outcome (Unit {0})) (t : S)
        (f : Program S (Unit {0}))
        → Post T Q' o t
        → ((t : S) → T t → Q' tt t → P t × Q tt t)
        → ((t : S) → T t → P (f t).1)
        → Post P Q (recover_outcome o t f).0 (recover_outcome o t f).1
    unfolding recover_outcome
    recovered Q Q' T (ok tt) t f h k g = k t h.0 h.1
    recovered Q Q' T err t f h k g = g t h

    module _ {Q : Unit {0} → S → Type 0} where
      pub ensure_done : {s : S} → P s → Q tt s → Ensures P Q done s
      unfolding program_run
      ensure_done h q = record { post = (h, q) }

      pub ensure_last : (g : S → S) {s : S} → P (g s) → Q tt (g s) → Ensures P Q (modify g) s
      unfolding program_run
      ensure_last g h q = record { post = (h, q) }

      -- a last test
      pub ensure_check : (b : Bool) {s : S} → P s → (b ≡ true → Q tt s) → Ensures P Q (require b) s
      unfolding program_run
      ensure_check true p h = record { post = (p, h refl) }
      ensure_check false p h = record { post = p }

      pub ensure_when :
          (b : Bool) {m : Program S (Unit {0})} {s : S}
          → (b ≡ true → Ensures P Q m s)
          → (b ≡ false → P s × Q tt s)
          → Ensures P Q (when b m) s
      unfolding program_run
      ensure_when true h k = record { post = (h refl).post }
      ensure_when false h k = record { post = k refl }

      -- `T` is what holds when the first part fails
      pub ensure_or :
          {Q' : Unit {0} → S → Type 0} {T : S → Type 0} {m : Program S (Unit {0})}
          (f : Program S (Unit {0})) {s : S}
          → Ensures T Q' m s
          → ((t : S) → T t → Q' tt t → P t × Q tt t)
          → ((t : S) → T t → P (f t).1)
          → Ensures P Q (m or f) s
      unfolding program_run
      ensure_or {Q'} {T} {m} f {s} h k g = record {
        post = recovered _ Q' T (m s).0 (m s).1 f h.post k g;
      }
